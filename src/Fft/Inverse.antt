-- ===== src/Fft/Inverse.antt =====
-- ifft computes the coefficients of the polynomial that has the given values.
use native.Mathlib.Nat.{mul_comm, mul-add, add-mul}
use keyless_zk_proofs.Common.{
  ℕ, zero, suc, ◌+◌, ◌-◌, ◌*◌, ◌/◌, ◌≤◌, ◌<◌, ◌≡◌, refl, sym, ◌∙◌, ap, ap₂, arith, false, ◌==◌,
  ==_iff, Bool-cases, inl, inr, ltb, if◌then◌else◌,
}
use keyless_zk_proofs.Outcome.{ok}
use keyless_zk_proofs.Multiexp.{pow2}
use keyless_zk_proofs.Multiexp.Powers.{pow2-pos, pow2_mono}
use keyless_zk_proofs.Field.{CommutativeRing, BaseField}
use keyless_zk_proofs.Field.Laws.{mult-none, mult_swap}
use keyless_zk_proofs.Group.Times.{times}
use keyless_zk_proofs.Multiexp.Sums.{sum, sum_congr}
use keyless_zk_proofs.Multiexp.Digits.{sum-sum}
use keyless_zk_proofs.Fft.{Fft, Orders, swap_scaled, ifft}
use keyless_zk_proofs.Fft.Rounds.{int_rounds_lem}
use keyless_zk_proofs.Fft.Length.{log2-pow2}
use keyless_zk_proofs.Fft.Powers.{power, power-add, mult-sum, minus_square}
use keyless_zk_proofs.Fft.Transform.{transform, transform_period}
use keyless_zk_proofs.Fft.Orthogonal.{
  geometric, geometric_none, geometric_whole, power_same, sum_one,
}
use keyless_zk_proofs.Fft.Roots.{IsRootTable, IsOrders, gen, gen-suc, gen_minus}
use keyless_zk_proofs.Fft.Stages.{fft_lem}
use keyless_zk_proofs.Fft.Swaps.{scaled, scaled_lem}

module _ {ℓ} {V : Type ℓ} (v : CommutativeRing V) where
  mult-times : (n : ℕ) (c : V) → v.mult c (times v.sums n v.unit) ≡ times v.sums n c
  unfolding times
  mult-times zero c = mult-none v c
  mult-times (suc n) c =
      v.mult-plus c v.unit _
      ∙ ap₂ v.sums.plus (v.mult_comm c v.unit ∙ v.unit-mult c) (mult-times n c)

  -- A root `g` of order `n` whose other powers sum to none.
  module _ (g : V) (n : ℕ) (one : power v g n ≡ v.unit)
      (none : (d : ℕ) → 0 < d → d < n → geometric v g n d ≡ v.sums.none) where
    exponents :
        (i l j : ℕ) → i < n → l < n → power v g (l * (n - i) + i * j) ≡ power v g (i * (n - l + j))
    exponents i l j li ll = power_same v g n _ _ i l one (
        omega (
          arith,
          ap (λ (t : ℕ). t * i) (whole i li) ∙ add-mul (n - i) i i,
          mul-add i (n - l) j,
          mul_comm n i,
          mul_comm n l,
          ap (λ (t : ℕ). i * t) (whole l ll) ∙ mul-add i (n - l) l,
          ap (λ (t : ℕ). l * t) (whole i li) ∙ mul-add l (n - i) i,
          mul_comm i l,
        ))
      where
        whole : (i : ℕ) → i < n → n ≡ n - i + i
        whole i li = omega (arith, li)

    geometric_apart :
        (l j : ℕ) → l < n → j < n → (l == j) ≡ false → geometric v g n (n - l + j) ≡ v.sums.none
    geometric_apart l j ll lj apart = elim (Bool-cases (ltb j l)) [
      | inl below ↦ none (n - l + j) (omega (arith, ll)) (ground arith)
      | inr above ↦
          let e = j - l in
          let at : n - l + j ≡ n + e = ground arith in
          sum_congr v.sums n _ _ (λ i p.
            power_same v g n _ _ 0 i one
              (omega (arith, ap (λ (t : ℕ). i * t) at, mul-add i n e, mul_comm i n)))
          ∙ none e (ground arith) (omega (arith, lj, at))
    ]

    -- The transform is undone by that with the negated indices, scaled.
    pub inversion :
        (a b : ℕ → V) (c : V) (j : ℕ)
        → times v.sums n c ≡ v.unit
        → ((i : ℕ) → i < n → b i ≡ v.mult (transform v g n a (n - i)) c)
        → j < n
        → transform v g n b j ≡ a j
    unfolding transform
    inversion a b c j scale at lj =
        sum_congr v.sums n _ _ (λ i p. ap (λ t. v.mult t (power v g (i * j))) (at i p) ∙ term i p)
        ∙ sum-sum v.sums n n _
        ∙ sum_congr v.sums n _ _ (λ l p. sym (mult-sum v (v.mult (a l) c) n _))
        ∙ sum_one v n j _ lj
            (λ l p apart. ap (v.mult _) (geometric_apart l j p lj apart) ∙ mult-none v _)
        ∙ ap (v.mult _) (
            (let e : n - j + j ≡ n = omega (arith, lj) in ap (geometric v g n) e)
            ∙ geometric_whole v g n n one)
        ∙ v.mult_assoc (a j) c _
        ∙ ap (v.mult (a j)) (mult-times n c ∙ scale)
        ∙ v.mult_comm _ v.unit
        ∙ v.unit-mult _
      where
        term :
            (i : ℕ)
            → i < n
            → v.mult
                (v.mult (sum v.sums n (λ l. v.mult (a l) (power v g (l * (n - i))))) c)
                (power v g (i * j))
              ≡ sum v.sums n (λ l. v.mult (v.mult (a l) c) (power v g (i * (n - l + j))))
        term i p =
            v.mult_assoc _ c _
            ∙ v.mult_comm _ _
            ∙ mult-sum v _ n _
            ∙ sum_congr v.sums n _ _ (λ l q.
              v.mult_assoc c _ _
              ∙ ap (v.mult c) (
                  mult_swap v _ _ _
                  ∙ ap (v.mult (a l)) (
                      v.mult_comm _ _
                      ∙ sym (power-add v g (l * (n - i)) (i * j))
                      ∙ exponents i l j p q))
              ∙ sym (v.mult_assoc c _ _)
              ∙ ap (λ t. v.mult t (power v g (i * (n - l + j)))) (v.mult_comm c (a l)))

module _ {ℓ κ} {V : Type ℓ} {v : CommutativeRing V} {El : Type κ} (f : BaseField v El)
    (fft_ : Fft El) (w : V) (table : IsRootTable f fft_ w) where
  gen_order : (k : ℕ) → k ≤ fft_.s → 0 < k → power v (gen f fft_ w table k) (pow2 k) ≡ v.unit
  gen_order zero h pos = absurd (omega (arith, pos))
  gen_order (suc k) h pos =
      let u = power v (gen f fft_ w table (suc k)) (pow2 k) in
      ap (power v (gen f fft_ w table (suc k))) (two (pow2 k))
      ∙ power-add v _ (pow2 k) (pow2 k)
      ∙ minus_square v u (gen_minus f fft_ w table k h)
    where
      two : (p : ℕ) → 2 * p ≡ p + p
      two p = omega arith

  -- Where the table holds the powers of a root w of order 2 ^ s and the inverses of the powers of
  -- two, and the loops run each of their rounds once, in any order: for n = 2 ^ k with k positive
  -- and at most s and 30, ifft comes to an end without a failed assertion, and it leaves the
  -- coefficients of the polynomial whose value at the power j of the root of order n is that of
  -- the array's element j.
  pub ifft_lem :
      (k : ℕ) (orders : Orders) (a : ℕ → El)
      → 0 < k
      → k ≤ fft_.s
      → k ≤ 30
      → IsOrders k orders
      → (b : ℕ → El) × (ifft f fft_ orders (pow2 k) a ≡ ok b)
        × ((j : ℕ)
            → j < pow2 k
            → transform v (gen f fft_ w table k) (pow2 k) (λ i. f.val (b i)) j ≡ f.val (a j))
  unfolding ifft
  ifft_lem k orders a pos h few range =
      let (a1, run, at) = fft_lem f fft_ w table k orders a h few range in
      let inv = fft_.pow_two_inv k in
      let n = pow2 k in
      let even : n / 2 * 2 ≡ n = halves k pos in
      let counted =
        int_rounds_lem (swap_scaled f fft_ n inv) (n / 2)
          (omega (arith, pow2_mono k 31 (omega (arith, few)))) 1 orders.swaps a1
          range.swaps_range in
      (
        scaled f n inv fft_ orders.swaps a1,
        rw (run, log2-pow2 k (omega (arith, few)), counted) refl,
        λ j lt.
            inversion v (g k) n (gen_order k h pos)
              (λ d p q.
                geometric_none v g fft_.s (gen-suc f fft_ w table) (gen_minus f fft_ w table) k d h
                  p q)
              (λ l. f.val (a l)) _ (f.val inv) j (table.inverse_val k h)
              (λ i p.
                ap f.val
                  (scaled_lem f n inv fft_ orders.swaps a1 i range.swaps_range (pow2-pos k) even p)
                ∙ f.mul_val _ inv
                ∙ ap (λ t. v.mult t (f.val inv)) (negated k h pos a a1 at i p))
              lt,
      )
    where
      g : ℕ → V
      g = gen f fft_ w table

      halves : (k : ℕ) → 0 < k → pow2 k / 2 * 2 ≡ pow2 k
      halves zero pos = absurd (omega (arith, pos))
      halves (suc k) pos = omega arith

      negated :
          (k : ℕ)
          → k ≤ fft_.s
          → 0 < k
          → (a a1 : ℕ → El)
          → ((j : ℕ) → j < pow2 k → f.val (a1 j) ≡ transform v (g k) (pow2 k) (λ l. f.val (a l)) j)
          → (i : ℕ) → i < pow2 k
          → f.val (a1 (if i == 0 then 0 else pow2 k - i))
            ≡ transform v (g k) (pow2 k) (λ l. f.val (a l)) (pow2 k - i)
      negated k h pos a a1 at i p = elim (Bool-cases (i == 0)) [
        | inl first ↦
            let e : i ≡ 0 = (==_iff i 0).0 first in
            let all : pow2 k - i ≡ 0 + pow2 k = omega (arith, e) in
            rw (first, all)
              (at 0 (pow2-pos k)
                ∙ sym (transform_period v (g k) (pow2 k) (pow2 k) _ 0 (gen_order k h pos)))
        | inr later ↦
            let inside : pow2 k - i < pow2 k = ground arith in rw later (at (pow2 k - i) inside)
      ]

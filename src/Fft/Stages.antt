-- ===== src/Fft/Stages.antt =====
-- fft computes the Fourier transform: what the array holds after each stage.
use native.Mathlib.Nat.{mul_comm, mul_assoc, add-mul}
use keyless_zk_proofs.Common.{
  ℕ, zero, suc, ◌+◌, ◌-◌, ◌*◌, ◌/◌, ◌%◌, ◌^◌, ◌≤◌, ◌<◌, ◌≡◌, refl, sym, ◌∙◌, ap, ap₂, subst, arith,
  List, true, ◌==◌, Bool-cases, inl, inr, ltb, ltb→lt,
}
use keyless_zk_proofs.Outcome.{ok}
use keyless_zk_proofs.Multiexp.{pow2}
use keyless_zk_proofs.Multiexp.Powers.{pow2-add, pow2_mono}
use keyless_zk_proofs.Field.{CommutativeRing, BaseField}
use keyless_zk_proofs.Group.Times.{plus_cancel, plus-none}
use keyless_zk_proofs.Multiexp.Sums.{sum}
use keyless_zk_proofs.Fft.{Fft, Orders, root, run_rounds, int_rounds, butterfly, run_stages, fft}
use keyless_zk_proofs.Fft.Length.{log2-pow2}
use keyless_zk_proofs.Fft.Rounds.{IsRange, int_rounds_lem}
use keyless_zk_proofs.Fft.Reverse.{rev}
use keyless_zk_proofs.Fft.Permute.{reverse_permutation_lem}
use keyless_zk_proofs.Fft.Powers.{power}
use keyless_zk_proofs.Fft.Transform.{transform, transform_congr, transform_parity, transform_upper}
use keyless_zk_proofs.Fft.Butterfly.{lower, upper, lower_place, upper_place, stage_lem}
use keyless_zk_proofs.Fft.Roots.{IsRootTable, IsOrders, gen, gen-suc, gen_minus, root_lem}

module _ {ℓ κ} {V : Type ℓ} {v : CommutativeRing V} {El : Type κ} (f : BaseField v El)
    (fft_ : Fft El) (w : V) (table : IsRootTable f fft_ w) where
  module _ (coefs : ℕ → V) where
    -- After stage `s` of `t + s`, block `b` holds the transform of every 2 ^ t-th coefficient,
    -- from that with the index of the block reversed.
    abbrev Holds : ℕ → ℕ → (ℕ → El) → Type ℓ
    Holds t s a =
        (b j : ℕ)
        → b < pow2 t
        → j < pow2 s
        → f.val (a (b * pow2 s + j))
          ≡ transform v (gen f fft_ w table s) (pow2 s) (λ l. coefs (rev t b + l * pow2 t)) j

    -- The two blocks that a stage puts together, as the even and the odd coefficients.
    module _ (t s : ℕ) (h : suc s ≤ fft_.s) (a : ℕ → El) (holds : Holds (suc t) s a) (b j : ℕ)
        (lb : b < pow2 t) (lt : j < pow2 s) where
      abbrev part : ℕ → V
      part e =
          transform v (v.mult (gen f fft_ w table (suc s)) (gen f fft_ w table (suc s))) (pow2 s)
            (λ l. coefs (rev t b + (2 * l + e) * pow2 t)) j

      stride : (e l : ℕ) → e * pow2 t + rev t b + l * (2 * pow2 t) ≡ rev t b + (2 * l + e) * pow2 t
      stride e l = omega (
        arith,
        add-mul (2 * l) e (pow2 t),
        sym (mul_assoc l 2 (pow2 t)) ∙ ap (λ (t' : ℕ). t' * pow2 t) (mul_comm l 2),
      )

      block : (e : ℕ) → e < 2 → f.val (a ((2 * b + e) * pow2 s + j)) ≡ part e
      unfolding rev
      block e le =
          let bit : (2 * b + e) % 2 ≡ e = omega (arith, le) in
          let rest : (2 * b + e) / 2 ≡ b = omega (arith, le) in
          holds (2 * b + e) j (omega (arith, lb, le)) lt
          ∙ rw (bit, rest, gen-suc f fft_ w table s h)
              (transform_congr v (gen f fft_ w table s) (pow2 s) _ _ j
                (λ l p. ap coefs (stride e l)))

      low_val : f.val (a (lower (pow2 s) b j)) ≡ part 0
      low_val =
          let e : 2 * b ≡ 2 * b + 0 = omega arith in
          ap (λ x. f.val (a x)) (lower_place (pow2 s) b j ∙ ap (λ (q : ℕ). q * pow2 s + j) e)
          ∙ block 0 (omega arith)

      high_val : f.val (a (upper (pow2 s) b j)) ≡ part 1
      high_val = ap (λ x. f.val (a x)) (upper_place (pow2 s) b j) ∙ block 1 (omega arith)

      even_part :
          transform v
            (v.mult (gen f fft_ w table (suc s)) (gen f fft_ w table (suc s)))
            (pow2 s)
            (λ l. coefs (rev t b + 2 * l * pow2 t))
            j
          ≡ part 0
      even_part =
          transform_congr v _ (pow2 s) _ _ j
            (λ l p. ap coefs (ap (λ (q : ℕ). rev t b + q * pow2 t) (plus_zero (2 * l))))
        where
          plus_zero : (n : ℕ) → n ≡ n + 0
          plus_zero n = omega arith

      product_val :
          f.val (f.mul_el (root fft_ (suc s) j) (a (upper (pow2 s) b j)))
          ≡ v.mult (power v (gen f fft_ w table (suc s)) j) (part 1)
      product_val =
          f.mul_val _ _
          ∙ ap₂ v.mult (root_lem f fft_ w table (suc s) j h (omega (arith, lt))) high_val

      abbrev whole : ℕ → V
      whole =
          transform v (gen f fft_ w table (suc s)) (2 * pow2 s) (λ l. coefs (rev t b + l * pow2 t))

      sum_val :
          f.val (
            f.add_el
              (f.mul_el (root fft_ (suc s) j) (a (upper (pow2 s) b j)))
              (a (lower (pow2 s) b j)))
          ≡ whole j
      sum_val =
          f.add_val _ _
          ∙ ap₂ v.sums.plus product_val (low_val ∙ sym even_part)
          ∙ v.sums.plus_comm _ _
          ∙ sym (transform_parity v (gen f fft_ w table (suc s)) (pow2 s) _ j)

      difference_val :
          f.val (
            f.sub_el
              (a (lower (pow2 s) b j))
              (f.mul_el (root fft_ (suc s) j) (a (upper (pow2 s) b j))))
          ≡ whole (j + pow2 s)
      difference_val =
          plus_cancel v.sums _ _ (v.mult (power v (gen f fft_ w table (suc s)) j) (part 1)) (
            ap (v.sums.plus _) (sym product_val)
            ∙ f.sub_val _ _
            ∙ low_val
            ∙ sym even_part
            ∙ sym (
                transform_upper v (gen f fft_ w table (suc s)) (pow2 s) (pow2 s) _ j
                  (gen_minus f fft_ w table s h)))

    -- One stage.
    stage-Holds :
        (t s : ℕ) (rounds : List ℕ) (a : ℕ → El)
        → suc s ≤ fft_.s
        → IsRange 0 (pow2 t * pow2 s) rounds
        → Holds (suc t) s a
        → Holds t (suc s) (run_rounds (butterfly f fft_ (suc s)) rounds a)
    stage-Holds t s rounds a h range holds b j lb lt = elim (Bool-cases (ltb j (pow2 s))) [
      | inl first ↦
          let below : j < pow2 s = ltb→lt j (pow2 s) first in
          ap f.val ((stage_lem f fft_ s t rounds a b j range lb below).0)
          ∙ sum_val t s h a holds b j lb below
      | inr second ↦
          let j' = j - pow2 s in
          let below : j' < pow2 s = ground arith in
          let at : j' + pow2 s ≡ j = ground arith in
          let place : upper (pow2 s) b j' ≡ b * (2 * pow2 s) + j = ground arith in
          ap (λ x. f.val (run_rounds (butterfly f fft_ (suc s)) rounds a x)) (sym place)
          ∙ ap f.val ((stage_lem f fft_ s t rounds a b j' range lb below).1)
          ∙ difference_val t s h a holds b j' lb below
          ∙ ap (whole t s h a holds b j' lb below) at
    ]

    stages-Holds :
        (t s : ℕ) (orders : ℕ → List ℕ) (a : ℕ → El)
        → t + s ≤ fft_.s
        → t + s ≤ 30
        → ((i : ℕ) → 0 < i → i ≤ t + s → IsRange 0 (pow2 (t + s) / 2) (orders i))
        → Holds t s a
        → Holds 0 (t + s) (run_stages f fft_ orders t (suc s) a)
    unfolding run_stages
    stages-Holds zero s orders a h few ranges holds =
        let e : s ≡ 0 + s = omega arith in subst (λ n. Holds 0 n a) e holds
    stages-Holds (suc t) s orders a h few ranges holds =
        let e : t + suc s ≡ suc t + s = omega arith in
        let half : pow2 (suc t + s) / 2 ≡ pow2 t * pow2 s =
          ap (λ (n : ℕ). pow2 n / 2) (sym e ∙ (let o : t + suc s ≡ suc (t + s) = omega arith in o))
          ∙ halve (pow2 (t + s))
          ∙ pow2-add t s in
        let here : IsRange 0 (pow2 t * pow2 s) (orders (suc s)) =
          subst (λ n. IsRange 0 n (orders (suc s))) half
            (ranges (suc s) (omega arith) (omega arith)) in
        let small : pow2 t * pow2 s ≤ 2 ^ 31 =
          subst (λ n. n ≤ 2 ^ 31) (pow2-add t s) (pow2_mono (t + s) 31 (omega (arith, few))) in
        let counted =
          int_rounds_lem (butterfly f fft_ (suc s)) (pow2 t * pow2 s) small 0 (orders (suc s)) a
            here in
        subst
          (λ n. Holds 0 n (
            run_stages f fft_ orders t (suc (suc s))
              (run_rounds (int_rounds (butterfly f fft_ (suc s))) (orders (suc s)) a)))
          e
          (stages-Holds t (suc s) orders _ (omega (arith, h)) (omega (arith, few))
            (subst (λ n. (i : ℕ) → 0 < i → i ≤ n → IsRange 0 (pow2 n / 2) (orders i)) (sym e)
              ranges)
            (subst (Holds t (suc s)) (sym counted)
              (stage-Holds t s (orders (suc s)) a (omega (arith, h)) here holds)))
      where
        halve : (p : ℕ) → 2 * p / 2 ≡ p
        halve p = omega arith

  reversed-Holds :
      (k : ℕ) (a b : ℕ → El)
      → ((x : ℕ) → x < pow2 k → b x ≡ a (rev k x))
      → Holds (λ x. f.val (a x)) k 0 b
  unfolding transform sum power
  reversed-Holds k a b at x j lx lj =
      let zero_j : j ≡ 0 = omega (arith, lj) in
      let place : x * 1 + j ≡ x = omega (arith, zero_j) in
      let first : rev k x + 0 * pow2 k ≡ rev k x = omega arith in
      let none_l : 0 * j ≡ 0 = omega arith in
      rw (place, first, none_l)
        (ap f.val (at x lx) ∙ sym (plus-none v.sums _ ∙ v.mult_comm _ v.unit ∙ v.unit-mult _))

  -- Where the table holds the powers of a root w of order 2 ^ s, and the loops run each of their
  -- rounds once, in any order: for n = 2 ^ k with k at most s and 30, fft comes to an end without
  -- a failed assertion, and the value that it leaves at j is the polynomial with the array's
  -- values as coefficients, at the power j of the table's root of order n.
  pub fft_lem :
      (k : ℕ) (orders : Orders) (a : ℕ → El)
      → k ≤ fft_.s
      → k ≤ 30
      → IsOrders k orders
      → (b : ℕ → El) × (fft f fft_ orders (pow2 k) a ≡ ok b)
        × ((j : ℕ)
            → j < pow2 k
            → f.val (b j) ≡ transform v (gen f fft_ w table k) (pow2 k) (λ l. f.val (a l)) j)
  unfolding fft rev
  fft_lem k orders a h few range =
      let (a1, run, at) =
        reverse_permutation_lem k (omega (arith, few)) orders.reversal a range.reversal_range in
      let e : k + 0 ≡ k = omega arith in
      let same : (pow2 k == pow2 k) ≡ true = ground arith in
      let holds =
        stages-Holds (λ x. f.val (a x)) k 0 orders.stages a1 (omega (arith, h)) (omega (arith, few))
          (subst (λ n. (i : ℕ) → 0 < i → i ≤ n → IsRange 0 (pow2 n / 2) (orders.stages i)) (sym e)
            range.stages_range)
          (reversed-Holds k a a1 at) in
      (
        run_stages f fft_ orders.stages k 1 a1,
        rw (run, log2-pow2 k (omega (arith, few)), same) refl,
        λ j lt. final k a1 (run_stages f fft_ orders.stages k 1 a1) a j lt (
            subst (λ n. Holds (λ x. f.val (a x)) 0 n (run_stages f fft_ orders.stages k 1 a1)) e
              holds),
      )
    where
      final :
          (k : ℕ) (a1 b a : ℕ → El) (j : ℕ)
          → j < pow2 k
          → Holds (λ x. f.val (a x)) 0 k b
          → f.val (b j) ≡ transform v (gen f fft_ w table k) (pow2 k) (λ l. f.val (a l)) j
      final k a1 b a j lt holds =
          let place : 0 * pow2 k + j ≡ j = omega arith in
          ap (λ x. f.val (b x)) (sym place)
          ∙ holds 0 j (omega arith) lt
          ∙ transform_congr v (gen f fft_ w table k) (pow2 k) _ _ j
              (λ l p. ap (λ x. f.val (a x)) (times_one l))
        where
          times_one : (l : ℕ) → 0 + l * 1 ≡ l
          times_one l = omega arith

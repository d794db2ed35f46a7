-- ===== src/Fft/Orthogonal.antt =====
-- The sums of the powers of a root of unity, by which a transform is inverted.
use native.Mathlib.Nat.{mul_comm, mul_assoc, add-mul}
use keyless_zk_proofs.Common.{
  ℕ, zero, suc, ◌+◌, ◌*◌, ◌/◌, ◌%◌, ◌≤◌, ◌<◌, ◌≡◌, refl, sym, ◌∙◌, ap, ap₂, arith, false, ◌==◌,
  Bool-cases, inl, inr,
}
use keyless_zk_proofs.Multiexp.{pow2}
use keyless_zk_proofs.Field.{CommutativeRing}
use keyless_zk_proofs.Field.Laws.{plus-mult, none-mult, mult-none}
use keyless_zk_proofs.Group.Times.{times, plus-none}
use keyless_zk_proofs.Multiexp.Sums.{sum, sum_congr, sum-none, sum_exchange}
use keyless_zk_proofs.Fft.Powers.{
  power, power-add, power-unit, power-times, power-square, minus_square, mult-sum, sum-split,
}

module _ {ℓ} {V : Type ℓ} (v : CommutativeRing V) where
  -- The sum of the first `n` powers of g ^ d.
  abbrev pub geometric : V → ℕ → ℕ → V
  geometric g n d = sum v.sums n (λ i. power v g (i * d))

  -- Powers repeat after the order of the root.
  pub power_period :
      (g : V) (n a p : ℕ) → power v g n ≡ v.unit → power v g (a + n * p) ≡ power v g a
  power_period g n a p one =
      power-add v g a (n * p)
      ∙ ap (v.mult _) (power-times v g n p ∙ ap (λ t. power v t p) one ∙ power-unit v p)
      ∙ v.mult_comm _ v.unit
      ∙ v.unit-mult _

  pub power_same :
      (g : V) (n a b p q : ℕ)
      → power v g n ≡ v.unit
      → a + n * p ≡ b + n * q
      → power v g a ≡ power v g b
  power_same g n a b p q one e =
      sym (power_period g n a p one) ∙ ap (power v g) e ∙ power_period g n b q one

  pub sum-unit : (n : ℕ) → sum v.sums n (λ i. v.unit) ≡ times v.sums n v.unit
  unfolding sum times
  sum-unit zero = refl
  sum-unit (suc n) = ap (v.sums.plus v.unit) (sum-unit n)

  pub geometric_whole :
      (g : V) (n d : ℕ) → power v g d ≡ v.unit → geometric g n d ≡ times v.sums n v.unit
  geometric_whole g n d one =
      sum_congr v.sums n _ _ (λ i p.
        ap (power v g) (mul_comm i d)
        ∙ power-times v g d i
        ∙ ap (λ t. power v t i) one
        ∙ power-unit v i)
      ∙ sum-unit n

  -- The second half of the sum.
  geometric_halves :
      (g : V) (h d : ℕ)
      → geometric g (2 * h) d
        ≡ v.sums.plus (geometric g h d) (v.mult (power v (power v g h) d) (geometric g h d))
  geometric_halves g h d =
      (let e : 2 * h ≡ h + h = omega arith in rw e (sum-split v h h _))
      ∙ ap (v.sums.plus (geometric g h d)) (
          sum_congr v.sums h _ _ (λ i p.
            ap (power v g) (add-mul h i d)
            ∙ power-add v g (h * d) (i * d)
            ∙ ap (λ t. v.mult t (power v g (i * d))) (power-times v g h d))
          ∙ sym (mult-sum v _ h _))

  odd_power : (u : V) (e : ℕ) → v.sums.plus u v.unit ≡ v.sums.none → power v u (1 + 2 * e) ≡ u
  unfolding power
  odd_power u e minus =
      power-add v u 1 (2 * e)
      ∙ ap (v.mult _) (
          sym (power-square v u e)
          ∙ ap (λ t. power v t e) (minus_square v u minus)
          ∙ power-unit v e)
      ∙ v.mult_comm _ v.unit
      ∙ v.unit-mult _
      ∙ v.mult_comm u v.unit
      ∙ v.unit-mult u

  -- `gens` are roots of unity, each the square of the next, whose half power is -1.
  module _ (gens : ℕ → V) (top : ℕ)
      (gens_suc : (s : ℕ) → suc s ≤ top → v.mult (gens (suc s)) (gens (suc s)) ≡ gens s)
      (gens_minus : (s : ℕ)
        → suc s ≤ top
        → v.sums.plus (power v (gens (suc s)) (pow2 s)) v.unit ≡ v.sums.none) where
    pub geometric_none :
        (k d : ℕ) → k ≤ top → 0 < d → d < pow2 k → geometric (gens k) (pow2 k) d ≡ v.sums.none
    geometric_none zero d h pos lt = absurd (omega (arith, pos, lt))
    geometric_none (suc k) d h pos lt = elim (Bool-cases (d % 2 == 0)) [
      | inl even ↦
          let e = d / 2 in
          let at : d ≡ 2 * e = ground arith in
          let rest =
            sum_congr v.sums (pow2 k) _ _ (λ i p.
              ap (power v g) (ap (λ (t : ℕ). i * t) at ∙ swap i e)
              ∙ sym (power-square v g (i * e))
              ∙ ap (λ t. power v t (i * e)) (gens_suc k h))
            ∙ geometric_none k e (omega (arith, h)) (omega (arith, at, pos))
                (omega (arith, at, lt)) in
          geometric_halves g (pow2 k) d
          ∙ ap₂ v.sums.plus rest (ap (v.mult _) rest ∙ mult-none v _)
          ∙ v.sums.none-plus _
      | inr odd ↦
          let e = d / 2 in
          let at : d ≡ 1 + 2 * e = ground arith in
          geometric_halves g (pow2 k) d
          ∙ ap (v.sums.plus (geometric g (pow2 k) d)) (
              ap (λ t. v.mult t (geometric g (pow2 k) d))
                (ap (power v u) at ∙ odd_power u e (gens_minus k h)))
          ∙ v.sums.plus_comm _ _
          ∙ ap (v.sums.plus _) (sym (v.unit-mult _))
          ∙ sym (plus-mult v u v.unit (geometric g (pow2 k) d))
          ∙ ap (λ t. v.mult t (geometric g (pow2 k) d)) (gens_minus k h)
          ∙ none-mult v _
    ]
      where
        g : V
        g = gens (suc k)

        u : V
        u = power v g (pow2 k)

        swap : (i e : ℕ) → i * (2 * e) ≡ 2 * (i * e)
        swap i e = sym (mul_assoc i 2 e) ∙ ap (λ (t : ℕ). t * e) (mul_comm i 2) ∙ mul_assoc 2 i e

  -- A sum with one term.
  pub sum_one :
      (n k : ℕ) (f : ℕ → V)
      → k < n
      → ((i : ℕ) → i < n → (i == k) ≡ false → f i ≡ v.sums.none)
      → sum v.sums n f ≡ f k
  sum_one n k f lt others =
      sym (plus-none v.sums _)
      ∙ sum_exchange v.sums n k f (λ i. v.sums.none) lt others
      ∙ ap (λ t. v.sums.plus t (f k)) (sum-none v.sums n _ (λ i p. refl))
      ∙ v.sums.none-plus _

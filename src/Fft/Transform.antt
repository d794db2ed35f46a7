-- ===== src/Fft/Transform.antt =====
-- The Fourier transform as sums of powers, and how a transform of twice the length is put together
-- from two.
use native.Mathlib.Nat.{mul_comm, mul_assoc, mul-add}
use keyless_zk_proofs.Common.{ℕ, ◌+◌, ◌*◌, ◌<◌, ◌≡◌, sym, ◌∙◌, ap, ap₂, arith}
use keyless_zk_proofs.Field.{CommutativeRing}
use keyless_zk_proofs.Field.Laws.{plus-mult, mult_swap, none-mult, mult-none}
use keyless_zk_proofs.Multiexp.Sums.{sum, sum_congr}
use keyless_zk_proofs.Group.Times.{plus-none}
use keyless_zk_proofs.Fft.Powers.{
  power, power-add, power-unit, power-times, power-square, minus_square, mult-sum, sum-parity,
}

module _ {ℓ} {V : Type ℓ} (v : CommutativeRing V) where
  -- The polynomial with these `n` coefficients, at the power `j` of `g`.
  unfoldable pub transform : V → ℕ → (ℕ → V) → ℕ → V
  transform g n coefs j = sum v.sums n (λ l. v.mult (coefs l) (power v g (l * j)))

  pub transform_congr :
      (g : V) (n : ℕ) (a b : ℕ → V) (j : ℕ)
      → ((l : ℕ) → l < n → a l ≡ b l)
      → transform g n a j ≡ transform g n b j
  unfolding transform
  transform_congr g n a b j e =
      sum_congr v.sums n _ _ (λ l p. ap (λ t. v.mult t (power v g (l * j))) (e l p))

  pub transform_parity :
      (g : V) (m : ℕ) (a : ℕ → V) (j : ℕ)
      → transform g (2 * m) a j
        ≡ v.sums.plus
            (transform (v.mult g g) m (λ l. a (2 * l)) j)
            (v.mult (power v g j) (transform (v.mult g g) m (λ l. a (2 * l + 1)) j))
  unfolding transform
  transform_parity g m a j =
      sum-parity v m _
      ∙ ap₂ v.sums.plus
          (sum_congr v.sums m _ _ (λ l p.
            ap (v.mult (a (2 * l)))
              (ap (power v g) (mul_assoc 2 l j) ∙ sym (power-square v g (l * j)))))
          (sum_congr v.sums m _ _ (λ l p. odd_term l) ∙ sym (mult-sum v (power v g j) m _))
    where
      exponent : (l : ℕ) → (2 * l + 1) * j ≡ j + 2 * (l * j)
      exponent l =
          mul_comm (2 * l + 1) j
          ∙ mul-add j (2 * l) 1
          ∙ omega (arith, mul_comm j (2 * l), mul_assoc 2 l j)

      odd_term :
          (l : ℕ)
          → v.mult (a (2 * l + 1)) (power v g ((2 * l + 1) * j))
            ≡ v.mult (power v g j) (v.mult (a (2 * l + 1)) (power v (v.mult g g) (l * j)))
      odd_term l =
          ap (v.mult (a (2 * l + 1))) (
            ap (power v g) (exponent l)
            ∙ power-add v g j (2 * (l * j))
            ∙ ap (v.mult (power v g j)) (sym (power-square v g (l * j))))
          ∙ mult_swap v _ _ _

  -- The transform repeats after the order of the root.
  pub transform_period :
      (x : V) (m h : ℕ) (a : ℕ → V) (j : ℕ)
      → power v x h ≡ v.unit
      → transform x m a (j + h) ≡ transform x m a j
  unfolding transform
  transform_period x m h a j one = sum_congr v.sums m _ _ (λ l p. ap (v.mult (a l)) (
      ap (power v x) (mul-add l j h)
      ∙ power-add v x (l * j) (l * h)
      ∙ ap (v.mult _) (
          ap (power v x) (mul_comm l h)
          ∙ power-times v x h l
          ∙ ap (λ t. power v t l) one
          ∙ power-unit v l)
      ∙ v.mult_comm _ _
      ∙ v.unit-mult _))

  -- The root's power `h` is -1: the upper half of the transform is a difference.
  pub transform_upper :
      (g : V) (m h : ℕ) (a : ℕ → V) (j : ℕ)
      → v.sums.plus (power v g h) v.unit ≡ v.sums.none
      → v.sums.plus
          (transform g (2 * m) a (j + h))
          (v.mult (power v g j) (transform (v.mult g g) m (λ l. a (2 * l + 1)) j))
        ≡ transform (v.mult g g) m (λ l. a (2 * l)) j
  transform_upper g m h a j minus =
      let odd = transform (v.mult g g) m (λ l. a (2 * l + 1)) j in
      let whole : power v (v.mult g g) h ≡ v.unit =
        power-square v g h
        ∙ (let e : 2 * h ≡ h + h = omega arith in rw e (power-add v g h h))
        ∙ minus_square v (power v g h) minus in
      ap (λ t. v.sums.plus t (v.mult (power v g j) odd))
        (transform_parity g m a (j + h)
          ∙ ap₂ v.sums.plus (transform_period (v.mult g g) m h _ j whole)
              (ap₂ v.mult (power-add v g j h) (transform_period (v.mult g g) m h _ j whole)))
      ∙ v.sums.plus_assoc _ _ _
      ∙ ap (v.sums.plus _) (
          sym (plus-mult v _ _ odd)
          ∙ ap (λ t. v.mult t odd)
              (ap (v.sums.plus _) (sym (v.mult_comm _ v.unit ∙ v.unit-mult _))
                ∙ sym (v.mult-plus (power v g j) (power v g h) v.unit)
                ∙ ap (v.mult _) minus
                ∙ mult-none v _)
          ∙ none-mult v odd)
      ∙ plus-none v.sums _

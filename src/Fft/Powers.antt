-- ===== src/Fft/Powers.antt =====
-- Powers in a commutative ring, and sums of products.
use keyless_zk_proofs.Common.{ℕ, zero, suc, ◌+◌, ◌*◌, ◌≡◌, refl, sym, ◌∙◌, ap, ap₂, arith}
use keyless_zk_proofs.Field.{CommutativeRing}
use keyless_zk_proofs.Field.Laws.{mult-none}
use keyless_zk_proofs.Group.Times.{plus_cancel, plus_interchange, plus-none}
use keyless_zk_proofs.Multiexp.Sums.{sum}

module _ {ℓ} {V : Type ℓ} (v : CommutativeRing V) where
  unfoldable pub power : V → ℕ → V
  power x zero = v.unit
  power x (suc n) = v.mult x (power x n)

  pub power-add : (x : V) (m n : ℕ) → power x (m + n) ≡ v.mult (power x m) (power x n)
  unfolding power
  power-add x zero n = let e : 0 + n ≡ n = omega arith in rw e (sym (v.unit-mult _))
  power-add x (suc m) n =
      let e : suc m + n ≡ suc (m + n) = omega arith in
      rw e (ap (v.mult x) (power-add x m n) ∙ sym (v.mult_assoc _ _ _))

  pub power-unit : (n : ℕ) → power v.unit n ≡ v.unit
  unfolding power
  power-unit zero = refl
  power-unit (suc n) = v.unit-mult _ ∙ power-unit n

  pub power-times : (x : V) (m n : ℕ) → power x (m * n) ≡ power (power x m) n
  unfolding power
  power-times x m zero = let e : m * 0 ≡ 0 = omega arith in rw e refl
  power-times x m (suc n) =
      let e : m * suc n ≡ m + m * n = omega arith in
      rw e (power-add x m (m * n) ∙ ap (v.mult (power x m)) (power-times x m n))

  pub power-square : (x : V) (n : ℕ) → power (v.mult x x) n ≡ power x (2 * n)
  unfolding power
  power-square x n =
      ap (λ t. power t n) (ap (v.mult x) (sym (v.mult_comm x v.unit ∙ v.unit-mult x)))
      ∙ sym (power-times x 2 n)

  -- What is inverse to the unit is a root of it.
  pub minus_square : (u : V) → v.sums.plus u v.unit ≡ v.sums.none → v.mult u u ≡ v.unit
  minus_square u h = plus_cancel v.sums _ _ u (
      ap (v.sums.plus (v.mult u u)) (sym (v.mult_comm u v.unit ∙ v.unit-mult u))
      ∙ sym (v.mult-plus u u v.unit)
      ∙ ap (v.mult u) h
      ∙ mult-none v u
      ∙ sym (v.sums.plus_comm v.unit u ∙ h))

  pub mult-sum :
      (c : V) (n : ℕ) (f : ℕ → V) → v.mult c (sum v.sums n f) ≡ sum v.sums n (λ i. v.mult c (f i))
  unfolding sum
  mult-sum c zero f = mult-none v c
  mult-sum c (suc n) f = v.mult-plus c (f n) _ ∙ ap (v.sums.plus _) (mult-sum c n f)

  -- A sum by even and odd indices.
  pub sum-parity :
      (m : ℕ) (f : ℕ → V)
      → sum v.sums (2 * m) f
        ≡ v.sums.plus (sum v.sums m (λ l. f (2 * l))) (sum v.sums m (λ l. f (2 * l + 1)))
  unfolding sum
  sum-parity zero f = let e : 2 * 0 ≡ 0 = omega arith in rw e (sym (v.sums.none-plus _))
  sum-parity (suc m) f =
      let e : 2 * suc m ≡ suc (suc (2 * m)) = omega arith in
      let o : suc (2 * m) ≡ 2 * m + 1 = omega arith in
      rw e (
        sym (v.sums.plus_assoc _ _ _)
        ∙ ap₂ v.sums.plus (v.sums.plus_comm _ _ ∙ ap (v.sums.plus (f (2 * m))) (ap f o))
            (sum-parity m f)
        ∙ plus_interchange v.sums _ _ _ _)

  -- A sum by its first indices and the others.
  pub sum-split :
      (m n : ℕ) (f : ℕ → V)
      → sum v.sums (m + n) f ≡ v.sums.plus (sum v.sums m f) (sum v.sums n (λ i. f (m + i)))
  unfolding sum
  sum-split m zero f = let e : m + 0 ≡ m = omega arith in rw e (sym (plus-none v.sums _))
  sum-split m (suc n) f =
      let e : m + suc n ≡ suc (m + n) = omega arith in
      rw e (
        ap (v.sums.plus (f (m + n))) (sum-split m n f ∙ v.sums.plus_comm _ _)
        ∙ sym (v.sums.plus_assoc _ _ _)
        ∙ v.sums.plus_comm _ _)

-- ===== src/Fft/Roots.antt =====
-- The tables of an object of the class FFT, and the orders of its loops.
use native.Mathlib.Nat.{mul_comm}
use keyless_zk_proofs.Common.{
  ℕ, zero, suc, ◌+◌, ◌-◌, ◌*◌, ◌/◌, ◌≤◌, ◌<◌, ◌≡◌, sym, ◌∙◌, ap, subst, arith,
}
use keyless_zk_proofs.Multiexp.{pow2}
use keyless_zk_proofs.Multiexp.Powers.{pow2-pos, pow2-add}
use keyless_zk_proofs.Field.{CommutativeRing, BaseField}
use keyless_zk_proofs.Group.Times.{times}
use keyless_zk_proofs.Fft.{Fft, Orders, root}
use keyless_zk_proofs.Fft.Rounds.{IsRange}
use keyless_zk_proofs.Fft.Powers.{power, power-times}

-- What the constructor puts into the tables: `roots` holds the powers of `w`, whose power
-- 2 ^ (s - 1) is -1, and `pow_two_inv` the inverses of the powers of two.
pub record IsRootTable {ℓ κ} {V : Type ℓ} {v : CommutativeRing V} {El : Type κ} (f : BaseField v El)
    (fft_ : Fft El) (w : V) : Type ℓ where
  pub roots_val : (i : ℕ) → i < pow2 fft_.s → f.val (fft_.roots i) ≡ power v w i
  pub minus_one : v.sums.plus (power v w (pow2 (fft_.s - 1))) v.unit ≡ v.sums.none
  pub inverse_val :
      (i : ℕ) → i ≤ fft_.s → times v.sums (pow2 i) (f.val (fft_.pow_two_inv i)) ≡ v.unit

-- The loops of fft and ifft on 2 ^ k elements run each round once.
pub record IsOrders (k : ℕ) (orders : Orders) : Type 0 where
  pub reversal_range : IsRange 0 (pow2 k) orders.reversal
  pub stages_range : (s : ℕ) → 0 < s → s ≤ k → IsRange 0 (pow2 k / 2) (orders.stages s)
  pub swaps_range : IsRange 1 (pow2 k / 2) orders.swaps

module _ {ℓ κ} {V : Type ℓ} {v : CommutativeRing V} {El : Type κ} (f : BaseField v El)
    (fft_ : Fft El) (w : V) (table : IsRootTable f fft_ w) where
  -- The root of order 2 ^ s.
  abbrev pub gen : ℕ → V
  gen s = power v w (pow2 (fft_.s - s))

  pub gen-suc : (s : ℕ) → suc s ≤ fft_.s → v.mult (gen (suc s)) (gen (suc s)) ≡ gen s
  unfolding power
  gen-suc s h =
      let e : fft_.s - s ≡ suc (fft_.s - suc s) = omega (arith, h) in
      ap (v.mult (gen (suc s))) (sym (v.mult_comm _ v.unit ∙ v.unit-mult _))
      ∙ sym (power-times v w (pow2 (fft_.s - suc s)) 2)
      ∙ ap (power v w) (mul_comm _ 2 ∙ sym (ap pow2 e))

  pub gen_minus :
      (s : ℕ) → suc s ≤ fft_.s → v.sums.plus (power v (gen (suc s)) (pow2 s)) v.unit ≡ v.sums.none
  gen_minus s h =
      let e : fft_.s - 1 ≡ fft_.s - suc s + s = omega (arith, h) in
      ap (λ t. v.sums.plus t v.unit)
        (sym (power-times v w (pow2 (fft_.s - suc s)) (pow2 s))
          ∙ ap (power v w) (sym (ap pow2 e ∙ pow2-add (fft_.s - suc s) s)))
      ∙ table.minus_one

  pub root_lem : (s j : ℕ) → s ≤ fft_.s → j < pow2 s → f.val (root fft_ s j) ≡ power v (gen s) j
  unfolding root
  root_lem s j h lt =
      let step = pow2 (fft_.s - s) in
      let all : fft_.s ≡ s + (fft_.s - s) = omega (arith, h) in
      let size : pow2 fft_.s ≡ pow2 s * step = ap pow2 all ∙ pow2-add s (fft_.s - s) in
      let bound : j * step < pow2 fft_.s =
        subst (λ (n : ℕ). j * step < n) (sym size) (scaled j (pow2 s) step lt (pow2-pos _)) in
      table.roots_val (j * step) bound ∙ ap (power v w) (mul_comm j step) ∙ power-times v w step j
    where
      scaled : (j p c : ℕ) → j < p → 0 < c → j * c < p * c
      scaled j zero c lt pos = absurd (omega (arith, lt))
      scaled zero (suc p) c lt pos = omega (arith, pos)
      scaled (suc j) (suc p) c lt pos = omega (arith, scaled j p c (omega (arith, lt)) pos)

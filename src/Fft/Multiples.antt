-- ===== src/Fft/Multiples.antt =====
-- Multiples of the unit of a ring.
use native.Mathlib.Nat.{div-add-mod, mul_comm, pow-suc, pow-zero}
use keyless_zk_proofs.Common.{ℕ, zero, suc, ◌*◌, ◌/◌, ◌%◌, ◌^◌, ◌≡◌, sym, ◌∙◌, ap}
use keyless_zk_proofs.Multiexp.{pow2}
use keyless_zk_proofs.Field.{CommutativeRing}
use keyless_zk_proofs.Field.Laws.{plus-mult, none-mult}
use keyless_zk_proofs.Group.Times.{times, plus-none, times-add}
use keyless_zk_proofs.Multiexp.Sums.{times-times}
use keyless_zk_proofs.Fft.Powers.{power}

module _ {ℓ} {V : Type ℓ} (v : CommutativeRing V) where
  pub times-mult : (n : ℕ) (x y : V) → times v.sums n (v.mult x y) ≡ v.mult (times v.sums n x) y
  unfolding times
  times-mult zero x y = sym (none-mult v y)
  times-mult (suc n) x y = ap (v.sums.plus _) (times-mult n x y) ∙ sym (plus-mult v x _ y)

  abbrev pub number : ℕ → V
  number n = times v.sums n v.unit

  pub number-mult : (a b : ℕ) → number (a * b) ≡ v.mult (number a) (number b)
  number-mult a b =
      sym (times-times v.sums a b v.unit)
      ∙ ap (times v.sums a) (sym (v.unit-mult (number b)))
      ∙ times-mult a v.unit (number b)

  pub number-power : (a n : ℕ) → number (a ^ n) ≡ power v (number a) n
  unfolding power times
  number-power a zero = ap number (pow-zero a) ∙ plus-none v.sums v.unit
  number-power a (suc n) =
      ap number (pow-suc a n ∙ mul_comm (a ^ n) a)
      ∙ number-mult a (a ^ n)
      ∙ ap (v.mult (number a)) (number-power a n)

  pub number-mod : (q n : ℕ) → number q ≡ v.sums.none → number (n % q) ≡ number n
  number-mod q n h = sym (
      ap number (sym (div-add-mod n q))
      ∙ times-add v.sums (q * (n / q)) (n % q) v.unit
      ∙ ap (λ t. v.sums.plus t (number (n % q)))
          (number-mult q (n / q) ∙ ap (λ t. v.mult t (number (n / q))) h ∙ none-mult v _)
      ∙ v.sums.none-plus _)

  -- Multiples of a half of the unit's power.
  pub half-power :
      (h : V) (i : ℕ) → times v.sums 2 h ≡ v.unit → times v.sums (pow2 i) (power v h i) ≡ v.unit
  unfolding power times
  half-power h zero two = plus-none v.sums v.unit
  half-power h (suc i) two =
      ap (λ n. times v.sums n (v.mult h (power v h i))) (mul_comm 2 (pow2 i))
      ∙ sym (times-times v.sums (pow2 i) 2 _)
      ∙ ap (times v.sums (pow2 i))
          (times-mult 2 h (power v h i) ∙ ap (λ t. v.mult t (power v h i)) two ∙ v.unit-mult _)
      ∙ half-power h i two

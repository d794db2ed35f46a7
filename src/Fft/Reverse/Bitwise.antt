-- ===== src/Fft/Reverse/Bitwise.antt =====
-- The operators & and | on fields of bits, as BR uses them.
use Prim.Native.Nat.{digits, bitwise, bit_and, bit_or, bit_and-bitwise, bit_or-bitwise, min, max}
use native.Mathlib.Nat.{mul_assoc}
use keyless_zk_proofs.Common.{
  ℕ, zero, suc, ◌+◌, ◌*◌, ◌/◌, ◌%◌, ◌≤◌, ◌<◌, ◌≡◌, refl, sym, ◌∙◌, ap, arith,
}
use keyless_zk_proofs.Multiexp.{pow2}

-- The fuel of `digits` may be anything that is enough.
module _ (rest : ℕ → ℕ) (bit : ℕ → ℕ → ℕ) where
  digits_enough : (m n a b : ℕ) → a ≤ m → a ≤ n → digits rest bit m a b ≡ digits rest bit n a b
  digits_enough zero zero a b h k = refl
  digits_enough zero (suc n) zero b h k = refl
  digits_enough (suc m) zero zero b h k = refl
  digits_enough (suc m) (suc n) zero b h k = refl
  digits_enough zero n (suc a) b h k = absurd (omega (arith, h))
  digits_enough (suc m) zero (suc a) b h k = absurd (omega (arith, k))
  digits_enough (suc m) (suc n) (suc a) b h k =
      ap (λ (t : ℕ). t * 2 + bit (suc a % 2) (b % 2))
        (digits_enough m n (suc a / 2) (b / 2) (omega (arith, h)) (omega (arith, k)))

  bitwise_step :
      (a b : ℕ)
      → bitwise rest bit (suc a) b
        ≡ bitwise rest bit (suc a / 2) (b / 2) * 2 + bit (suc a % 2) (b % 2)
  bitwise_step a b =
      ap (λ (t : ℕ). t * 2 + bit (suc a % 2) (b % 2))
        (digits_enough a (suc a / 2) (suc a / 2) (b / 2) (omega arith) (omega arith))

pub bit_or_digit : (a b : ℕ) → bit_or a b ≡ bit_or (a / 2) (b / 2) * 2 + max (a % 2) (b % 2)
bit_or_digit zero b = simp bit_or-bitwise (omega arith)
bit_or_digit (suc a) b = simp bit_or-bitwise (bitwise_step (λ b. b) max a b)

pub bit_and_digit : (a b : ℕ) → bit_and a b ≡ bit_and (a / 2) (b / 2) * 2 + min (a % 2) (b % 2)
bit_and_digit zero b = simp bit_and-bitwise (omega arith)
bit_and_digit (suc a) b = simp bit_and-bitwise (bitwise_step (λ b. 0) min a b)

-- An operator that works digit by digit works field by field.
module _ (op : ℕ → ℕ → ℕ) (bit : ℕ → ℕ → ℕ) (none : op 0 0 ≡ 0)
    (digit : (a b : ℕ) → op a b ≡ op (a / 2) (b / 2) * 2 + bit (a % 2) (b % 2)) where
  pub op_fields :
      (k q r c d : ℕ)
      → r < pow2 k
      → d < pow2 k
      → op (q * pow2 k + r) (c * pow2 k + d) ≡ op q c * pow2 k + op r d
  op_fields zero q r c d h e =
      let x : q * 1 + r ≡ q = omega (arith, h) in
      let y : c * 1 + d ≡ c = omega (arith, e) in
      let r0 : r ≡ 0 = omega (arith, h) in
      let d0 : d ≡ 0 = omega (arith, e) in rw (x, y, r0, d0, none) (omega arith)
  op_fields (suc k) q r c d h e =
      let qe : q * (2 * pow2 k) ≡ 2 * (q * pow2 k) = double q (pow2 k) in
      let ce : c * (2 * pow2 k) ≡ 2 * (c * pow2 k) = double c (pow2 k) in
      let oe : op q c * (2 * pow2 k) ≡ 2 * (op q c * pow2 k) = double (op q c) (pow2 k) in
      let a = q * pow2 (suc k) + r in
      let b = c * pow2 (suc k) + d in
      let a2 : a / 2 ≡ q * pow2 k + r / 2 = omega (arith, qe) in
      let b2 : b / 2 ≡ c * pow2 k + d / 2 = omega (arith, ce) in
      let ar : a % 2 ≡ r % 2 = omega (arith, qe) in
      let br : b % 2 ≡ d % 2 = omega (arith, ce) in
      let rest = op_fields k q (r / 2) c (d / 2) (omega (arith, h)) (omega (arith, e)) in
      digit a b ∙ rw (a2, b2, ar, br, rest, digit r d, oe) (omega arith)
    where
      double : (n p : ℕ) → n * (2 * p) ≡ 2 * (n * p)
      double n p = sym (mul_assoc n 2 p) ∙ ap (λ (t : ℕ). t * p) (omega arith) ∙ mul_assoc 2 n p

pub bit_and_fields :
    (k q r c d : ℕ)
    → r < pow2 k
    → d < pow2 k
    → bit_and (q * pow2 k + r) (c * pow2 k + d) ≡ bit_and q c * pow2 k + bit_and r d
bit_and_fields = op_fields bit_and min refl bit_and_digit

pub bit_or_fields :
    (k q r c d : ℕ)
    → r < pow2 k
    → d < pow2 k
    → bit_or (q * pow2 k + r) (c * pow2 k + d) ≡ bit_or q c * pow2 k + bit_or r d
bit_or_fields = op_fields bit_or max refl bit_or_digit

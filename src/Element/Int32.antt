-- ===== src/Element/Int32.antt =====
-- The 32-bit arithmetic of the short operands: the tests for overflow and the casts.
use keyless_zk_proofs.Common.{
  ℕ, ◌-◌, ◌/◌, ◌%◌, ◌^◌, ◌≤◌, ◌<◌, ◌≡◌, Bool, false, ◌||◌, arith, ltb, ◌==◌, if◌then◌else◌,
}
use keyless_zk_proofs.Common.Int.{ℤ, pos, negsuc, pos_part, neg_part}

abbrev pub InInt32 : ℤ → Type 0
InInt32 z = (pos_part z < 2 ^ 31) × (neg_part z ≤ 2 ^ 31)

-- `(val >> 31) & 0x3`, with an arithmetic shift.
sign_bits : ℤ → ℕ
sign_bits (pos n) = n / 2 ^ 31 % 4
sign_bits (negsuc n) = 3 - n / 2 ^ 31 % 4

pub has_add32_overflow : ℤ → Bool
unfolding sign_bits
has_add32_overflow val = let signs = sign_bits val in signs == 1 || signs == 2

-- `sign = val >> 31; if (sign) sign = ~sign; return sign ? 1 : 0`.
pub has_mul32_overflow : ℤ → Bool
has_mul32_overflow (pos n) = ltb 0 (n / 2 ^ 31)
has_mul32_overflow (negsuc n) = ltb 0 (n / 2 ^ 31)

-- `(int32_t)val`.
pub to_int32 : ℤ → ℤ
to_int32 (pos n) =
    let bits = n % 2 ^ 32 in if ltb bits (2 ^ 31) then pos bits else negsuc (2 ^ 32 - 1 - bits)
to_int32 (negsuc n) =
    let bits = n % 2 ^ 32 in if ltb bits (2 ^ 31) then negsuc bits else pos (2 ^ 32 - 1 - bits)

-- On a sum or a difference of 32-bit numbers the test is exact, and where it passes the cast
-- changes nothing.
pub fits_add32 :
    (z : ℤ)
    → pos_part z ≤ 2 ^ 32
    → neg_part z ≤ 2 ^ 32
    → has_add32_overflow z ≡ false
    → InInt32 z × (to_int32 z ≡ z)
unfolding has_add32_overflow to_int32
fits_add32 (pos n) hp hn h = (ground arith, ground arith)
fits_add32 (negsuc n) hp hn h = ground arith

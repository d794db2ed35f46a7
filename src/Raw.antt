-- ===== src/Raw.antt =====
-- fr_raw_generic.cpp: elements of a prime field as four 64-bit limbs. fq_raw_generic.cpp is the
-- same text over other constants, so the constants are a record.
pub mod Reduction
pub mod Sums
pub mod Montgomery
pub mod Fields
use mathlib.Core.Bool.{not}
use keyless_zk_proofs.Common.{
  ℕ, ◌+◌, ◌-◌, ◌*◌, ◌%◌, ◌^◌, ◌≤◌, ◌<◌, ◌≡◌, Ordering, List, [], ◌∷◌, ◌++◌, Bool, true, false, ◌||◌,
  ltb, if◌then◌else◌, get_or, take, drop,
}
use keyless_zk_proofs.Common.Int.{ℤ, pos, negsuc}
use keyless_zk_proofs.Mpn.{Gmp}
use keyless_zk_proofs.Mpn.Limbs.{word, value, IsLimbs}

-- Fr_N64.
abbrev pub n64 : ℕ
n64 = 4

-- The constants: the modulus with a fifth limb 0, its negated inverse modulo 2 ^ 64, and
-- 2 ^ 512 and 2 ^ 768 modulo it; with what the code relies on.
pub record Modulus : Type 0 where
  pub rawq : List ℕ
  pub np : ℕ
  pub raw_r2 : List ℕ
  pub raw_r3 : List ℕ
  pub q : ℕ
  pub rawq_limbs : IsLimbs 5 rawq
  pub low_limbs : IsLimbs 4 (take 4 rawq)
  pub rawq_value : value rawq ≡ q
  pub low_value : value (take 4 rawq) ≡ q
  pub q_lt : q < 2 ^ 254
  pub q_gt : 2 ^ 253 ≤ q
  pub np_inverse : (q * np + 1) % word ≡ 0
  pub r2_limbs : IsLimbs 4 raw_r2
  pub r3_limbs : IsLimbs 4 raw_r3
  pub r2_value : value raw_r2 ≡ 2 ^ 512 % q
  pub r3_value : value raw_r3 ≡ 2 ^ 768 % q
  -- q is odd, so that 2 ^ 256 has an inverse.
  pub r_inverse : ℕ
  pub r_inverse_lem : (2 ^ 256 * r_inverse) % q ≡ 1

-- The tests `carry` and `mpn_cmp(...) >= 0`.
abbrev pub nonzero : ℕ → Bool
nonzero c = ltb 0 c

abbrev pub is_ge : Ordering → Bool
is_ge Ordering.lt = false
is_ge Ordering.eq = true
is_ge Ordering.gt = true

abbrev pub is_eq : Ordering → Bool
is_eq Ordering.lt = false
is_eq Ordering.eq = true
is_eq Ordering.gt = false

abbrev pub raw_zero : List ℕ
raw_zero = 0 ∷ 0 ∷ 0 ∷ 0 ∷ []

module _ (g : Gmp) (m : Modulus) where
  -- Fr_rawq, of which `n64` limbs are used.
  abbrev pub q4 : List ℕ
  q4 = take n64 m.rawq

  unfoldable pub raw_add : List ℕ → List ℕ → List ℕ
  raw_add a b =
      let (r, carry) = g.add_n a b n64 in
      if nonzero carry || is_ge (g.cmp r q4 n64) then (g.sub_n r q4 n64).0 else r

  unfoldable pub raw_add_ls : List ℕ → ℕ → List ℕ
  raw_add_ls a b =
      let (r, carry) = g.add_1 a n64 b in
      if nonzero carry || is_ge (g.cmp r q4 n64) then (g.sub_n r q4 n64).0 else r

  unfoldable pub raw_sub : List ℕ → List ℕ → List ℕ
  raw_sub a b =
      let (r, carry) = g.sub_n a b n64 in if nonzero carry then (g.add_n r q4 n64).0 else r

  unfoldable pub raw_sub_regular : List ℕ → List ℕ → List ℕ
  raw_sub_regular a b = (g.sub_n a b n64).0

  unfoldable pub raw_sub_sl : ℕ → List ℕ → List ℕ
  raw_sub_sl a b =
      let (r, carry) = g.sub_n (a ∷ 0 ∷ 0 ∷ 0 ∷ []) b n64 in
      if nonzero carry then (g.add_n r q4 n64).0 else r

  unfoldable pub raw_sub_ls : List ℕ → ℕ → List ℕ
  raw_sub_ls a b =
      let (r, carry) = g.sub_1 a n64 b in if nonzero carry then (g.add_n r q4 n64).0 else r

  unfoldable pub raw_neg : List ℕ → List ℕ
  raw_neg a = if not (is_eq (g.cmp a raw_zero n64)) then (g.sub_n q4 a n64).0 else raw_zero

  unfoldable pub raw_neg_ls : List ℕ → ℕ → List ℕ
  raw_neg_ls a b =
      let (r1, carry1) = g.sub_1 q4 n64 b in
      let (r, carry2) = g.sub_n r1 a n64 in
      if nonzero carry1 || nonzero carry2 then (g.add_n r q4 n64).0 else r

  unfoldable pub raw_is_eq : List ℕ → List ℕ → Bool
  raw_is_eq a b = is_eq (g.cmp a b n64)

  -- mpn_zero_p compares with 0.
  unfoldable pub raw_is_zero : List ℕ → Bool
  raw_is_zero a = is_eq (g.cmp a raw_zero n64)

  unfoldable pub raw_cmp : List ℕ → List ℕ → Ordering
  raw_cmp a b = g.cmp a b n64

  -- `val` is an int64_t: a negative one is sign-extended to four limbs and the modulus is added.
  unfoldable pub raw_copy_s2l : ℤ → List ℕ
  raw_copy_s2l (pos n) = n ∷ 0 ∷ 0 ∷ 0 ∷ []
  raw_copy_s2l (negsuc n) =
      let ones : ℕ = word - 1 in (g.add_n ((word - 1 - n) ∷ ones ∷ ones ∷ ones ∷ []) q4 n64).0

  -- `np0 = Fr_np * product[0]; carry = mpn_addmul_1(product, mq, N, np0)`
  pub reduce : List ℕ → List ℕ × ℕ
  reduce product = g.addmul_1 product m.rawq 5 ((m.np * get_or product 0 0) % word)

  -- `product0[4] = mpn_mul_1(product0, pRawB, Fr_N64, limb)`
  pub first_row : List ℕ → ℕ → List ℕ
  first_row b limb = let (r, high) = g.mul_1 b n64 limb in r ++ (high ∷ [])

  -- The next product, which has the carry of the one before in its second limb, receives
  -- `b * limb` and the upper limbs of the one before, and is reduced.
  pub row : List ℕ → List ℕ × ℕ → ℕ → List ℕ × ℕ
  row b (product, carry) limb =
      let (r, high) = g.addmul_1 (0 ∷ carry ∷ 0 ∷ 0 ∷ []) b n64 limb in
      reduce (g.add (r ++ (high ∷ [])) 5 (drop 1 product) 4).0

  -- As `row`, with nothing to multiply by.
  pub shift_row : List ℕ × ℕ → List ℕ × ℕ
  shift_row (product, carry) = reduce (g.add (0 ∷ carry ∷ 0 ∷ 0 ∷ 0 ∷ []) 5 (drop 1 product) 4).0

  -- The upper limbs of the last product, less the modulus where they reach it.
  pub last_subtraction : List ℕ × ℕ → List ℕ
  last_subtraction (product, carry) =
      let r = drop 1 product in if is_ge (g.cmp r q4 n64) then (g.sub_n r q4 n64).0 else r

  unfoldable pub raw_mmul : List ℕ → List ℕ → List ℕ
  raw_mmul a b =
      let product0 = reduce (first_row b (get_or a 0 0)) in
      let product1 = row b product0 (get_or a 1 0) in
      let product2 = row b product1 (get_or a 2 0) in
      let product3 = row b product2 (get_or a 3 0) in last_subtraction product3

  unfoldable pub raw_msquare : List ℕ → List ℕ
  raw_msquare a = raw_mmul a a

  unfoldable pub raw_mmul1 : List ℕ → ℕ → List ℕ
  raw_mmul1 a b =
      let product0 = reduce (first_row a b) in
      let product1 = shift_row product0 in
      let product2 = shift_row product1 in
      let product3 = shift_row product2 in last_subtraction product3

  unfoldable pub raw_to_montgomery : List ℕ → List ℕ
  raw_to_montgomery a = raw_mmul a m.raw_r2

  unfoldable pub raw_from_montgomery : List ℕ → List ℕ
  raw_from_montgomery a =
      let product0 = reduce (a ++ (0 ∷ [])) in
      let product1 = shift_row product0 in
      let product2 = shift_row product1 in
      let product3 = shift_row product2 in last_subtraction product3

-- ===== src/Mpn.antt =====
-- Natural numbers in 64-bit limbs, least significant first, and the part of GMP's mpn layer
-- that fr_raw_generic.cpp and fq_raw_generic.cpp call. GMP is not part of the repository: it is a
-- record of operations with the laws that its manual documents.
pub mod Limbs
pub mod Reference
use keyless_zk_proofs.Common.{ℕ, ◌+◌, ◌*◌, ◌<◌, ◌≡◌, Ordering, compare, List, Bool}
use Limbs.{word, value, base, IsLimbs}

-- Each operation takes operands, then their number of limbs, and returns the limbs that it
-- stores, with the carry, borrow or high limb that it returns.
pub record Gmp : Type 0 where
  pub add_n : List ℕ → List ℕ → ℕ → List ℕ × ℕ
  pub sub_n : List ℕ → List ℕ → ℕ → List ℕ × ℕ
  pub add_1 : List ℕ → ℕ → ℕ → List ℕ × ℕ
  pub sub_1 : List ℕ → ℕ → ℕ → List ℕ × ℕ
  pub mul_1 : List ℕ → ℕ → ℕ → List ℕ × ℕ
  -- The first operand is the destination, which is added to.
  pub addmul_1 : List ℕ → List ℕ → ℕ → ℕ → List ℕ × ℕ
  -- The second operand may be shorter than the first.
  pub add : List ℕ → ℕ → List ℕ → ℕ → List ℕ × ℕ
  pub cmp : List ℕ → List ℕ → ℕ → Ordering
  pub add_n_limbs :
      (xs ys : List ℕ) (n : ℕ) → IsLimbs n xs → IsLimbs n ys → IsLimbs n (add_n xs ys n).0
  pub add_n_value :
      (xs ys : List ℕ) (n : ℕ)
      → IsLimbs n xs
      → IsLimbs n ys
      → value (add_n xs ys n).0 + base n * (add_n xs ys n).1 ≡ value xs + value ys
  pub sub_n_limbs :
      (xs ys : List ℕ) (n : ℕ) → IsLimbs n xs → IsLimbs n ys → IsLimbs n (sub_n xs ys n).0
  pub sub_n_value :
      (xs ys : List ℕ) (n : ℕ)
      → IsLimbs n xs
      → IsLimbs n ys
      → value (sub_n xs ys n).0 + value ys ≡ value xs + base n * (sub_n xs ys n).1
  pub add_1_limbs : (xs : List ℕ) (n y : ℕ) → IsLimbs n xs → y < word → IsLimbs n (add_1 xs n y).0
  pub add_1_value :
      (xs : List ℕ) (n y : ℕ)
      → IsLimbs n xs
      → y < word
      → value (add_1 xs n y).0 + base n * (add_1 xs n y).1 ≡ value xs + y
  -- A limb is below `base n` as soon as `n` is not zero, which mpn asks for.
  pub sub_1_limbs : (xs : List ℕ) (n y : ℕ) → IsLimbs n xs → y < base n → IsLimbs n (sub_1 xs n y).0
  pub sub_1_value :
      (xs : List ℕ) (n y : ℕ)
      → IsLimbs n xs
      → y < base n
      → value (sub_1 xs n y).0 + y ≡ value xs + base n * (sub_1 xs n y).1
  pub mul_1_limbs : (xs : List ℕ) (n y : ℕ) → IsLimbs n xs → y < word → IsLimbs n (mul_1 xs n y).0
  pub mul_1_value :
      (xs : List ℕ) (n y : ℕ)
      → IsLimbs n xs
      → y < word
      → value (mul_1 xs n y).0 + base n * (mul_1 xs n y).1 ≡ value xs * y
  pub addmul_1_limbs :
      (rs xs : List ℕ) (n y : ℕ)
      → IsLimbs n rs
      → IsLimbs n xs
      → y < word
      → IsLimbs n (addmul_1 rs xs n y).0
  pub addmul_1_value :
      (rs xs : List ℕ) (n y : ℕ)
      → IsLimbs n rs
      → IsLimbs n xs
      → y < word
      → value (addmul_1 rs xs n y).0 + base n * (addmul_1 rs xs n y).1 ≡ value rs + value xs * y
  pub add_limbs :
      (xs : List ℕ) (n : ℕ) (ys : List ℕ) (k : ℕ)
      → IsLimbs n xs
      → IsLimbs k ys
      → IsLimbs n (add xs n ys k).0
  pub add_value :
      (xs : List ℕ) (n : ℕ) (ys : List ℕ) (k : ℕ)
      → IsLimbs n xs
      → IsLimbs k ys
      → k < n
      → value (add xs n ys k).0 + base n * (add xs n ys k).1 ≡ value xs + value ys
  pub cmp_value :
      (xs ys : List ℕ) (n : ℕ)
      → IsLimbs n xs
      → IsLimbs n ys
      → cmp xs ys n ≡ compare (value xs) (value ys)

-- ===== src/Groth16/Scalars.antt =====
-- Elements as the scalars of multiplications and multi-exponentiations.
use keyless_zk_proofs.Common.{
  ℕ, zero, suc, ◌+◌, ◌*◌, ◌≤◌, ◌<◌, ◌≡◌, refl, ◌∙◌, ap, arith, List, [], ◌∷◌, ◌++◌, length, take,
  drop, length-append,
}
use keyless_zk_proofs.BinFile.{from_le}
use keyless_zk_proofs.Naf.Digits.{IsBytes}
use keyless_zk_proofs.Naf.Multiply.{naf_mul_by_scalar_lem}
use keyless_zk_proofs.Group.{AbelianGroup, Points}
use keyless_zk_proofs.Group.Times.{times}
use keyless_zk_proofs.Field.{CommutativeRing, BaseField}
use keyless_zk_proofs.Multiexp.{pow2, bits_per_chunk, chunk_count}
use keyless_zk_proofs.Multiexp.Sums.{sum, sum_congr}
use keyless_zk_proofs.Multiexp.Chunks.{IsScalarSize, scalar_at}
use keyless_zk_proofs.Multiexp.Whole.{IsSound}
use keyless_zk_proofs.Multiexp.Product.{multiexp_lem}
use keyless_zk_proofs.Groth16.{ScalarField, Run}
use keyless_zk_proofs.Groth16.Prove.{bytes_from, multi_mul, mul_by_scalar}

pub append-IsBytes : (xs ys : List ℕ) → IsBytes xs → IsBytes ys → IsBytes (xs ++ ys)
append-IsBytes [] ys hx hy = hy
append-IsBytes (x ∷ xs) ys hx hy = (hx.0, append-IsBytes xs ys hx.1 hy)

take-append : (n : ℕ) (xs ys : List ℕ) → length xs ≡ n → take n (xs ++ ys) ≡ xs
take-append zero [] ys h = refl
take-append zero (x ∷ xs) ys h = absurd (omega (arith, h))
take-append (suc n) [] ys h = absurd (omega (arith, h))
take-append (suc n) (x ∷ xs) ys h = ap (λ t. x ∷ t) (take-append n xs ys (omega (arith, h)))

drop-append : (n k : ℕ) (xs ys : List ℕ) → length xs ≡ n → drop (n + k) (xs ++ ys) ≡ drop k ys
drop-append zero k [] ys h = let e : 0 + k ≡ k = omega arith in rw e refl
drop-append zero k (x ∷ xs) ys h = absurd (omega (arith, h))
drop-append (suc n) k [] ys h = absurd (omega (arith, h))
drop-append (suc n) k (x ∷ xs) ys h =
    let e : suc n + k ≡ suc (n + k) = omega arith in rw e (drop-append n k xs ys (omega (arith, h)))

-- The schedules of a multi-exponentiation of `n` elements run each base once.
abbrev pub IsRun : ℕ → Run → Type 0
IsRun n run =
    (0 < run.threads)
    × ((j : ℕ)
        → j < chunk_count 32 (bits_per_chunk run.log2_of n)
        → IsSound n (pow2 (bits_per_chunk run.log2_of n)) run.threads (run.plans j))

thirty_two-IsScalarSize : IsScalarSize 32
thirty_two-IsScalarSize = (omega arith, omega arith)

module _ {ℓ κ} {V : Type ℓ} {v : CommutativeRing V} {El : Type κ} {f : BaseField v El}
    (sf : ScalarField f) where
  bytes_from-IsBytes : (a : ℕ → El) (i n : ℕ) → IsBytes (bytes_from sf a i n)
  unfolding bytes_from
  bytes_from-IsBytes a i zero = tt
  bytes_from-IsBytes a i (suc n) =
      append-IsBytes (sf.bytes (a i)) _ (sf.bytes_IsBytes (a i)) (bytes_from-IsBytes a (suc i) n)

  length-bytes_from : (a : ℕ → El) (i n : ℕ) → length (bytes_from sf a i n) ≡ n * 32
  unfolding bytes_from
  length-bytes_from a i zero = refl
  length-bytes_from a i (suc n) =
      length-append (sf.bytes (a i)) _
      ∙ omega (arith, sf.bytes_length (a i), length-bytes_from a (suc i) n)

  bytes_from-scalar_at :
      (a : ℕ → El) (first n i : ℕ)
      → i < n
      → scalar_at (bytes_from sf a first n) 32 i ≡ sf.number (a (first + i))
  unfolding bytes_from
  bytes_from-scalar_at a first zero i lt = absurd (omega (arith, lt))
  bytes_from-scalar_at a first (suc n) zero lt =
      let e : first + 0 ≡ first = omega arith in
      rw e (
        ap from_le (take-append 32 (sf.bytes (a first)) _ (sf.bytes_length (a first)))
        ∙ sf.bytes_number (a first))
  bytes_from-scalar_at a first (suc n) (suc i) lt =
      let e : suc i * 32 ≡ 32 + i * 32 = omega arith in
      let next : suc first + i ≡ first + suc i = omega arith in
      ap (λ k. from_le (take 32 (drop k (sf.bytes (a first) ++ bytes_from sf a (suc first) n)))) e
      ∙ ap (λ t. from_le (take 32 t))
          (drop-append 32 (i * 32) (sf.bytes (a first)) _ (sf.bytes_length (a first)))
      ∙ bytes_from-scalar_at a (suc first) n i (omega (arith, lt))
      ∙ ap (λ k. sf.number (a k)) next

  module _ {μ ν η} {U : Type μ} {u : AbelianGroup U} {Point : Type ν} {PointAffine : Type η}
      (g : Points u Point PointAffine) where
    -- multiMulByScalar, as the sum of the elements' multiples of the bases.
    pub multi_mul_lem :
        (run : Run) (bases : ℕ → PointAffine) (a : ℕ → El) (first n : ℕ)
        → IsRun n run
        → g.value_of (multi_mul sf g run bases a first n)
          ≡ sum u n (λ i. times u (sf.number (a (first + i))) (g.value_of_affine (bases i)))
    unfolding multi_mul
    multi_mul_lem run bases a first n (positive, sound) =
        let size : n * 32 ≤ length (bytes_from sf a first n) =
          omega (arith, length-bytes_from a first n) in
        multiexp_lem g run.log2_of bases (bytes_from sf a first n) 32 n run.threads run.plans
          (bytes_from-IsBytes a first n) thirty_two-IsScalarSize size positive sound
        ∙ sum_congr u n _ _ (λ i p.
          ap (λ k. times u k (g.value_of_affine (bases i))) (bytes_from-scalar_at a first n i p))

    -- mulByScalar.
    pub mul_by_scalar_lem :
        (base : PointAffine) (x : El)
        → g.value_of (mul_by_scalar sf g base x) ≡ times u (sf.number x) (g.value_of_affine base)
    unfolding mul_by_scalar
    mul_by_scalar_lem base x =
        naf_mul_by_scalar_lem g base (sf.bytes x) (sf.bytes_IsBytes x)
          (omega (arith, sf.bytes_length x)) (omega (arith, sf.bytes_length x))
        ∙ ap (λ k. times u k (g.value_of_affine base)) (sf.bytes_number x)

-- ===== src/Tests/Points.antt =====
-- The theorems about points, with the integers as the group and rounds that run one after another.
use native.Mathlib.Nat.{mod-lt}
use mathlib.Core.Int.{ℤ, pos}
use keyless_zk_proofs.Common.{
  ℕ, zero, suc, ◌+◌, ◌*◌, ◌%◌, ◌⊎◌, ◌≤◌, ◌<◌, ◌≡◌, refl, arith, List, [], ◌∷◌, false, ◌==◌, ==_iff,
  Bool-cases, inl, inr, take,
}
use keyless_zk_proofs.BinFile.{from_le}
use keyless_zk_proofs.Group.Integers.{integers, integer_points}
use keyless_zk_proofs.Group.Times.{times}
use keyless_zk_proofs.Naf.{build_naf}
use keyless_zk_proofs.Naf.Chain.{Chain}
use keyless_zk_proofs.Naf.Digits.{IsBytes}
use keyless_zk_proofs.Naf.Recode.{build_naf-Chain}
use keyless_zk_proofs.Naf.Multiply.{naf_mul_by_scalar, naf_mul_by_scalar_lem}
use keyless_zk_proofs.Multiexp.{
  Schedule, Plan, pow2, chunk_byte, bits_per_chunk, one_chunk, multiexp,
}
use keyless_zk_proofs.Multiexp.Sums.{sum}
use keyless_zk_proofs.Multiexp.Chunks.{IsScalarSize, scalar_at, chunk_byte_lem}
use keyless_zk_proofs.Multiexp.Process.{IsOnce, count}
use keyless_zk_proofs.Multiexp.Reduce.Halves.{IsPlanned, Covers}
use keyless_zk_proofs.Multiexp.Whole.{IsSound, IsClean, chunk_sum, one_chunk_lem}
use keyless_zk_proofs.Multiexp.Product.{multiexp_lem}

-- The rounds below `n`, the last one first, on thread 0.
abbrev pub downward : ℕ → Schedule
downward zero = []
downward (suc n) = (n, 0) ∷ downward n

pub downward-IsPlanned : (n m : ℕ) → n ≤ m → IsPlanned m 2 (downward n)
downward-IsPlanned zero m le = tt
downward-IsPlanned (suc n) m le = (omega arith, omega arith, downward-IsPlanned n m (omega arith))

pub downward-Covers : (n : ℕ) → Covers n (downward n)
downward-Covers zero i lt = absurd (omega arith)
downward-Covers (suc n) i lt = elim (Bool-cases (n == i)) [
  | inl same ↦ rw same refl
  | inr apart ↦ rw apart (downward-Covers n i (ground arith))
]

downward-none : (n i : ℕ) → n ≤ i → count i (downward n) ≡ 0
downward-none zero i le = refl
downward-none (suc n) i le =
    let apart : (n == i) ≡ false = ground arith in
    rw (apart, downward-none n i (omega arith)) (omega arith)

downward-count : (n i : ℕ) → i < n → count i (downward n) ≡ 1
downward-count zero i lt = absurd (omega arith)
downward-count (suc n) i lt = elim (Bool-cases (n == i)) [
  | inl same ↦
      let at_top : n ≡ i = (==_iff n i).0 same in
      rw (same, downward-none n i (omega (arith, at_top))) (omega arith)
  | inr apart ↦ rw (apart, downward-count n i (ground (arith, lt, apart))) (omega arith)
]

pub downward-IsOnce : (n : ℕ) → IsOnce n 2 (downward n)
downward-IsOnce n = (downward-IsPlanned n n (omega arith), downward-count n)

-- Two bases, in two-bit chunks.
abbrev in_order : Plan
in_order = record { process = downward 2; pack = downward 4; halves = λ k. downward (pow2 k) }

in_order-IsSound : IsSound 2 4 2 in_order
in_order-IsSound = record {
  once = downward-IsOnce 2;
  planned = downward-IsPlanned 4 4 (omega arith);
  covers = downward-Covers 4;
  full = λ k. (downward-IsPlanned (pow2 k) (pow2 k) (omega arith), downward-Covers (pow2 k));
}

abbrev two_bases : ℕ → ℤ
two_bases zero = pos 5
two_bases (suc i) = pos 7

-- 3 and 258, in eight bytes each.
abbrev two_scalars : List ℕ
two_scalars = 3 ∷ 0 ∷ 0 ∷ 0 ∷ 0 ∷ 0 ∷ 0 ∷ 0 ∷ 2 ∷ 1 ∷ 0 ∷ 0 ∷ 0 ∷ 0 ∷ 0 ∷ 0 ∷ []

two_scalars-IsBytes : IsBytes two_scalars
two_scalars-IsBytes = ground arith

eight-IsScalarSize : IsScalarSize 8
eight-IsScalarSize = (omega arith, omega arith)

multiexp_lem_example :
    multiexp integer_points (λ n. 0) two_bases two_scalars 8 2 2 (λ j. in_order)
    ≡ sum integers 2 (λ i. times integers (scalar_at two_scalars 8 i) (two_bases i))
unfolding bits_per_chunk
multiexp_lem_example =
    multiexp_lem integer_points (λ n. 0) two_bases two_scalars 8 2 2 (λ j. in_order)
      two_scalars-IsBytes eight-IsScalarSize (omega arith) (omega arith) (λ j lt. in_order-IsSound)

one_chunk_lem_example :
    (one_chunk integer_points two_bases (λ i. (i + 2) % 4) 1 2 in_order (λ a. pos 0)).0
      ≡ chunk_sum integer_points two_bases 2 (λ i. (i + 2) % 4)
    × IsClean integer_points 4 2
        (one_chunk integer_points two_bases (λ i. (i + 2) % 4) 1 2 in_order (λ a. pos 0)).1
one_chunk_lem_example =
    one_chunk_lem integer_points two_bases 2 1 2 (omega arith) (λ i. (i + 2) % 4) in_order
      (λ a. pos 0) (λ i. mod-lt (i + 2) (omega arith)) in_order-IsSound (λ a p q. refl)

chunk_byte_lem_example :
    (chunk_byte 32 255 + 8 ≤ 32)
    × (chunk_byte 32 255 * 8 ≤ 255)
    × ((255 < chunk_byte 32 255 * 8 + 8) ⊎ (chunk_byte 32 255 + 8 ≡ 32))
chunk_byte_lem_example = chunk_byte_lem 32 255 (omega arith, omega arith) (omega arith)

abbrev one_scalar : List ℕ
one_scalar = 7 ∷ 3 ∷ []

one_scalar-IsBytes : IsBytes one_scalar
one_scalar-IsBytes = ground arith

build_naf-Chain_example : Chain (take 18 (build_naf one_scalar)) 775 0
unfolding from_le
build_naf-Chain_example = build_naf-Chain one_scalar one_scalar-IsBytes (omega arith)

naf_mul_by_scalar_lem_example :
    naf_mul_by_scalar integer_points (pos 3) one_scalar ≡ times integers 775 (pos 3)
unfolding from_le
naf_mul_by_scalar_lem_example =
    naf_mul_by_scalar_lem integer_points (pos 3) one_scalar one_scalar-IsBytes (omega arith)
      (omega arith)

-- ===== src/Multiexp/Product.antt =====
-- multiexp against its purpose: the sum of the scalars' multiples of the bases.
use native.Mathlib.Nat.{le-div_iff_mul-le, div-lt_iff_lt-mul, mod-lt, mod-eq_of_lt}
use keyless_zk_proofs.Common.{
  ℕ, zero, suc, ◌+◌, ◌-◌, ◌*◌, ◌/◌, ◌%◌, ◌≤◌, ◌<◌, ◌≡◌, refl, sym, subst, ◌∙◌, ap, arith, List, [],
  ◌∷◌, take, drop, length, false, ◌==◌,
}
use keyless_zk_proofs.BinFile.{word64, from_le}
use keyless_zk_proofs.Naf.Digits.{IsBytes}
use keyless_zk_proofs.Naf.Multiply.{naf_mul_by_scalar_lem}
use keyless_zk_proofs.Group.{AbelianGroup, Points}
use keyless_zk_proofs.Group.Times.{times, plus-none}
use keyless_zk_proofs.Multiexp.{
  Plan, pow2, get_chunk, bits_per_chunk, chunk_count, all_chunks, combine_all, multiexp,
}
use keyless_zk_proofs.Multiexp.Sums.{sum}
use keyless_zk_proofs.Multiexp.Powers.{pow2-pos, pow2_mono}
use keyless_zk_proofs.Multiexp.Bytes.{drop-IsBytes, take-IsBytes, from_le-lt}
use keyless_zk_proofs.Multiexp.Chunks.{IsScalarSize, scalar_at, sub64_lem, get_chunk_lem}
use keyless_zk_proofs.Multiexp.Digits.{chunks-scalars}
use keyless_zk_proofs.Multiexp.Whole.{IsSound, chunks_lem}

-- Whatever aptos::log2 gives, a chunk has 2 to 16 bits.
pub bits_per_chunk_lem :
    (log2 : ℕ → ℕ) (n : ℕ) → (2 ≤ bits_per_chunk log2 n) × (bits_per_chunk log2 n ≤ 16)
unfolding bits_per_chunk
bits_per_chunk_lem log2 n = ground arith

-- The number of chunks, when nothing wraps.
chunk_count_lem :
    (size bits : ℕ) → IsScalarSize size → chunk_count size bits ≡ (size * 8 - 1) / bits + 1
chunk_count_lem size bits sized =
    let e : size * 8 % word64 ≡ size * 8 = mod-eq_of_lt (omega (arith, sized.1)) in
    rw (e, sub64_lem (size * 8) 1 (omega (arith, sized.0))) refl

-- They start within the scalar, and reach its end.
chunk_count-starts :
    (size bits j : ℕ)
    → IsScalarSize size
    → 2 ≤ bits
    → j < chunk_count size bits
    → j * bits < size * 8
chunk_count-starts size bits j sized some lt =
    let within : j ≤ (size * 8 - 1) / bits = omega (arith, lt, chunk_count_lem size bits sized) in
    let positive : 0 < bits = omega (arith, some) in
    let e : j * bits ≤ size * 8 - 1 = (le-div_iff_mul-le positive).0 within in
    omega (arith, e, sized.0)

chunk_count-covers :
    (size bits : ℕ) → IsScalarSize size → 2 ≤ bits → 8 * size ≤ bits * chunk_count size bits
chunk_count-covers size bits sized some =
    let m = (size * 8 - 1) / bits + 1 in
    let positive : 0 < bits = omega (arith, some) in
    let e : size * 8 - 1 < m * bits = (div-lt_iff_lt-mul positive).0 (omega arith) in
    let f : m * bits ≡ bits * m = omega arith in
    rw (chunk_count_lem size bits sized) (omega (arith, e, f))

length-take_pos : (n : ℕ) (xs : List ℕ) → 0 < n → 0 < length xs → 0 < length (take n xs)
length-take_pos zero xs p q = absurd (omega arith)
length-take_pos (suc n) [] p q = absurd (omega arith)
length-take_pos (suc n) (x ∷ xs) p q = omega arith

length-take_le : (n : ℕ) (xs : List ℕ) → length (take n xs) ≤ n
length-take_le zero xs = omega arith
length-take_le (suc n) [] = omega arith
length-take_le (suc n) (x ∷ xs) = omega (arith, length-take_le n xs)

module _ {ℓ κ μ} {V : Type ℓ} {v : AbelianGroup V} {Point : Type κ} {PointAffine : Type μ}
    (g : Points v Point PointAffine) where
  module _ (bases : ℕ → PointAffine) (scalars : List ℕ) (size bits n threads : ℕ) (plans : ℕ → Plan)
      (bytes : IsBytes scalars) (sized : IsScalarSize size) (some : 2 ≤ bits)
      (few : bits ≤ 16) where
    abbrev digit : ℕ → ℕ → ℕ
    digit j i = get_chunk scalars size bits i j

    digit_lem :
        (j i : ℕ)
        → j < chunk_count size bits
        → digit j i ≡ scalar_at scalars size i / pow2 (j * bits) % pow2 bits
    digit_lem j i lt =
        get_chunk_lem scalars size bits i j bytes sized few
          (chunk_count-starts size bits j sized some lt)

    digit_lt : (j i : ℕ) → j < chunk_count size bits → digit j i < pow2 bits
    digit_lt j i lt = rw (digit_lem j i lt) (mod-lt _ (pow2-pos bits))

    scalar_lt : (i : ℕ) → scalar_at scalars size i < pow2 (bits * chunk_count size bits)
    scalar_lt i =
        let own : scalar_at scalars size i < pow2 (8 * size) =
          from_le-lt size (drop (i * size) scalars) (drop-IsBytes (i * size) scalars bytes) in
        let grown : pow2 (8 * size) ≤ pow2 (bits * chunk_count size bits) =
          pow2_mono _ _ (chunk_count-covers size bits sized some) in
        omega (arith, own, grown)

    windows_lem :
        0 < threads
        → ((j : ℕ) → j < chunk_count size bits → IsSound n (pow2 bits) threads (plans j))
        → g.value_of (
            combine_all g bits (
              all_chunks g bases digit
                (bits - 1)
                threads
                plans
                (chunk_count size bits)
                0
                (λ a. g.zero_point)
                []))
          ≡ sum v n (λ i. times v (scalar_at scalars size i) (g.value_of_affine (bases i)))
    windows_lem positive sound =
        let m = chunk_count size bits in
        let narrow : suc (bits - 1) ≡ bits = omega (arith, some) in
        let power : pow2 (suc (bits - 1)) ≡ pow2 bits = ap pow2 narrow in
        chunks_lem g bases n (bits - 1) threads positive bits m digit plans
          (λ j i p. subst (λ w. digit j i < w) (sym power) (digit_lt j i p))
          (λ j p. subst (λ w. IsSound n w threads (plans j)) (sym power) (sound j p))
        ∙ chunks-scalars v bits m n digit (scalar_at scalars size)
            (λ i. g.value_of_affine (bases i)) (λ j i p q. digit_lem j i p) (λ i p. scalar_lt i)

  -- For points with values in an abelian group, scalars of at least 8 bytes, whose number of bits
  -- and 16 more are below 2 ^ 31, bytes for all n of them, at least one thread, and schedules for
  -- the chunks that run each base once and each index of the other loops, on threads that there
  -- are, in any order: whatever aptos::log2 gives, the value of multiexp's result is the sum of
  -- the n bases' values, each times the number in its scalar's bytes.
  pub multiexp_lem :
      (log2 : ℕ → ℕ) (bases : ℕ → PointAffine) (scalars : List ℕ) (size n threads : ℕ)
      (plans : ℕ → Plan)
      → IsBytes scalars
      → IsScalarSize size
      → n * size ≤ length scalars
      → 0 < threads
      → ((j : ℕ)
          → j < chunk_count size (bits_per_chunk log2 n)
          → IsSound n (pow2 (bits_per_chunk log2 n)) threads (plans j))
      → g.value_of (multiexp g log2 bases scalars size n threads plans)
        ≡ sum v n (λ i. times v (scalar_at scalars size i) (g.value_of_affine (bases i)))
  unfolding multiexp sum times
  multiexp_lem log2 bases scalars size zero threads plans bytes sized mapped positive sound =
      g.zero_value
  multiexp_lem log2 bases scalars size (suc zero) threads plans bytes sized mapped positive sound =
      let own = take size scalars in
      let z : 0 * size ≡ 0 = omega arith in
      let e : 1 * size ≡ size = omega arith in
      naf_mul_by_scalar_lem g (bases 0) own (take-IsBytes size scalars bytes)
        (length-take_pos size scalars (omega (arith, sized.0)) (omega (arith, sized.0, mapped, e)))
        (omega (arith, length-take_le size scalars, sized.1))
      ∙ ap (λ k. times v (from_le (take size (drop k scalars))) (g.value_of_affine (bases 0)))
          (sym z)
      ∙ sym (plus-none v _)
  multiexp_lem log2 bases scalars size (suc (suc n)) threads plans bytes sized mapped positive
        sound =
      let (some, few) = bits_per_chunk_lem log2 (suc (suc n)) in
      let many : (suc (suc n) == 0) ≡ false = ground arith in
      let several : (suc (suc n) == 1) ≡ false = ground arith in
      rw (many, several)
        (windows_lem bases scalars size (bits_per_chunk log2 (suc (suc n))) (suc (suc n)) threads
          plans bytes sized some few positive sound)

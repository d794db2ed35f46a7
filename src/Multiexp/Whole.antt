-- ===== src/Multiexp/Whole.antt =====
-- The chunks one after another, and their results combined: multiexp as a whole.
pub mod Combine
use keyless_zk_proofs.Common.{
  ℕ, zero, suc, ◌+◌, ◌-◌, ◌*◌, ◌%◌, ◌≤◌, ◌<◌, ◌≡◌, refl, sym, ◌∙◌, ap, ap₂, arith, List, [], ◌∷◌,
  Bool, true, false, ◌==◌, ◌⊎◌, Bool-cases, inl, inr, ltb, length,
}
use native.Mathlib.Nat.{mod-eq_of_lt}
use keyless_zk_proofs.Group.{AbelianGroup, Points}
use keyless_zk_proofs.Group.Times.{times, plus-none}
use keyless_zk_proofs.Multiexp.{
  Schedule, Plan, pow2, process_chunk, pack_threads, reduce, one_chunk, all_chunks, combine_all,
}
use keyless_zk_proofs.Multiexp.Sums.{sum, sum_congr, sum-none, times-none}
use keyless_zk_proofs.Multiexp.Moves.{weigh}
use keyless_zk_proofs.Multiexp.Rows.{weigh_rows, weigh_rows-first}
use keyless_zk_proofs.Multiexp.Process.{IsOnce, process_chunk_lem}
use keyless_zk_proofs.Multiexp.Pack.{pack_threads_lem, pack_threads-clear}
use keyless_zk_proofs.Multiexp.Reduce.{IsFull, IsReduction, reduce_lem}
use keyless_zk_proofs.Multiexp.Powers.{pow2-pos}
use Combine.{weighted, combine_all_lem}
use keyless_zk_proofs.Multiexp.Reduce.Halves.{IsPlanned, Covers}

-- The schedules run each base once, and each place and each half as a whole.
pub record IsSound (n size threads : ℕ) (plan : Plan) : Type 0 where
  pub once : IsOnce n threads plan.process
  pub planned : IsPlanned size threads plan.pack
  pub covers : Covers size plan.pack
  pub full : IsFull threads plan.halves

module _ {ℓ κ μ} {V : Type ℓ} {v : AbelianGroup V} {Point : Type κ} {PointAffine : Type μ}
    (g : Points v Point PointAffine) where
  -- No place holds a value but those of the weight 0.
  abbrev pub IsClean : ℕ → ℕ → (ℕ → Point) → Type ℓ
  IsClean size threads accs =
      (a : ℕ) → 0 < a % size → a < threads * size → g.value_of (accs a) ≡ v.none

  -- The sum of the bases' multiples by their chunks' values.
  abbrev pub chunk_sum : (ℕ → PointAffine) → ℕ → (ℕ → ℕ) → V
  chunk_sum bases n chunk_value =
      sum v n (λ i. times v (chunk_value i) (g.value_of_affine (bases i)))

module _ {ℓ κ μ} {V : Type ℓ} {v : AbelianGroup V} {Point : Type κ} {PointAffine : Type μ}
    (g : Points v Point PointAffine) (bases : ℕ → PointAffine) (n k threads : ℕ)
    (positive : 0 < threads) where
  abbrev size : ℕ
  size = pow2 (suc k)

  weigh-IsClean :
      (accs : ℕ → Point) → IsClean g size threads accs → weigh_rows g size threads accs ≡ v.none
  unfolding weigh times
  weigh-IsClean accs clean = sum-none v (threads * size) _ (λ a p.
      elim (Bool-cases (a % size == 0)) [
        | inl nought ↦ let z : a % size ≡ 0 = ground arith in rw z refl
        | inr other ↦
            ap (times v (a % size)) (clean a (ground (arith, other)) p) ∙ times-none v (a % size)
      ])

  -- For a positive number of threads, chunk values below the number of places of a row, and
  -- schedules that run each base once and each index of the other loops: if no place but those of
  -- the weight 0 holds a value, then after processChunk, packThreads and reduce the chunk's result
  -- has as its value the sum of the bases' values times their chunk values, and again no place but
  -- those of the weight 0 holds a value.
  pub one_chunk_lem :
      (chunk_value : ℕ → ℕ) (plan : Plan) (accs : ℕ → Point)
      → ((i : ℕ) → chunk_value i < size)
      → IsSound n size threads plan
      → IsClean g size threads accs
      → (g.value_of (one_chunk g bases chunk_value k threads plan accs).0
          ≡ chunk_sum g bases n chunk_value)
        × IsClean g size threads (one_chunk g bases chunk_value k threads plan accs).1
  unfolding one_chunk
  one_chunk_lem chunk_value plan accs bounded sound clean =
      let accs1 = process_chunk g bases chunk_value size plan.process accs in
      let accs2 = pack_threads g size threads plan.pack accs1 in
      let cleared =
        pack_threads-clear g size threads plan.pack accs1 sound.planned sound.covers
          (pow2-pos (suc k)) in
      let done = reduce_lem g threads plan.halves k accs2 sound.full in
      (
        done.result
            ∙ sym (weigh_rows-first g size threads accs2 positive cleared)
            ∙ pack_threads_lem g size threads plan.pack accs1 sound.planned positive
            ∙ process_chunk_lem g bases chunk_value size threads bounded n plan.process accs
                sound.once
            ∙ ap (λ t. v.plus t (chunk_sum g bases n chunk_value)) (weigh-IsClean accs clean)
            ∙ v.none-plus _,
        λ a weight inside. elim (Bool-cases (ltb a size)) [
          | inl first ↦
              let low : a < size = ground (arith, first) in
              done.clear a (rw (mod-eq_of_lt low) at weight) low
          | inr beyond ↦
              ap g.value_of (done.frame a (ground (arith, beyond)))
              ∙ cleared a (ground (arith, beyond)) inside
        ],
      )

  -- Chunk after chunk, each with a sound plan.
  pub all_chunks_lem :
      (bits : ℕ) (chunk_value : ℕ → ℕ → ℕ) (plans : ℕ → Plan)
      → (all : ℕ) → ((j i : ℕ) → j < all → chunk_value j i < size)
      → ((j : ℕ) → j < all → IsSound n size threads (plans j))
      → (m j : ℕ) (accs : ℕ → Point) (results : List Point) → j + m ≤ all
      → IsClean g size threads accs
      → length results ≡ j
      → weighted g bits results
        ≡ sum v j (λ c. times v (pow2 (bits * c)) (chunk_sum g bases n (chunk_value c)))
      → weighted g bits (all_chunks g bases chunk_value k threads plans m j accs results)
        ≡ sum v (j + m) (λ c. times v (pow2 (bits * c)) (chunk_sum g bases n (chunk_value c)))
  unfolding all_chunks weighted sum
  all_chunks_lem bits chunk_value plans all bounded sound zero j accs results le clean counted e =
      let z : j + 0 ≡ j = omega arith in rw z e
  all_chunks_lem bits chunk_value plans all bounded sound (suc m) j accs results le clean counted
        e =
      let z : j + suc m ≡ suc j + m = omega arith in
      let chunk =
        one_chunk_lem (chunk_value j) (plans j) accs (λ i. bounded j i (omega (arith, le)))
          (sound j (omega (arith, le))) clean in
      rw z (
        all_chunks_lem bits chunk_value plans all bounded sound m (suc j) _ _ (omega (arith, le))
          chunk.1 (ap suc counted)
          (ap₂ v.plus (ap₂ (λ w x. times v (pow2 (bits * w)) x) counted chunk.0) e))

  -- All chunks from fresh accumulators, and their combination.
  pub chunks_lem :
      (bits m : ℕ) (chunk_value : ℕ → ℕ → ℕ) (plans : ℕ → Plan)
      → ((j i : ℕ) → j < m → chunk_value j i < size)
      → ((j : ℕ) → j < m → IsSound n size threads (plans j))
      → g.value_of (
          combine_all g bits
            (all_chunks g bases chunk_value k threads plans m 0 (λ a. g.zero_point) []))
        ≡ sum v m (λ c. times v (pow2 (bits * c)) (chunk_sum g bases n (chunk_value c)))
  unfolding weighted sum
  chunks_lem bits m chunk_value plans bounded sound =
      let z : 0 + m ≡ m = omega arith in
      combine_all_lem g bits _
      ∙ rw z at (
          all_chunks_lem bits chunk_value plans m bounded sound m 0 (λ a. g.zero_point) []
            (omega arith) (λ a p q. g.zero_value) refl refl)

-- ===== src/Multiexp/Process.antt =====
-- processChunk: each base is added at the place of its chunk's value, so that the weighted sum over
-- all rows grows by the multiples of the bases.
use keyless_zk_proofs.Common.{
  ℕ, ◌+◌, ◌*◌, ◌%◌, ◌<◌, ◌≡◌, refl, sym, ◌∙◌, ap, ap₂, arith, [], ◌∷◌, true, false, ◌==◌, ==_iff,
  if◌then◌else◌, Bool-cases, inl, inr,
}
use keyless_zk_proofs.Group.{AbelianGroup, Points}
use keyless_zk_proofs.Group.Times.{times, times-add, plus-none}
use keyless_zk_proofs.Multiexp.{Schedule, process_one, process_chunk}
use keyless_zk_proofs.Multiexp.Sums.{sum, sum_congr, sum-none, sum-plus, sum_exchange, times-none}
use keyless_zk_proofs.Multiexp.Moves.{put_add}
use keyless_zk_proofs.Multiexp.Rows.{row_mod, row_lt, weigh_rows}
use keyless_zk_proofs.Multiexp.Reduce.Halves.{IsPlanned}

-- How often round `i` is run.
abbrev pub count : ℕ → Schedule → ℕ
count i [] = 0
count i ((j, thread) ∷ rounds) = (if j == i then 1 else 0) + count i rounds

-- Every index below `n` is run once, by one of `threads` threads.
abbrev pub IsOnce : ℕ → ℕ → Schedule → Type 0
IsOnce n threads rounds = IsPlanned n threads rounds × ((i : ℕ) → i < n → count i rounds ≡ 1)

module _ {ℓ κ μ} {V : Type ℓ} {v : AbelianGroup V} {Point : Type κ} {PointAffine : Type μ}
    (g : Points v Point PointAffine) where
  -- What the rounds add.
  unfoldable total : (ℕ → V) → Schedule → V
  total f [] = v.none
  total f ((i, thread) ∷ rounds) = v.plus (f i) (total f rounds)

  sum_single :
      (n k : ℕ) (f : ℕ → V) → k < n → sum v n (λ i. times v (if k == i then 1 else 0) (f i)) ≡ f k
  unfolding times
  sum_single n k f lt =
      sym (plus-none v _)
      ∙ sum_exchange v n k _ (λ i. v.none) lt
          (λ i p apart. let other : (k == i) ≡ false = ground arith in rw other refl)
      ∙ ap₂ v.plus (sum-none v n _ (λ i p. refl))
          (let same : (k == k) ≡ true = ground arith in rw same (plus-none v (f k)))
      ∙ v.none-plus _

  total-count :
      (n threads : ℕ) (f : ℕ → V) (rounds : Schedule)
      → IsPlanned n threads rounds
      → total f rounds ≡ sum v n (λ i. times v (count i rounds) (f i))
  unfolding total times
  total-count n threads f [] p = sym (sum-none v n _ (λ i q. refl))
  total-count n threads f ((k, thread) ∷ rounds) (lk, lt, p) =
      ap₂ v.plus (sym (sum_single n k f lk)) (total-count n threads f rounds p)
      ∙ sym (sum-plus v n _ _)
      ∙ sum_congr v n _ _
          (λ i q. sym (times-add v (if k == i then 1 else 0) (count i rounds) (f i)))

  total-sum :
      (n threads : ℕ) (f : ℕ → V) (rounds : Schedule)
      → IsOnce n threads rounds
      → total f rounds ≡ sum v n f
  unfolding times
  total-sum n threads f rounds (planned, once) =
      total-count n threads f rounds planned
      ∙ sum_congr v n _ _ (λ i p. rw (once i p) (plus-none v (f i)))

  module _ (bases : ℕ → PointAffine) (chunk_value : ℕ → ℕ) (size threads : ℕ)
      (bounded : (i : ℕ) → chunk_value i < size) where
    abbrev multiple : ℕ → V
    multiple i = times v (chunk_value i) (g.value_of_affine (bases i))

    process_one-weigh :
        (i thread : ℕ) (accs : ℕ → Point)
        → thread < threads
        → weigh_rows g size threads (process_one g bases chunk_value size (i, thread) accs)
          ≡ v.plus (weigh_rows g size threads accs) (multiple i)
    unfolding process_one times
    process_one-weigh i thread accs lt = elim (Bool-cases (g.is_zero_affine (bases i))) [
      | inl nought ↦
          rw (nought, g.is_zero_affine_value (bases i) nought, times-none v (chunk_value i))
            (sym (plus-none v _))
      | inr other ↦ elim (Bool-cases (chunk_value i == 0)) [
        | inl skipped ↦
            let z : chunk_value i ≡ 0 = (==_iff (chunk_value i) 0).0 skipped in
            rw (other, skipped, z) (sym (plus-none v _))
        | inr kept ↦
            let a = thread * size + chunk_value i in
            rw (other, kept)
              (put_add g (λ a. a % size) (threads * size) a _ accs (g.value_of_affine (bases i))
                  (row_lt size threads thread (chunk_value i) (bounded i) lt)
                  (g.add_affine_value (accs a) (bases i))
                ∙ ap
                    (λ w.
                      v.plus (weigh_rows g size threads accs)
                        (times v w (g.value_of_affine (bases i))))
                    (row_mod size thread (chunk_value i) (bounded i)))
      ]
    ]

    process_chunk-total :
        (n : ℕ) (rounds : Schedule) (accs : ℕ → Point)
        → IsPlanned n threads rounds
        → weigh_rows g size threads (process_chunk g bases chunk_value size rounds accs)
          ≡ v.plus (weigh_rows g size threads accs) (total multiple rounds)
    unfolding process_chunk total
    process_chunk-total n [] accs p = sym (plus-none v _)
    process_chunk-total n ((i, thread) ∷ rounds) accs (li, lt, p) =
        process_chunk-total n rounds _ p
        ∙ ap (λ t. v.plus t (total multiple rounds)) (process_one-weigh i thread accs lt)
        ∙ v.plus_assoc _ _ _

    -- Run once for each base, the loop adds the sum of the bases' multiples to the weighted sum.
    pub process_chunk_lem :
        (n : ℕ) (rounds : Schedule) (accs : ℕ → Point)
        → IsOnce n threads rounds
        → weigh_rows g size threads (process_chunk g bases chunk_value size rounds accs)
          ≡ v.plus (weigh_rows g size threads accs) (sum v n multiple)
    process_chunk_lem n rounds accs once =
        process_chunk-total n rounds accs once.0
        ∙ ap (v.plus _) (total-sum n threads multiple rounds once)

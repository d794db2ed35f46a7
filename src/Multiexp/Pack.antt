-- ===== src/Multiexp/Pack.antt =====
-- packThreads: the rows of all threads are added to the first row, and cleared.
use keyless_zk_proofs.Common.{
  ℕ, zero, suc, ◌+◌, ◌-◌, ◌*◌, ◌%◌, ◌≤◌, ◌<◌, ◌≡◌, refl, sym, ◌∙◌, ap, arith, [], ◌∷◌, true, false,
  ◌==◌, ==_iff, ◌⊎◌, Bool-cases, inl, inr,
}
use native.Mathlib.Nat.{mod-eq_of_lt}
use keyless_zk_proofs.Group.{AbelianGroup, Points}
use keyless_zk_proofs.Group.Times.{times, plus_cancel}
use keyless_zk_proofs.Multiexp.{Schedule, pack_one, pack_column, pack_threads}
use keyless_zk_proofs.Multiexp.Moves.{put_self, put_other, transfer}
use keyless_zk_proofs.Multiexp.Rows.{row_mod, row_lt, by_rows, weigh_rows}
use keyless_zk_proofs.Multiexp.Reduce.Halves.{IsPlanned, Covers, runs}

module _ {ℓ κ μ} {V : Type ℓ} {v : AbelianGroup V} {Point : Type κ} {PointAffine : Type μ}
    (g : Points v Point PointAffine) (size threads : ℕ) where
  pack_one-weigh :
      (i j : ℕ) (accs : ℕ → Point)
      → i < size
      → 0 < j
      → j < threads
      → weigh_rows g size threads (pack_one g size i j accs) ≡ weigh_rows g size threads accs
  unfolding pack_one
  pack_one-weigh i j accs li pj lj = elim (Bool-cases (g.is_zero (accs (j * size + i)))) [
    | inl nought ↦ rw nought refl
    | inr other ↦
        let a = j * size + i in
        let n = threads * size in
        let x = g.value_of (accs a) in
        let inside : i < n = row_lt_first i li (omega (arith, lj)) in
        rw other (
          plus_cancel v _ _ (times v (a % size) x) (
            transfer g (λ a. a % size) n i a accs inside (row_lt size threads j i li lj)
              (apart i j li pj)
            ∙ ap (λ w. v.plus (weigh_rows g size threads accs) (times v w x))
                (mod-eq_of_lt li ∙ sym (row_mod size j i li))))
  ]
    where
      row_lt_first : (i : ℕ) → i < size → 0 < threads → i < threads * size
      row_lt_first i li lt =
          let e : 0 * size + i ≡ i = omega arith in rw e at (row_lt size threads 0 i li lt)

      apart : (i j : ℕ) → i < size → 0 < j → (j * size + i == i) ≡ false
      apart i zero li pj = absurd (omega arith)
      apart i (suc j) li pj =
          let e : suc j * size ≡ size + j * size = omega arith in ground (arith, e)

  -- Outside the first row, a round clears its place and puts no value anywhere.
  pack_one-clear :
      (i j a : ℕ) (accs : ℕ → Point)
      → i < size
      → size ≤ a
      → ((a == j * size + i) ≡ true) ⊎ (g.value_of (accs a) ≡ v.none)
      → g.value_of (pack_one g size i j accs a) ≡ v.none
  unfolding pack_one
  pack_one-clear i j a accs li la h = elim (Bool-cases (g.is_zero (accs (j * size + i)))) [
    | inl nought ↦ rw nought (elim h [
      | inl same ↦
          rw ((==_iff a (j * size + i)).0 same) (g.is_zero_value (accs (j * size + i)) nought)
      | inr e ↦ e
    ])
    | inr other ↦ rw other (elim (Bool-cases (a == j * size + i)) [
      | inl same ↦
          rw ((==_iff a (j * size + i)).0 same)
            (ap g.value_of (put_self g (j * size + i) _ _) ∙ g.zero_value)
      | inr apart ↦
          ap g.value_of (
            put_other g (j * size + i) a _ _ apart
            ∙ put_other g i a _ accs (ground (arith, li, la)))
          ∙ left_alone h apart
    ])
  ]
    where
      left_alone :
          ((a == j * size + i) ≡ true) ⊎ (g.value_of (accs a) ≡ v.none)
          → (a == j * size + i) ≡ false
          → g.value_of (accs a) ≡ v.none
      left_alone (inl same) apart = absurd (ground arith)
      left_alone (inr e) apart = e

  pack_column-weigh :
      (i n j : ℕ) (accs : ℕ → Point)
      → i < size
      → 0 < j
      → j + n ≤ threads
      → weigh_rows g size threads (pack_column g size i n j accs) ≡ weigh_rows g size threads accs
  unfolding pack_column
  pack_column-weigh i zero j accs li pj le = refl
  pack_column-weigh i (suc n) j accs li pj le =
      pack_column-weigh i n (suc j) _ li (omega arith) (omega (arith, le))
      ∙ pack_one-weigh i j accs li pj (omega (arith, le))

  pack_column-keep :
      (i n j a : ℕ) (accs : ℕ → Point)
      → i < size
      → size ≤ a
      → g.value_of (accs a) ≡ v.none
      → g.value_of (pack_column g size i n j accs a) ≡ v.none
  unfolding pack_column
  pack_column-keep i zero j a accs li la e = e
  pack_column-keep i (suc n) j a accs li la e =
      pack_column-keep i n (suc j) a _ li la (pack_one-clear i j a accs li la (inr e))

  pack_column-clear :
      (i n j k a : ℕ) (accs : ℕ → Point)
      → i < size
      → size ≤ a
      → a ≡ k * size + i
      → j ≤ k
      → k < j + n
      → g.value_of (pack_column g size i n j accs a) ≡ v.none
  unfolding pack_column
  pack_column-clear i zero j k a accs li la at_k lo hi = absurd (omega arith)
  pack_column-clear i (suc n) j k a accs li la at_k lo hi = elim (Bool-cases (k == j)) [
    | inl same ↦ pack_column-keep i n (suc j) a _ li la (
        pack_one-clear i j a accs li la
          (inl (rw (at_k, (==_iff k j).0 same) ((==_iff (j * size + i) (j * size + i)).1 refl))))
    | inr later ↦
        pack_column-clear i n (suc j) k a _ li la at_k (ground (arith, lo, later))
          (omega (arith, hi))
  ]

  pack_threads-keep :
      (rounds : Schedule) (a : ℕ) (accs : ℕ → Point)
      → IsPlanned size threads rounds
      → size ≤ a
      → g.value_of (accs a) ≡ v.none
      → g.value_of (pack_threads g size threads rounds accs a) ≡ v.none
  unfolding pack_threads
  pack_threads-keep [] a accs p la e = e
  pack_threads-keep ((i, thread) ∷ rounds) a accs (li, lt, p) la e =
      pack_threads-keep rounds a _ p la (pack_column-keep i (threads - 1) 1 a accs li la e)

  pack_threads-runs :
      (rounds : Schedule) (i k : ℕ) (accs : ℕ → Point)
      → IsPlanned size threads rounds
      → runs i rounds ≡ true
      → size ≤ k * size + i
      → 0 < k
      → k < threads
      → g.value_of (pack_threads g size threads rounds accs (k * size + i)) ≡ v.none
  unfolding pack_threads
  pack_threads-runs [] i k accs p h la pk lk = cc
  pack_threads-runs ((j, thread) ∷ rounds) i k accs (lj, lt, p) h la pk lk =
      elim (Bool-cases (j == i)) [
        | inl same ↦ pack_threads-keep rounds (k * size + i) _ p la (
            pack_column-clear j (threads - 1) 1 k (k * size + i) accs lj la
              (ap (λ (t : ℕ). k * size + t) (sym ((==_iff j i).0 same))) pk (omega (arith, lk)))
        | inr apart ↦ pack_threads-runs rounds i k _ p (rw apart at h) la pk lk
      ]

  -- What the rows hold together stays as it was.
  pub pack_threads_lem :
      (rounds : Schedule) (accs : ℕ → Point)
      → IsPlanned size threads rounds
      → 0 < threads
      → weigh_rows g size threads (pack_threads g size threads rounds accs)
        ≡ weigh_rows g size threads accs
  unfolding pack_threads
  pack_threads_lem [] accs p positive = refl
  pack_threads_lem ((i, thread) ∷ rounds) accs (li, lt, p) positive =
      pack_threads_lem rounds _ p positive
      ∙ pack_column-weigh i (threads - 1) 1 accs li (omega arith) (omega (arith, positive))

  -- Only the first row holds a value afterwards.
  pub pack_threads-clear :
      (rounds : Schedule) (accs : ℕ → Point)
      → IsPlanned size threads rounds
      → Covers size rounds
      → 0 < size
      → (a : ℕ) → size ≤ a
      → a < threads * size
      → g.value_of (pack_threads g size threads rounds accs a) ≡ v.none
  pack_threads-clear rounds accs planned covers positive a lo hi =
      by_rows (λ a. g.value_of (pack_threads g size threads rounds accs a) ≡ v.none) size threads
        (λ j i pj lj li.
          pack_threads-runs rounds i j accs planned (covers i li) (above i j pj) pj lj)
        a positive lo hi
    where
      above : (i j : ℕ) → 0 < j → size ≤ j * size + i
      above i zero pj = absurd (omega arith)
      above i (suc j) pj = let e : suc j * size ≡ size + j * size = omega arith in omega (arith, e)

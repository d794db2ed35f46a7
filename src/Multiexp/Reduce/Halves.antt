-- ===== src/Multiexp/Reduce/Halves.antt =====
-- The loop of reduce that folds the upper half of the accumulators onto the lower half.
use keyless_zk_proofs.Common.{
  ℕ, ◌+◌, ◌≤◌, ◌<◌, ◌≡◌, refl, sym, ◌∙◌, ap, ap₂, arith, [], ◌∷◌, Bool, true, false, ◌||◌, ◌==◌,
  ==_iff, ◌⊎◌, Bool-cases, inl, inr,
}
use keyless_zk_proofs.Group.{AbelianGroup, Points}
use keyless_zk_proofs.Group.Times.{times, times-add, plus-none, plus_cancel, plus_interchange}
use keyless_zk_proofs.Multiexp.{Schedule, reduce_one, reduce_half}
use keyless_zk_proofs.Multiexp.Moves.{put_self, put_other, weigh, put_add, transfer}

-- Every round has an index below `n` and one of `threads` threads.
abbrev pub IsPlanned : ℕ → ℕ → Schedule → Type 0
IsPlanned n threads [] = Unit
IsPlanned n threads ((i, thread) ∷ rounds) =
    (i < n) × (thread < threads) × IsPlanned n threads rounds

-- Round `i` is run.
abbrev pub runs : ℕ → Schedule → Bool
runs i [] = false
runs i ((j, thread) ∷ rounds) = (j == i) || runs i rounds

abbrev pub Covers : ℕ → Schedule → Type 0
Covers n rounds = (i : ℕ) → i < n → runs i rounds ≡ true

module _ {ℓ κ μ} {V : Type ℓ} {v : AbelianGroup V} {Point : Type κ} {PointAffine : Type μ}
    (g : Points v Point PointAffine) (h threads : ℕ) where
  abbrev pub State : Type κ
  State = (ℕ → Point) × (ℕ → Point)

  -- The weighted sum of both halves, and `h` times what the threads' sums hold.
  unfoldable pub potential : State → V
  potential (accs, sall) = v.plus (weigh g (λ a. a) (h + h) accs) (weigh g (λ t. h) threads sall)

  reduce_one-potential :
      (i thread : ℕ) (s : State)
      → i < h
      → thread < threads
      → potential (reduce_one g h (i, thread) s) ≡ potential s
  unfolding reduce_one potential
  reduce_one-potential i thread (accs, sall) li lt = elim (Bool-cases (g.is_zero (accs (h + i)))) [
    | inl zero_point ↦ rw (reduce_one, zero_point) refl
    | inr other ↦
        let x = g.value_of (accs (h + i)) in
        let ix = times v i x in
        let hx = times v h x in
        let w = weigh g (λ a. a) (h + h) accs in
        let s = weigh g (λ t. h) threads sall in
        rw (reduce_one, other)
          (plus_cancel v _ _ (times v (h + i) x) (
            ap (v.plus _) (sym (plus-none v _))
            ∙ plus_interchange v _ _ (times v (h + i) x) v.none
            ∙ ap₂ v.plus
                (transfer g (λ a. a) (h + h) i (h + i) accs (omega arith) (omega arith)
                  (ground arith))
                (plus-none v _
                  ∙ put_add g (λ t. h) threads thread _ sall x lt
                      (g.add_value (sall thread) (accs (h + i))))
            ∙ plus_interchange v w ix s hx
            ∙ ap (v.plus (v.plus w s)) (v.plus_comm ix hx ∙ sym (times-add v h i x))))
  ]

  pub reduce_half_lem :
      (rounds : Schedule) (s : State)
      → IsPlanned h threads rounds
      → potential (reduce_half g h rounds s) ≡ potential s
  unfolding reduce_half
  reduce_half_lem [] s p = refl
  reduce_half_lem ((i, thread) ∷ rounds) s (li, lt, p) =
      reduce_half_lem rounds (reduce_one g h (i, thread) s) p
      ∙ reduce_one-potential i thread s li lt

  -- What lies above both halves is as it was.
  reduce_one-frame :
      (i thread a : ℕ) (s : State) → i < h → h + h ≤ a → (reduce_one g h (i, thread) s).0 a ≡ s.0 a
  unfolding reduce_one
  reduce_one-frame i thread a (accs, sall) li la = elim (Bool-cases (g.is_zero (accs (h + i)))) [
    | inl zero_point ↦ rw (reduce_one, zero_point) refl
    | inr other ↦
        rw (reduce_one, other)
          (put_other g (h + i) a _ _ (ground arith) ∙ put_other g i a _ accs (ground arith))
  ]

  pub reduce_half-frame :
      (rounds : Schedule) (a : ℕ) (s : State)
      → IsPlanned h threads rounds
      → h + h ≤ a
      → (reduce_half g h rounds s).0 a ≡ s.0 a
  unfolding reduce_half
  reduce_half-frame [] a s p la = refl
  reduce_half-frame ((i, thread) ∷ rounds) a s (li, lt, p) la =
      reduce_half-frame rounds a _ p la ∙ reduce_one-frame i thread a s li la

  -- A round leaves no value where its index points to, and puts none into the upper half.
  reduce_one-clear :
      (i thread j : ℕ) (s : State)
      → i < h
      → ((j == i) ≡ true) ⊎ (g.value_of (s.0 (h + j)) ≡ v.none)
      → g.value_of ((reduce_one g h (i, thread) s).0 (h + j)) ≡ v.none
  unfolding reduce_one
  reduce_one-clear i thread j (accs, sall) li h1 = elim (Bool-cases (g.is_zero (accs (h + i)))) [
    | inl zero_point ↦
        rw (reduce_one, zero_point)
          (elim h1 [
            | inl same ↦
                let e : h + i ≡ h + j = ap (λ (t : ℕ). h + t) (sym ((==_iff j i).0 same)) in
                rw (← e) (g.is_zero_value (accs (h + i)) zero_point)
            | inr e ↦ e
          ])
    | inr other ↦
        rw (reduce_one, other)
          (elim (Bool-cases (h + j == h + i)) [
            | inl same ↦
                rw ((==_iff (h + j) (h + i)).0 same)
                  (ap g.value_of (put_self g (h + i) _ _) ∙ g.zero_value)
            | inr apart ↦
                ap g.value_of (
                  put_other g (h + i) (h + j) _ _ apart
                  ∙ put_other g i (h + j) _ accs (ground arith))
                ∙ left_alone h1 apart
          ])
  ]
    where
      left_alone :
          ((j == i) ≡ true) ⊎ (g.value_of (accs (h + j)) ≡ v.none)
          → (h + j == h + i) ≡ false
          → g.value_of (accs (h + j)) ≡ v.none
      left_alone (inl same) apart = absurd (ground arith)
      left_alone (inr e) apart = e

  reduce_half-keep :
      (rounds : Schedule) (j : ℕ) (s : State)
      → IsPlanned h threads rounds
      → g.value_of (s.0 (h + j)) ≡ v.none
      → g.value_of ((reduce_half g h rounds s).0 (h + j)) ≡ v.none
  unfolding reduce_half
  reduce_half-keep [] j s p e = e
  reduce_half-keep ((i, thread) ∷ rounds) j s (li, lt, p) e =
      reduce_half-keep rounds j _ p (reduce_one-clear i thread j s li (inr e))

  pub reduce_half-clear :
      (rounds : Schedule) (j : ℕ) (s : State)
      → IsPlanned h threads rounds
      → runs j rounds ≡ true
      → g.value_of ((reduce_half g h rounds s).0 (h + j)) ≡ v.none
  unfolding reduce_half
  reduce_half-clear [] j s p e = cc
  reduce_half-clear ((i, thread) ∷ rounds) j s (li, lt, p) e = elim (Bool-cases (i == j)) [
    | inl same ↦
        reduce_half-keep rounds j _ p (reduce_one-clear i thread j s li (inl (ground arith)))
    | inr apart ↦ reduce_half-clear rounds j _ p (rw apart at e)
  ]

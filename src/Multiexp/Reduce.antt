-- ===== src/Multiexp/Reduce.antt =====
-- reduce: the accumulators summed up with their indices as weights, and cleared.
pub mod Halves
pub mod Fold
use keyless_zk_proofs.Common.{
  ℕ, zero, suc, ◌+◌, ◌*◌, ◌≤◌, ◌<◌, ◌≡◌, refl, sym, ◌∙◌, ap, ap₂, arith, Bool, true, false, ◌==◌,
  ==_iff, Bool-cases, ltb, ◌⊎◌, inl, inr,
}
use keyless_zk_proofs.Group.{AbelianGroup, Points}
use keyless_zk_proofs.Group.Times.{times, plus-none, plus_cancel, times-double}
use keyless_zk_proofs.Multiexp.{Schedule, pow2, put, reduce_half, add_all, dbl_times, reduce}
use keyless_zk_proofs.Multiexp.Sums.{sum, sum_congr, sum-extend, times-sum, times-times}
use keyless_zk_proofs.Multiexp.Moves.{put_self, put_other, weigh, put_add}
use keyless_zk_proofs.Multiexp.Powers.{pow2-pos}
use Halves.{IsPlanned, Covers}
use Fold.{folded, folded-clear, weigh-split, folded-frame}

-- For every depth, the schedule runs each index of the half, with threads that there are.
abbrev pub IsFull : ℕ → (ℕ → Schedule) → Type 0
IsFull threads schedules =
    (k : ℕ) → IsPlanned (pow2 k) threads (schedules k) × Covers (pow2 k) (schedules k)

module _ {ℓ κ μ} {V : Type ℓ} {v : AbelianGroup V} {Point : Type κ} {PointAffine : Type μ}
    (g : Points v Point PointAffine) where
  pub dbl_times_lem :
      (n : ℕ) (p : Point) → g.value_of (dbl_times g n p) ≡ times v (pow2 n) (g.value_of p)
  unfolding dbl_times times
  dbl_times_lem zero p = sym (plus-none v _)
  dbl_times_lem (suc n) p =
      dbl_times_lem n (g.dbl p)
      ∙ ap (times v (pow2 n)) (g.dbl_value p ∙ ap (v.plus (g.value_of p)) (sym (plus-none v _)))
      ∙ times-times v (pow2 n) 2 (g.value_of p)
      ∙ ap (λ t. times v t (g.value_of p)) (omega arith)

  put_twice :
      (h a : ℕ) (p q : Point) (accs : ℕ → Point)
      → (a == h) ≡ false
      → put g h p (put g h q accs) a ≡ accs a
  put_twice h a p q accs apart = put_other g h a p _ apart ∙ put_other g h a q accs apart

  ltb-cases : (a h : ℕ) → (a < h) ⊎ (h ≤ a)
  ltb-cases a h = elim (Bool-cases (ltb a h)) [
    | inl below ↦ inl (ground arith)
    | inr above ↦ inr (ground arith)
  ]

  -- What reduce leaves: the weighted sum in the result, no value at the places that have a weight,
  -- and the others as they were.
  pub record IsReduction (n : ℕ) (accs : ℕ → Point) (out : Point × (ℕ → Point)) : Type (ℓ ⊔ κ) where
    pub result : g.value_of out.0 ≡ weigh g (λ a. a) n accs
    pub clear : (a : ℕ) → 0 < a → a < n → g.value_of (out.1 a) ≡ v.none
    pub frame : (a : ℕ) → n ≤ a → out.1 a ≡ accs a

  pub reduce_lem :
      (threads : ℕ) (schedules : ℕ → Schedule) (k : ℕ) (accs : ℕ → Point)
      → IsFull threads schedules
      → IsReduction (pow2 (suc k)) accs (reduce g threads schedules k accs)
  unfolding reduce weigh sum times
  reduce_lem threads schedules zero accs full = record {
    result = sym (ap₂ v.plus (plus-none v _) (v.none-plus v.none) ∙ plus-none v _);
    clear = λ a p q.
        let one : a ≡ 1 = omega (arith, p, q) in
        rw one (ap g.value_of (put_self g 1 g.zero_point accs) ∙ g.zero_value);
    frame = λ a p. put_other g 1 a _ accs (ground arith);
  }
  reduce_lem threads schedules (suc k) accs full =
      let h = pow2 (suc k) in
      let rounds = schedules (suc k) in
      let (planned, covers) = full (suc k) in
      let positive : 0 < h = pow2-pos (suc k) in
      let twice : pow2 (suc (suc k)) ≡ h + h = omega arith in
      let accs2 = folded g h threads rounds planned covers positive accs in
      let ih = reduce_lem threads schedules k accs2 full in
      let out3 = reduce g threads schedules k accs2 in
      let top = dbl_times g (suc k) (out3.1 h) in
      record {
        result =
            g.add_value out3.0 top
            ∙ ap₂ v.plus ih.result (
                dbl_times_lem (suc k) (out3.1 h)
                ∙ ap (λ p. times v h (g.value_of p)) (ih.frame h (omega arith)))
            ∙ v.plus_comm _ _
            ∙ rw twice (sym (weigh-split g h threads rounds planned covers positive accs));
        clear = λ a p q. elim (Bool-cases (a == h)) [
          | inl same ↦
              rw ((==_iff a h).0 same) (ap g.value_of (put_self g h g.zero_point _) ∙ g.zero_value)
          | inr apart ↦
              ap g.value_of (put_twice h a g.zero_point top out3.1 apart) ∙ elim (ltb-cases a h) [
                | inl below ↦ ih.clear a p below
                | inr above ↦
                    ap g.value_of (ih.frame a above)
                    ∙ folded-clear g h threads rounds planned covers positive accs a
                        (ground (arith, above, apart)) (omega (arith, q, twice))
              ]
        ];
        frame = λ a p.
            let apart : (a == h) ≡ false = ground (arith, positive, twice, p) in
            put_twice h a g.zero_point top out3.1 apart
            ∙ ih.frame a (omega (arith, p, twice))
            ∙ folded-frame g h threads rounds planned covers positive accs a
                (omega (arith, p, twice));
      }

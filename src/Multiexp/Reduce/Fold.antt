-- ===== src/Multiexp/Reduce/Fold.antt =====
-- One level of reduce: the folded accumulators, with the threads' sums added at the middle.
use keyless_zk_proofs.Common.{ℕ, zero, suc, ◌+◌, ◌-◌, ◌≤◌, ◌<◌, ◌≡◌, sym, ◌∙◌, ap, arith}
use keyless_zk_proofs.Group.{AbelianGroup, Points}
use keyless_zk_proofs.Group.Times.{times, plus-none}
use keyless_zk_proofs.Multiexp.{Schedule, put, reduce_half, add_all}
use keyless_zk_proofs.Multiexp.Sums.{sum, sum-none, sum-extend, times-sum, times-none}
use keyless_zk_proofs.Multiexp.Moves.{put_other, weigh, put_add}
use keyless_zk_proofs.Multiexp.Reduce.Halves.{
  IsPlanned, Covers, potential, reduce_half_lem, reduce_half-clear, reduce_half-frame,
}

module _ {ℓ κ μ} {V : Type ℓ} {v : AbelianGroup V} {Point : Type κ} {PointAffine : Type μ}
    (g : Points v Point PointAffine) where
  -- The loop adds the values from `i` on to what it starts with.
  pub add_all_lem :
      (n i : ℕ) (sall : ℕ → Point) (p : Point) (c : V)
      → g.value_of p ≡ v.plus c (sum v i (λ t. g.value_of (sall t)))
      → g.value_of (add_all g n i sall p) ≡ v.plus c (sum v (i + n) (λ t. g.value_of (sall t)))
  unfolding add_all sum
  add_all_lem zero i sall p c e = let z : i + 0 ≡ i = omega arith in rw z e
  add_all_lem (suc n) i sall p c e =
      let z : i + suc n ≡ suc i + n = omega arith in
      rw z (
        add_all_lem n (suc i) sall (g.add_point p (sall i)) c (
          g.add_value p (sall i)
          ∙ ap (λ t. v.plus t (g.value_of (sall i))) e
          ∙ v.plus_assoc c _ _
          ∙ ap (v.plus c) (v.plus_comm _ _)))

  -- All of them, on top of the point itself.
  add_all_whole :
      (n : ℕ) (sall : ℕ → Point) (p : Point)
      → g.value_of (add_all g n 0 sall p)
        ≡ v.plus (g.value_of p) (sum v n (λ t. g.value_of (sall t)))
  unfolding sum
  add_all_whole n sall p =
      let z : 0 + n ≡ n = omega arith in
      rw z at (add_all_lem n 0 sall p (g.value_of p) (sym (plus-none v _)))

  module _ (h threads : ℕ) (rounds : Schedule) (planned : IsPlanned h threads rounds)
      (covers : Covers h rounds) (positive : 0 < h) (accs : ℕ → Point) where
    abbrev halved : (ℕ → Point) × (ℕ → Point)
    halved = reduce_half g h rounds (accs, λ t. g.cleared)

    abbrev pub folded : ℕ → Point
    folded = put g h (add_all g threads 0 halved.1 (halved.0 h)) halved.0

    potential-start : potential g h threads (accs, λ t. g.cleared) ≡ weigh g (λ a. a) (h + h) accs
    unfolding potential weigh
    potential-start =
        ap (v.plus (weigh g (λ a. a) (h + h) accs))
          (sum-none v threads _ (λ t p. ap (times v h) g.cleared_value ∙ times-none v h))
        ∙ plus-none v _

    -- The weighted sum stays what it was.
    weigh-folded : weigh g (λ a. a) (h + h) folded ≡ weigh g (λ a. a) (h + h) accs
    unfolding potential weigh
    weigh-folded =
        put_add g (λ a. a) (h + h) h _ halved.0 (sum v threads (λ t. g.value_of (halved.1 t)))
          (omega (arith, positive)) (add_all_whole threads halved.1 (halved.0 h))
        ∙ ap (v.plus (weigh g (λ a. a) (h + h) halved.0)) (times-sum v h threads _)
        ∙ reduce_half_lem g h threads rounds (accs, λ t. g.cleared) planned
        ∙ potential-start

    -- Above the middle, no place has a value.
    pub folded-clear : (a : ℕ) → h < a → a < h + h → g.value_of (folded a) ≡ v.none
    folded-clear a lo hi =
        let e : h + (a - h) ≡ a = omega arith in
        let j = a - h in
        ap g.value_of (put_other g h a _ halved.0 (ground arith))
        ∙ rw e at (
            reduce_half-clear g h threads rounds j (accs, λ t. g.cleared) planned
              (covers j (omega (arith, lo, hi))))

    -- The lower half, and the middle `h` times.
    pub weigh-split :
        weigh g (λ a. a) (h + h) accs
        ≡ v.plus (times v h (g.value_of (folded h))) (weigh g (λ a. a) h folded)
    unfolding weigh sum
    weigh-split =
        let e : (h - 1) + suc h ≡ h + h = omega (arith, positive) in
        sym weigh-folded
        ∙ rw (← e) (
            sum-extend v (suc h) (h - 1) (λ a. times v a (g.value_of (folded a)))
              (λ i p q.
                ap (times v i) (folded-clear i (omega arith) (omega (arith, positive, p, q)))
                ∙ times-none v i))

    pub folded-frame : (a : ℕ) → h + h ≤ a → folded a ≡ accs a
    folded-frame a la =
        put_other g h a _ halved.0 (ground (arith, positive))
        ∙ reduce_half-frame g h threads rounds a (accs, λ t. g.cleared) planned la

-- ===== src/Multiexp/Moves.antt =====
-- Accumulators under weights: what one write changes in the weighted sum of their values.
use keyless_zk_proofs.Common.{ℕ, ◌<◌, ◌≡◌, refl, sym, ◌∙◌, ap, arith, false, ◌==◌}
use keyless_zk_proofs.Group.{AbelianGroup, Points}
use keyless_zk_proofs.Group.Times.{times, plus-none, plus_cancel}
use keyless_zk_proofs.Multiexp.{put}
use keyless_zk_proofs.Multiexp.Sums.{sum, sum_exchange, times-plus, times-none}

module _ {ℓ κ μ} {V : Type ℓ} {v : AbelianGroup V} {Point : Type κ} {PointAffine : Type μ}
    (g : Points v Point PointAffine) where
  pub put_self : (a : ℕ) (p : Point) (accs : ℕ → Point) → put g a p accs a ≡ p
  unfolding put
  put_self a p accs = ground arith

  pub put_other :
      (a x : ℕ) (p : Point) (accs : ℕ → Point) → (x == a) ≡ false → put g a p accs x ≡ accs x
  unfolding put
  put_other a x p accs ne = rw (put, ne) refl

  -- The sum of the values of the first `n` accumulators, each times its weight.
  unfoldable pub weigh : (ℕ → ℕ) → ℕ → (ℕ → Point) → V
  weigh w n accs = sum v n (λ a. times v (w a) (g.value_of (accs a)))

  put_exchange :
      (w : ℕ → ℕ) (n a : ℕ) (p : Point) (accs : ℕ → Point)
      → a < n
      → v.plus (weigh w n (put g a p accs)) (times v (w a) (g.value_of (accs a)))
        ≡ v.plus (weigh w n accs) (times v (w a) (g.value_of p))
  unfolding weigh
  put_exchange w n a p accs lt =
      sum_exchange v n a _ _ lt
        (λ i q ne. ap (λ t. times v (w i) (g.value_of t)) (put_other a i p accs ne))
      ∙ ap (λ t. v.plus (weigh w n accs) (times v (w a) (g.value_of t))) (put_self a p accs)

  -- A point that is `x` more than what was there adds `x` times the weight.
  pub put_add :
      (w : ℕ → ℕ) (n a : ℕ) (p : Point) (accs : ℕ → Point) (x : V)
      → a < n
      → g.value_of p ≡ v.plus (g.value_of (accs a)) x
      → weigh w n (put g a p accs) ≡ v.plus (weigh w n accs) (times v (w a) x)
  put_add w n a p accs x lt e = plus_cancel v _ _ (times v (w a) (g.value_of (accs a))) (
      put_exchange w n a p accs lt
      ∙ ap (v.plus (weigh w n accs))
          (ap (times v (w a)) e ∙ times-plus v (w a) (g.value_of (accs a)) x ∙ v.plus_comm _ _)
      ∙ sym (v.plus_assoc _ _ _))

  -- A point of no value takes away what was there.
  pub put_clear :
      (w : ℕ → ℕ) (n a : ℕ) (p : Point) (accs : ℕ → Point)
      → a < n
      → g.value_of p ≡ v.none
      → v.plus (weigh w n (put g a p accs)) (times v (w a) (g.value_of (accs a))) ≡ weigh w n accs
  put_clear w n a p accs lt e =
      put_exchange w n a p accs lt
      ∙ ap (v.plus (weigh w n accs)) (ap (times v (w a)) e ∙ times-none v (w a))
      ∙ plus-none v _

  -- What stands at `b` is added at `a`, and `b` is cleared.
  pub transfer :
      (w : ℕ → ℕ) (n a b : ℕ) (accs : ℕ → Point)
      → a < n
      → b < n
      → (b == a) ≡ false
      → v.plus
          (weigh w n (put g b g.zero_point (put g a (g.add_point (accs a) (accs b)) accs)))
          (times v (w b) (g.value_of (accs b)))
        ≡ v.plus (weigh w n accs) (times v (w a) (g.value_of (accs b)))
  transfer w n a b accs la lb ne =
      let moved = put g a (g.add_point (accs a) (accs b)) accs in
      ap (λ t. v.plus (weigh w n (put g b g.zero_point moved)) (times v (w b) (g.value_of t)))
        (sym (put_other a b (g.add_point (accs a) (accs b)) accs ne))
      ∙ put_clear w n b g.zero_point moved lb g.zero_value
      ∙ put_add w n a _ accs (g.value_of (accs b)) la (g.add_value (accs a) (accs b))

-- ===== src/Field/Laws.antt =====
-- Laws of a commutative ring.
use keyless_zk_proofs.Common.{◌≡◌, sym, ◌∙◌, ap, ap₂}
use keyless_zk_proofs.Group.Times.{plus_cancel}
use keyless_zk_proofs.Field.{CommutativeRing}

module _ {ℓ} {V : Type ℓ} (v : CommutativeRing V) where
  pub plus-mult : (a b c : V) → v.mult (v.sums.plus a b) c ≡ v.sums.plus (v.mult a c) (v.mult b c)
  plus-mult a b c =
      v.mult_comm _ _ ∙ v.mult-plus c a b ∙ ap₂ v.sums.plus (v.mult_comm c a) (v.mult_comm c b)

  pub none-mult : (a : V) → v.mult v.sums.none a ≡ v.sums.none
  none-mult a = plus_cancel v.sums _ _ (v.mult v.sums.none a) (
      sym (plus-mult v.sums.none v.sums.none a)
      ∙ ap (λ t. v.mult t a) (v.sums.none-plus v.sums.none)
      ∙ sym (v.sums.none-plus _))

  -- The product of two sums.
  pub plus-mult-plus :
      (a b c d : V)
      → v.mult (v.sums.plus a b) (v.sums.plus c d)
        ≡ v.sums.plus
            (v.sums.plus (v.mult a c) (v.mult a d))
            (v.sums.plus (v.mult b c) (v.mult b d))
  plus-mult-plus a b c d =
      plus-mult a b (v.sums.plus c d) ∙ ap₂ v.sums.plus (v.mult-plus a c d) (v.mult-plus b c d)

  pub mult_swap : (a b c : V) → v.mult a (v.mult b c) ≡ v.mult b (v.mult a c)
  mult_swap a b c =
      sym (v.mult_assoc a b c) ∙ ap (λ t. v.mult t c) (v.mult_comm a b) ∙ v.mult_assoc b a c

  pub mult-none : (a : V) → v.mult a v.sums.none ≡ v.sums.none
  mult-none a = v.mult_comm _ _ ∙ none-mult a

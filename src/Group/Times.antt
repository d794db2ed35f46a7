-- ===== src/Group/Times.antt =====
-- Multiples in an abelian group.
use keyless_zk_proofs.Common.{ℕ, zero, suc, ◌+◌, ◌*◌, ◌≡◌, sym, ◌∙◌, ap, arith}
use keyless_zk_proofs.Group.{AbelianGroup}

module _ {ℓ} {V : Type ℓ} (v : AbelianGroup V) where
  unfoldable pub times : ℕ → V → V
  times zero x = v.none
  times (suc n) x = v.plus x (times n x)

  pub plus-none : (x : V) → v.plus x v.none ≡ x
  plus-none x = v.plus_comm x v.none ∙ v.none-plus x

  pub times-add : (m n : ℕ) (x : V) → times (m + n) x ≡ v.plus (times m x) (times n x)
  unfolding times
  times-add zero n x = let e : 0 + n ≡ n = omega arith in rw e (sym (v.none-plus _))
  times-add (suc m) n x =
      let e : suc m + n ≡ suc (m + n) = omega arith in
      rw e (ap (v.plus x) (times-add m n x) ∙ sym (v.plus_assoc x (times m x) (times n x)))

  pub times-double : (n : ℕ) (x : V) → v.plus (times n x) (times n x) ≡ times (2 * n) x
  times-double n x = let e : 2 * n ≡ n + n = omega arith in rw e (sym (times-add n n x))

  pub plus_cancel : (a b x : V) → v.plus a x ≡ v.plus b x → a ≡ b
  plus_cancel a b x e = sym (restore a) ∙ ap (λ t. v.plus t (v.opposite x)) e ∙ restore b
    where
      restore : (t : V) → v.plus (v.plus t x) (v.opposite x) ≡ t
      restore t =
          v.plus_assoc t x (v.opposite x)
          ∙ ap (v.plus t) (v.plus_comm x (v.opposite x) ∙ v.opposite-plus x)
          ∙ plus-none t

  pub plus_interchange :
      (a b c d : V) → v.plus (v.plus a b) (v.plus c d) ≡ v.plus (v.plus a c) (v.plus b d)
  plus_interchange a b c d =
      v.plus_assoc a b (v.plus c d)
      ∙ ap (v.plus a)
          (sym (v.plus_assoc b c d) ∙ ap (λ t. v.plus t d) (v.plus_comm b c) ∙ v.plus_assoc c b d)
      ∙ sym (v.plus_assoc a c (v.plus b d))

  pub plus_swap : (a s b : V) → v.plus (v.plus a s) b ≡ v.plus (v.plus b s) a
  plus_swap a s b =
      v.plus_comm (v.plus a s) b ∙ ap (v.plus b) (v.plus_comm a s) ∙ sym (v.plus_assoc b s a)

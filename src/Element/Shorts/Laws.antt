-- ===== src/Element/Shorts/Laws.antt =====
-- What the operations on short operands compute modulo q.
use keyless_zk_proofs.Common.{
  ℕ, suc, ◌+◌, ◌-◌, ◌%◌, ◌≡◌, inl, inr, refl, sym, ◌∙◌, ap, List, arith, Bool-cases,
  mod_eq_of_add_mul, add-mod_congr, add-mod_cancel, neg_mod, neg_mod_cancel, sub-mod_congr,
}
use keyless_zk_proofs.Common.Int.{ℤ, pos, negsuc}
use keyless_zk_proofs.Mpn.{Gmp}
use keyless_zk_proofs.Mpn.Limbs.{value}
use keyless_zk_proofs.Raw.{Modulus}
use keyless_zk_proofs.Raw.Reduction.{Holds}
use keyless_zk_proofs.Raw.Sums.{raw_add_ls_lem, raw_sub_ls_lem, raw_sub_sl_lem, raw_neg_ls_lem}
use keyless_zk_proofs.Raw.Montgomery.Forms.{Holds_congr, Holds-mod}
use keyless_zk_proofs.Element.Memory.{Memory, write_self}
use keyless_zk_proofs.Element.Int32.{InInt32, has_add32_overflow, fits_add32}
use keyless_zk_proofs.Element.Residues.{IsResult}
use keyless_zk_proofs.Element.Meaning.{
  IsResidue, Represents, is_short, is_plain, raw_copy_s2l-Holds,
}
use keyless_zk_proofs.Element.Shorts.{store_short_result, add_short, sub_short, short_sub}

regroup : (a y n : ℕ) → a + n + y ≡ a + (y + n)
regroup a y n = omega arith

module _ (g : Gmp) (m : Modulus) where
  pub add_short-Holds :
      (a : List ℕ) (z : ℤ) (x y : ℕ)
      → Holds m a x
      → InInt32 z
      → IsResidue m.q z y
      → Holds m (add_short g m a z) (x + y)
  unfolding add_short
  add_short-Holds a (pos n) x y ha hz e =
      Holds_congr m _ _ (x + y)
        (add-mod_congr (value a) x n y m.q (Holds-mod m a x ha)
          (sym e ∙ ap (λ t. t % m.q) (omega arith)))
        (raw_add_ls_lem g m a n ha.reduced (omega arith))
  add_short-Holds a (negsuc n) x y ha hz e =
      Holds_congr m _ _ (x + y)
        (add-mod_cancel (value a + (m.q - suc n)) (x + y) (suc n) m.q (omega (arith, m.q_gt)) (
          mod_eq_of_add_mul (value a + (m.q - suc n) + suc n) (value a) 0 1 m.q
            (omega (arith, m.q_gt))
          ∙ Holds-mod m a x ha
          ∙ ap (λ t. t % m.q) (omega arith)
          ∙ add-mod_congr x x 0 (y + suc n) m.q refl (sym e)
          ∙ ap (λ t. t % m.q) (omega arith)))
        (raw_sub_ls_lem g m a (suc n) ha.reduced (omega arith))

  -- The end of the operations on short operands: `v` is what the 64-bit result stands for.
  pub store_short_result-Represents :
      (p : ℕ) (z : ℤ) (mem : Memory) (v : ℕ)
      → IsResult m.q z v
      → Represents m (store_short_result g m p z mem p) v
  unfolding store_short_result
  store_short_result-Represents p z mem v h = elim (Bool-cases (has_add32_overflow z)) [
    | inl over ↦
        rw (over, write_self)
          (is_plain refl (raw_copy_s2l-Holds g m z v (omega arith) (omega arith) h.residue))
    | inr fits ↦
        let (small, same) = fits_add32 z h.pos_small h.neg_small fits in
        rw (fits, write_self) (is_short refl (rw same small) (rw same h.residue))
  ]

  pub sub_short-Holds :
      (a : List ℕ) (z : ℤ) (x y : ℕ)
      → Holds m a x
      → InInt32 z
      → IsResidue m.q z y
      → Holds m (sub_short g m a z) (x + neg_mod m.q y)
  unfolding sub_short
  sub_short-Holds a (pos n) x y ha hz e =
      Holds_congr m _ _ (x + neg_mod m.q y)
        (sub-mod_congr (value a) n x y m.q (omega (arith, m.q_gt)) (omega (arith, m.q_gt))
          (Holds-mod m a x ha) (sym e ∙ ap (λ t. t % m.q) (omega arith)))
        (raw_sub_ls_lem g m a n ha.reduced (omega arith))
  sub_short-Holds a (negsuc n) x y ha hz e =
      Holds_congr m _ _ (x + neg_mod m.q y)
        (add-mod_cancel (value a + suc n) (x + neg_mod m.q y) y m.q (omega (arith, m.q_gt)) (
          ap (λ t. t % m.q) (regroup (value a) y (suc n))
          ∙ add-mod_congr (value a) x (y + suc n) 0 m.q (Holds-mod m a x ha) e
          ∙ ap (λ t. t % m.q) (omega arith)
          ∙ sym (neg_mod_cancel x y m.q (omega (arith, m.q_gt)))))
        (raw_add_ls_lem g m a (suc n) ha.reduced (omega arith))

  pub short_sub-Holds :
      (z : ℤ) (b : List ℕ) (x y : ℕ)
      → InInt32 z
      → IsResidue m.q z x
      → Holds m b y
      → Holds m (short_sub g m z b) (x + neg_mod m.q y)
  unfolding short_sub
  short_sub-Holds (pos n) b x y hz e hb =
      Holds_congr m _ _ (x + neg_mod m.q y)
        (sub-mod_congr n (value b) x y m.q (omega (arith, m.q_gt)) (omega arith)
          (sym e ∙ ap (λ t. t % m.q) (omega arith)) (Holds-mod m b y hb))
        (raw_sub_sl_lem g m n b (omega arith) hb.reduced)
  short_sub-Holds (negsuc n) b x y hz e hb =
      Holds_congr m _ _ (x + neg_mod m.q y)
        (sub-mod_congr (m.q - suc n) (value b) x y m.q (omega (arith, m.q_gt)) (omega arith)
          (add-mod_cancel (m.q - suc n) x (suc n) m.q (omega (arith, m.q_gt))
            (mod_eq_of_add_mul (m.q - suc n + suc n) 0 0 1 m.q (omega (arith, m.q_gt)) ∙ sym e))
          (Holds-mod m b y hb))
        (raw_neg_ls_lem g m b (suc n) hb.reduced (omega arith) (omega arith))

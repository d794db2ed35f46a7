-- ===== src/Element/Aliasing.antt =====
-- Fr_add (fr_generic.cpp) in place with operands of different forms, and Fr_toMontgomery of a short
-- element into an object that held another.
use keyless_zk_proofs.Common.{
  ℕ, ◌+◌, ◌*◌, ◌%◌, ◌≡◌, ◌≢◌, refl, sym, ◌∙◌, ap, arith, add-mod_congr, add-mod_cancel,
}
use keyless_zk_proofs.Common.Int.{neg_part}
use keyless_zk_proofs.Mpn.{Gmp}
use keyless_zk_proofs.Mpn.Limbs.{value}
use keyless_zk_proofs.Raw.{Modulus, raw_add}
use keyless_zk_proofs.Raw.Reduction.{Holds}
use keyless_zk_proofs.Raw.Sums.{raw_add_lem}
use keyless_zk_proofs.Raw.Montgomery.Forms.{r as r256, IsForm, Holds-mod}
use keyless_zk_proofs.Element.Memory.{
  short, short_montgomery, long, long_montgomery, Element, Memory, store_self, set_kind_self,
  set_kind_other,
}
use keyless_zk_proofs.Element.Meaning.{IsResidue, Represents, is_short, is_both, is_plain, is_form}
use keyless_zk_proofs.Element.Convert.{to_montgomery}
use keyless_zk_proofs.Element.Sum.{add}

IsForm-of :
    (m : Modulus) (e : Element) (v : ℕ)
    → Represents m e v
    → e.kind ≡ long_montgomery
    → IsForm m e.long_val v
IsForm-of m e v (is_short k z h) f = cc
IsForm-of m e v (is_both k z h p) f = cc
IsForm-of m e v (is_plain k h) f = cc
IsForm-of m e v (is_form k h) f = h

IsResidue-of :
    (m : Modulus) (e : Element) (v : ℕ)
    → Represents m e v
    → e.kind ≡ short_montgomery
    → IsResidue m.q e.short_val v
IsResidue-of m e v (is_short k z h) f = cc
IsResidue-of m e v (is_both k z h p) f = h
IsResidue-of m e v (is_plain k h) f = cc
IsResidue-of m e v (is_form k h) f = cc

module _ (g : Gmp) (m : Modulus) (uninit : Element) where
  in_place :
      (a b : ℕ) (mem : Memory)
      → a ≢ b
      → (mem a).kind ≡ long
      → (mem b).kind ≡ long_montgomery
      → add g m uninit a a b mem a ≡ record {
        short_val = (mem a).short_val;
        kind = long_montgomery;
        long_val = raw_add g m (mem a).long_val (mem b).long_val;
      }
  unfolding add to_montgomery
  in_place a b mem ne ka kb =
      rw (ka, kb, add) (rw store_self (rw (set_kind_other a b _ mem ne, set_kind_self) refl))

  -- For distinct addresses a and b, a plain long element at a that stands for x, and an element in
  -- Montgomery form at b that stands for y, where 2 ^ 256 * x is not congruent to x modulo q:
  -- after Fr_add(a, a, b) the element at a does not stand for x + y.
  pub add_in_place_mixed :
      (a b : ℕ) (mem : Memory) (x y : ℕ)
      → a ≢ b
      → (mem a).kind ≡ long
      → Holds m (mem a).long_val x
      → (mem b).kind ≡ long_montgomery
      → IsForm m (mem b).long_val y
      → (x * r256) % m.q ≢ x % m.q
      → ¬ Represents m (add g m uninit a a b mem a) (x + y)
  add_in_place_mixed a b mem x y ne ka ha kb hb other h =
      let result = rw (in_place a b mem ne ka kb) at h in
      let f = IsForm-of m _ (x + y) result refl in
      let sum = raw_add_lem g m (mem a).long_val (mem b).long_val ha.reduced hb.reduced in
      other (
        add-mod_cancel (x * r256) x (y * r256) m.q (omega (arith, m.q_gt)) (
          ap (λ t. t % m.q) (omega arith)
          ∙ sym f.same
          ∙ sum.same
          ∙ add-mod_congr (value (mem a).long_val) x (value (mem b).long_val) (y * r256) m.q
              (Holds-mod m _ x ha) (Holds-mod m _ (y * r256) hb)))

  -- For a short element a without a Montgomery form, and a destination whose integer is congruent
  -- to w: if w and x have different remainders modulo q, the destination does not stand for x
  -- after Fr_toMontgomery.
  pub to_montgomery_stale :
      (old a : Element) (x w : ℕ)
      → a.kind ≡ short
      → IsResidue m.q old.short_val w
      → w % m.q ≢ x % m.q
      → ¬ Represents m (to_montgomery g m old a) x
  unfolding to_montgomery
  to_montgomery_stale old a x w ka stale other h =
      let result : IsResidue m.q old.short_val x =
        rw (ka, to_montgomery) at (IsResidue-of m _ x h (rw (ka, to_montgomery))) in
      other (
        add-mod_cancel w x (neg_part old.short_val) m.q (omega (arith, m.q_gt))
          (stale ∙ sym result))

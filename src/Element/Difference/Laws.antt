-- ===== src/Element/Difference/Laws.antt =====
-- Fr_sub subtracts modulo q, in every combination of representations.
use keyless_zk_proofs.Common.{
  ℕ, ◌+◌, ◌*◌, ◌≢◌, sym, List, arith, sub-mod_congr, neg_mod, neg_mod-mul,
}
use keyless_zk_proofs.Common.Int.{◌-ℤ◌}
use keyless_zk_proofs.Mpn.{Gmp}
use keyless_zk_proofs.Mpn.Limbs.{value}
use keyless_zk_proofs.Raw.{Modulus, raw_sub}
use keyless_zk_proofs.Raw.Reduction.{Holds}
use keyless_zk_proofs.Raw.Sums.{raw_sub_lem}
use keyless_zk_proofs.Raw.Montgomery.Forms.{r as r256, IsForm, Holds_congr, Holds-mod}
use keyless_zk_proofs.Element.Memory.{long, long_montgomery, Element, Memory, store}
use keyless_zk_proofs.Element.Int32.{InInt32}
use keyless_zk_proofs.Element.Residues.{ -ℤ-IsResult}
use keyless_zk_proofs.Element.Meaning.{
  IsResidue, Represents, is_short, is_both, is_plain, is_form, store-IsForm, store-Holds, elsewhere,
  limbs_of, short_of,
}
use keyless_zk_proofs.Element.Convert.{to_montgomery}
use keyless_zk_proofs.Element.Convert.Laws.{to_montgomery-IsForm}
use keyless_zk_proofs.Element.Shorts.{store_short_result, sub_short, short_sub}
use keyless_zk_proofs.Element.Shorts.Laws.{
  sub_short-Holds, short_sub-Holds, store_short_result-Represents,
}
use keyless_zk_proofs.Element.Difference.{sub}

module _ (g : Gmp) (m : Modulus) where
  difference-Holds :
      (a b : List ℕ) (x y : ℕ)
      → Holds m a x
      → Holds m b y
      → Holds m (raw_sub g m a b) (x + neg_mod m.q y)
  difference-Holds a b x y ha hb =
      Holds_congr m _ _ (x + neg_mod m.q y)
        (sub-mod_congr (value a) (value b) x y m.q (omega (arith, m.q_gt)) (omega arith)
          (Holds-mod m a x ha) (Holds-mod m b y hb))
        (raw_sub_lem g m a b ha.reduced hb.reduced)

  pub difference-IsForm :
      (a b : List ℕ) (x y : ℕ)
      → IsForm m a x
      → IsForm m b y
      → IsForm m (raw_sub g m a b) (x + neg_mod m.q y)
  difference-IsForm a b x y ha hb =
      Holds_congr m _ _ ((x + neg_mod m.q y) * r256)
        (sym (neg_mod-mul x y r256 m.q (omega (arith, m.q_gt))))
        (difference-Holds a b (x * r256) (y * r256) ha hb)

module _ (g : Gmp) (m : Modulus) (uninit : Element) where
  module _ (p a b : ℕ) (mem : Memory) (x y : ℕ) (pa : p ≢ a) (pb : p ≢ b) where
    converted : Element → List ℕ
    converted e = (to_montgomery g m uninit e).long_val

    convert : (c v : ℕ) → Represents m (mem c) v → IsForm m (converted (mem c)) v
    unfolding converted
    convert c v h = to_montgomery-IsForm g m uninit (mem c) v h

    forms :
        (left right : Element → List ℕ)
        → IsForm m (left (mem a)) x
        → IsForm m (right (mem b)) y
        → Represents m
            (store p long_montgomery (λ at. raw_sub g m (left (at a)) (right (at b))) mem p)
            (x + neg_mod m.q y)
    forms left right ha hb =
        store-IsForm m p a b mem left right (elsewhere left p a mem pa) (elsewhere right p b mem pb)
          (raw_sub g m) (x + neg_mod m.q y) (difference-IsForm g m _ _ x y ha hb)

    plain_short :
        Holds m (mem a).long_val x
        → InInt32 (mem b).short_val
        → IsResidue m.q (mem b).short_val y
        → Represents m
            (store p long (λ at. sub_short g m (at a).long_val (at b).short_val) mem p)
            (x + neg_mod m.q y)
    plain_short ha zb eb =
        store-Holds m p a b mem limbs_of short_of (elsewhere limbs_of p a mem pa)
          (elsewhere short_of p b mem pb) (sub_short g m) (x + neg_mod m.q y)
          (sub_short-Holds g m _ _ x y ha zb eb)

    short_plain :
        InInt32 (mem a).short_val
        → IsResidue m.q (mem a).short_val x
        → Holds m (mem b).long_val y
        → Represents m
            (store p long (λ at. short_sub g m (at a).short_val (at b).long_val) mem p)
            (x + neg_mod m.q y)
    short_plain za ea hb =
        store-Holds m p a b mem short_of limbs_of (elsewhere short_of p a mem pa)
          (elsewhere limbs_of p b mem pb) (short_sub g m) (x + neg_mod m.q y)
          (short_sub-Holds g m _ _ x y za ea hb)

    shorts :
        InInt32 (mem a).short_val
        → IsResidue m.q (mem a).short_val x
        → InInt32 (mem b).short_val
        → IsResidue m.q (mem b).short_val y
        → Represents m
            (store_short_result g m p ((mem a).short_val -ℤ (mem b).short_val) mem p)
            (x + neg_mod m.q y)
    shorts za ea zb eb =
        store_short_result-Represents g m p _ mem (x + neg_mod m.q y)
          (-ℤ-IsResult m.q (omega (arith, m.q_gt)) _ _ x y za zb ea eb)

    -- For every modulus, every GMP with the documented laws, and a destination p other than the
    -- operands' addresses a and b: if the element at a stands for x and the element at b for y,
    -- each in any of the four representations, then after Fr_sub(p, a, b) the element at p stands
    -- for x plus the negative of y modulo q.
    pub sub-Represents :
        Represents m (mem a) x
        → Represents m (mem b) y
        → Represents m (sub g m uninit p a b mem p) (x + neg_mod m.q y)
    unfolding sub converted
    sub-Represents (is_form ka ha) (is_form kb hb) =
        rw (ka, kb, sub) (forms limbs_of limbs_of ha hb)
    sub-Represents (is_form ka ha) (is_both kb zb eb hb) =
        rw (ka, kb, sub) (forms limbs_of limbs_of ha hb)
    sub-Represents (is_both ka za ea ha) (is_form kb hb) =
        rw (ka, kb, sub) (forms limbs_of limbs_of ha hb)
    sub-Represents (is_form ka ha) (is_plain kb hb) =
        rw (ka, kb, sub) (forms limbs_of converted ha (convert b y (is_plain kb hb)))
    sub-Represents (is_form ka ha) (is_short kb zb eb) =
        rw (ka, kb, sub) (forms limbs_of converted ha (convert b y (is_short kb zb eb)))
    sub-Represents (is_plain ka ha) (is_form kb hb) =
        rw (ka, kb, sub) (forms converted limbs_of (convert a x (is_plain ka ha)) hb)
    sub-Represents (is_short ka za ea) (is_form kb hb) =
        rw (ka, kb, sub) (forms converted limbs_of (convert a x (is_short ka za ea)) hb)
    sub-Represents (is_plain ka ha) (is_plain kb hb) =
        rw (ka, kb, sub)
          (store-Holds m p a b mem limbs_of limbs_of (elsewhere limbs_of p a mem pa)
            (elsewhere limbs_of p b mem pb) (raw_sub g m) (x + neg_mod m.q y)
            (difference-Holds g m _ _ x y ha hb))
    sub-Represents (is_plain ka ha) (is_short kb zb eb) = rw (ka, kb, sub) (plain_short ha zb eb)
    sub-Represents (is_plain ka ha) (is_both kb zb eb hb) = rw (ka, kb, sub) (plain_short ha zb eb)
    sub-Represents (is_short ka za ea) (is_plain kb hb) = rw (ka, kb, sub) (short_plain za ea hb)
    sub-Represents (is_both ka za ea ha) (is_plain kb hb) = rw (ka, kb, sub) (short_plain za ea hb)
    sub-Represents (is_short ka za ea) (is_short kb zb eb) = rw (ka, kb, sub) (shorts za ea zb eb)
    sub-Represents (is_short ka za ea) (is_both kb zb eb hb) = rw (ka, kb, sub) (shorts za ea zb eb)
    sub-Represents (is_both ka za ea ha) (is_short kb zb eb) = rw (ka, kb, sub) (shorts za ea zb eb)
    sub-Represents (is_both ka za ea ha) (is_both kb zb eb hb) =
        rw (ka, kb, sub) (shorts za ea zb eb)

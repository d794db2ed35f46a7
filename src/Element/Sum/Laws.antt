-- ===== src/Element/Sum/Laws.antt =====
-- Fr_add adds modulo q, in every combination of representations.
use keyless_zk_proofs.Common.{ℕ, ◌+◌, ◌*◌, ◌%◌, ◌≢◌, ap, List, arith, add-mod_congr}
use keyless_zk_proofs.Common.Int.{◌+ℤ◌}
use keyless_zk_proofs.Mpn.{Gmp}
use keyless_zk_proofs.Mpn.Limbs.{value}
use keyless_zk_proofs.Raw.{Modulus, raw_add}
use keyless_zk_proofs.Raw.Reduction.{Holds}
use keyless_zk_proofs.Raw.Sums.{raw_add_lem}
use keyless_zk_proofs.Raw.Montgomery.Forms.{r as r256, IsForm, Holds_congr, Holds-mod}
use keyless_zk_proofs.Element.Memory.{long, long_montgomery, Element, Memory, store}
use keyless_zk_proofs.Element.Int32.{InInt32}
use keyless_zk_proofs.Element.Residues.{+ℤ-IsResult}
use keyless_zk_proofs.Element.Meaning.{
  IsResidue, Represents, is_short, is_both, is_plain, is_form, store-IsForm, store-Holds, elsewhere,
  limbs_of, short_of,
}
use keyless_zk_proofs.Element.Convert.{to_montgomery}
use keyless_zk_proofs.Element.Convert.Laws.{to_montgomery-IsForm}
use keyless_zk_proofs.Element.Shorts.{store_short_result, add_short}
use keyless_zk_proofs.Element.Shorts.Laws.{add_short-Holds, store_short_result-Represents}
use keyless_zk_proofs.Element.Sum.{add}

module _ (g : Gmp) (m : Modulus) where
  sum-Holds :
      (a b : List ℕ) (x y : ℕ) → Holds m a x → Holds m b y → Holds m (raw_add g m a b) (x + y)
  sum-Holds a b x y ha hb =
      Holds_congr m _ _ (x + y)
        (add-mod_congr (value a) x (value b) y m.q (Holds-mod m a x ha) (Holds-mod m b y hb))
        (raw_add_lem g m a b ha.reduced hb.reduced)

  pub sum-IsForm :
      (a b : List ℕ) (x y : ℕ) → IsForm m a x → IsForm m b y → IsForm m (raw_add g m a b) (x + y)
  sum-IsForm a b x y ha hb =
      Holds_congr m _ _ ((x + y) * r256) (ap (λ t. t % m.q) (omega arith))
        (sum-Holds a b (x * r256) (y * r256) ha hb)

module _ (g : Gmp) (m : Modulus) (uninit : Element) where
  module _ (p a b : ℕ) (mem : Memory) (x y : ℕ) (pa : p ≢ a) (pb : p ≢ b) where
    converted : Element → List ℕ
    converted e = (to_montgomery g m uninit e).long_val

    convert : (c v : ℕ) → Represents m (mem c) v → IsForm m (converted (mem c)) v
    unfolding converted
    convert c v h = to_montgomery-IsForm g m uninit (mem c) v h

    forms :
        (left right : Element → List ℕ)
        → IsForm m (left (mem a)) x
        → IsForm m (right (mem b)) y
        → Represents m
            (store p long_montgomery (λ at. raw_add g m (left (at a)) (right (at b))) mem p)
            (x + y)
    forms left right ha hb =
        store-IsForm m p a b mem left right (elsewhere left p a mem pa) (elsewhere right p b mem pb)
          (raw_add g m) (x + y) (sum-IsForm g m _ _ x y ha hb)

    plain_short :
        Holds m (mem a).long_val x
        → InInt32 (mem b).short_val
        → IsResidue m.q (mem b).short_val y
        → Represents m
            (store p long (λ at. add_short g m (at a).long_val (at b).short_val) mem p)
            (x + y)
    plain_short ha zb eb =
        store-Holds m p a b mem limbs_of short_of (elsewhere limbs_of p a mem pa)
          (elsewhere short_of p b mem pb) (add_short g m) (x + y)
          (add_short-Holds g m _ _ x y ha zb eb)

    short_plain :
        InInt32 (mem a).short_val
        → IsResidue m.q (mem a).short_val x
        → Holds m (mem b).long_val y
        → Represents m
            (store p long (λ at. add_short g m (at b).long_val (at a).short_val) mem p)
            (x + y)
    short_plain za ea hb =
        store-Holds m p b a mem limbs_of short_of (elsewhere limbs_of p b mem pb)
          (elsewhere short_of p a mem pa) (add_short g m) (x + y)
          (Holds_congr m _ (y + x) (x + y) (ap (λ t. t % m.q) (omega arith))
            (add_short-Holds g m _ _ y x hb za ea))

    shorts :
        InInt32 (mem a).short_val
        → IsResidue m.q (mem a).short_val x
        → InInt32 (mem b).short_val
        → IsResidue m.q (mem b).short_val y
        → Represents m
            (store_short_result g m p ((mem a).short_val +ℤ (mem b).short_val) mem p)
            (x + y)
    shorts za ea zb eb =
        store_short_result-Represents g m p _ mem (x + y)
          (+ℤ-IsResult m.q (omega (arith, m.q_gt)) _ _ x y za zb ea eb)

    -- For every modulus, every GMP with the documented laws, and a destination p other than the
    -- operands' addresses a and b: if the element at a stands for x and the element at b for y,
    -- each in any of the four representations, then after Fr_add(p, a, b) the element at p stands
    -- for x + y modulo q.
    pub add-Represents :
        Represents m (mem a) x
        → Represents m (mem b) y
        → Represents m (add g m uninit p a b mem p) (x + y)
    unfolding add converted
    add-Represents (is_form ka ha) (is_form kb hb) =
        rw (ka, kb, add) (forms limbs_of limbs_of ha hb)
    add-Represents (is_form ka ha) (is_both kb zb eb hb) =
        rw (ka, kb, add) (forms limbs_of limbs_of ha hb)
    add-Represents (is_both ka za ea ha) (is_form kb hb) =
        rw (ka, kb, add) (forms limbs_of limbs_of ha hb)
    add-Represents (is_form ka ha) (is_plain kb hb) =
        rw (ka, kb, add) (forms limbs_of converted ha (convert b y (is_plain kb hb)))
    add-Represents (is_form ka ha) (is_short kb zb eb) =
        rw (ka, kb, add) (forms limbs_of converted ha (convert b y (is_short kb zb eb)))
    add-Represents (is_plain ka ha) (is_form kb hb) =
        rw (ka, kb, add) (forms converted limbs_of (convert a x (is_plain ka ha)) hb)
    add-Represents (is_short ka za ea) (is_form kb hb) =
        rw (ka, kb, add) (forms converted limbs_of (convert a x (is_short ka za ea)) hb)
    add-Represents (is_plain ka ha) (is_plain kb hb) =
        rw (ka, kb, add)
          (store-Holds m p a b mem limbs_of limbs_of (elsewhere limbs_of p a mem pa)
            (elsewhere limbs_of p b mem pb) (raw_add g m) (x + y) (sum-Holds g m _ _ x y ha hb))
    add-Represents (is_plain ka ha) (is_short kb zb eb) = rw (ka, kb, add) (plain_short ha zb eb)
    add-Represents (is_plain ka ha) (is_both kb zb eb hb) = rw (ka, kb, add) (plain_short ha zb eb)
    add-Represents (is_short ka za ea) (is_plain kb hb) = rw (ka, kb, add) (short_plain za ea hb)
    add-Represents (is_both ka za ea ha) (is_plain kb hb) = rw (ka, kb, add) (short_plain za ea hb)
    add-Represents (is_short ka za ea) (is_short kb zb eb) = rw (ka, kb, add) (shorts za ea zb eb)
    add-Represents (is_short ka za ea) (is_both kb zb eb hb) = rw (ka, kb, add) (shorts za ea zb eb)
    add-Represents (is_both ka za ea ha) (is_short kb zb eb) = rw (ka, kb, add) (shorts za ea zb eb)
    add-Represents (is_both ka za ea ha) (is_both kb zb eb hb) =
        rw (ka, kb, add) (shorts za ea zb eb)

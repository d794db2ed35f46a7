-- ===== src/Element/Product/Laws.antt =====
-- Fr_mul multiplies modulo q, in every combination of representations.
use native.Mathlib.Nat.{mul_comm}
use keyless_zk_proofs.Common.{
  ℕ, ◌*◌, ◌%◌, ◌≡◌, inl, inr, refl, ◌∙◌, ap, List, arith, Bool-cases, mul-mod_congr,
}
use keyless_zk_proofs.Common.Int.{ℤ, ◌*ℤ◌}
use keyless_zk_proofs.Mpn.{Gmp}
use keyless_zk_proofs.Mpn.Limbs.{value}
use keyless_zk_proofs.Raw.{Modulus, raw_mmul, raw_msquare}
use keyless_zk_proofs.Raw.Reduction.{Holds}
use keyless_zk_proofs.Raw.Montgomery.Forms.{
  r as r256, IsForm, Holds_congr, Holds-mod, of_quotient, raw_mmul-IsForm, raw_mmul_mixed, times_r3,
}
use keyless_zk_proofs.Raw.Montgomery.{IsQuotient, raw_mmul_lem}
use keyless_zk_proofs.Element.Memory.{long, long_montgomery, Memory, write_self, store}
use keyless_zk_proofs.Element.Int32.{InInt32, has_mul32_overflow}
use keyless_zk_proofs.Element.Residues.{IsProduct, *ℤ-IsProduct}
use keyless_zk_proofs.Element.Meaning.{
  IsResidue, Represents, is_short, is_both, is_plain, is_form, raw_copy_s2l-Holds, store-IsForm,
  store-Holds, limbs_of, short_of, limbs_of-set_kind, short_of-set_kind,
}
use keyless_zk_proofs.Element.Convert.{times_short}
use keyless_zk_proofs.Element.Convert.Laws.{times_short_lem}
use keyless_zk_proofs.Element.Product.{store_product, mul, square}

module _ (g : Gmp) (m : Modulus) where
  -- A quotient of a product, from congruent factors.
  factors :
      (s : List ℕ) (u v x y : ℕ)
      → IsQuotient m s (u * v)
      → u % m.q ≡ x % m.q
      → v % m.q ≡ y % m.q
      → IsQuotient m s (x * y)
  factors s u v x y h eu ev = record {
    reduced = h.reduced;
    times_r = h.times_r ∙ mul-mod_congr u x v y m.q eu ev;
  }

  plain_product :
      (a b : List ℕ) (x y : ℕ)
      → Holds m a x
      → Holds m b y
      → IsForm m (raw_mmul g m (raw_mmul g m a b) m.raw_r3) (x * y)
  plain_product a b x y ha hb = times_r3 g m _ (x * y) (
      factors _ (value a) (value b) x y (raw_mmul_lem g m a b ha.reduced.limbs hb.reduced)
        (Holds-mod m a x ha) (Holds-mod m b y hb))

  plain_by_short :
      (a : List ℕ) (z : ℤ) (x y : ℕ)
      → Holds m a x
      → InInt32 z
      → IsResidue m.q z y
      → IsForm m (raw_mmul g m (times_short g m a z) m.raw_r3) (x * y)
  plain_by_short a z x y ha hz e = times_r3 g m _ (x * y) (
      factors _ (value a) y x y (times_short_lem g m a z y ha.reduced hz e) (Holds-mod m a x ha)
        refl)

  form_by_short :
      (a : List ℕ) (z : ℤ) (x y : ℕ)
      → IsForm m a x
      → InInt32 z
      → IsResidue m.q z y
      → Holds m (times_short g m a z) (x * y)
  form_by_short a z x y ha hz e =
      of_quotient m _ (value a * y) (x * y) (times_short_lem g m a z y ha.reduced hz e) (
        mul-mod_congr (value a) (x * r256) y y m.q (Holds-mod m a _ ha) refl
        ∙ ap (λ t. t % m.q) (omega arith))

  store_product-Represents :
      (p : ℕ) (z : ℤ) (mem : Memory) (v : ℕ)
      → IsProduct m.q z v
      → Represents m (store_product g m p z mem p) v
  unfolding store_product
  store_product-Represents p z mem v h =
      let limbs = raw_copy_s2l-Holds g m z v (omega arith) (omega arith) h.residue in
      elim (Bool-cases (has_mul32_overflow z)) [
        | inl over ↦ rw (over, write_self) (is_plain refl limbs)
        | inr fits ↦ rw (fits, write_self) (is_plain refl limbs)
      ]

  module _ (p a b : ℕ) (mem : Memory) (x y : ℕ) where
    forms :
        IsForm m (mem a).long_val x
        → IsForm m (mem b).long_val y
        → Represents m
            (store p long_montgomery (λ at. raw_mmul g m (at a).long_val (at b).long_val) mem p)
            (x * y)
    forms ha hb =
        store-IsForm m p a b mem limbs_of limbs_of (limbs_of-set_kind p a mem)
          (limbs_of-set_kind p b mem) (raw_mmul g m) (x * y) (raw_mmul-IsForm g m _ _ x y ha hb)

    mixed :
        Holds m (raw_mmul g m (mem a).long_val (mem b).long_val) (x * y)
        → Represents m
            (store p long (λ at. raw_mmul g m (at a).long_val (at b).long_val) mem p)
            (x * y)
    mixed h =
        store-Holds m p a b mem limbs_of limbs_of (limbs_of-set_kind p a mem)
          (limbs_of-set_kind p b mem) (raw_mmul g m) (x * y) h

    shorts :
        InInt32 (mem a).short_val
        → IsResidue m.q (mem a).short_val x
        → InInt32 (mem b).short_val
        → IsResidue m.q (mem b).short_val y
        → Represents m (store_product g m p ((mem a).short_val *ℤ (mem b).short_val) mem p) (x * y)
    shorts za ea zb eb =
        store_product-Represents p _ mem (x * y)
          (*ℤ-IsProduct m.q (omega (arith, m.q_gt)) _ _ x y za zb ea eb)

    -- For every modulus, every GMP with the documented laws, and a destination p, also where it is
    -- an operand: if the element at a stands for x and the element at b for y, each in any of the
    -- four representations, then after Fr_mul(p, a, b) the element at p stands for x * y modulo q.
    pub mul-Represents :
        Represents m (mem a) x → Represents m (mem b) y → Represents m (mul g m p a b mem p) (x * y)
    unfolding mul
    mul-Represents (is_form ka ha) (is_form kb hb) = rw (ka, kb, mul) (forms ha hb)
    mul-Represents (is_form ka ha) (is_both kb zb eb hb) = rw (ka, kb, mul) (forms ha hb)
    mul-Represents (is_both ka za ea ha) (is_form kb hb) = rw (ka, kb, mul) (forms ha hb)
    mul-Represents (is_form ka ha) (is_plain kb hb) =
        rw (ka, kb, mul) (mixed (raw_mmul_mixed g m _ _ x y ha hb).0)
    mul-Represents (is_both ka za ea ha) (is_plain kb hb) =
        rw (ka, kb, mul) (mixed (raw_mmul_mixed g m _ _ x y ha hb).0)
    mul-Represents (is_plain ka ha) (is_form kb hb) =
        rw (ka, kb, mul)
          (mixed (
            Holds_congr m _ (y * x) (x * y) (ap (λ t. t % m.q) (mul_comm y x))
              (raw_mmul_mixed g m _ _ y x hb ha).1))
    mul-Represents (is_plain ka ha) (is_both kb zb eb hb) =
        rw (ka, kb, mul)
          (mixed (
            Holds_congr m _ (y * x) (x * y) (ap (λ t. t % m.q) (mul_comm y x))
              (raw_mmul_mixed g m _ _ y x hb ha).1))
    mul-Represents (is_plain ka ha) (is_plain kb hb) =
        rw (ka, kb, mul)
          (store-IsForm m p a b mem limbs_of limbs_of (limbs_of-set_kind p a mem)
            (limbs_of-set_kind p b mem) (λ s t. raw_mmul g m (raw_mmul g m s t) m.raw_r3) (x * y)
            (plain_product _ _ x y ha hb))
    mul-Represents (is_plain ka ha) (is_short kb zb eb) =
        rw (ka, kb, mul)
          (store-IsForm m p a b mem limbs_of short_of (limbs_of-set_kind p a mem)
            (short_of-set_kind p b mem) (λ s z. raw_mmul g m (times_short g m s z) m.raw_r3) (x * y)
            (plain_by_short _ _ x y ha zb eb))
    mul-Represents (is_short ka za ea) (is_plain kb hb) =
        rw (ka, kb, mul)
          (store-IsForm m p a b mem short_of limbs_of (short_of-set_kind p a mem)
            (limbs_of-set_kind p b mem) (λ z s. raw_mmul g m (times_short g m s z) m.raw_r3) (x * y)
            (Holds_congr m _ (y * x * r256) (x * y * r256) (ap (λ t. t * r256 % m.q) (mul_comm y x))
              (plain_by_short _ _ y x hb za ea)))
    mul-Represents (is_form ka ha) (is_short kb zb eb) =
        rw (ka, kb, mul)
          (store-Holds m p a b mem limbs_of short_of (limbs_of-set_kind p a mem)
            (short_of-set_kind p b mem) (times_short g m) (x * y) (form_by_short _ _ x y ha zb eb))
    mul-Represents (is_short ka za ea) (is_form kb hb) =
        rw (ka, kb, mul)
          (store-Holds m p a b mem short_of limbs_of (short_of-set_kind p a mem)
            (limbs_of-set_kind p b mem) (λ z s. times_short g m s z) (x * y)
            (Holds_congr m _ (y * x) (x * y) (ap (λ t. t % m.q) (mul_comm y x))
              (form_by_short _ _ y x hb za ea)))
    mul-Represents (is_short ka za ea) (is_short kb zb eb) = rw (ka, kb, mul) (shorts za ea zb eb)
    mul-Represents (is_short ka za ea) (is_both kb zb eb hb) = rw (ka, kb, mul) (shorts za ea zb eb)
    mul-Represents (is_both ka za ea ha) (is_short kb zb eb) = rw (ka, kb, mul) (shorts za ea zb eb)
    mul-Represents (is_both ka za ea ha) (is_both kb zb eb hb) =
        rw (ka, kb, mul) (shorts za ea zb eb)

  -- If the element at a stands for x, in any of the four representations, then after Fr_square(p,
  -- a), also where p is a, the element at p stands for x * x modulo q.
  pub square-Represents :
      (p a : ℕ) (mem : Memory) (x : ℕ)
      → Represents m (mem a) x
      → Represents m (square g m p a mem p) (x * x)
  unfolding square raw_msquare
  square-Represents p a mem x (is_form ka ha) = rw (ka, square) (forms p a a mem x x ha ha)
  square-Represents p a mem x (is_plain ka ha) =
      rw (ka, square)
        (store-IsForm m p a a mem limbs_of limbs_of (limbs_of-set_kind p a mem)
          (limbs_of-set_kind p a mem) (λ s t. raw_mmul g m (raw_mmul g m s t) m.raw_r3) (x * x)
          (plain_product _ _ x x ha ha))
  square-Represents p a mem x (is_short ka za ea) =
      rw (ka, square) (shorts p a a mem x x za ea za ea)
  square-Represents p a mem x (is_both ka za ea ha) =
      rw (ka, square) (shorts p a a mem x x za ea za ea)

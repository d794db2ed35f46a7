-- ===== src/Element/Convert/Laws.antt =====
-- What the conversions do to the number that an element stands for.
use native.Mathlib.Nat.{mod-mod}
use keyless_zk_proofs.Common.{
  ℕ, suc, ◌+◌, ◌-◌, ◌*◌, ◌%◌, ◌≤◌, ◌≡◌, ◌≢◌, false, ◌⊎◌, inl, inr, refl, sym, ◌∙◌, ap, List, arith,
  mod_eq_of_add_mul, add-mod_congr, mul-mod_congr, add-mod_cancel,
}
use keyless_zk_proofs.Common.Int.{ℤ, pos, negsuc}
use keyless_zk_proofs.Mpn.{Gmp}
use keyless_zk_proofs.Mpn.Limbs.{value}
use keyless_zk_proofs.Raw.{Modulus, raw_mmul, raw_to_montgomery}
use keyless_zk_proofs.Raw.Reduction.{IsReduced, Holds}
use keyless_zk_proofs.Raw.Sums.{raw_neg_lem}
use keyless_zk_proofs.Raw.Montgomery.{IsQuotient, raw_mmul1_lem, r2-IsReduced}
use keyless_zk_proofs.Raw.Montgomery.Forms.{
  r, IsForm, Holds_congr, Holds-mod, of_quotient, raw_from_montgomery-Holds,
  raw_to_montgomery-IsForm,
}
use keyless_zk_proofs.Element.Memory.{short, long, Element, is_long}
use keyless_zk_proofs.Element.Int32.{InInt32}
use keyless_zk_proofs.Element.Meaning.{
  IsResidue, Represents, is_short, is_both, is_plain, is_form, raw_copy_s2l-Holds,
}
use keyless_zk_proofs.Element.Convert.{to_normal, to_long_normal, times_short, to_montgomery}

-- The number is there outside Montgomery form: in the integer of an element that is not long, or in
-- the limbs of a plain long one.
abbrev pub IsNormal : Modulus → Element → ℕ → Type 0
IsNormal m e v =
    ((is_long e.kind ≡ false) × InInt32 e.short_val × IsResidue m.q e.short_val v)
    ⊎ ((e.kind ≡ long) × Holds m e.long_val v)

module _ (g : Gmp) (m : Modulus) where
  -- The negation turns the remainder of a product by |z| into that of the product by z.
  negated :
      (l s n v : ℕ) (a b : List ℕ)
      → Holds m b (m.q - value a)
      → value a ≤ m.q
      → (value a * r) % m.q ≡ (l * n) % m.q
      → (v + n) % m.q ≡ 0 % m.q
      → (value b * r) % m.q ≡ (l * v) % m.q
  negated l s n v a b hb le ea ev =
      add-mod_cancel (value b * r) (l * v) (l * n) m.q (omega (arith, m.q_gt)) (
        add-mod_congr (value b * r) (value b * r) (l * n) (value a * r) m.q refl (sym ea)
        ∙ ap (λ t. t % m.q) regroup
        ∙ mul-mod_congr (value b + value a) 0 r r m.q sum refl
        ∙ ap (λ t. t % m.q) (omega arith)
        ∙ mul-mod_congr l l 0 (v + n) m.q refl (sym ev)
        ∙ ap (λ t. t % m.q) (omega arith))
    where
      regroup : value b * r + value a * r ≡ (value b + value a) * r
      regroup = omega arith

      sum : (value b + value a) % m.q ≡ 0 % m.q
      sum =
          add-mod_congr (value b) (m.q - value a) (value a) (value a) m.q (Holds-mod m b _ hb) refl
          ∙ mod_eq_of_add_mul (m.q - value a + value a) 0 0 1 m.q (omega arith)

  pub times_short_lem :
      (limbs : List ℕ) (z : ℤ) (v : ℕ)
      → IsReduced m limbs
      → InInt32 z
      → IsResidue m.q z v
      → IsQuotient m (times_short g m limbs z) (value limbs * v)
  unfolding times_short
  times_short_lem limbs (pos n) v red hz e =
      let p = raw_mmul1_lem g m limbs n red (omega arith) in
      record {
        reduced = p.reduced;
        times_r =
            p.times_r
            ∙ mul-mod_congr (value limbs) (value limbs) n v m.q refl
                (sym e ∙ ap (λ t. t % m.q) (omega arith));
      }
  times_short_lem limbs (negsuc n) v red hz e =
      let p = raw_mmul1_lem g m limbs (suc n) red (omega arith) in
      let b = raw_neg_lem g m _ p.reduced in
      record {
        reduced = b.reduced;
        times_r = negated (value limbs) 0 (suc n) v _ _ b (omega (arith, p.reduced)) p.times_r e;
      }

  IsForm-of_short :
      (z : ℤ) (v : ℕ) → InInt32 z → IsResidue m.q z v → IsForm m (times_short g m m.raw_r2 z) v
  IsForm-of_short z v hz e =
      of_quotient m _ (value m.raw_r2 * v) (v * r)
        (times_short_lem m.raw_r2 z v (r2-IsReduced m) hz e)
        (mul-mod_congr (value m.raw_r2) (r * r) v v m.q (rw m.r2_value (mod-mod (r * r) m.q)) refl
          ∙ ap (λ t. t % m.q) (omega arith))

  IsForm-of_plain : (a : List ℕ) (v : ℕ) → Holds m a v → IsForm m (raw_mmul g m a m.raw_r2) v
  unfolding raw_to_montgomery
  IsForm-of_plain a v h =
      Holds_congr m _ (value a * r) (v * r)
        (mul-mod_congr (value a) v r r m.q (Holds-mod m a v h) refl)
        (raw_to_montgomery-IsForm g m a h.reduced.limbs)

  -- If a stands for v in any of the four representations, Fr_toMontgomery(old, a) leaves the
  -- Montgomery form of v in the limbs of the destination, whatever it held.
  pub to_montgomery-IsForm :
      (old a : Element) (v : ℕ) → Represents m a v → IsForm m (to_montgomery g m old a).long_val v
  unfolding to_montgomery
  to_montgomery-IsForm old a v (is_short k z e) =
      rw (k, to_montgomery) (IsForm-of_short a.short_val v z e)
  to_montgomery-IsForm old a v (is_both k z e f) = rw (k, to_montgomery) f
  to_montgomery-IsForm old a v (is_plain k h) =
      rw (k, to_montgomery) (IsForm-of_plain a.long_val v h)
  to_montgomery-IsForm old a v (is_form k h) = rw (k, to_montgomery) h

  -- If a stands for v, and a is not a short element without a Montgomery form or the destination
  -- already holds the integer of a, then after Fr_toMontgomery the destination as a whole stands
  -- for v.
  pub to_montgomery-Represents :
      (old a : Element) (v : ℕ)
      → Represents m a v
      → (a.kind ≢ short) ⊎ (old.short_val ≡ a.short_val)
      → Represents m (to_montgomery g m old a) v
  unfolding to_montgomery
  to_montgomery-Represents old a v (is_short k z e) (inl ne) = absurd (ne k)
  to_montgomery-Represents old a v (is_short k z e) (inr same) =
      rw (k, to_montgomery)
        (is_both refl (rw same z) (rw same e) (IsForm-of_short a.short_val v z e))
  to_montgomery-Represents old a v (is_both k z e f) h = rw (k, to_montgomery) (is_both refl z e f)
  to_montgomery-Represents old a v (is_plain k p) h =
      rw (k, to_montgomery) (is_form refl (IsForm-of_plain a.long_val v p))
  to_montgomery-Represents old a v (is_form k p) h = rw (k, to_montgomery) (is_form refl p)

  -- If a stands for v in any of the four representations, Fr_toNormal(old, a) stands for v, and it
  -- holds v outside Montgomery form: it is a plain long element whose limbs are reduced and have
  -- the remainder of v as their value, or it is not long and its 32-bit integer is congruent to v.
  pub to_normal-IsNormal :
      (old a : Element) (v : ℕ)
      → Represents m a v
      → Represents m (to_normal g m old a) v × IsNormal m (to_normal g m old a) v
  unfolding to_normal is_long
  to_normal-IsNormal old a v (is_short k z e) =
      rw (k, to_normal) (is_short refl z e, inl (refl, z, e))
  to_normal-IsNormal old a v (is_both k z e f) =
      rw (k, to_normal) (is_both refl z e f, inl (refl, z, e))
  to_normal-IsNormal old a v (is_plain k p) = rw (k, to_normal) (is_plain refl p, inr (refl, p))
  to_normal-IsNormal old a v (is_form k p) =
      let plain = raw_from_montgomery-Holds g m a.long_val v p in
      rw (k, to_normal) (is_plain refl plain, inr (refl, plain))

  -- If a stands for v in any of the four representations, Fr_toLongNormal(old, a) yields a plain
  -- long element whose limbs are reduced and have the remainder of v as their value.
  pub to_long_normal-Holds :
      (old a : Element) (v : ℕ)
      → Represents m a v
      → Holds m (to_long_normal g m old a).long_val v × ((to_long_normal g m old a).kind ≡ long)
  unfolding to_long_normal
  to_long_normal-Holds old a v (is_short k z e) =
      rw (k, to_long_normal)
        (raw_copy_s2l-Holds g m a.short_val v (omega arith) (omega arith) e, refl)
  to_long_normal-Holds old a v (is_both k z e f) =
      rw (k, to_long_normal)
        (raw_copy_s2l-Holds g m a.short_val v (omega arith) (omega arith) e, refl)
  to_long_normal-Holds old a v (is_plain k p) = rw (k, to_long_normal) (p, refl)
  to_long_normal-Holds old a v (is_form k p) =
      rw (k, to_long_normal) (raw_from_montgomery-Holds g m a.long_val v p, refl)

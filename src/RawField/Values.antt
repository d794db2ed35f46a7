-- ===== src/RawField/Values.antt =====
-- The elements of RawFq as a field: what each stands for is a remainder modulo q.
use native.Mathlib.Nat.{mod-eq_of_lt, mod-mod, mul_assoc, mul_comm, mul-one}
use keyless_zk_proofs.Common.{
  ℕ, ◌+◌, ◌*◌, ◌%◌, ◌<◌, ◌≡◌, refl, sym, ◌∙◌, ap, arith, List, true, add-mod_congr, mul-mod_congr,
  neg_mod, neg_mod_cancel,
}
use keyless_zk_proofs.Common.Int.{ℤ, pos}
use keyless_zk_proofs.Mpn.{Gmp}
use keyless_zk_proofs.Mpn.Limbs.{value, limbs, limbs-IsLimbs, value-limbs_of_lt}
use keyless_zk_proofs.Raw.{Modulus, n64, raw_add, raw_neg, raw_mmul, raw_is_eq, raw_is_zero}
use keyless_zk_proofs.Raw.Reduction.{IsReduced, is_eq→eq, cmp_zero}
use keyless_zk_proofs.Raw.Montgomery.Forms.{
  r, Holds-mod, IsForm, cancel_r, raw_mmul-IsForm, raw_to_montgomery-IsForm,
}
use keyless_zk_proofs.Element.Sum.Laws.{sum-IsForm}
use keyless_zk_proofs.Element.Compare.Laws.{neg-IsForm}
use keyless_zk_proofs.Field.Residues.{Residue, residue, residue_congr, residues}
use keyless_zk_proofs.RawField.{set_value, set_element, raw_zero_element, raw_one_element}

-- An element: reduced limbs.
abbrev pub Reduced : Modulus → Type 0
Reduced m = (a : List ℕ) × IsReduced m a

module _ (m : Modulus) where
  pub large : 1 < m.q
  large = omega (arith, m.q_gt)

  -- The number whose Montgomery form the limbs are.
  abbrev pub decode : List ℕ → ℕ
  decode a = value a * m.r_inverse

  undo : (a : List ℕ) → (decode a * r) % m.q ≡ value a % m.q
  undo a =
      ap (λ t. t % m.q)
        (mul_assoc (value a) m.r_inverse r ∙ ap (λ (t : ℕ). value a * t) (mul_comm m.r_inverse r))
      ∙ mul-mod_congr (value a) (value a) (r * m.r_inverse) 1 m.q refl
          (m.r_inverse_lem ∙ sym (mod-eq_of_lt large))
      ∙ ap (λ t. t % m.q) (mul-one (value a))

  decode-IsForm : (a : List ℕ) → IsReduced m a → IsForm m a (decode a)
  decode-IsForm a ha = record { reduced = ha; same = sym (undo a ∙ mod-eq_of_lt ha.below) }

  IsForm-decode : (a : List ℕ) (x : ℕ) → IsForm m a x → decode a % m.q ≡ x % m.q
  IsForm-decode a x h = cancel_r m (decode a) x (undo a ∙ Holds-mod m a (x * r) h)

module _ (g : Gmp) (m : Modulus) where
  -- What an element stands for.
  abbrev pub val_of : Reduced m → Residue m.q
  val_of a = residue m.q (large m) (decode m a.0)

  pub val_lem :
      (a : Reduced m) (x y : ℕ)
      → IsForm m a.0 x
      → x % m.q ≡ y % m.q
      → val_of a ≡ residue m.q (large m) y
  val_lem a x y h e = residue_congr m.q (large m) (decode m a.0) y (IsForm-decode m a.0 x h ∙ e)

  set-IsForm : (k : ℤ) → set_value g m k < m.q → IsForm m (set_element g m k) (set_value g m k)
  unfolding set_element
  set-IsForm k lt =
      let four = limbs n64 (set_value g m k) in
      let e : value four ≡ set_value g m k =
        value-limbs_of_lt n64 (set_value g m k) (omega (arith, lt, m.q_lt)) in
      rw e at (raw_to_montgomery-IsForm g m four (limbs-IsLimbs n64 (set_value g m k)))

  pub zero-IsForm : IsForm m (raw_zero_element g m) 0
  unfolding raw_zero_element set_value
  zero-IsForm = set-IsForm (pos 0) (omega (arith, m.q_gt))

  pub one-IsForm : IsForm m (raw_one_element g m) 1
  unfolding raw_one_element set_value
  one-IsForm = set-IsForm (pos 1) (omega (arith, m.q_gt))

  pub form : (a : Reduced m) → IsForm m a.0 (decode m a.0)
  form a = decode-IsForm m a.0 a.1

  both :
      (x y : Reduced m) → (decode m x.0 + decode m y.0) % m.q ≡ ((val_of x).0 + (val_of y).0) % m.q
  both x y =
      add-mod_congr _ _ _ _ m.q (sym (mod-mod (decode m x.0) m.q))
        (sym (mod-mod (decode m y.0) m.q))

  pub add_val_lem :
      (x y s : Reduced m)
      → s.0 ≡ raw_add g m x.0 y.0
      → val_of s ≡ (residues m.q (large m)).sums.plus (val_of x) (val_of y)
  add_val_lem x y s e =
      val_lem s (decode m x.0 + decode m y.0) _
        (rw e (sum-IsForm g m x.0 y.0 _ _ (form x) (form y))) (both x y)

  -- A difference and a negative give back what they take away.
  pub restored :
      (y s : Reduced m) (w : ℕ)
      → IsForm m s.0 (w + neg_mod m.q (decode m y.0))
      → (residues m.q (large m)).sums.plus (val_of s) (val_of y) ≡ residue m.q (large m) w
  restored y s w h = residue_congr m.q (large m) _ w (
      sym (both s y)
      ∙ add-mod_congr (decode m s.0) (w + neg_mod m.q (decode m y.0)) (decode m y.0) (decode m y.0)
          m.q (IsForm-decode m s.0 _ h) refl
      ∙ neg_mod_cancel w (decode m y.0) m.q (omega (arith, m.q_gt)))

  pub neg_val_lem :
      (x s : Reduced m)
      → s.0 ≡ raw_neg g m x.0
      → (residues m.q (large m)).sums.plus (val_of s) (val_of x) ≡ residue m.q (large m) 0
  neg_val_lem x s e =
      let z : neg_mod m.q (decode m x.0) ≡ 0 + neg_mod m.q (decode m x.0) = omega arith in
      restored x s 0 (rw e (rw z at (neg-IsForm g m x.0 (decode m x.0) (form x))))

  pub mul_val_lem :
      (x y s : Reduced m)
      → s.0 ≡ raw_mmul g m x.0 y.0
      → val_of s ≡ (residues m.q (large m)).mult (val_of x) (val_of y)
  mul_val_lem x y s e =
      val_lem s (decode m x.0 * decode m y.0) _
        (rw e (raw_mmul-IsForm g m x.0 y.0 _ _ (form x) (form y)))
        (mul-mod_congr _ _ _ _ m.q (sym (mod-mod (decode m x.0) m.q))
          (sym (mod-mod (decode m y.0) m.q)))

  pub is_zero_lem :
      (x : Reduced m) → raw_is_zero g m x.0 ≡ true → val_of x ≡ residue m.q (large m) 0
  unfolding raw_is_zero
  is_zero_lem x h =
      let e : value x.0 ≡ 0 = is_eq→eq _ _ (rw (← cmp_zero g m x.0 x.1.limbs) h) in
      residue_congr m.q (large m) (decode m x.0) 0 (rw e (ap (λ (t : ℕ). t % m.q) (omega arith)))

  pub is_eq_lem : (x y : Reduced m) → raw_is_eq g m x.0 y.0 ≡ true → val_of x ≡ val_of y
  unfolding raw_is_eq
  is_eq_lem x y h =
      let e : value x.0 ≡ value y.0 =
        is_eq→eq _ _ (rw (← g.cmp_value x.0 y.0 n64 x.1.limbs y.1.limbs) h) in
      residue_congr m.q (large m) (decode m x.0) (decode m y.0) (rw e refl)

-- ===== src/RawField/Instance.antt =====
-- RawFq as the field that f2field.cpp and curve.cpp take for their BaseField.
use keyless_zk_proofs.Common.{ℕ, ◌≡◌, refl, sym, ◌∙◌, ap, List}
use keyless_zk_proofs.Mpn.{Gmp}
use keyless_zk_proofs.Mpn.Limbs.{value, limbs, limbs-IsLimbs}
use keyless_zk_proofs.Raw.{
  Modulus, n64, raw_add, raw_sub, raw_neg, raw_mmul, raw_msquare, raw_is_eq, raw_is_zero,
}
use keyless_zk_proofs.Raw.Reduction.{IsReduced}
use keyless_zk_proofs.Raw.Montgomery.{raw_mmul_lem, r3-IsReduced}
use keyless_zk_proofs.Raw.Montgomery.Forms.{raw_mmul-IsForm}
use keyless_zk_proofs.Element.Sum.Laws.{sum-IsForm}
use keyless_zk_proofs.Element.Difference.Laws.{difference-IsForm}
use keyless_zk_proofs.Element.Compare.Laws.{neg-IsForm}
use keyless_zk_proofs.Field.{BaseField}
use keyless_zk_proofs.Field.Residues.{residue, residues}
use keyless_zk_proofs.RawField.{raw_zero_element, raw_one_element, raw_neg_one_element, raw_inv}
use keyless_zk_proofs.RawField.Values.{
  Reduced, large, decode, val_of, val_lem, zero-IsForm, one-IsForm, form, add_val_lem, restored,
  neg_val_lem, mul_val_lem, is_zero_lem, is_eq_lem,
}

module _ (g : Gmp) (m : Modulus) (mpz_invert : ℕ → ℕ → ℕ) where
  pub inv-IsReduced : (a : List ℕ) → IsReduced m (raw_inv g m mpz_invert a)
  unfolding raw_inv
  inv-IsReduced a =
      (raw_mmul_lem g m (limbs n64 (mpz_invert (value a) m.q)) m.raw_r3
        (limbs-IsLimbs n64 (mpz_invert (value a) m.q)) (r3-IsReduced m)).reduced

  abbrev pub one_reduced : Reduced m
  one_reduced = (raw_one_element g m, (one-IsForm g m).reduced)

  pub neg_one-IsReduced : IsReduced m (raw_neg_one_element g m)
  unfolding raw_neg_one_element
  neg_one-IsReduced = (neg-IsForm g m (raw_one_element g m) 1 (one-IsForm g m)).reduced

  abbrev pub neg_one_reduced : Reduced m
  neg_one_reduced = (raw_neg_one_element g m, neg_one-IsReduced)

  pub neg_one_val_lem :
      (residues m.q (large m)).sums.plus (val_of g m neg_one_reduced) (residue m.q (large m) 1)
      ≡ residue m.q (large m) 0
  unfolding raw_neg_one_element
  neg_one_val_lem =
      ap ((residues m.q (large m)).sums.plus (val_of g m neg_one_reduced))
        (sym (val_lem g m one_reduced 1 1 (one-IsForm g m) refl))
      ∙ neg_val_lem g m one_reduced neg_one_reduced refl

  pub msquare-IsReduced : (x : Reduced m) → IsReduced m (raw_msquare g m x.0)
  unfolding raw_msquare
  msquare-IsReduced x = (raw_mmul-IsForm g m x.0 x.0 _ _ (form g m x) (form g m x)).reduced

  pub square_val_lem :
      (x : Reduced m)
      → val_of g m (raw_msquare g m x.0, msquare-IsReduced x)
        ≡ (residues m.q (large m)).mult (val_of g m x) (val_of g m x)
  unfolding raw_msquare
  square_val_lem x = mul_val_lem g m x x (raw_msquare g m x.0, msquare-IsReduced x) refl

  abbrev pub zero_reduced : Reduced m
  zero_reduced = (raw_zero_element g m, (zero-IsForm g m).reduced)

  abbrev pub add_reduced : Reduced m → Reduced m → Reduced m
  add_reduced x y =
      (raw_add g m x.0 y.0, (sum-IsForm g m x.0 y.0 _ _ (form g m x) (form g m y)).reduced)

  abbrev pub sub_reduced : Reduced m → Reduced m → Reduced m
  sub_reduced x y =
      (raw_sub g m x.0 y.0, (difference-IsForm g m x.0 y.0 _ _ (form g m x) (form g m y)).reduced)

  abbrev pub neg_reduced : Reduced m → Reduced m
  neg_reduced x = (raw_neg g m x.0, (neg-IsForm g m x.0 _ (form g m x)).reduced)

  abbrev pub mul_reduced : Reduced m → Reduced m → Reduced m
  mul_reduced x y =
      (raw_mmul g m x.0 y.0, (raw_mmul-IsForm g m x.0 y.0 _ _ (form g m x) (form g m y)).reduced)

  abbrev pub square_reduced : Reduced m → Reduced m
  square_reduced x = (raw_msquare g m x.0, msquare-IsReduced x)

  abbrev pub inv_reduced : Reduced m → Reduced m
  inv_reduced x = (raw_inv g m mpz_invert x.0, inv-IsReduced x.0)

  abbrev pub div_reduced : Reduced m → Reduced m → Reduced m
  div_reduced x y = mul_reduced x (inv_reduced y)

  abbrev pub raw_field : BaseField (residues m.q (large m)) (Reduced m)
  raw_field = record {
    zero_el = zero_reduced;
    one_el = one_reduced;
    neg_one_el = neg_one_reduced;
    add_el = add_reduced;
    sub_el = sub_reduced;
    neg_el = neg_reduced;
    mul_el = mul_reduced;
    square_el = square_reduced;
    inv_el = inv_reduced;
    div_el = div_reduced;
    is_zero_el = λ x. raw_is_zero g m x.0;
    eq_el = λ x y. raw_is_eq g m x.0 y.0;
    val = val_of g m;
    zero_val = val_lem g m zero_reduced 0 0 (zero-IsForm g m) refl;
    one_val = val_lem g m one_reduced 1 1 (one-IsForm g m) refl;
    neg_one_val = neg_one_val_lem;
    add_val = λ x y. add_val_lem g m x y (add_reduced x y) refl;
    sub_val = λ x y.
        restored g m y (sub_reduced x y) (decode m x.0)
          (difference-IsForm g m x.0 y.0 _ _ (form g m x) (form g m y));
    neg_val = λ x. neg_val_lem g m x (neg_reduced x) refl;
    mul_val = λ x y. mul_val_lem g m x y (mul_reduced x y) refl;
    square_val = square_val_lem;
    is_zero_val = is_zero_lem g m;
    eq_val = is_eq_lem g m;
  }

-- ===== src/Tests/Pairs.antt =====
-- The theorems about pairs: over RawFq as alt_bn128.hpp does, and over the remainders modulo 7.
use native.Mathlib.Nat.{mod-eq_of_lt}
use keyless_zk_proofs.Common.{
  ℕ, ◌+◌, ◌*◌, ◌%◌, ◌^◌, ◌<◌, ◌≡◌, refl, sym, ◌∙◌, arith, ◌==◌, ==_iff, neg_mod, neg_mod_cancel,
  add-mod_congr,
}
use keyless_zk_proofs.Mpn.Reference.{reference}
use keyless_zk_proofs.Raw.Fields.{fq}
use keyless_zk_proofs.Field.{CommutativeRing, BaseField}
use keyless_zk_proofs.Field.Residues.{Residue, residue, residue_eq, residue_congr, residues}
use keyless_zk_proofs.RawField.Values.{Reduced, large, val_of}
use keyless_zk_proofs.RawField.Instance.{raw_field, one_reduced, neg_one_reduced, add_reduced}
use keyless_zk_proofs.F2Field.{F2Element, init_field, mul_by_nr, mul, square, inv}
use keyless_zk_proofs.F2Field.Laws.{mul_lem, square_other}
use keyless_zk_proofs.F2Field.Inverse.{inv_lem}

abbrev pub seven : 1 < 7
seven = omega arith

abbrev pub of : ℕ → Residue 7
of n = residue 7 seven n

pub restore : (x : Residue 7) (n : ℕ) → x.0 ≡ n % 7 → of n ≡ x
restore x n e = residue_eq 7 seven (of n) x (sym e)

-- The remainders as their own field; the inverse is the fifth power.
abbrev pub small_field : BaseField (residues 7 seven) (Residue 7)
small_field = record {
  zero_el = of 0;
  one_el = of 1;
  neg_one_el = of 6;
  add_el = λ x y. of (x.0 + y.0);
  sub_el = λ x y. of (x.0 + neg_mod 7 y.0);
  neg_el = λ x. of (neg_mod 7 x.0);
  mul_el = λ x y. of (x.0 * y.0);
  square_el = λ x. of (x.0 * x.0);
  inv_el = λ x. of (x.0 ^ 5);
  div_el = λ x y. of (x.0 * y.0 ^ 5);
  is_zero_el = λ x. x.0 == 0;
  eq_el = λ x y. x.0 == y.0;
  val = λ x. x;
  zero_val = refl;
  one_val = refl;
  neg_one_val = residue_congr 7 seven 7 0 refl;
  add_val = λ x y. refl;
  sub_val = λ x y. restore x _ (
      sym (
        add-mod_congr _ (x.0 + neg_mod 7 y.0) y.0 y.0 7 (omega arith) refl
        ∙ neg_mod_cancel x.0 y.0 7 (omega arith)
        ∙ mod-eq_of_lt x.1));
  neg_val = λ x. residue_congr 7 seven _ 0 (omega (arith, x.1));
  mul_val = λ x y. refl;
  square_val = λ x. refl;
  is_zero_val = λ x h. residue_eq 7 seven x (of 0) ((==_iff x.0 0).0 h);
  eq_val = λ x y h. residue_eq 7 seven x y ((==_iff x.0 y.0).0 h);
}

abbrev pair : ℕ → ℕ → F2Element (Residue 7)
pair x y = record { a = of x; b = of y }

-- 1 + 2 u, over RawFq.
abbrev raw_pair : F2Element (Reduced fq)
raw_pair = record {
  a = one_reduced reference fq (λ a q. 1);
  b =
      add_reduced reference fq (λ a q. 1) (one_reduced reference fq (λ a q. 1))
        (one_reduced reference fq (λ a q. 1));
}

abbrev raw : BaseField (residues fq.q (large fq)) (Reduced fq)
raw = raw_field reference fq (λ a q. 1)

abbrev minus_one : Reduced fq
minus_one = neg_one_reduced reference fq (λ a q. 1)

abbrev v : CommutativeRing (Residue fq.q)
v = residues fq.q (large fq)

abbrev w : CommutativeRing (Residue 7)
w = residues 7 seven

mul_lem_example :
    (val_of reference fq (mul raw (init_field raw minus_one) raw_pair raw_pair).a
      ≡ v.sums.plus (v.mult (val_of reference fq raw_pair.a) (val_of reference fq raw_pair.a)) (
          v.mult
            (val_of reference fq minus_one)
            (v.mult (val_of reference fq raw_pair.b) (val_of reference fq raw_pair.b))))
    × (val_of reference fq (mul raw (init_field raw minus_one) raw_pair raw_pair).b
        ≡ v.sums.plus
            (v.mult (val_of reference fq raw_pair.a) (val_of reference fq raw_pair.b))
            (v.mult (val_of reference fq raw_pair.b) (val_of reference fq raw_pair.a)))
mul_lem_example = mul_lem raw minus_one raw_pair raw_pair

square_other_example :
    w.sums.plus
      (square small_field (init_field small_field (of 3)) (pair 1 1)).a
      (w.mult (w.sums.plus (of 1) (of 1)) (w.mult (of 3) (of 1)))
    ≡ w.sums.plus
        (mul small_field (init_field small_field (of 3)) (pair 1 1) (pair 1 1)).a
        (w.mult (w.sums.plus (of 1) (of 1)) (w.sums.plus (of 1) (of 1)))
unfolding init_field
square_other_example = square_other small_field (of 3) (pair 1 1) refl

inv_lem_example :
    ((mul small_field
        (init_field small_field (of 6))
        (pair 2 3)
        (inv small_field (init_field small_field (of 6)) (pair 2 3))).a
      ≡ of 1)
    × ((mul small_field
          (init_field small_field (of 6))
          (pair 2 3)
          (inv small_field (init_field small_field (of 6)) (pair 2 3))).b
        ≡ of 0)
unfolding init_field mul_by_nr
inv_lem_example = inv_lem small_field (of 6) (pair 2 3) (residue_congr 7 seven 36 1 refl)

-- ===== src/Tests/Scalars.antt =====
-- The scalar field of BN254 as the remainders modulo its order, with a root of unity of order 8.
use native.Mathlib.Nat.{mod-eq_of_lt, mod-mod}
use keyless_zk_proofs.Common.{
  ℕ, zero, suc, ◌+◌, ◌-◌, ◌*◌, ◌%◌, ◌≤◌, ◌<◌, ◌≡◌, refl, sym, ◌∙◌, ap, arith, List, [], ◌∷◌, true,
  false, ◌==◌, ==_iff, leb, ltb, ◌&&◌, Bool-cases, inl, inr, neg_mod, neg_mod_cancel, add-mod_congr,
}
use keyless_zk_proofs.Multiexp.{pow2}
use keyless_zk_proofs.Prover.{alt_bbn128r}
use keyless_zk_proofs.Group.Times.{times}
use keyless_zk_proofs.Field.{CommutativeRing, BaseField}
use keyless_zk_proofs.Field.Residues.{Residue, residue, residue_eq, residue_congr, residues}
use keyless_zk_proofs.Fft.{Fft, Orders}
use keyless_zk_proofs.Fft.Rounds.{IsRange, runs}
use keyless_zk_proofs.Fft.Powers.{power}
use keyless_zk_proofs.Fft.Roots.{IsRootTable, IsOrders}

pub several : 1 < alt_bbn128r
several = omega arith

abbrev pub ring : CommutativeRing (Residue alt_bbn128r)
ring = residues alt_bbn128r several

abbrev pub of : ℕ → Residue alt_bbn128r
of n = residue alt_bbn128r several n

pub restore : (x : Residue alt_bbn128r) (n : ℕ) → x.0 ≡ n % alt_bbn128r → of n ≡ x
restore x n e = residue_eq alt_bbn128r several (of n) x (sym e)

abbrev pub residue_field : BaseField ring (Residue alt_bbn128r)
residue_field = record {
  zero_el = of 0;
  one_el = of 1;
  neg_one_el = of (alt_bbn128r - 1);
  add_el = λ x y. of (x.0 + y.0);
  sub_el = λ x y. of (x.0 + neg_mod alt_bbn128r y.0);
  neg_el = λ x. of (neg_mod alt_bbn128r x.0);
  mul_el = λ x y. of (x.0 * y.0);
  square_el = λ x. of (x.0 * x.0);
  inv_el = λ x. power ring x (alt_bbn128r - 2);
  div_el = λ x y. ring.mult x (power ring y (alt_bbn128r - 2));
  is_zero_el = λ x. x.0 == 0;
  eq_el = λ x y. x.0 == y.0;
  val = λ x. x;
  zero_val = refl;
  one_val = refl;
  neg_one_val = residue_congr alt_bbn128r several alt_bbn128r 0 refl;
  add_val = λ x y. refl;
  sub_val = λ x y. restore x _ (
      sym (
        add-mod_congr _ (x.0 + neg_mod alt_bbn128r y.0) y.0 y.0 alt_bbn128r (mod-mod _ alt_bbn128r)
          refl
        ∙ neg_mod_cancel x.0 y.0 alt_bbn128r (omega arith)
        ∙ mod-eq_of_lt x.1));
  neg_val = λ x. residue_congr alt_bbn128r several _ 0 (
      add-mod_congr _ (neg_mod alt_bbn128r x.0) x.0 x.0 alt_bbn128r (mod-mod _ alt_bbn128r) refl
      ∙ ap (λ (t : ℕ). t % alt_bbn128r) (omega arith)
      ∙ neg_mod_cancel 0 x.0 alt_bbn128r (omega arith));
  mul_val = λ x y. refl;
  square_val = λ x. refl;
  is_zero_val = λ x h. residue_eq alt_bbn128r several x (of 0) ((==_iff x.0 0).0 h);
  eq_val = λ x y h. residue_eq alt_bbn128r several x y ((==_iff x.0 y.0).0 h);
}

-- A root of unity of order 8, and the inverse of 2.
abbrev pub eighth : Residue alt_bbn128r
eighth = of 19540430494807482326159819597004422086093766032135589407132600596362845576832

abbrev half : Residue alt_bbn128r
half = of 10944121435919637611123202872628637544274182200208017171849102093287904247809

abbrev pub table : Fft (Residue alt_bbn128r)
table = record { s = 3; roots = power ring eighth; pow_two_inv = power ring half }

pub table-IsRootTable : IsRootTable residue_field table eighth
unfolding power times
table-IsRootTable = record {
  roots_val = λ i lt. refl;
  minus_one = residue_eq alt_bbn128r several _ (of 0) refl;
  inverse_val = inverses;
}
  where
    inverses : (i : ℕ) → i ≤ 3 → times ring.sums (pow2 i) (power ring half i) ≡ ring.unit
    inverses zero h = residue_eq alt_bbn128r several _ ring.unit refl
    inverses (suc zero) h = residue_eq alt_bbn128r several _ ring.unit refl
    inverses (suc (suc zero)) h = residue_eq alt_bbn128r several _ ring.unit refl
    inverses (suc (suc (suc zero))) h = residue_eq alt_bbn128r several _ ring.unit refl
    inverses (suc (suc (suc (suc i)))) h = absurd (omega (arith, h))

-- The rounds below `n`, the last one first.
abbrev pub countdown : ℕ → List ℕ
countdown zero = []
countdown (suc n) = n ∷ countdown n

pub countdown-IsRange : (n : ℕ) → IsRange 0 n (countdown n)
countdown-IsRange zero i = let e : (leb 0 i && ltb i 0) ≡ false = ground arith in rw e refl
countdown-IsRange (suc n) i = elim (Bool-cases (n == i)) [
  | inl same ↦
      let now : (leb 0 i && ltb i (suc n)) ≡ true = ground arith in
      let before : (leb 0 i && ltb i n) ≡ false = ground arith in
      let none : runs i (countdown n) ≡ 0 = countdown-IsRange n i ∙ rw before refl in
      rw (same, now) (omega (arith, none))
  | inr other ↦
      let both : (leb 0 i && ltb i (suc n)) ≡ (leb 0 i && ltb i n) = ground arith in
      rw (other, both) (omega (arith, countdown-IsRange n i))
]

abbrev pub backwards : Orders
backwards = record { reversal = countdown 4; stages = λ s. countdown 2; swaps = 1 ∷ [] }

pub backwards-IsOrders : IsOrders 2 backwards
backwards-IsOrders = record {
  reversal_range = countdown-IsRange 4;
  stages_range = λ s pos lt. countdown-IsRange 2;
  swaps_range = λ i. ground arith;
}

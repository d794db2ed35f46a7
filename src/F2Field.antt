-- ===== src/F2Field.antt =====
-- f2field.cpp: pairs a + b * u of elements of a field, with u * u = nr.
pub mod Laws
pub mod Inverse
use keyless_zk_proofs.Common.{◌≡◌, Bool, true, false, if◌then◌else◌, ◌&&◌}
use keyless_zk_proofs.Field.{CommutativeRing, BaseField}

pub data TypeOfNr : Type 0 where
  nr_is_zero : TypeOfNr
  nr_is_one : TypeOfNr
  nr_is_negone : TypeOfNr
  nr_is_long : TypeOfNr

-- `typeOfNr == nr_is_negone`.
abbrev pub is_negone : TypeOfNr → Bool
is_negone nr_is_negone = true
is_negone _ = false

-- F2Field::Element.
pub record F2Element {κ} (El : Type κ) : Type κ where
  pub a : El
  pub b : El

pub record F2Field {κ} (El : Type κ) : Type κ where
  pub type_of_nr : TypeOfNr
  pub nr : El
  pub f_one : F2Element El
  pub f_zero : F2Element El
  pub f_neg_one : F2Element El

module _ {ℓ κ} {V : Type ℓ} {v : CommutativeRing V} {El : Type κ} (f : BaseField v El) where
  -- initField.
  unfoldable pub init_field : El → F2Field El
  init_field anr = record {
    type_of_nr =
        if f.is_zero_el anr
        then nr_is_zero
        else if f.eq_el anr f.one_el
        then nr_is_one
        else if f.eq_el anr f.neg_one_el
        then nr_is_negone
        else nr_is_long;
    nr = anr;
    f_one = record { a = f.one_el; b = f.zero_el };
    f_zero = record { a = f.zero_el; b = f.zero_el };
    f_neg_one = record { a = f.neg_one_el; b = f.zero_el };
  }

  -- mulByNr.
  unfoldable pub mul_by_nr : F2Field El → El → El
  mul_by_nr s x = elim s.type_of_nr [
    | nr_is_zero ↦ f.zero_el
    | nr_is_one ↦ x
    | nr_is_negone ↦ f.neg_el x
    | nr_is_long ↦ f.mul_el s.nr x
  ]

  unfoldable pub add : F2Element El → F2Element El → F2Element El
  add x y = record { a = f.add_el x.a y.a; b = f.add_el x.b y.b }

  unfoldable pub sub : F2Element El → F2Element El → F2Element El
  sub x y = record { a = f.sub_el x.a y.a; b = f.sub_el x.b y.b }

  unfoldable pub neg : F2Element El → F2Element El
  neg x = record { a = f.neg_el x.a; b = f.neg_el x.b }

  unfoldable pub mul : F2Field El → F2Element El → F2Element El → F2Element El
  mul s e1 e2 =
      let aa = f.mul_el e1.a e2.a in
      let bb = f.mul_el e1.b e2.b in
      let bbr = mul_by_nr s bb in
      let sum1 = f.add_el e1.a e1.b in
      let sum2 = f.add_el e2.a e2.b in
      record { a = f.add_el aa bbr; b = f.sub_el (f.sub_el (f.mul_el sum1 sum2) aa) bb }

  unfoldable pub square : F2Field El → F2Element El → F2Element El
  square s e1 =
      let ab = f.mul_el e1.a e1.b in
      let tmp1 = f.add_el e1.a e1.b in
      if is_negone s.type_of_nr
      then record { a = f.mul_el tmp1 (f.sub_el e1.a e1.b); b = f.add_el ab ab }
      else (let product = f.mul_el tmp1 (f.add_el e1.a tmp1) in
          let tmp2 = f.add_el ab (mul_by_nr s ab) in
          record { a = f.sub_el product tmp2; b = f.add_el ab ab })

  unfoldable pub inv : F2Field El → F2Element El → F2Element El
  inv s e1 =
      let t0 = f.square_el e1.a in
      let t1 = f.square_el e1.b in
      let t3 = f.inv_el (f.sub_el t0 (mul_by_nr s t1)) in
      record { a = f.mul_el e1.a t3; b = f.neg_el (f.mul_el e1.b t3) }

  unfoldable pub div : F2Field El → F2Element El → F2Element El → F2Element El
  div s e1 e2 = mul s e1 (inv s e2)

  unfoldable pub is_zero : F2Element El → Bool
  is_zero x = f.is_zero_el x.a && f.is_zero_el x.b

  unfoldable pub eq : F2Element El → F2Element El → Bool
  eq x y = f.eq_el x.a y.a && f.eq_el x.b y.b

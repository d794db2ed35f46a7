-- ===== src/Curve.antt =====
-- curve.cpp and curve.hpp: points of y ^ 2 = x ^ 3 + a * x + b, in the coordinates x / zz and
-- y / zzz. A function that writes its result through a reference reads an operand's coordinate for
-- the last time before it writes the result's, so that the result may be an operand.
pub mod Invariant
pub mod Chord
pub mod Addition
use keyless_zk_proofs.Common.{Bool, true, false, if◌then◌else◌, ◌&&◌}
use keyless_zk_proofs.Field.{CommutativeRing, BaseField}

pub data TypeOfA : Type 0 where
  a_is_zero : TypeOfA
  a_is_one : TypeOfA
  a_is_negone : TypeOfA
  a_is_long : TypeOfA

-- `typeOfA != a_is_zero`.
abbrev pub is_not_zero : TypeOfA → Bool
is_not_zero a_is_zero = false
is_not_zero _ = true

-- Curve::Point.
pub record CurvePoint {κ} (El : Type κ) : Type κ where
  pub x : El
  pub y : El
  pub zz : El
  pub zzz : El

-- Curve::PointAffine.
pub record AffinePoint {κ} (El : Type κ) : Type κ where
  pub x : El
  pub y : El

pub record Curve {κ} (El : Type κ) : Type κ where
  pub type_of_a : TypeOfA
  pub fa : El
  pub fb : El
  pub fone : CurvePoint El
  pub fzero : CurvePoint El
  pub fone_affine : AffinePoint El
  pub fzero_affine : AffinePoint El

module _ {ℓ κ} {V : Type ℓ} {v : CommutativeRing V} {El : Type κ} (f : BaseField v El) where
  -- The point that initCurve and copy use for zero.
  unfoldable pub no_point : CurvePoint El
  no_point = record { x = f.one_el; y = f.one_el; zz = f.zero_el; zzz = f.zero_el }

  -- initCurve.
  unfoldable pub init_curve : El → El → El → El → Curve El
  init_curve aa ab agx agy = record {
    type_of_a =
        if f.is_zero_el aa
        then a_is_zero
        else if f.eq_el aa f.one_el
        then a_is_one
        else if f.eq_el aa f.neg_one_el
        then a_is_negone
        else a_is_long;
    fa = aa;
    fb = ab;
    fone = record { x = agx; y = agy; zz = f.one_el; zzz = f.one_el };
    fzero = no_point;
    fone_affine = record { x = agx; y = agy };
    fzero_affine = record { x = f.zero_el; y = f.zero_el };
  }

  -- mulByA.
  unfoldable pub mul_by_a : Curve El → El → El
  mul_by_a c z = elim c.type_of_a [
    | a_is_zero ↦ f.zero_el
    | a_is_one ↦ z
    | a_is_negone ↦ f.neg_el z
    | a_is_long ↦ f.mul_el c.fa z
  ]

  unfoldable pub is_zero_point : CurvePoint El → Bool
  is_zero_point p = f.is_zero_el p.zz

  unfoldable pub is_zero_affine_point : AffinePoint El → Bool
  is_zero_affine_point p = f.is_zero_el p.x && f.is_zero_el p.y

  -- copy of an affine point to a point.
  unfoldable pub copy_affine : AffinePoint El → CurvePoint El
  copy_affine a =
      if is_zero_affine_point a
      then no_point
      else record { x = a.x; y = a.y; zz = f.one_el; zzz = f.one_el }

  -- copy of a point to an affine point.
  unfoldable pub copy_to_affine : CurvePoint El → AffinePoint El
  copy_to_affine a =
      if is_zero_point a
      then record { x = f.zero_el; y = f.zero_el }
      else record { x = f.div_el a.x a.zz; y = f.div_el a.y a.zzz }

  unfoldable pub neg_point : CurvePoint El → CurvePoint El
  neg_point a = record { x = a.x; y = f.neg_el a.y; zz = a.zz; zzz = a.zzz }

  -- neg of an affine point to a point.
  unfoldable pub neg_affine : AffinePoint El → CurvePoint El
  neg_affine a = record { x = a.x; y = f.neg_el a.y; zz = f.one_el; zzz = f.one_el }

  -- neg of an affine point to an affine point.
  unfoldable pub neg_affines : AffinePoint El → AffinePoint El
  neg_affines a = record { x = a.x; y = f.neg_el a.y }

  -- dbl of a point.
  unfoldable pub dbl_point : Curve El → CurvePoint El → CurvePoint El
  dbl_point c p1 =
      if is_zero_point p1
      then p1
      else (let u = f.add_el p1.y p1.y in
          let v = f.square_el u in
          let w = f.mul_el u v in
          let s = f.mul_el p1.x v in
          let m1 = f.square_el p1.x in
          let m2 = f.add_el m1 (f.add_el m1 m1) in
          let m =
            if is_not_zero c.type_of_a then f.add_el m2 (mul_by_a c (f.square_el p1.zz)) else m2 in
          let x3 = f.sub_el (f.sub_el (f.square_el m) s) s in
          record {
            x = x3;
            y = f.sub_el (f.mul_el m (f.sub_el s x3)) (f.mul_el w p1.y);
            zz = f.mul_el v p1.zz;
            zzz = f.mul_el w p1.zzz;
          })

  -- dbl of an affine point.
  unfoldable pub dbl_affine : Curve El → AffinePoint El → CurvePoint El
  dbl_affine c p1 =
      if is_zero_affine_point p1
      then copy_affine p1
      else (let u = f.add_el p1.y p1.y in
          let zz3 = f.square_el u in
          let zzz3 = f.mul_el u zz3 in
          let s = f.mul_el p1.x zz3 in
          let m1 = f.square_el p1.x in
          let m = f.add_el (f.add_el (f.add_el m1 m1) m1) c.fa in
          let x3 = f.sub_el (f.sub_el (f.square_el m) s) s in
          record {
            x = x3;
            y = f.sub_el (f.mul_el m (f.sub_el s x3)) (f.mul_el zzz3 p1.y);
            zz = zz3;
            zzz = zzz3;
          })

  -- X3 and Y3 of an addition, from R, PPP, Q, and the coordinate that PPP is multiplied with.
  unfoldable pub chord : El → El → El → El → El → El → CurvePoint El
  chord r ppp q s1 zz3 zzz3 =
      let x3 = f.sub_el (f.sub_el (f.sub_el (f.square_el r) ppp) q) q in
      record {
        x = x3;
        y = f.sub_el (f.mul_el (f.sub_el q x3) r) (f.mul_el s1 ppp);
        zz = zz3;
        zzz = zzz3;
      }

  -- add of two points.
  unfoldable pub add_points : Curve El → CurvePoint El → CurvePoint El → CurvePoint El
  add_points c p1 p2 =
      let u1 = f.mul_el p1.x p2.zz in
      let s1 = f.mul_el p1.y p2.zzz in
      let p = f.sub_el (f.mul_el p2.x p1.zz) u1 in
      let r = f.sub_el (f.mul_el p2.y p1.zzz) s1 in
      let pp = f.square_el p in
      let ppp = f.mul_el p pp in
      let doubled = dbl_point c p1 in
      if is_zero_point p1
      then p2
      else if is_zero_point p2
      then p1
      else if f.is_zero_el p && f.is_zero_el r
      then doubled
      else chord r ppp (f.mul_el u1 pp) s1 (f.mul_el (f.mul_el p1.zz p2.zz) pp)
          (f.mul_el (f.mul_el p1.zzz p2.zzz) ppp)

  -- add of a point and an affine point.
  unfoldable pub add_mixed : Curve El → CurvePoint El → AffinePoint El → CurvePoint El
  add_mixed c p1 p2 =
      let p = f.sub_el (f.mul_el p2.x p1.zz) p1.x in
      let r = f.sub_el (f.mul_el p2.y p1.zzz) p1.y in
      let pp = f.square_el p in
      let ppp = f.mul_el p pp in
      if is_zero_point p1
      then copy_affine p2
      else if is_zero_affine_point p2
      then p1
      else if f.is_zero_el p && f.is_zero_el r
      then dbl_affine c p2
      else chord r ppp (f.mul_el p1.x pp) p1.y (f.mul_el p1.zz pp) (f.mul_el p1.zzz ppp)

  -- add of two affine points.
  unfoldable pub add_affines : Curve El → AffinePoint El → AffinePoint El → CurvePoint El
  add_affines c p1 p2 =
      let p = f.sub_el p2.x p1.x in
      let r = f.sub_el p2.y p1.y in
      let pp = f.square_el p in
      let ppp = f.mul_el p pp in
      if is_zero_affine_point p1
      then copy_affine p2
      else if is_zero_affine_point p2
      then copy_affine p1
      else if f.is_zero_el p && f.is_zero_el r
      then dbl_affine c p2
      else chord r ppp (f.mul_el p1.x pp) p1.y pp ppp

  -- sub of two points.
  unfoldable pub sub_points : Curve El → CurvePoint El → CurvePoint El → CurvePoint El
  sub_points c p1 p2 = add_points c p1 (neg_point p2)

  -- sub of a point and an affine point.
  unfoldable pub sub_mixed : Curve El → CurvePoint El → AffinePoint El → CurvePoint El
  sub_mixed c p1 p2 = add_mixed c p1 (neg_affines p2)

  -- eq of two points.
  unfoldable pub eq_points : CurvePoint El → CurvePoint El → Bool
  eq_points p1 p2 =
      if is_zero_point p1
      then is_zero_point p2
      else f.is_zero_el (f.sub_el (f.mul_el p2.x p1.zz) (f.mul_el p1.x p2.zz))
        && f.is_zero_el (f.sub_el (f.mul_el p2.y p1.zzz) (f.mul_el p1.y p2.zzz))

  -- eq of a point and an affine point.
  unfoldable pub eq_mixed : CurvePoint El → AffinePoint El → Bool
  eq_mixed p1 p2 =
      if is_zero_point p1
      then is_zero_affine_point p2
      else f.is_zero_el (f.sub_el (f.mul_el p2.x p1.zz) p1.x)
        && f.is_zero_el (f.sub_el (f.mul_el p2.y p1.zzz) p1.y)

  unfoldable pub eq_affines : AffinePoint El → AffinePoint El → Bool
  eq_affines p1 p2 = f.eq_el p1.x p2.x && f.eq_el p1.y p2.y

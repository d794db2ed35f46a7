-- ===== src/Curve/Addition.antt =====
-- add of two points with different x.
use keyless_zk_proofs.Common.{
  ◌≡◌, ◌≢◌, refl, sym, ◌∙◌, ap, ap₂, Bool, true, false, Bool-cases, inl, inr, ◌&&◌,
}
use keyless_zk_proofs.Group.Times.{plus_cancel}
use keyless_zk_proofs.Field.{CommutativeRing, BaseField}
use keyless_zk_proofs.Field.Laws.{plus-mult}
use keyless_zk_proofs.Curve.{CurvePoint, Curve, is_zero_point, add_points}
use keyless_zk_proofs.Curve.Invariant.{third-mult, mult_interchange, IsPoint}
use keyless_zk_proofs.Curve.Chord.{Represents, IsChord, chord_lem}

and_true : (a b : Bool) → (a && b) ≡ true → a ≡ true
and_true true b h = refl
and_true false b h = cc

module _ {ℓ κ} {V : Type ℓ} {v : CommutativeRing V} {El : Type κ} (f : BaseField v El) where
  -- P and R: a difference of multiples.
  gap :
      (u2 u1 : El) (m a b d : V)
      → f.val u2 ≡ v.mult a m
      → f.val u1 ≡ v.mult b m
      → v.sums.plus d b ≡ a
      → f.val (f.sub_el u2 u1) ≡ v.mult m d
  gap u2 u1 m a b d e2 e1 h = plus_cancel v.sums _ _ (f.val u1) (
      f.sub_val u2 u1
      ∙ e2
      ∙ ap (λ s. v.mult s m) (sym h)
      ∙ plus-mult v d b m
      ∙ ap₂ v.sums.plus (v.mult_comm d m) (sym e1))

  -- U1, U2, S1 and S2: a coordinate over the common denominator.
  common :
      (c k : El) (x m : V)
      → f.val c ≡ v.mult x m
      → f.val (f.mul_el c k) ≡ v.mult x (v.mult m (f.val k))
  common c k x m e = f.mul_val c k ∙ ap (λ s. v.mult s (f.val k)) e ∙ v.mult_assoc x m (f.val k)

  -- Over every field of elements with values in a commutative ring: for points p1 and p2 with zz ^
  -- 3 = zzz ^ 2 and the affine coordinates (x1, y1) and (x2, y2), of denominators zz other than 0
  -- whose product with x2 - x1 is other than 0, and for (x3, y3) on the line of slope l through
  -- both, l * (x2 - x1) = y2 - y1, x3 = l * l - x1 - x2 and y3 = l * (x1 - x3) - y1: Curve::add of
  -- p1 and p2 is a point with the affine coordinates (x3, y3).
  pub add_points_lem :
      (c : Curve El) (p1 p2 : CurvePoint El) (x1 y1 x2 y2 x3 y3 l dx e : V)
      → IsPoint f p1
      → IsPoint f p2
      → Represents f p1 x1 y1
      → Represents f p2 x2 y2
      → f.val p1.zz ≢ v.sums.none
      → f.val p2.zz ≢ v.sums.none
      → v.mult (v.mult (f.val p1.zz) (f.val p2.zz)) dx ≢ v.sums.none
      → IsChord f x1 y1 x2 y2 x3 y3 l dx e
      → Represents f (add_points f c p1 p2) x3 y3
  unfolding add_points is_zero_point
  add_points_lem c p1 p2 x1 y1 x2 y2 x3 y3 l dx e h1 h2 r1 r2 n1 n2 nd line =
      let w = v.mult (f.val p1.zz) (f.val p2.zz) in
      let t = v.mult (f.val p1.zzz) (f.val p2.zzz) in
      let u1 = f.mul_el p1.x p2.zz in
      let s1 = f.mul_el p1.y p2.zzz in
      let u2 = f.mul_el p2.x p1.zz in
      let s2 = f.mul_el p2.y p1.zzz in
      let p = f.sub_el u2 u1 in
      let r = f.sub_el s2 s1 in
      let eu1 = common p1.x p2.zz x1 (f.val p1.zz) r1.0 in
      let es1 = common p1.y p2.zzz y1 (f.val p1.zzz) r1.1 in
      let ep : f.val p ≡ v.mult w dx =
        gap u2 u1 w x2 x1 dx
          (common p2.x p1.zz x2 (f.val p2.zz) r2.0 ∙ ap (v.mult x2) (v.mult_comm _ _)) eu1 line.0 in
      let er : f.val r ≡ v.mult t (v.mult l dx) =
        gap s2 s1 t y2 y1 (v.mult l dx)
          (common p2.y p1.zzz y2 (f.val p2.zzz) r2.1 ∙ ap (v.mult y2) (v.mult_comm _ _)) es1
          line.1 in
      elim (Bool-cases (f.is_zero_el p1.zz)) [
        | inl nought ↦ absurd (n1 (f.is_zero_val p1.zz nought))
        | inr other ↦ elim (Bool-cases (f.is_zero_el p2.zz)) [
          | inl nought ↦ absurd (n2 (f.is_zero_val p2.zz nought))
          | inr another ↦ elim (Bool-cases (f.is_zero_el p && f.is_zero_el r)) [
            | inl same ↦ absurd (nd (sym ep ∙ f.is_zero_val p (and_true _ _ same)))
            | inr apart ↦
                rw (other, another, apart)
                  (chord_lem f p r u1 s1 _ _ w t x1 y1 x2 y2 x3 y3 l dx e
                    (third-mult f _ _ ∙ ap₂ v.mult h1 h2 ∙ mult_interchange f _ _ _ _) ep er eu1 es1
                    (f.mul_val _ _
                      ∙ ap (λ s. v.mult s (f.val (f.square_el p))) (f.mul_val p1.zz p2.zz))
                    (f.mul_val _ _
                      ∙ ap (λ s. v.mult s (f.val (f.mul_el p (f.square_el p))))
                          (f.mul_val p1.zzz p2.zzz))
                    line)
          ]
        ]
      ]

-- ===== src/Curve/Invariant.antt =====
-- The two denominators of a point: zz ^ 3 = zzz ^ 2, which every operation keeps.
use keyless_zk_proofs.Common.{◌≡◌, sym, ◌∙◌, ap, ap₂, Bool-cases, inl, inr, ◌&&◌}
use keyless_zk_proofs.Field.{CommutativeRing, BaseField}
use keyless_zk_proofs.Field.Laws.{mult_swap, none-mult}
use keyless_zk_proofs.Curve.{
  CurvePoint, AffinePoint, Curve, is_zero_point, is_zero_affine_point, no_point, copy_affine,
  neg_point, neg_affines, chord, dbl_point, dbl_affine, add_points, add_mixed, add_affines,
  sub_points, sub_mixed,
}

module _ {ℓ κ} {V : Type ℓ} {v : CommutativeRing V} {El : Type κ} (f : BaseField v El) where
  abbrev pub second : V → V
  second a = v.mult a a

  abbrev pub third : V → V
  third a = v.mult a (v.mult a a)

  pub mult_interchange :
      (a b c d : V) → v.mult (v.mult a b) (v.mult c d) ≡ v.mult (v.mult a c) (v.mult b d)
  mult_interchange a b c d =
      v.mult_assoc a b (v.mult c d)
      ∙ ap (v.mult a) (mult_swap v b c d)
      ∙ sym (v.mult_assoc a c (v.mult b d))

  pub third-mult : (a b : V) → third (v.mult a b) ≡ v.mult (third a) (third b)
  third-mult a b =
      ap (v.mult (v.mult a b)) (mult_interchange a b a b)
      ∙ mult_interchange a b (second a) (second b)

  third-second : (a : V) → third (second a) ≡ second (third a)
  third-second a = mult_interchange a a (second a) (second a)

  -- The third power of zz is the second power of zzz.
  abbrev pub IsPoint : CurvePoint El → Type ℓ
  IsPoint p = third (f.val p.zz) ≡ second (f.val p.zzz)

  -- A factor `d ^ 2` of zz and `d ^ 3` of zzz keeps the relation.
  scaled :
      (zz zzz : V) (zz3 zzz3 d : El)
      → third zz ≡ second zzz
      → f.val zz3 ≡ v.mult zz (f.val (f.square_el d))
      → f.val zzz3 ≡ v.mult zzz (f.val (f.mul_el d (f.square_el d)))
      → third (f.val zz3) ≡ second (f.val zzz3)
  scaled zz zzz zz3 zzz3 d h e e' =
      ap third (e ∙ ap (v.mult zz) (f.square_val d))
      ∙ third-mult zz (second (f.val d))
      ∙ ap₂ v.mult h (third-second (f.val d))
      ∙ mult_interchange zzz zzz (third (f.val d)) (third (f.val d))
      ∙ ap second
          (sym (e' ∙ ap (v.mult zzz) (f.mul_val d _ ∙ ap (v.mult (f.val d)) (f.square_val d))))

  -- The denominators of a point that is a square and a third power.
  plain : (d : El) → third (f.val (f.square_el d)) ≡ second (f.val (f.mul_el d (f.square_el d)))
  plain d =
      ap third (f.square_val d)
      ∙ third-second (f.val d)
      ∙ ap second (sym (f.mul_val d _ ∙ ap (v.mult (f.val d)) (f.square_val d)))

  pub no_point-IsPoint : IsPoint (no_point f)
  unfolding no_point
  no_point-IsPoint =
      ap third f.zero_val ∙ none-mult v _ ∙ sym (ap second f.zero_val ∙ none-mult v _)

  pub copy_affine-IsPoint : (a : AffinePoint El) → IsPoint (copy_affine f a)
  unfolding copy_affine
  copy_affine-IsPoint a = elim (Bool-cases (is_zero_affine_point f a)) [
    | inl nought ↦ rw nought no_point-IsPoint
    | inr other ↦ rw other (ap third f.one_val ∙ v.unit-mult _ ∙ sym (ap second f.one_val))
  ]

  pub neg_point-IsPoint : (p : CurvePoint El) → IsPoint p → IsPoint (neg_point f p)
  unfolding neg_point
  neg_point-IsPoint p h = h

  pub dbl_point-IsPoint : (c : Curve El) (p : CurvePoint El) → IsPoint p → IsPoint (dbl_point f c p)
  unfolding dbl_point
  dbl_point-IsPoint c p h = elim (Bool-cases (is_zero_point f p)) [
    | inl nought ↦ rw nought h
    | inr other ↦
        let u = f.add_el p.y p.y in
        rw other (
          scaled (f.val p.zz) (f.val p.zzz) _ _ u h
            (f.mul_val (f.square_el u) p.zz ∙ v.mult_comm _ _)
            (f.mul_val (f.mul_el u (f.square_el u)) p.zzz ∙ v.mult_comm _ _))
  ]

  pub dbl_affine-IsPoint : (c : Curve El) (a : AffinePoint El) → IsPoint (dbl_affine f c a)
  unfolding dbl_affine
  dbl_affine-IsPoint c a = elim (Bool-cases (is_zero_affine_point f a)) [
    | inl nought ↦ rw nought (copy_affine-IsPoint a)
    | inr other ↦ rw other (plain (f.add_el a.y a.y))
  ]

  chord-IsPoint :
      (r ppp q s1 zz3 zzz3 : El)
      → third (f.val zz3) ≡ second (f.val zzz3)
      → IsPoint (chord f r ppp q s1 zz3 zzz3)
  unfolding chord
  chord-IsPoint r ppp q s1 zz3 zzz3 h = h

  pub add_points-IsPoint :
      (c : Curve El) (p1 p2 : CurvePoint El)
      → IsPoint p1
      → IsPoint p2
      → IsPoint (add_points f c p1 p2)
  unfolding add_points
  add_points-IsPoint c p1 p2 h1 h2 = elim (Bool-cases (is_zero_point f p1)) [
    | inl nought ↦ rw nought h2
    | inr other ↦ elim (Bool-cases (is_zero_point f p2)) [
      | inl nought ↦ rw (other, nought) h1
      | inr another ↦
          let p = f.sub_el (f.mul_el p2.x p1.zz) (f.mul_el p1.x p2.zz) in
          let r = f.sub_el (f.mul_el p2.y p1.zzz) (f.mul_el p1.y p2.zzz) in
          elim (Bool-cases (f.is_zero_el p && f.is_zero_el r)) [
            | inl same ↦ rw (other, another, same) (dbl_point-IsPoint c p1 h1)
            | inr apart ↦
                rw (other, another, apart)
                  (chord-IsPoint _ _ _ _ _ _ (
                    scaled (v.mult (f.val p1.zz) (f.val p2.zz))
                      (v.mult (f.val p1.zzz) (f.val p2.zzz)) _ _ p
                      (third-mult _ _ ∙ ap₂ v.mult h1 h2 ∙ mult_interchange _ _ _ _)
                      (f.mul_val _ _
                        ∙ ap (λ t. v.mult t (f.val (f.square_el p))) (f.mul_val p1.zz p2.zz))
                      (f.mul_val _ _
                        ∙ ap (λ t. v.mult t (f.val (f.mul_el p (f.square_el p))))
                            (f.mul_val p1.zzz p2.zzz))))
          ]
    ]
  ]

  pub add_mixed-IsPoint :
      (c : Curve El) (p1 : CurvePoint El) (p2 : AffinePoint El)
      → IsPoint p1
      → IsPoint (add_mixed f c p1 p2)
  unfolding add_mixed
  add_mixed-IsPoint c p1 p2 h1 = elim (Bool-cases (is_zero_point f p1)) [
    | inl nought ↦ rw nought (copy_affine-IsPoint p2)
    | inr other ↦ elim (Bool-cases (is_zero_affine_point f p2)) [
      | inl nought ↦ rw (other, nought) h1
      | inr another ↦
          let p = f.sub_el (f.mul_el p2.x p1.zz) p1.x in
          let r = f.sub_el (f.mul_el p2.y p1.zzz) p1.y in
          elim (Bool-cases (f.is_zero_el p && f.is_zero_el r)) [
            | inl same ↦ rw (other, another, same) (dbl_affine-IsPoint c p2)
            | inr apart ↦
                rw (other, another, apart)
                  (chord-IsPoint _ _ _ _ _ _
                    (scaled (f.val p1.zz) (f.val p1.zzz) _ _ p h1 (f.mul_val _ _) (f.mul_val _ _)))
          ]
    ]
  ]

  pub add_affines-IsPoint :
      (c : Curve El) (p1 p2 : AffinePoint El) → IsPoint (add_affines f c p1 p2)
  unfolding add_affines
  add_affines-IsPoint c p1 p2 = elim (Bool-cases (is_zero_affine_point f p1)) [
    | inl nought ↦ rw nought (copy_affine-IsPoint p2)
    | inr other ↦ elim (Bool-cases (is_zero_affine_point f p2)) [
      | inl nought ↦ rw (other, nought) (copy_affine-IsPoint p1)
      | inr another ↦
          let p = f.sub_el p2.x p1.x in
          let r = f.sub_el p2.y p1.y in
          elim (Bool-cases (f.is_zero_el p && f.is_zero_el r)) [
            | inl same ↦ rw (other, another, same) (dbl_affine-IsPoint c p2)
            | inr apart ↦ rw (other, another, apart) (chord-IsPoint _ _ _ _ _ _ (plain p))
          ]
    ]
  ]

  -- Over every field of elements with values in a commutative ring: if zz ^ 3 = zzz ^ 2 holds of
  -- the values of the points p1 and p2, then it holds of the zero point, of the copy of an affine
  -- point, and of what Curve's neg of p1, both dbl, the three add, and sub of a point or an affine
  -- point give, on every branch.
  pub operations-IsPoint :
      (c : Curve El) (p1 p2 : CurvePoint El) (a1 a2 : AffinePoint El)
      → IsPoint p1
      → IsPoint p2
      → IsPoint (no_point f)
        × IsPoint (copy_affine f a1)
        × IsPoint (neg_point f p1)
        × IsPoint (dbl_point f c p1)
        × IsPoint (dbl_affine f c a1)
        × IsPoint (add_points f c p1 p2)
        × IsPoint (add_mixed f c p1 a2)
        × IsPoint (add_affines f c a1 a2)
        × IsPoint (sub_points f c p1 p2)
        × IsPoint (sub_mixed f c p1 a2)
  unfolding sub_points sub_mixed
  operations-IsPoint c p1 p2 a1 a2 h1 h2 = (
    no_point-IsPoint,
    copy_affine-IsPoint a1,
    neg_point-IsPoint p1 h1,
    dbl_point-IsPoint c p1 h1,
    dbl_affine-IsPoint c a1,
    add_points-IsPoint c p1 p2 h1 h2,
    add_mixed-IsPoint c p1 a2 h1,
    add_affines-IsPoint c a1 a2,
    add_points-IsPoint c p1 (neg_point f p2) h1 (neg_point-IsPoint p2 h2),
    add_mixed-IsPoint c p1 (neg_affines f a2) h1,
  )

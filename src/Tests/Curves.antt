-- ===== src/Tests/Curves.antt =====
-- The theorems about points of a curve, on y ^ 2 = x ^ 3 + 3 over the remainders modulo 7.
use keyless_zk_proofs.Common.{◌<◌, ◌≡◌, ◌≢◌, refl, ap, arith}
use keyless_zk_proofs.Field.Residues.{Residue, residue_eq}
use keyless_zk_proofs.Curve.{
  CurvePoint, AffinePoint, Curve, init_curve, no_point, copy_affine, neg_point, dbl_point,
  dbl_affine, add_points, add_mixed, add_affines, sub_points, sub_mixed,
}
use keyless_zk_proofs.Curve.Invariant.{IsPoint, operations-IsPoint}
use keyless_zk_proofs.Curve.Chord.{Represents}
use keyless_zk_proofs.Curve.Addition.{add_points_lem}
use keyless_zk_proofs.Tests.Pairs.{seven, of, small_field}

abbrev small_curve : Curve (Residue 7)
small_curve = init_curve small_field (of 0) (of 3) (of 1) (of 2)

abbrev first : CurvePoint (Residue 7)
first = record { x = of 1; y = of 2; zz = of 1; zzz = of 1 }

-- (3, 4), with the denominators 4 and 8.
abbrev other : CurvePoint (Residue 7)
other = record { x = of 5; y = of 4; zz = of 4; zzz = of 1 }

abbrev affine : AffinePoint (Residue 7)
affine = record { x = of 2; y = of 5 }

not_none : (x : Residue 7) → 0 < x.0 → x ≢ of 0
not_none x h e = let z : x.0 ≡ 0 = ap (λ (t : Residue 7). t.0) e in omega (arith, h, z)

same : (x y : Residue 7) → x.0 ≡ y.0 → x ≡ y
same = residue_eq 7 seven

first-IsPoint : IsPoint small_field first
first-IsPoint = same (of 1) (of 1) refl

other-IsPoint : IsPoint small_field other
other-IsPoint = same (of 8) (of 1) refl

operations-IsPoint_example :
    IsPoint small_field (no_point small_field)
    × IsPoint small_field (copy_affine small_field affine)
    × IsPoint small_field (neg_point small_field first)
    × IsPoint small_field (dbl_point small_field small_curve first)
    × IsPoint small_field (dbl_affine small_field small_curve affine)
    × IsPoint small_field (add_points small_field small_curve first other)
    × IsPoint small_field (add_mixed small_field small_curve first affine)
    × IsPoint small_field (add_affines small_field small_curve affine affine)
    × IsPoint small_field (sub_points small_field small_curve first other)
    × IsPoint small_field (sub_mixed small_field small_curve first affine)
operations-IsPoint_example =
    operations-IsPoint small_field small_curve first other affine affine first-IsPoint other-IsPoint

add_points_lem_example :
    Represents small_field (add_points small_field small_curve first other) (of 4) (of 2)
add_points_lem_example =
    add_points_lem small_field small_curve first other (of 1) (of 2) (of 3) (of 4) (of 4) (of 2)
      (of 1) (of 2) (of 4) first-IsPoint other-IsPoint
      (same (of 1) (of 1) refl, same (of 2) (of 2) refl)
      (same (of 5) (of 12) refl, same (of 4) (of 4) refl) (not_none (of 1) (omega arith))
      (not_none (of 4) (omega arith)) (not_none (of 8) (omega arith))
      (
        same (of 3) (of 3) refl,
        same (of 4) (of 4) refl,
        same (of 8) (of 1) refl,
        same (of 8) (of 1) refl,
        same (of 4) (of 4) refl,
      )

-- ===== src/Curve/Chord.antt =====
-- Addition of points with different x against the chord: the third point of the line through both.
use keyless_zk_proofs.Common.{◌≡◌, refl, sym, ◌∙◌, ap, ap₂}
use keyless_zk_proofs.Group.Times.{plus_cancel}
use keyless_zk_proofs.Field.{CommutativeRing, BaseField}
use keyless_zk_proofs.Field.Laws.{mult_swap, plus-mult}
use keyless_zk_proofs.Curve.{CurvePoint, chord}
use keyless_zk_proofs.Curve.Invariant.{second, third, mult_interchange}

module _ {ℓ κ} {V : Type ℓ} {v : CommutativeRing V} {El : Type κ} (f : BaseField v El) where
  -- The coordinates of a point.
  abbrev pub Represents : CurvePoint El → V → V → Type ℓ
  Represents p x y = (f.val p.x ≡ v.mult x (f.val p.zz)) × (f.val p.y ≡ v.mult y (f.val p.zzz))

  -- The line through both has the slope `l`; `dx` and `e` are the differences of x.
  abbrev pub IsChord : V → V → V → V → V → V → V → V → V → Type ℓ
  IsChord x1 y1 x2 y2 x3 y3 l dx e =
      (v.sums.plus dx x1 ≡ x2)
      × (v.sums.plus (v.mult l dx) y1 ≡ y2)
      × (v.sums.plus (v.sums.plus (v.sums.plus x3 x1) x1) dx ≡ v.mult l l)
      × (v.sums.plus e x3 ≡ x1)
      × (v.sums.plus y3 y1 ≡ v.mult l e)

  -- R ^ 2 as a multiple of ZZ3.
  slope :
      (w t l dx : V)
      → third f w ≡ second f t
      → v.mult (v.mult l l) (v.mult w (second f (v.mult w dx))) ≡ second f (v.mult t (v.mult l dx))
  slope w t l dx h =
      ap (λ s. v.mult (v.mult l l) (v.mult w s)) (mult_interchange f w dx w dx)
      ∙ ap (v.mult (v.mult l l)) (sym (v.mult_assoc w (v.mult w w) (v.mult dx dx)))
      ∙ mult_swap v (v.mult l l) (third f w) (v.mult dx dx)
      ∙ ap₂ v.mult h (mult_interchange f l l dx dx)
      ∙ mult_interchange f t t (v.mult l dx) (v.mult l dx)

  -- The x of the result.
  chord-x :
      (r ppp q x3 : El) (zz3 : V) (x1 dx l x : V)
      → f.val x3 ≡ f.val (f.sub_el (f.sub_el (f.sub_el (f.square_el r) ppp) q) q)
      → f.val q ≡ v.mult x1 zz3
      → f.val ppp ≡ v.mult dx zz3
      → v.mult (v.mult l l) zz3 ≡ second f (f.val r)
      → v.sums.plus (v.sums.plus (v.sums.plus x x1) x1) dx ≡ v.mult l l
      → f.val x3 ≡ v.mult x zz3
  chord-x r ppp q x3 zz3 x1 dx l x ex eq ep er h =
      ex
      ∙ plus_cancel v.sums _ _ (f.val q) (
          f.sub_val _ _
          ∙ plus_cancel v.sums _ _ (f.val q) (
              f.sub_val _ _
              ∙ plus_cancel v.sums _ _ (f.val ppp) (
                  f.sub_val _ _
                  ∙ f.square_val r
                  ∙ sym er
                  ∙ ap (λ s. v.mult s zz3) (sym h)
                  ∙ plus-mult v _ dx zz3
                  ∙ ap₂ v.sums.plus
                      (plus-mult v _ x1 zz3
                        ∙ ap₂ v.sums.plus
                            (plus-mult v x x1 zz3 ∙ ap (v.sums.plus (v.mult x zz3)) (sym eq))
                            (sym eq))
                      (sym ep))))

  -- The y of the result.
  chord-y :
      (r ppp q x3 s1 : El) (zz3 zzz3 x y1 l e x1 y : V)
      → f.val x3 ≡ v.mult x zz3
      → f.val q ≡ v.mult x1 zz3
      → v.sums.plus e x ≡ x1
      → v.mult (f.val s1) (f.val ppp) ≡ v.mult y1 zzz3
      → v.mult (v.mult e zz3) (f.val r) ≡ v.mult (v.mult l e) zzz3
      → v.sums.plus y y1 ≡ v.mult l e
      → f.val (f.sub_el (f.mul_el (f.sub_el q x3) r) (f.mul_el s1 ppp)) ≡ v.mult y zzz3
  chord-y r ppp q x3 s1 zz3 zzz3 x y1 l e x1 y ex eq he es er h =
      let gap : f.val (f.sub_el q x3) ≡ v.mult e zz3 = plus_cancel v.sums _ _ (f.val x3) (
        f.sub_val q x3
        ∙ eq
        ∙ ap (λ s. v.mult s zz3) (sym he)
        ∙ plus-mult v e x zz3
        ∙ ap (v.sums.plus (v.mult e zz3)) (sym ex)) in
      plus_cancel v.sums _ _ (f.val (f.mul_el s1 ppp)) (
        f.sub_val _ _
        ∙ f.mul_val _ r
        ∙ ap (λ s. v.mult s (f.val r)) gap
        ∙ er
        ∙ ap (λ s. v.mult s zzz3) (sym h)
        ∙ plus-mult v y y1 zzz3
        ∙ ap (v.sums.plus (v.mult y zzz3)) (sym (f.mul_val s1 ppp ∙ es)))

  -- Both, for a P that is `w * dx` and an R that is `t * (l * dx)`.
  pub chord_lem :
      (p r u1 s1 zz3 zzz3 : El) (w t x1 y1 x2 y2 x3 y3 l dx e : V)
      → third f w ≡ second f t
      → f.val p ≡ v.mult w dx
      → f.val r ≡ v.mult t (v.mult l dx)
      → f.val u1 ≡ v.mult x1 w
      → f.val s1 ≡ v.mult y1 t
      → f.val zz3 ≡ v.mult w (f.val (f.square_el p))
      → f.val zzz3 ≡ v.mult t (f.val (f.mul_el p (f.square_el p)))
      → IsChord x1 y1 x2 y2 x3 y3 l dx e
      → Represents
          (chord f r (f.mul_el p (f.square_el p)) (f.mul_el u1 (f.square_el p)) s1 zz3 zzz3)
          x3
          y3
  unfolding chord
  chord_lem p r u1 s1 zz3 zzz3 w t x1 y1 x2 y2 x3 y3 l dx e h ep er eu es ez ezz
        (hx, hy, h3, he, hy3) =
      let pp = f.square_el p in
      let ppp = f.mul_el p pp in
      let q = f.mul_el u1 pp in
      let z = f.val zz3 in
      let whole : z ≡ v.mult w (second f (v.mult w dx)) =
        ez ∙ ap (v.mult w) (f.square_val p ∙ ap (second f) ep) in
      let eq : f.val q ≡ v.mult x1 z =
        f.mul_val u1 pp
        ∙ ap (λ s. v.mult s (f.val pp)) eu
        ∙ v.mult_assoc x1 w (f.val pp)
        ∙ ap (v.mult x1) (sym ez) in
      let eppp : f.val ppp ≡ v.mult dx z =
        f.mul_val p pp
        ∙ ap (λ s. v.mult s (f.val pp)) (ep ∙ v.mult_comm w dx)
        ∙ v.mult_assoc dx w (f.val pp)
        ∙ ap (v.mult dx) (sym ez) in
      let ex =
        chord-x r ppp q _ z x1 dx l x3 refl eq eppp
          (ap (v.mult (v.mult l l)) whole ∙ slope w t l dx h ∙ ap (second f) (sym er)) h3 in
      (
        ex,
        chord-y r ppp q _ s1 z (f.val zzz3) x3 y1 l e x1 y3 ex eq he
            (ap (λ s. v.mult s (f.val ppp)) es
              ∙ v.mult_assoc y1 t (f.val ppp)
              ∙ ap (v.mult y1) (sym ezz))
            (ap (v.mult (v.mult e z)) (er ∙ mult_swap v t l dx)
              ∙ mult_interchange f e z l (v.mult t dx)
              ∙ ap₂ v.mult (v.mult_comm e l)
                  (mult_swap v z t dx ∙ ap (v.mult t) (v.mult_comm z dx ∙ sym eppp) ∙ sym ezz))
            hy3,
      )

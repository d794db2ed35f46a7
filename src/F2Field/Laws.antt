-- ===== src/F2Field/Laws.antt =====
-- The operations on pairs against arithmetic with u * u = nr.
use keyless_zk_proofs.Common.{◌≡◌, refl, sym, ◌∙◌, ap, ap₂, true, false, Bool-cases, inl, inr}
use keyless_zk_proofs.Group.Times.{plus-none, plus_cancel, plus_interchange}
use keyless_zk_proofs.Field.{CommutativeRing, BaseField}
use keyless_zk_proofs.Field.Laws.{plus-mult, none-mult, plus-mult-plus, mult_swap}
use keyless_zk_proofs.F2Field.{
  is_negone, TypeOfNr, nr_is_zero, nr_is_one, nr_is_negone, nr_is_long, F2Element, F2Field,
  init_field, mul_by_nr, mul, square,
}

module _ {ℓ κ} {V : Type ℓ} {v : CommutativeRing V} {El : Type κ} (f : BaseField v El) where
  -- What the kind of nr says.
  Agrees : El → TypeOfNr → Type ℓ
  Agrees nr nr_is_zero = f.val nr ≡ v.sums.none
  Agrees nr nr_is_one = f.val nr ≡ v.unit
  Agrees nr nr_is_negone = v.sums.plus (f.val nr) v.unit ≡ v.sums.none
  Agrees nr nr_is_long = v.unit ≡ v.unit

  init_field-Agrees : (nr : El) → Agrees nr (init_field f nr).type_of_nr
  unfolding init_field Agrees
  init_field-Agrees nr = elim (Bool-cases (f.is_zero_el nr)) [
    | inl nought ↦ rw nought (f.is_zero_val nr nought)
    | inr other ↦ elim (Bool-cases (f.eq_el nr f.one_el)) [
      | inl same ↦ rw (other, same) (f.eq_val nr f.one_el same ∙ f.one_val)
      | inr apart ↦ elim (Bool-cases (f.eq_el nr f.neg_one_el)) [
        | inl negative ↦
            rw (other, apart, negative)
              (ap (λ t. v.sums.plus t v.unit) (f.eq_val nr f.neg_one_el negative) ∙ f.neg_one_val)
        | inr long ↦ rw (other, apart, long) refl
      ]
    ]
  ]

  mul_by_nr-Agrees :
      (s : F2Field El) (x : El) (t : TypeOfNr)
      → s.type_of_nr ≡ t
      → Agrees s.nr t
      → f.val (mul_by_nr f s x) ≡ v.mult (f.val s.nr) (f.val x)
  unfolding mul_by_nr Agrees
  mul_by_nr-Agrees s x nr_is_zero e h =
      rw (mul_by_nr, e) (f.zero_val ∙ sym (ap (λ t. v.mult t (f.val x)) h ∙ none-mult v (f.val x)))
  mul_by_nr-Agrees s x nr_is_one e h =
      rw (mul_by_nr, e) (sym (ap (λ t. v.mult t (f.val x)) h ∙ v.unit-mult (f.val x)))
  mul_by_nr-Agrees s x nr_is_negone e h =
      rw (mul_by_nr, e)
        (plus_cancel v.sums _ _ (f.val x) (
          f.neg_val x
          ∙ sym (
              ap (v.sums.plus (v.mult (f.val s.nr) (f.val x))) (sym (v.unit-mult (f.val x)))
              ∙ sym (plus-mult v (f.val s.nr) v.unit (f.val x))
              ∙ ap (λ t. v.mult t (f.val x)) h
              ∙ none-mult v (f.val x))))
  mul_by_nr-Agrees s x nr_is_long e h = rw (mul_by_nr, e) (f.mul_val s.nr x)

  pub mul_by_nr_lem :
      (nr x : El) → f.val (mul_by_nr f (init_field f nr) x) ≡ v.mult (f.val nr) (f.val x)
  unfolding init_field
  mul_by_nr_lem nr x = mul_by_nr-Agrees (init_field f nr) x _ refl (init_field-Agrees nr)

  -- Over every field of elements with values in a commutative ring, and every nr: F2Field's mul of
  -- a1 + b1 * u and a2 + b2 * u has the values of a1 * a2 + nr * (b1 * b2) and a1 * b2 + b1 * a2
  -- as its parts.
  pub mul_lem :
      (nr : El) (e1 e2 : F2Element El)
      → (f.val (mul f (init_field f nr) e1 e2).a
          ≡ v.sums.plus
              (v.mult (f.val e1.a) (f.val e2.a))
              (v.mult (f.val nr) (v.mult (f.val e1.b) (f.val e2.b))))
        × (f.val (mul f (init_field f nr) e1 e2).b
            ≡ v.sums.plus (v.mult (f.val e1.a) (f.val e2.b)) (v.mult (f.val e1.b) (f.val e2.a)))
  unfolding mul
  mul_lem nr e1 e2 = (
    f.add_val _ _
        ∙ ap₂ v.sums.plus (f.mul_val e1.a e2.a)
            (mul_by_nr_lem nr (f.mul_el e1.b e2.b) ∙ ap (v.mult (f.val nr)) (f.mul_val e1.b e2.b)),
    plus_cancel v.sums _ _ (f.val (f.mul_el e1.b e2.b)) (
        f.sub_val _ _
        ∙ plus_cancel v.sums _ _ (f.val (f.mul_el e1.a e2.a)) (
            f.sub_val _ _
            ∙ f.mul_val _ _
            ∙ ap₂ v.mult (f.add_val e1.a e1.b) (f.add_val e2.a e2.b)
            ∙ plus-mult-plus v (f.val e1.a) (f.val e1.b) (f.val e2.a) (f.val e2.b)
            ∙ gather _ _ _ _
            ∙ ap₂
                (λ s t.
                  v.sums.plus
                    (v.sums.plus
                      (v.sums.plus (v.mult (f.val e1.a) (f.val e2.b))
                        (v.mult (f.val e1.b) (f.val e2.a)))
                      s)
                    t)
                (sym (f.mul_val e1.b e2.b)) (sym (f.mul_val e1.a e2.a)))),
  )
    where
      gather :
          (aa ab ba bb : V)
          → v.sums.plus (v.sums.plus aa ab) (v.sums.plus ba bb)
            ≡ v.sums.plus (v.sums.plus (v.sums.plus ab ba) bb) aa
      gather aa ab ba bb =
          v.sums.plus_assoc aa ab (v.sums.plus ba bb)
          ∙ v.sums.plus_comm aa _
          ∙ ap (λ t. v.sums.plus t aa) (sym (v.sums.plus_assoc ab ba bb))

  -- (a + b) * (a + nr * b), as square means to compute it.
  spread :
      (n a b : V)
      → v.mult (v.sums.plus a b) (v.sums.plus a (v.mult n b))
        ≡ v.sums.plus
            (v.sums.plus (v.mult a a) (v.mult n (v.mult b b)))
            (v.sums.plus (v.mult a b) (v.mult n (v.mult a b)))
  spread n a b =
      plus-mult-plus v a b a (v.mult n b)
      ∙ ap₂ (λ s t. v.sums.plus (v.sums.plus (v.mult a a) s) t) (mult_swap v a n b)
          (ap₂ v.sums.plus (v.mult_comm b a) (mult_swap v b n b) ∙ v.sums.plus_comm _ _)
      ∙ plus_interchange v.sums _ _ _ _
      ∙ ap (v.sums.plus _) (v.sums.plus_comm _ _)

  -- The u-part of square.
  twice_ab :
      (e : F2Element El)
      → f.val (f.add_el (f.mul_el e.a e.b) (f.mul_el e.a e.b))
        ≡ v.sums.plus (v.mult (f.val e.a) (f.val e.b)) (v.mult (f.val e.b) (f.val e.a))
  twice_ab e =
      f.add_val _ _ ∙ ap₂ v.sums.plus (f.mul_val e.a e.b) (f.mul_val e.a e.b ∙ v.mult_comm _ _)

  negone_lem : (nr : El) (t : TypeOfNr) → is_negone t ≡ true → Agrees nr t → Agrees nr nr_is_negone
  unfolding Agrees
  negone_lem nr nr_is_zero e h = cc
  negone_lem nr nr_is_one e h = cc
  negone_lem nr nr_is_negone e h = h
  negone_lem nr nr_is_long e h = cc

  -- (a + b) * (a - b) for nr = -1.
  conjugate :
      (n a b d : V)
      → v.sums.plus n v.unit ≡ v.sums.none
      → v.sums.plus d b ≡ a
      → v.mult (v.sums.plus a b) d ≡ v.sums.plus (v.mult a a) (v.mult n (v.mult b b))
  conjugate n a b d minus diff = plus_cancel v.sums _ _ (v.mult (v.sums.plus a b) b) (
      sym (v.mult-plus (v.sums.plus a b) d b)
      ∙ ap (v.mult (v.sums.plus a b)) diff
      ∙ plus-mult v a b a
      ∙ ap (v.sums.plus (v.mult a a)) (
          v.mult_comm b a
          ∙ sym (plus-none v.sums _)
          ∙ ap (v.sums.plus (v.mult a b)) (
              sym (none-mult v (v.mult b b))
              ∙ ap (λ t. v.mult t (v.mult b b)) (sym minus)
              ∙ plus-mult v n v.unit (v.mult b b)
              ∙ ap (v.sums.plus (v.mult n (v.mult b b))) (v.unit-mult (v.mult b b))))
      ∙ ap (v.sums.plus (v.mult a a)) (
          sym (v.sums.plus_assoc _ _ _)
          ∙ ap (λ t. v.sums.plus t (v.mult b b)) (v.sums.plus_comm _ _)
          ∙ v.sums.plus_assoc _ _ _)
      ∙ sym (v.sums.plus_assoc _ _ _)
      ∙ ap (v.sums.plus _) (sym (plus-mult v a b b)))

  -- Over every field of elements with values in a commutative ring, when F2Field took nr for the
  -- negative of one: square has the values of mul of the element with itself.
  pub square_negone :
      (nr : El) (e : F2Element El)
      → is_negone (init_field f nr).type_of_nr ≡ true
      → (f.val (square f (init_field f nr) e).a ≡ f.val (mul f (init_field f nr) e e).a)
        × (f.val (square f (init_field f nr) e).b ≡ f.val (mul f (init_field f nr) e e).b)
  unfolding square Agrees
  square_negone nr e negative =
      let (a, b) = mul_lem nr e e in
      rw (square, negative)
        (
          f.mul_val _ _
              ∙ ap (λ t. v.mult t (f.val (f.sub_el e.a e.b))) (f.add_val e.a e.b)
              ∙ conjugate (f.val nr) (f.val e.a) (f.val e.b) (f.val (f.sub_el e.a e.b))
                  (negone_lem nr (init_field f nr).type_of_nr negative (init_field-Agrees nr))
                  (f.sub_val e.a e.b)
              ∙ sym a,
          twice_ab e ∙ sym b,
        )

  -- s * (a + s) stands where s * (a + nr * b) is meant.
  astray :
      (n a b s : V) (x y k : V)
      → v.sums.plus x k ≡ v.mult s (v.sums.plus a s)
      → v.sums.plus y k ≡ v.mult s (v.sums.plus a (v.mult n b))
      → v.sums.plus x (v.mult s (v.mult n b)) ≡ v.sums.plus y (v.mult s s)
  astray n a b s x y k ex ey = plus_cancel v.sums _ _ k (
      right x k (v.mult s (v.mult n b))
      ∙ ap (λ t. v.sums.plus t (v.mult s (v.mult n b))) (ex ∙ v.mult-plus s a s)
      ∙ right (v.mult s a) (v.mult s (v.mult n b)) (v.mult s s)
      ∙ ap (λ t. v.sums.plus t (v.mult s s)) (sym (v.mult-plus s a (v.mult n b)) ∙ sym ey)
      ∙ right y (v.mult s s) k)
    where
      right : (x k m : V) → v.sums.plus (v.sums.plus x m) k ≡ v.sums.plus (v.sums.plus x k) m
      right x k m =
          v.sums.plus_assoc x m k
          ∙ ap (v.sums.plus x) (v.sums.plus_comm m k)
          ∙ sym (v.sums.plus_assoc x k m)

  -- Over every field of elements with values in a commutative ring, when F2Field did not take nr
  -- for the negative of one: the first part of square of a + b * u, plus (a + b) * (nr * b), has
  -- the value of the first part of mul of the element with itself, plus (a + b) * (a + b).
  pub square_other :
      (nr : El) (e : F2Element El)
      → is_negone (init_field f nr).type_of_nr ≡ false
      → v.sums.plus
          (f.val (square f (init_field f nr) e).a)
          (v.mult (v.sums.plus (f.val e.a) (f.val e.b)) (v.mult (f.val nr) (f.val e.b)))
        ≡ v.sums.plus
            (f.val (mul f (init_field f nr) e e).a)
            (v.mult (v.sums.plus (f.val e.a) (f.val e.b)) (v.sums.plus (f.val e.a) (f.val e.b)))
  unfolding square
  square_other nr e other =
      let (a, b) = mul_lem nr e e in
      let ab = f.mul_el e.a e.b in
      let n = f.val nr in
      let k =
        v.sums.plus (v.mult (f.val e.a) (f.val e.b)) (v.mult n (v.mult (f.val e.a) (f.val e.b))) in
      let same : f.val (f.add_el ab (mul_by_nr f (init_field f nr) ab)) ≡ k =
        f.add_val _ _
        ∙ ap₂ v.sums.plus (f.mul_val e.a e.b)
            (mul_by_nr_lem nr ab ∙ ap (v.mult n) (f.mul_val e.a e.b)) in
      rw (square, other)
        (astray n (f.val e.a) (f.val e.b) (v.sums.plus (f.val e.a) (f.val e.b)) _ _ k
          (ap (v.sums.plus _) (sym same)
            ∙ f.sub_val _ _
            ∙ f.mul_val _ _
            ∙ ap₂ v.mult (f.add_val e.a e.b)
                (f.add_val e.a _ ∙ ap (v.sums.plus (f.val e.a)) (f.add_val e.a e.b)))
          (ap (λ t. v.sums.plus t k) a ∙ sym (spread n (f.val e.a) (f.val e.b))))

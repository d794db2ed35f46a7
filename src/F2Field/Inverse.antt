-- ===== src/F2Field/Inverse.antt =====
-- inv against mul.
use keyless_zk_proofs.Common.{◌≡◌, sym, ◌∙◌, ap, ap₂}
use keyless_zk_proofs.Group.Times.{plus-none, plus_cancel}
use keyless_zk_proofs.Field.{CommutativeRing, BaseField}
use keyless_zk_proofs.Field.Laws.{plus-mult, mult-none, mult_swap}
use keyless_zk_proofs.F2Field.{F2Element, init_field, mul_by_nr, mul, inv}
use keyless_zk_proofs.F2Field.Laws.{mul_lem, mul_by_nr_lem}

module _ {ℓ κ} {V : Type ℓ} {v : CommutativeRing V} {El : Type κ} (f : BaseField v El) where
  -- The element that inv inverts in the base field.
  abbrev pub norm : El → F2Element El → El
  norm nr e = f.sub_el (f.square_el e.a) (mul_by_nr f (init_field f nr) (f.square_el e.b))

  norm_lem :
      (nr : El) (e : F2Element El)
      → v.sums.plus (f.val (norm nr e)) (v.mult (f.val nr) (v.mult (f.val e.b) (f.val e.b)))
        ≡ v.mult (f.val e.a) (f.val e.a)
  norm_lem nr e =
      ap (v.sums.plus (f.val (norm nr e))) (
        ap (v.mult (f.val nr)) (sym (f.square_val e.b))
        ∙ sym (mul_by_nr_lem f nr (f.square_el e.b)))
      ∙ f.sub_val _ _
      ∙ f.square_val e.a

  -- (a + b u) * (a i - b i u), for an inverse i of a * a - nr * b * b.
  unit-part :
      (n a b i m w : V)
      → v.sums.plus m (v.mult b i) ≡ v.sums.none
      → v.mult i w ≡ v.unit
      → v.sums.plus w (v.mult n (v.mult b b)) ≡ v.mult a a
      → v.sums.plus (v.mult a (v.mult a i)) (v.mult n (v.mult b m)) ≡ v.unit
  unit-part n a b i m w minus inverse whole =
      plus_cancel v.sums _ _ (v.mult n (v.mult b (v.mult b i))) (
        v.sums.plus_assoc _ _ _
        ∙ ap (v.sums.plus (v.mult a (v.mult a i))) (
            sym (v.mult-plus n _ _)
            ∙ ap (v.mult n)
                (sym (v.mult-plus b m (v.mult b i)) ∙ ap (v.mult b) minus ∙ mult-none v b)
            ∙ mult-none v n)
        ∙ plus-none v.sums _
        ∙ sym (v.mult_assoc a a i)
        ∙ ap (λ t. v.mult t i) (sym whole)
        ∙ plus-mult v w _ i
        ∙ ap₂ v.sums.plus (v.mult_comm w i ∙ inverse)
            (v.mult_assoc n (v.mult b b) i ∙ ap (v.mult n) (v.mult_assoc b b i)))

  other-part :
      (a b i m : V)
      → v.sums.plus m (v.mult b i) ≡ v.sums.none
      → v.sums.plus (v.mult a m) (v.mult b (v.mult a i)) ≡ v.sums.none
  other-part a b i m minus =
      ap (v.sums.plus (v.mult a m)) (mult_swap v b a i)
      ∙ sym (v.mult-plus a m (v.mult b i))
      ∙ ap (v.mult a) minus
      ∙ mult-none v a

  -- Over every field of elements with values in a commutative ring, and every nr: if the base
  -- field's inv inverts a * a - nr * b * b, then F2Field's mul of a + b * u and its inv has 1 and
  -- 0 as the values of its parts.
  pub inv_lem :
      (nr : El) (e : F2Element El)
      → v.mult (f.val (f.inv_el (norm nr e))) (f.val (norm nr e)) ≡ v.unit
      → (f.val (mul f (init_field f nr) e (inv f (init_field f nr) e)).a ≡ v.unit)
        × (f.val (mul f (init_field f nr) e (inv f (init_field f nr) e)).b ≡ v.sums.none)
  unfolding inv
  inv_lem nr e inverse =
      let i = f.inv_el (norm nr e) in
      let (p, q) = mul_lem f nr e (inv f (init_field f nr) e) in
      let minus : v.sums.plus (f.val (f.neg_el (f.mul_el e.b i))) (v.mult (f.val e.b) (f.val i))
          ≡ v.sums.none =
        ap (v.sums.plus _) (sym (f.mul_val e.b i)) ∙ f.neg_val (f.mul_el e.b i) in
      (
        p
            ∙ ap
                (λ t.
                  v.sums.plus (v.mult (f.val e.a) t)
                    (v.mult (f.val nr) (v.mult (f.val e.b) (f.val (f.neg_el (f.mul_el e.b i))))))
                (f.mul_val e.a i)
            ∙ unit-part (f.val nr) (f.val e.a) (f.val e.b) (f.val i) _ (f.val (norm nr e)) minus
                inverse (norm_lem nr e),
        q
            ∙ ap
                (λ t.
                  v.sums.plus (v.mult (f.val e.a) (f.val (f.neg_el (f.mul_el e.b i))))
                    (v.mult (f.val e.b) t))
                (f.mul_val e.a i)
            ∙ other-part (f.val e.a) (f.val e.b) (f.val i) _ minus,
      )

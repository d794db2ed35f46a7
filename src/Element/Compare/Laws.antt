-- ===== src/Element/Compare/Laws.antt =====
-- Negation and comparison agree with the numbers modulo q.
use native.Mathlib.Nat.{mod-eq_of_lt}
use keyless_zk_proofs.Common.{
  ℕ, ◌+◌, ◌-◌, ◌*◌, ◌%◌, ◌≡◌, ◌↔◌, refl, sym, ◌∙◌, ap, subst, List, true, arith, add-mod_congr,
  add-mod_cancel, mul-mod_congr, sub-mod_congr, neg_mod, neg_mod-mul,
}
use keyless_zk_proofs.Common.Int.{ℤ, pos, pos_part, neg_part, ◌-ℤ◌}
use keyless_zk_proofs.Mpn.{Gmp}
use keyless_zk_proofs.Mpn.Limbs.{value}
use keyless_zk_proofs.Raw.{Modulus, n64, raw_neg, raw_cmp}
use keyless_zk_proofs.Raw.Reduction.{Holds, is_eq→eq}
use keyless_zk_proofs.Raw.Sums.{raw_neg_lem}
use keyless_zk_proofs.Raw.Montgomery.Forms.{r as r256, IsForm, Holds_congr, Holds-mod, cancel_r}
use keyless_zk_proofs.Element.Memory.{Element, Memory, write_self}
use keyless_zk_proofs.Element.Int32.{InInt32}
use keyless_zk_proofs.Element.Residues.{IsResult, -ℤ-IsResult}
use keyless_zk_proofs.Element.Meaning.{IsResidue, Represents, is_short, is_both, is_plain, is_form}
use keyless_zk_proofs.Element.Shorts.Laws.{store_short_result-Represents}
use keyless_zk_proofs.Element.Convert.{to_montgomery, to_long_normal}
use keyless_zk_proofs.Element.Convert.Laws.{to_montgomery-IsForm, to_long_normal-Holds}
use keyless_zk_proofs.Element.Compare.{neg, req, req_limbs, equal_ℤ}

equal_ℤ→eq : (z w : ℤ) → equal_ℤ z w ≡ true → pos_part z + neg_part w ≡ pos_part w + neg_part z
unfolding equal_ℤ
equal_ℤ→eq z w h = ground arith

eq→equal_ℤ : (z w : ℤ) → pos_part z + neg_part w ≡ pos_part w + neg_part z → equal_ℤ z w ≡ true
unfolding equal_ℤ
eq→equal_ℤ z w h = ground arith

module _ (g : Gmp) (m : Modulus) where
  neg-Holds : (a : List ℕ) (v : ℕ) → Holds m a v → Holds m (raw_neg g m a) (neg_mod m.q v)
  neg-Holds a v h =
      Holds_congr m _ (m.q - value a) (neg_mod m.q v)
        (ap (λ t. t % m.q) (omega arith)
          ∙ sub-mod_congr 0 (value a) 0 v m.q (omega (arith, m.q_gt)) (omega (arith, h.reduced))
              refl (Holds-mod m a v h)
          ∙ ap (λ t. t % m.q) (omega arith))
        (raw_neg_lem g m a h.reduced)

  pub neg-IsForm : (a : List ℕ) (v : ℕ) → IsForm m a v → IsForm m (raw_neg g m a) (neg_mod m.q v)
  neg-IsForm a v h =
      Holds_congr m _ (neg_mod m.q (v * r256)) (neg_mod m.q v * r256)
        (ap (λ t. t % m.q) (omega arith)
          ∙ sym (neg_mod-mul 0 v r256 m.q (omega (arith, m.q_gt)))
          ∙ ap (λ t. t % m.q) (omega arith))
        (neg-Holds a (v * r256) h)

  neg_short :
      (e : ℤ) (x : ℕ) → InInt32 e → IsResidue m.q e x → IsResult m.q (pos 0 -ℤ e) (neg_mod m.q x)
  neg_short e x he h =
      let same : 0 + neg_mod m.q x ≡ neg_mod m.q x = omega arith in
      subst (IsResult m.q (pos 0 -ℤ e)) same
        (-ℤ-IsResult m.q (omega (arith, m.q_gt)) (pos 0) e 0 x (omega arith) he refl h)

  -- If the element at a stands for x, then after Fr_neg(p, a), also where p is a, the element at p
  -- stands for the negative of x modulo q.
  pub neg-Represents :
      (p a : ℕ) (mem : Memory) (x : ℕ)
      → Represents m (mem a) x
      → Represents m (neg g m p a mem p) (neg_mod m.q x)
  unfolding neg
  neg-Represents p a mem x (is_form ka ha) =
      rw (ka, neg, write_self) (is_form refl (neg-IsForm _ x ha))
  neg-Represents p a mem x (is_plain ka ha) =
      rw (ka, neg, write_self) (is_plain refl (neg-Holds _ x ha))
  neg-Represents p a mem x (is_short ka za ea) =
      rw (ka, neg) (store_short_result-Represents g m p _ mem _ (neg_short _ x za ea))
  neg-Represents p a mem x (is_both ka za ea ha) =
      rw (ka, neg) (store_short_result-Represents g m p _ mem _ (neg_short _ x za ea))

  -- Limbs that are below q are compared as numbers.
  req_plain :
      (a b : List ℕ) (x y : ℕ)
      → Holds m a x
      → Holds m b y
      → (req_limbs g m a b ≡ true) ↔ (x % m.q ≡ y % m.q)
  unfolding req_limbs raw_cmp
  req_plain a b x y ha hb =
      rw (g.cmp_value b a n64 hb.reduced.limbs ha.reduced.limbs, ha.same, hb.same)
        (λ t. sym (is_eq→eq _ _ t), λ e. ground arith)

  req_forms :
      (a b : List ℕ) (x y : ℕ)
      → IsForm m a x
      → IsForm m b y
      → (req_limbs g m a b ≡ true) ↔ (x % m.q ≡ y % m.q)
  req_forms a b x y ha hb =
      let same = req_plain a b (x * r256) (y * r256) ha hb in
      (λ t. cancel_r m x y (same.0 t), λ e. same.1 (mul-mod_congr x y r256 r256 m.q e refl))

  -- 32-bit integers that are congruent modulo q are the same.
  shorts :
      (z w : ℤ) (x y : ℕ)
      → InInt32 z
      → InInt32 w
      → IsResidue m.q z x
      → IsResidue m.q w y
      → (equal_ℤ z w ≡ true) ↔ (x % m.q ≡ y % m.q)
  shorts z w x y hz hw ez ew = (λ t. congruent (equal_ℤ→eq z w t), λ e. eq→equal_ℤ z w (distinct e))
    where
      left : (x + (neg_part z + neg_part w)) % m.q ≡ (pos_part z + neg_part w) % m.q
      left =
          ap (λ t. t % m.q) (omega arith)
          ∙ add-mod_congr (x + neg_part z) (pos_part z) (neg_part w) (neg_part w) m.q ez refl

      right : (y + (neg_part z + neg_part w)) % m.q ≡ (pos_part w + neg_part z) % m.q
      right =
          ap (λ t. t % m.q) (omega arith)
          ∙ add-mod_congr (y + neg_part w) (pos_part w) (neg_part z) (neg_part z) m.q ew refl

      congruent : pos_part z + neg_part w ≡ pos_part w + neg_part z → x % m.q ≡ y % m.q
      congruent e =
          add-mod_cancel x y (neg_part z + neg_part w) m.q (omega (arith, m.q_gt))
            (left ∙ ap (λ t. t % m.q) e ∙ sym right)

      shifted :
          x % m.q ≡ y % m.q → (pos_part z + neg_part w) % m.q ≡ (pos_part w + neg_part z) % m.q
      shifted e = sym left ∙ add-mod_congr x y _ _ m.q e refl ∙ right

      distinct : x % m.q ≡ y % m.q → pos_part z + neg_part w ≡ pos_part w + neg_part z
      distinct e =
          sym (mod-eq_of_lt (omega (arith, m.q_gt)))
          ∙ shifted e
          ∙ mod-eq_of_lt (omega (arith, m.q_gt))

  module _ (uninit a b : Element) (x y : ℕ) where
    form :
        (e : Element) (v : ℕ) → Represents m e v → IsForm m (to_montgomery g m uninit e).long_val v
    form e v h = to_montgomery-IsForm g m uninit e v h

    plain :
        (e : Element) (v : ℕ) → Represents m e v → Holds m (to_long_normal g m uninit e).long_val v
    plain e v h = (to_long_normal-Holds g m uninit e v h).0

    -- If a stands for x and b for y, each in any of the four representations, Fr_req of a and b
    -- answers true exactly when x and y have the same remainder modulo q.
    pub req_iff :
        Represents m a x → Represents m b y → (req g m uninit a b ≡ true) ↔ (x % m.q ≡ y % m.q)
    unfolding req
    req_iff (is_form ka ha) (is_form kb hb) = simp (ka, kb, req) (req_forms _ _ x y ha hb)
    req_iff (is_form ka ha) (is_both kb zb eb hb) =
        simp (ka, kb, req) (req_forms _ _ x y ha (form b y (is_both kb zb eb hb)))
    req_iff (is_both ka za ea ha) (is_form kb hb) =
        simp (ka, kb, req) (req_forms _ _ x y (form a x (is_both ka za ea ha)) hb)
    req_iff (is_form ka ha) (is_plain kb hb) =
        simp (ka, kb, req) (req_forms _ _ x y ha (form b y (is_plain kb hb)))
    req_iff (is_form ka ha) (is_short kb zb eb) =
        simp (ka, kb, req) (req_forms _ _ x y ha (form b y (is_short kb zb eb)))
    req_iff (is_plain ka ha) (is_form kb hb) =
        simp (ka, kb, req) (req_forms _ _ x y (form a x (is_plain ka ha)) hb)
    req_iff (is_short ka za ea) (is_form kb hb) =
        simp (ka, kb, req) (req_forms _ _ x y (form a x (is_short ka za ea)) hb)
    req_iff (is_plain ka ha) (is_plain kb hb) = simp (ka, kb, req) (req_plain _ _ x y ha hb)
    req_iff (is_plain ka ha) (is_short kb zb eb) =
        simp (ka, kb, req) (req_plain _ _ x y ha (plain b y (is_short kb zb eb)))
    req_iff (is_plain ka ha) (is_both kb zb eb hb) =
        simp (ka, kb, req) (req_plain _ _ x y ha (plain b y (is_both kb zb eb hb)))
    req_iff (is_short ka za ea) (is_plain kb hb) =
        simp (ka, kb, req) (req_plain _ _ x y (plain a x (is_short ka za ea)) hb)
    req_iff (is_both ka za ea ha) (is_plain kb hb) =
        simp (ka, kb, req) (req_plain _ _ x y (plain a x (is_both ka za ea ha)) hb)
    req_iff (is_short ka za ea) (is_short kb zb eb) =
        simp (ka, kb, req) (shorts _ _ x y za zb ea eb)
    req_iff (is_short ka za ea) (is_both kb zb eb hb) =
        simp (ka, kb, req) (shorts _ _ x y za zb ea eb)
    req_iff (is_both ka za ea ha) (is_short kb zb eb) =
        simp (ka, kb, req) (shorts _ _ x y za zb ea eb)
    req_iff (is_both ka za ea ha) (is_both kb zb eb hb) =
        simp (ka, kb, req) (shorts _ _ x y za zb ea eb)

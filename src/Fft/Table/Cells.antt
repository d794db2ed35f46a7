-- ===== src/Fft/Table/Cells.antt =====
-- The spans write nothing but the right powers, whatever their order.
use keyless_zk_proofs.Common.{
  ℕ, zero, suc, ◌+◌, ◌-◌, ◌*◌, ◌/◌, ◌^◌, ◌≤◌, ◌<◌, ◌≡◌, refl, sym, ◌∙◌, ap, ap₂, subst, arith, List,
  [], ◌∷◌, true, false, if◌then◌else◌, ◌==◌, ==_iff, leb, ltb, ◌&&◌, Bool-cases, ◌⊎◌, inl, inr,
}
use keyless_zk_proofs.Field.{CommutativeRing, BaseField}
use keyless_zk_proofs.Fft.{put_at, run_rounds}
use keyless_zk_proofs.Fft.Rounds.{IsRange, IsRange-outside, head_bound, runs}
use keyless_zk_proofs.Fft.Powers.{power, power-times}
use keyless_zk_proofs.Fft.Exponent.{exp, exp_lem}
use keyless_zk_proofs.Fft.Table.{span_start, span_end, fill_loop, fill_span}
use keyless_zk_proofs.Fft.Table.Spans.{span_of, span_start_lt}

module _ {ℓ κ} {V : Type ℓ} {v : CommutativeRing V} {El : Type κ} (f : BaseField v El) where
  module _ (w : V) where
    -- The cell holds its power of `w`.
    abbrev pub Good : (ℕ → El) → ℕ → Type ℓ
    Good a x = f.val (a x) ≡ power v w x

    pub put_at-Good :
        (i : ℕ) (y : El) (a : ℕ → El) (x : ℕ)
        → f.val y ≡ power v w i
        → ((x == i) ≡ false → Good a x)
        → Good (put_at i y a) x
    unfolding put_at
    put_at-Good i y a x right others = elim (Bool-cases (x == i)) [
      | inl same ↦ rw (same, (==_iff x i).0 same) right
      | inr other ↦ rw other (others other)
    ]

    next_power :
        (a : ℕ → El) (i : ℕ)
        → Good a 1
        → Good a i
        → f.val (f.mul_el (a i) (a 1)) ≡ power v w (suc i)
    unfolding power
    next_power a i one here =
        f.mul_val _ _ ∙ ap₂ v.mult here (one ∙ v.mult_comm _ _ ∙ v.unit-mult _) ∙ v.mult_comm _ _

    -- The loop writes nothing but the right powers, and writes to each of its indices.
    pub fill_loop-Good :
        (count i : ℕ) (a : ℕ → El) (x : ℕ)
        → Good a 1
        → Good a i
        → (Good a x) ⊎ ((i < x) × (x ≤ count + i))
        → Good (fill_loop f count (suc i) a) x
    unfolding fill_loop
    fill_loop-Good zero i a x one here (inl good) = good
    fill_loop-Good zero i a x one here (inr (low, high)) = absurd (omega (arith, low, high))
    fill_loop-Good (suc count) i a x one here h =
        let e : suc i - 1 ≡ i = omega arith in
        let right : f.val (f.mul_el (a (suc i - 1)) (a 1)) ≡ power v w (suc i) =
          rw e (next_power a i one here) in
        let b = put_at (suc i) (f.mul_el (a (suc i - 1)) (a 1)) a in
        let keep = λ (y : ℕ) (good : Good a y). put_at-Good (suc i) _ a y right (λ apart. good) in
        fill_loop-Good count (suc i) b x (keep 1 one)
          (put_at-Good (suc i) _ a (suc i) right (λ apart. absurd (itself (suc i) apart)))
          (split h keep right)
      where
        itself : (n : ℕ) → (n == n) ≡ false → ⊥
        itself n h = ground arith

        split :
            (Good a x) ⊎ ((i < x) × (x ≤ suc count + i))
            → ((y : ℕ) → Good a y → Good (put_at (suc i) (f.mul_el (a (suc i - 1)) (a 1)) a) y)
            → f.val (f.mul_el (a (suc i - 1)) (a 1)) ≡ power v w (suc i)
            → (Good (put_at (suc i) (f.mul_el (a (suc i - 1)) (a 1)) a) x)
              ⊎ ((suc i < x) × (x ≤ count + suc i))
        split (inl good) keep right = inl (keep x good)
        split (inr (low, high)) keep right = elim (Bool-cases (x == suc i)) [
          | inl same ↦ inl (
              put_at-Good (suc i) _ a x right (λ apart. absurd (
                itself (suc i)
                  (subst (λ y. (y == suc i) ≡ false) ((==_iff x (suc i)).0 same) apart))))
          | inr other ↦ inr (ground arith, omega (arith, high))
        ]

    exp-Good :
        (r : El) (a : ℕ → El) (n : ℕ)
        → n < 2 ^ 64
        → Good a 1
        → f.val (exp f r (a 1) n) ≡ power v w n
    exp-Good r a n lt one =
        let e : 1 * n ≡ n = omega arith in
        exp_lem f r (a 1) n lt
        ∙ ap (λ t. power v t n) one
        ∙ sym (power-times v w 1 n)
        ∙ ap (power v w) e

    -- Of a span likewise.
    fill_span-Good :
        (n_roots n_span id : ℕ) (a : ℕ → El) (x : ℕ)
        → n_roots ≤ 2 ^ 63
        → id < n_span
        → Good a 1
        → (Good a x)
          ⊎ ((span_start (n_roots / n_span) id ≤ x)
              × (x < span_end n_roots n_span (n_roots / n_span) id))
        → Good (fill_span f n_roots n_span id a) x
    unfolding fill_span
    fill_span-Good n_roots n_span id a x small lt one h =
        let c = n_roots / n_span in
        let s = span_start c id in
        let t = span_end n_roots n_span c id in
        let next : s + 1 ≡ suc s = omega arith in
        elim (Bool-cases (ltb s t)) [
          | inr empty ↦ rw empty (outside s t empty h)
          | inl some_in ↦
              let right = exp-Good (a s) a s (span_start_lt n_roots n_span id small lt) one in
              let keep = λ (y : ℕ) (good : Good a y). put_at-Good s _ a y right (λ apart. good) in
              rw (some_in, next)
                (fill_loop-Good (t - suc s) s (put_at s (exp f (a s) (a 1) s) a) x (keep 1 one)
                  (put_at-Good s _ a s right (λ apart. absurd (itself s apart)))
                  (split s t right keep h))
        ]
      where
        itself : (n : ℕ) → (n == n) ≡ false → ⊥
        itself n h = ground arith

        outside : (s t : ℕ) → ltb s t ≡ false → (Good a x) ⊎ ((s ≤ x) × (x < t)) → Good a x
        outside s t empty (inl good) = good
        outside s t empty (inr (low, high)) = absurd (ground (arith, low, high))

        split :
            (s t : ℕ)
            → f.val (exp f (a s) (a 1) s) ≡ power v w s
            → ((y : ℕ) → Good a y → Good (put_at s (exp f (a s) (a 1) s) a) y)
            → (Good a x) ⊎ ((s ≤ x) × (x < t))
            → (Good (put_at s (exp f (a s) (a 1) s) a) x) ⊎ ((s < x) × (x ≤ t - suc s + s))
        split s t right keep (inl good) = inl (keep x good)
        split s t right keep (inr (low, high)) = elim (Bool-cases (x == s)) [
          | inl same ↦ inl (
              put_at-Good s _ a x right (λ apart.
                absurd (itself s (subst (λ y. (y == s) ≡ false) ((==_iff x s).0 same) apart))))
          | inr other ↦ inr (ground arith, omega (arith, low, high))
        ]

    -- In any order of the spans.
    spans-Good :
        (n_roots n_span : ℕ) (rounds : List ℕ) (a : ℕ → El) (x : ℕ)
        → n_roots ≤ 2 ^ 63
        → ((i : ℕ) → n_span ≤ i → runs i rounds ≡ 0)
        → Good a 1
        → (Good a x)
          ⊎ ((id : ℕ) × (0 < runs id rounds)
              × (span_start (n_roots / n_span) id ≤ x)
              × (x < span_end n_roots n_span (n_roots / n_span) id))
        → Good (run_rounds (fill_span f n_roots n_span) rounds a) x
    unfolding run_rounds
    spans-Good n_roots n_span [] a x small bounded one (inl good) = good
    spans-Good n_roots n_span [] a x small bounded one (inr (id, run, low, high)) =
        absurd (omega (arith, run))
    spans-Good n_roots n_span (j ∷ rounds) a x small bounded one h =
        let lt = head_bound n_span j rounds bounded in
        let keep = λ (y : ℕ) (good : Good a y).
          fill_span-Good n_roots n_span j a y small lt one (inl good) in
        spans-Good n_roots n_span rounds (fill_span f n_roots n_span j a) x small
          (λ i above. omega (arith, bounded i above)) (keep 1 one) (split lt keep h)
      where
        split :
            j < n_span
            → ((y : ℕ) → Good a y → Good (fill_span f n_roots n_span j a) y)
            → (Good a x)
              ⊎ ((id : ℕ) × (0 < runs id (j ∷ rounds))
                  × (span_start (n_roots / n_span) id ≤ x)
                  × (x < span_end n_roots n_span (n_roots / n_span) id))
            → (Good (fill_span f n_roots n_span j a) x)
              ⊎ ((id : ℕ) × (0 < runs id rounds)
                  × (span_start (n_roots / n_span) id ≤ x)
                  × (x < span_end n_roots n_span (n_roots / n_span) id))
        split lt keep (inl good) = inl (keep x good)
        split lt keep (inr (id, run, low, high)) = elim (Bool-cases (j == id)) [
          | inl same ↦
              let e : id ≡ j = sym ((==_iff j id).0 same) in
              inl (
                fill_span-Good n_roots n_span j a x small lt one (
                  inr (
                    subst
                      (λ k.
                        (span_start (n_roots / n_span) k ≤ x)
                        × (x < span_end n_roots n_span (n_roots / n_span) k))
                      e (low, high))))
          | inr other ↦
              let later : 0 < 0 + runs id rounds =
                subst (λ b. 0 < (if b then 1 else 0) + runs id rounds) other run in
              inr (id, omega (arith, later), low, high)
        ]

    -- Every cell of the table.
    pub table_lem :
        (n_roots n_span : ℕ) (rounds : List ℕ) (a : ℕ → El) (x : ℕ)
        → n_roots ≤ 2 ^ 63
        → 0 < n_span
        → IsRange 0 n_span rounds
        → Good a 0
        → Good a 1
        → x < n_roots
        → Good (run_rounds (fill_span f n_roots n_span) rounds a) x
    table_lem n_roots n_span rounds a x small pos range nought one lt =
        spans-Good n_roots n_span rounds a x small (IsRange-outside 0 n_span rounds range) one
          (cases x lt)
      where
        once : (id : ℕ) → id < n_span → 0 < runs id rounds
        once id p =
            let e : (leb 0 id && ltb id n_span) ≡ true = ground arith in
            let r : runs id rounds ≡ 1 = range id ∙ rw e refl in omega (arith, r)

        cases :
            (x : ℕ)
            → x < n_roots
            → (Good a x)
              ⊎ ((id : ℕ) × (0 < runs id rounds)
                  × (span_start (n_roots / n_span) id ≤ x)
                  × (x < span_end n_roots n_span (n_roots / n_span) id))
        cases zero lt = inl nought
        cases (suc zero) lt = inl one
        cases (suc (suc x)) lt =
            let (id, p, low, high) = span_of n_roots n_span (suc (suc x)) pos (omega arith) lt in
            inr (id, once id p, low, high)

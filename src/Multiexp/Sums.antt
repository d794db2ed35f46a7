-- ===== src/Multiexp/Sums.antt =====
-- Sums of multiples in an abelian group.
use keyless_zk_proofs.Common.{
  ℕ, zero, suc, ◌+◌, ◌*◌, ◌≤◌, ◌<◌, ◌≡◌, refl, sym, ◌∙◌, ap, ap₂, arith, false, ◌==◌, Bool-cases,
  ==_iff, inl, inr,
}
use keyless_zk_proofs.Group.{AbelianGroup}
use keyless_zk_proofs.Group.Times.{times, times-add, plus_interchange, plus_swap}

module _ {ℓ} {V : Type ℓ} (v : AbelianGroup V) where
  pub times-plus : (n : ℕ) (x y : V) → times v n (v.plus x y) ≡ v.plus (times v n x) (times v n y)
  unfolding times
  times-plus zero x y = sym (v.none-plus v.none)
  times-plus (suc n) x y =
      ap (v.plus (v.plus x y)) (times-plus n x y)
      ∙ plus_interchange v x y (times v n x) (times v n y)

  pub times-none : (n : ℕ) → times v n v.none ≡ v.none
  unfolding times
  times-none zero = refl
  times-none (suc n) = v.none-plus _ ∙ times-none n

  pub times-times : (m n : ℕ) (x : V) → times v m (times v n x) ≡ times v (m * n) x
  unfolding times
  times-times zero n x = let e : 0 * n ≡ 0 = omega arith in rw e refl
  times-times (suc m) n x =
      let e : suc m * n ≡ n + m * n = omega arith in
      rw e (ap (v.plus (times v n x)) (times-times m n x) ∙ sym (times-add v n (m * n) x))

  unfoldable pub sum : ℕ → (ℕ → V) → V
  sum zero f = v.none
  sum (suc n) f = v.plus (f n) (sum n f)

  pub sum_congr : (n : ℕ) (f h : ℕ → V) → ((i : ℕ) → i < n → f i ≡ h i) → sum n f ≡ sum n h
  unfolding sum
  sum_congr zero f h e = refl
  sum_congr (suc n) f h e =
      ap₂ v.plus (e n (omega arith)) (sum_congr n f h (λ i p. e i (omega arith)))

  pub sum-none : (n : ℕ) (f : ℕ → V) → ((i : ℕ) → i < n → f i ≡ v.none) → sum n f ≡ v.none
  unfolding sum
  sum-none zero f e = refl
  sum-none (suc n) f e =
      ap₂ v.plus (e n (omega arith)) (sum-none n f (λ i p. e i (omega arith))) ∙ v.none-plus v.none

  pub sum-plus :
      (n : ℕ) (f h : ℕ → V) → sum n (λ i. v.plus (f i) (h i)) ≡ v.plus (sum n f) (sum n h)
  unfolding sum
  sum-plus zero f h = sym (v.none-plus v.none)
  sum-plus (suc n) f h =
      ap (v.plus (v.plus (f n) (h n))) (sum-plus n f h)
      ∙ plus_interchange v (f n) (h n) (sum n f) (sum n h)

  pub times-sum : (k n : ℕ) (f : ℕ → V) → times v k (sum n f) ≡ sum n (λ i. times v k (f i))
  unfolding sum
  times-sum k zero f = times-none k
  times-sum k (suc n) f =
      times-plus k (f n) (sum n f) ∙ ap (v.plus (times v k (f n))) (times-sum k n f)

  -- The last terms that are none may be left out.
  pub sum-extend :
      (n m : ℕ) (f : ℕ → V) → ((i : ℕ) → n ≤ i → i < m + n → f i ≡ v.none) → sum (m + n) f ≡ sum n f
  unfolding sum
  sum-extend n zero f e = let z : 0 + n ≡ n = omega arith in rw z refl
  sum-extend n (suc m) f e =
      let z : suc m + n ≡ suc (m + n) = omega arith in
      rw z (
        ap (λ t. v.plus t (sum (m + n) f)) (e (m + n) (omega arith) (omega arith))
        ∙ v.none-plus _
        ∙ sum-extend n m f (λ i p q. e i p (omega arith)))

  -- A family that differs at one place: what was there is exchanged for what is there now.
  pub sum_exchange :
      (n k : ℕ) (f h : ℕ → V)
      → k < n
      → ((i : ℕ) → i < n → (i == k) ≡ false → f i ≡ h i)
      → v.plus (sum n f) (h k) ≡ v.plus (sum n h) (f k)
  unfolding sum
  sum_exchange zero k f h lt e = absurd (omega arith)
  sum_exchange (suc n) k f h lt e = elim (Bool-cases (n == k)) [
    | inl same ↦
        let at_n : n ≡ k = (==_iff n k).0 same in
        rw (← at_n) (
          ap (λ t. v.plus (v.plus (f n) t) (h n))
            (sum_congr n f h (λ i p. e i (omega arith) (apart i (omega arith))))
          ∙ plus_swap v (f n) (sum n h) (h n))
    | inr other ↦
        let below : k < n = ground arith in
        v.plus_assoc (f n) (sum n f) (h k)
        ∙ ap₂ v.plus (e n (omega arith) other)
            (sum_exchange n k f h below (λ i p. e i (omega arith)))
        ∙ sym (v.plus_assoc (h n) (sum n h) (f k))
  ]
    where
      apart : (i : ℕ) → i < k → (i == k) ≡ false
      apart i p = ground arith

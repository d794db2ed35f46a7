-- ===== src/Groth16/Loops.antt =====
-- The loops of prove on the arrays a, b and c, in any order of their rounds.
use keyless_zk_proofs.Common.{
  ℕ, ◌≤◌, ◌<◌, ◌≡◌, refl, sym, ◌∙◌, ap, ap₂, arith, List, [], ◌∷◌, true, false, ◌==◌, ==_iff,
  if◌then◌else◌, Bool-cases, inl, inr, leb, ltb, ◌&&◌,
}
use keyless_zk_proofs.Group.Times.{times, times-add, plus-none}
use keyless_zk_proofs.Field.{CommutativeRing, BaseField}
use keyless_zk_proofs.Multiexp.Sums.{sum, sum_congr, sum-none, sum-plus}
use keyless_zk_proofs.Fft.{put_at, run_rounds}
use keyless_zk_proofs.Fft.Rounds.{IsRange, runs, IsRange-outside, head_bound, run_rounds-inside}
use keyless_zk_proofs.Fft.Orthogonal.{sum_one}
use keyless_zk_proofs.Groth16.{Coef}
use keyless_zk_proofs.Groth16.Arrays.{add_coef, process_coefs}

-- A loop whose round i writes only to cell i.
module _ {ℓ} {A : Type ℓ} (h : ℕ → A → A) where
  abbrev pub at_cell : ℕ → (ℕ → A) → ℕ → A
  at_cell i a = put_at i (h i (a i)) a

  pub at_cell_lem :
      (n : ℕ) (rounds : List ℕ) (a : ℕ → A) (x : ℕ)
      → IsRange 0 n rounds
      → x < n
      → run_rounds at_cell rounds a x ≡ h x (a x)
  unfolding put_at
  at_cell_lem n rounds a x range lt =
      run_rounds-inside at_cell (λ x. x) n (λ i x a p apart. rw apart refl)
        (λ x a b p same. rw (own x) (ap (h x) (same x refl))) 0 rounds a x range (omega arith) lt
      ∙ rw (own x) refl
    where
      own : (x : ℕ) → (x == x) ≡ true
      own x = ground arith

module _ {ℓ} {V : Type ℓ} (v : CommutativeRing V) where
  -- What the rounds add.
  unfoldable total : (ℕ → V) → List ℕ → V
  total f [] = v.sums.none
  total f (i ∷ rounds) = v.sums.plus (f i) (total f rounds)

  sum_single :
      (n k : ℕ) (f : ℕ → V)
      → k < n
      → sum v.sums n (λ i. times v.sums (if k == i then 1 else 0) (f i)) ≡ f k
  unfolding times
  sum_single n k f lt =
      sum_one v n k _ lt (λ i p apart. let other : (k == i) ≡ false = ground arith in rw other refl)
      ∙ (let same : (k == k) ≡ true = ground arith in rw same (plus-none v.sums (f k)))

  total-runs :
      (n : ℕ) (f : ℕ → V) (rounds : List ℕ)
      → ((i : ℕ) → n ≤ i → runs i rounds ≡ 0)
      → total f rounds ≡ sum v.sums n (λ i. times v.sums (runs i rounds) (f i))
  unfolding total times
  total-runs n f [] bounded = sym (sum-none v.sums n _ (λ i p. refl))
  total-runs n f (k ∷ rounds) bounded =
      ap₂ v.sums.plus (sym (sum_single n k f (head_bound n k rounds bounded)))
        (total-runs n f rounds (λ i h. omega (arith, bounded i h)))
      ∙ sym (sum-plus v.sums n _ _)
      ∙ sum_congr v.sums n _ _
          (λ i q. sym (times-add v.sums (if k == i then 1 else 0) (runs i rounds) (f i)))

  total-range :
      (n : ℕ) (f : ℕ → V) (rounds : List ℕ) → IsRange 0 n rounds → total f rounds ≡ sum v.sums n f
  unfolding times
  total-range n f rounds range =
      total-runs n f rounds (IsRange-outside 0 n rounds range)
      ∙ sum_congr v.sums n _ _ (λ i p. rw (once i p) (plus-none v.sums (f i)))
    where
      once : (i : ℕ) → i < n → runs i rounds ≡ 1
      once i p = let e : (leb 0 i && ltb i n) ≡ true = ground arith in range i ∙ rw e refl

module _ {ℓ κ} {V : Type ℓ} {v : CommutativeRing V} {El : Type κ} (f : BaseField v El)
    (coefs : ℕ → Coef El) (wtns : ℕ → El) where
  -- What coefficient `i` adds to cell `x` of the array a, and of the array b.
  abbrev pub term_a : ℕ → ℕ → V
  term_a x i =
      let k = coefs i in
      if k.m == 0
      then (if x == k.c then v.mult (f.val (wtns k.s)) (f.val k.coef) else v.sums.none)
      else v.sums.none

  abbrev pub term_b : ℕ → ℕ → V
  term_b x i =
      let k = coefs i in
      if k.m == 0
      then v.sums.none
      else (if x == k.c then v.mult (f.val (wtns k.s)) (f.val k.coef) else v.sums.none)

  put_at_val :
      (c x : ℕ) (a : ℕ → El) (aux : El)
      → f.val (put_at c (f.add_el (a c) aux) a x)
        ≡ v.sums.plus (f.val (a x)) (if x == c then f.val aux else v.sums.none)
  unfolding put_at
  put_at_val c x a aux = elim (Bool-cases (x == c)) [
    | inl same ↦ let e : x ≡ c = (==_iff x c).0 same in rw (same, e) (f.add_val (a c) aux)
    | inr other ↦ rw other (sym (plus-none v.sums _))
  ]

  add_coef-terms :
      (i x : ℕ) (ab : (ℕ → El) × (ℕ → El))
      → (f.val ((add_coef f coefs wtns i ab).0 x) ≡ v.sums.plus (f.val (ab.0 x)) (term_a x i))
        × (f.val ((add_coef f coefs wtns i ab).1 x) ≡ v.sums.plus (f.val (ab.1 x)) (term_b x i))
  unfolding add_coef
  add_coef-terms i x (a, b) =
      let k = coefs i in
      let aux = f.mul_el (wtns k.s) k.coef in
      elim (Bool-cases (k.m == 0)) [
        | inl first ↦ (
          rw first (
              put_at_val k.c x a aux
              ∙ ap (λ t. v.sums.plus (f.val (a x)) (if x == k.c then t else v.sums.none))
                  (f.mul_val (wtns k.s) k.coef)),
          rw first (sym (plus-none v.sums _)),
        )
        | inr second ↦ (
          rw second (sym (plus-none v.sums _)),
          rw second (
              put_at_val k.c x b aux
              ∙ ap (λ t. v.sums.plus (f.val (b x)) (if x == k.c then t else v.sums.none))
                  (f.mul_val (wtns k.s) k.coef)),
        )
      ]

  process_coefs-total :
      (rounds : List ℕ) (x : ℕ) (ab : (ℕ → El) × (ℕ → El))
      → (f.val ((process_coefs f coefs wtns rounds ab).0 x)
          ≡ v.sums.plus (f.val (ab.0 x)) (total v (term_a x) rounds))
        × (f.val ((process_coefs f coefs wtns rounds ab).1 x)
            ≡ v.sums.plus (f.val (ab.1 x)) (total v (term_b x) rounds))
  unfolding process_coefs total
  process_coefs-total [] x ab = (sym (plus-none v.sums _), sym (plus-none v.sums _))
  process_coefs-total (i ∷ rounds) x ab =
      let later = process_coefs-total rounds x (add_coef f coefs wtns i ab) in
      let now = add_coef-terms i x ab in
      (
        later.0
            ∙ ap (λ t. v.sums.plus t (total v (term_a x) rounds)) now.0
            ∙ v.sums.plus_assoc _ _ _,
        later.1
            ∙ ap (λ t. v.sums.plus t (total v (term_b x) rounds)) now.1
            ∙ v.sums.plus_assoc _ _ _,
      )

  -- In any order in which the loop over the n coefficients runs each of them once: each cell of
  -- the array a grows by the sum of the products of a coefficient with its witness over the
  -- coefficients that name the cell and whose m is 0, and each cell of b by that over those that
  -- name the cell and whose m is another.
  pub process_coefs_lem :
      (n : ℕ) (rounds : List ℕ) (x : ℕ) (ab : (ℕ → El) × (ℕ → El))
      → IsRange 0 n rounds
      → (f.val ((process_coefs f coefs wtns rounds ab).0 x)
          ≡ v.sums.plus (f.val (ab.0 x)) (sum v.sums n (term_a x)))
        × (f.val ((process_coefs f coefs wtns rounds ab).1 x)
            ≡ v.sums.plus (f.val (ab.1 x)) (sum v.sums n (term_b x)))
  process_coefs_lem n rounds x ab range =
      let (a, b) = process_coefs-total rounds x ab in
      (
        a ∙ ap (v.sums.plus _) (total-range v n (term_a x) rounds range),
        b ∙ ap (v.sums.plus _) (total-range v n (term_b x) rounds range),
      )

-- ===== src/Fft/Rounds.antt =====
-- A loop whose rounds touch disjoint cells of an array: its result does not depend on the order in
-- which tbb::parallel_for runs them.
use keyless_zk_proofs.Common.{
  ℕ, ◌+◌, ◌^◌, ◌≤◌, ◌<◌, ◌≡◌, refl, sym, ◌∙◌, subst, arith, List, [], ◌∷◌, ◌==◌, ==_iff, leb, ltb,
  lt→ltb, ◌&&◌, if◌then◌else◌, Bool-cases, ◌⊎◌, inl, inr, true, false,
}
use keyless_zk_proofs.Fft.{run_rounds, int_rounds}

-- How often round `i` is run.
abbrev pub runs : ℕ → List ℕ → ℕ
runs i [] = 0
runs i (j ∷ rounds) = (if j == i then 1 else 0) + runs i rounds

-- Each index from `first` and below `end` is run once, and no other is run.
abbrev pub IsRange : ℕ → ℕ → List ℕ → Type 0
IsRange first end rounds = (i : ℕ) → runs i rounds ≡ (if leb first i && ltb i end then 1 else 0)

pub IsRange-outside :
    (first end : ℕ) (rounds : List ℕ)
    → IsRange first end rounds
    → (i : ℕ) → end ≤ i
    → runs i rounds ≡ 0
IsRange-outside first end rounds range i h =
    let e : (leb first i && ltb i end) ≡ false = ground arith in range i ∙ rw e refl

pub head_bound :
    (end j : ℕ) (rounds : List ℕ) → ((i : ℕ) → end ≤ i → runs i (j ∷ rounds) ≡ 0) → j < end
head_bound end j rounds bounded = elim (Bool-cases (ltb j end)) [
  | inl below ↦ ground arith
  | inr above ↦
      let e : (j == j) ≡ true = ground arith in
      let z : 1 + runs j rounds ≡ 0 =
        subst (λ b. (if b then 1 else 0) + runs j rounds ≡ 0) e (bounded j (ground arith)) in
      absurd (omega (arith, z))
]

-- Where all the rounds that are run are below 2 ^ 31, the int counts them all.
module _ {ℓ} {A : Type ℓ} (step : ℕ → (ℕ → A) → ℕ → A) (end : ℕ) (few : end ≤ 2 ^ 31) where
  int_rounds-bounded :
      (rounds : List ℕ) (a : ℕ → A)
      → ((i : ℕ) → end ≤ i → runs i rounds ≡ 0)
      → run_rounds (int_rounds step) rounds a ≡ run_rounds step rounds a
  unfolding run_rounds int_rounds
  int_rounds-bounded [] a bounded = refl
  int_rounds-bounded (j ∷ rounds) a bounded =
      let below : j < end = head_bound end j rounds bounded in
      rw (lt→ltb j (2 ^ 31) (omega (arith, below, few)))
        (int_rounds-bounded rounds (step j a) (λ i h. omega (arith, bounded i h)))

  pub int_rounds_lem :
      (first : ℕ) (rounds : List ℕ) (a : ℕ → A)
      → IsRange first end rounds
      → run_rounds (int_rounds step) rounds a ≡ run_rounds step rounds a
  int_rounds_lem first rounds a range =
      int_rounds-bounded rounds a (IsRange-outside first end rounds range)

-- Round `i` changes the cells that it owns, and reads no other.
module _ {ℓ} {A : Type ℓ} (step : ℕ → (ℕ → A) → ℕ → A) (owner : ℕ → ℕ) (end : ℕ)
    (frame : (i x : ℕ) (a : ℕ → A) → i < end → (owner x == i) ≡ false → step i a x ≡ a x)
    (local : (x : ℕ) (a b : ℕ → A)
      → owner x < end
      → ((y : ℕ) → owner y ≡ owner x → a y ≡ b y)
      → step (owner x) a x ≡ step (owner x) b x) where
  abbrev Bounded : List ℕ → Type 0
  Bounded rounds = (i : ℕ) → end ≤ i → runs i rounds ≡ 0

  tail-Bounded : (j : ℕ) (rounds : List ℕ) → Bounded (j ∷ rounds) → Bounded rounds
  tail-Bounded j rounds bounded i h = omega (arith, bounded i h)

  untouched :
      (rounds : List ℕ) (a : ℕ → A) (x : ℕ)
      → Bounded rounds
      → runs (owner x) rounds ≡ 0
      → run_rounds step rounds a x ≡ a x
  unfolding run_rounds
  untouched [] a x bounded h = refl
  untouched (j ∷ rounds) a x bounded h = elim (Bool-cases (j == owner x)) [
    | inl same ↦
        let z : 1 + (runs (owner x) rounds) ≡ 0 =
          subst (λ b. (if b then 1 else 0) + runs (owner x) rounds ≡ 0) same h in
        absurd (omega (arith, z))
    | inr other ↦
        untouched rounds (step j a) x (tail-Bounded j rounds bounded) (omega (arith, h))
        ∙ frame j x a (head_bound end j rounds bounded) (ground arith)
  ]

  touched :
      (rounds : List ℕ) (a : ℕ → A) (x : ℕ)
      → Bounded rounds
      → owner x < end
      → runs (owner x) rounds ≡ 1
      → run_rounds step rounds a x ≡ step (owner x) a x
  unfolding run_rounds
  touched [] a x bounded lt h = absurd (omega (arith, h))
  touched (j ∷ rounds) a x bounded lt h = elim (Bool-cases (j == owner x)) [
    | inl same ↦
        let once : 1 + (runs (owner x) rounds) ≡ 1 =
          subst (λ b. (if b then 1 else 0) + runs (owner x) rounds ≡ 1) same h in
        untouched rounds (step j a) x (tail-Bounded j rounds bounded) (omega (arith, once))
        ∙ subst (λ i. step i a x ≡ step (owner x) a x) (sym ((==_iff j (owner x)).0 same)) refl
    | inr other ↦
        let more : 0 + runs (owner x) rounds ≡ 1 =
          subst (λ b. (if b then 1 else 0) + runs (owner x) rounds ≡ 1) other h in
        touched rounds (step j a) x (tail-Bounded j rounds bounded) lt (omega (arith, more))
        ∙ local x (step j a) a lt
            (λ y own. frame j y a (head_bound end j rounds bounded) (apart j y x own other))
  ]
    where
      apart : (j y x : ℕ) → owner y ≡ owner x → (j == owner x) ≡ false → (owner y == j) ≡ false
      apart j y x own other = ground arith

  -- For a loop whose round i changes only the cells that it owns, to what depends on those cells
  -- alone, and which runs each index of its range once, in any order: a cell whose owner is in the
  -- range holds what its owner's round makes of the array before the loop, and every other cell is
  -- unchanged.
  pub run_rounds_lem :
      (first : ℕ) (rounds : List ℕ) (a : ℕ → A) (x : ℕ)
      → IsRange first end rounds
      → run_rounds step rounds a x
        ≡ (if leb first (owner x) && ltb (owner x) end then step (owner x) a x else a x)
  run_rounds_lem first rounds a x range =
      elim (Bool-cases (leb first (owner x) && ltb (owner x) end)) [
        | inl inside ↦ rw inside (
            touched rounds a x (IsRange-outside first end rounds range) (ground arith)
              (range (owner x) ∙ rw inside refl))
        | inr outside ↦ rw outside (
            untouched rounds a x (IsRange-outside first end rounds range)
              (range (owner x) ∙ rw outside refl))
      ]

  pub run_rounds-inside :
      (first : ℕ) (rounds : List ℕ) (a : ℕ → A) (x : ℕ)
      → IsRange first end rounds
      → first ≤ owner x
      → owner x < end
      → run_rounds step rounds a x ≡ step (owner x) a x
  run_rounds-inside first rounds a x range low high =
      let e : (leb first (owner x) && ltb (owner x) end) ≡ true = both (owner x) low high in
      run_rounds_lem first rounds a x range ∙ rw e refl
    where
      both : (o : ℕ) → first ≤ o → o < end → (leb first o && ltb o end) ≡ true
      both o low high = ground arith

  pub run_rounds-outside :
      (first : ℕ) (rounds : List ℕ) (a : ℕ → A) (x : ℕ)
      → IsRange first end rounds
      → (owner x < first) ⊎ (end ≤ owner x)
      → run_rounds step rounds a x ≡ a x
  run_rounds-outside first rounds a x range beyond =
      let e : (leb first (owner x) && ltb (owner x) end) ≡ false = neither (owner x) beyond in
      run_rounds_lem first rounds a x range ∙ rw e refl
    where
      neither : (o : ℕ) → (o < first) ⊎ (end ≤ o) → (leb first o && ltb o end) ≡ false
      neither o (inl low) = ground arith
      neither o (inr high) = ground arith

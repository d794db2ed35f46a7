-- ===== src/Fft/Butterfly.antt =====
-- One stage of fft: its rounds touch disjoint pairs of cells.
use native.Mathlib.Nat.{mul_comm, mul_assoc, add-mul, div-add-mod, mod-lt}
use native.Mathlib.Nat.{add-mul-div_left, add-mul-mod_self_left, div-eq_of_lt, mod-eq_of_lt}
use keyless_zk_proofs.Common.{
  ℕ, zero, suc, ◌+◌, ◌-◌, ◌*◌, ◌/◌, ◌%◌, ◌<◌, ◌≡◌, refl, sym, ◌∙◌, ap, ap₂, subst, arith, List,
  true, false, ◌==◌, ==_iff, Bool-cases, ◌⊎◌, inl, inr, ltb, ltb→lt,
}
use keyless_zk_proofs.Multiexp.{pow2}
use keyless_zk_proofs.Multiexp.Powers.{pow2-pos}
use keyless_zk_proofs.Field.{CommutativeRing, BaseField}
use keyless_zk_proofs.Fft.{Fft, root, put_at, run_rounds, butterfly}
use keyless_zk_proofs.Fft.Rounds.{IsRange, run_rounds-inside}

-- A number by its quotient and its remainder.
pub place-div : (h b j : ℕ) → j < h → (b * h + j) / h ≡ b
place-div h b j lt =
    ap (λ (t : ℕ). t / h) (omega (arith, mul_comm b h))
    ∙ add-mul-div_left j b (omega (arith, lt))
    ∙ omega (arith, div-eq_of_lt lt)

pub place-mod : (h b j : ℕ) → j < h → (b * h + j) % h ≡ j
place-mod h b j lt =
    ap (λ (t : ℕ). t % h) (omega (arith, mul_comm b h))
    ∙ add-mul-mod_self_left j h b
    ∙ mod-eq_of_lt lt

-- The two cells of round `b * h + j`, for `h` the half of the stage's width.
abbrev pub lower : ℕ → ℕ → ℕ → ℕ
lower h b j = b * (2 * h) + j

abbrev pub upper : ℕ → ℕ → ℕ → ℕ
upper h b j = b * (2 * h) + j + h

pub lower_place : (h b j : ℕ) → lower h b j ≡ 2 * b * h + j
lower_place h b j =
    ap (λ (t : ℕ). t + j) (sym (mul_assoc b 2 h) ∙ ap (λ (t : ℕ). t * h) (mul_comm b 2))

pub upper_place : (h b j : ℕ) → upper h b j ≡ (2 * b + 1) * h + j
upper_place h b j = omega (arith, lower_place h b j, add-mul (2 * b) 1 h)

-- The round that a cell belongs to.
abbrev owner : ℕ → ℕ → ℕ
owner h x = x / (2 * h) * h + x % h

owner-lower : (h b j : ℕ) → j < h → owner h (lower h b j) ≡ b * h + j
owner-lower h b j lt =
    ap₂ (λ (q r : ℕ). q * h + r) (place-div (2 * h) b j (omega (arith, lt)))
      (ap (λ (t : ℕ). t % h) (lower_place h b j) ∙ place-mod h (2 * b) j lt)

owner-upper : (h b j : ℕ) → j < h → owner h (upper h b j) ≡ b * h + j
owner-upper h b j lt =
    ap₂ (λ (q r : ℕ). q * h + r)
      (ap (λ (t : ℕ). t / (2 * h)) (omega arith) ∙ place-div (2 * h) b (j + h) (omega (arith, lt)))
      (ap (λ (t : ℕ). t % h) (upper_place h b j) ∙ place-mod h (2 * b + 1) j lt)

-- Every index is one of the two cells of a round.
cell : (h x : ℕ) → 0 < h → (b : ℕ) × (j : ℕ) × (j < h) × ((x ≡ lower h b j) ⊎ (x ≡ upper h b j))
cell h x pos =
    let b = x / (2 * h) in
    let r = x % (2 * h) in
    let whole : b * (2 * h) + r ≡ x = omega (arith, div-add-mod x (2 * h), mul_comm b (2 * h)) in
    let bound : r < 2 * h = mod-lt x (omega (arith, pos)) in go b r whole bound
  where
    go :
        (b r : ℕ)
        → b * (2 * h) + r ≡ x
        → r < 2 * h
        → (b : ℕ) × (j : ℕ) × (j < h) × ((x ≡ lower h b j) ⊎ (x ≡ upper h b j))
    go b r whole bound = elim (Bool-cases (ltb r h)) [
      | inl below ↦ (b, r, ltb→lt r h below, inl (sym whole))
      | inr above ↦
          let at : (b * (2 * h) + (r - h) + h) ≡ x = ground arith in
          (b, r - h, ground arith, inr (sym at))
    ]

module _ {ℓ} {A : Type ℓ} where
  pub put_at-same : (i : ℕ) (x : A) (a : ℕ → A) → put_at i x a i ≡ x
  unfolding put_at
  put_at-same i x a = let e : (i == i) ≡ true = ground arith in rw e refl

  pub put_at-other : (i j : ℕ) (x : A) (a : ℕ → A) → (j == i) ≡ false → put_at i x a j ≡ a j
  unfolding put_at
  put_at-other i j x a e = rw e refl

module _ {ℓ κ} {V : Type ℓ} {v : CommutativeRing V} {El : Type κ} (f : BaseField v El)
    (fft_ : Fft El) (s : ℕ) where
  abbrev h : ℕ
  h = pow2 s

  abbrev product : ℕ → ℕ → (ℕ → El) → El
  product b j a = f.mul_el (root fft_ (suc s) j) (a (upper h b j))

  butterfly_at :
      (b j : ℕ) (a : ℕ → El)
      → j < h
      → butterfly f fft_ (suc s) (b * h + j) a
        ≡ put_at
            (upper h b j)
            (f.sub_el (a (lower h b j)) (product b j a))
            (put_at (lower h b j) (f.add_el (product b j a) (a (lower h b j))) a)
  unfolding butterfly
  butterfly_at b j a lt =
      let half : 2 * h / 2 ≡ h = omega arith in
      rw (half, place-div h b j lt, place-mod h b j lt) refl

  butterfly-lower :
      (b j : ℕ) (a : ℕ → El)
      → j < h
      → butterfly f fft_ (suc s) (b * h + j) a (lower h b j)
        ≡ f.add_el (product b j a) (a (lower h b j))
  butterfly-lower b j a lt =
      let apart : (lower h b j == upper h b j) ≡ false = ground (arith, pow2-pos s) in
      ap (λ c. c (lower h b j)) (butterfly_at b j a lt)
      ∙ put_at-other (upper h b j) (lower h b j) _ _ apart
      ∙ put_at-same (lower h b j) _ a

  butterfly-upper :
      (b j : ℕ) (a : ℕ → El)
      → j < h
      → butterfly f fft_ (suc s) (b * h + j) a (upper h b j)
        ≡ f.sub_el (a (lower h b j)) (product b j a)
  butterfly-upper b j a lt =
      ap (λ c. c (upper h b j)) (butterfly_at b j a lt) ∙ put_at-same (upper h b j) _ _

  butterfly-frame :
      (i x : ℕ) (a : ℕ → El) → (owner h x == i) ≡ false → butterfly f fft_ (suc s) i a x ≡ a x
  butterfly-frame i x a apart =
      let b = i / h in
      let j = i % h in
      let lt : j < h = mod-lt i (pow2-pos s) in
      let whole : b * h + j ≡ i = omega (arith, div-add-mod i h, mul_comm b h) in
      let not_lower : (x == lower h b j) ≡ false =
        differs x (lower h b j) i (owner-lower h b j lt ∙ whole) apart in
      let not_upper : (x == upper h b j) ≡ false =
        differs x (upper h b j) i (owner-upper h b j lt ∙ whole) apart in
      ap (λ i. butterfly f fft_ (suc s) i a x) (sym whole)
      ∙ ap (λ c. c x) (butterfly_at b j a lt)
      ∙ put_at-other (upper h b j) x _ _ not_upper
      ∙ put_at-other (lower h b j) x _ a not_lower
    where
      differs : (x y i : ℕ) → owner h y ≡ i → (owner h x == i) ≡ false → (x == y) ≡ false
      differs x y i own apart = elim (Bool-cases (x == y)) [
        | inr other ↦ other
        | inl same ↦ absurd (clash (owner h x) i (ap (owner h) ((==_iff x y).0 same) ∙ own) apart)
      ]
        where
          clash : (o i : ℕ) → o ≡ i → (o == i) ≡ false → ⊥
          clash o i e h = ground arith

  butterfly-local :
      (x : ℕ) (a a' : ℕ → El)
      → ((y : ℕ) → owner h y ≡ owner h x → a y ≡ a' y)
      → butterfly f fft_ (suc s) (owner h x) a x ≡ butterfly f fft_ (suc s) (owner h x) a' x
  butterfly-local x a a' same = go (cell h x (pow2-pos s))
    where
      go :
          (b : ℕ) × (j : ℕ) × (j < h) × ((x ≡ lower h b j) ⊎ (x ≡ upper h b j))
          → butterfly f fft_ (suc s) (owner h x) a x ≡ butterfly f fft_ (suc s) (owner h x) a' x
      go (b, j, lt, inl at) =
          let own : owner h x ≡ b * h + j = ap (owner h) at ∙ owner-lower h b j lt in
          let low = same (lower h b j) (owner-lower h b j lt ∙ sym own) in
          let high = same (upper h b j) (owner-upper h b j lt ∙ sym own) in
          rw own (
            subst
              (λ x.
                butterfly f fft_ (suc s) (b * h + j) a x
                ≡ butterfly f fft_ (suc s) (b * h + j) a' x)
              (sym at)
              (butterfly-lower b j a lt
                ∙ ap₂ (λ p q. f.add_el (f.mul_el (root fft_ (suc s) j) p) q) high low
                ∙ sym (butterfly-lower b j a' lt)))
      go (b, j, lt, inr at) =
          let own : owner h x ≡ b * h + j = ap (owner h) at ∙ owner-upper h b j lt in
          let low = same (lower h b j) (owner-lower h b j lt ∙ sym own) in
          let high = same (upper h b j) (owner-upper h b j lt ∙ sym own) in
          rw own (
            subst
              (λ x.
                butterfly f fft_ (suc s) (b * h + j) a x
                ≡ butterfly f fft_ (suc s) (b * h + j) a' x)
              (sym at)
              (butterfly-upper b j a lt
                ∙ ap₂ (λ p q. f.sub_el p (f.mul_el (root fft_ (suc s) j) q)) low high
                ∙ sym (butterfly-upper b j a' lt)))

  -- One stage, in any order of its rounds.
  pub stage_lem :
      (t : ℕ) (rounds : List ℕ) (a : ℕ → El) (b j : ℕ)
      → IsRange 0 (pow2 t * h) rounds
      → b < pow2 t
      → j < h
      → (run_rounds (butterfly f fft_ (suc s)) rounds a (lower h b j)
          ≡ f.add_el (product b j a) (a (lower h b j)))
        × (run_rounds (butterfly f fft_ (suc s)) rounds a (upper h b j)
            ≡ f.sub_el (a (lower h b j)) (product b j a))
  stage_lem t rounds a b j range lb lt =
      let inside = λ (x : ℕ) (own : owner h x ≡ b * h + j).
        run_rounds-inside (butterfly f fft_ (suc s)) (owner h) (pow2 t * h)
          (λ i x a p apart. butterfly-frame i x a apart)
          (λ x a b p same. butterfly-local x a b same) 0 rounds a x range (omega arith)
          (subst (λ o. o < pow2 t * h) (sym own) (round_lt b (pow2 t) h j lb lt))
        ∙ ap (λ i. butterfly f fft_ (suc s) i a x) own in
      (
        inside (lower h b j) (owner-lower h b j lt) ∙ butterfly-lower b j a lt,
        inside (upper h b j) (owner-upper h b j lt) ∙ butterfly-upper b j a lt,
      )
    where
      round_lt : (b p h j : ℕ) → b < p → j < h → b * h + j < p * h
      round_lt b zero h j lb lt = absurd (omega (arith, lb))
      round_lt zero (suc p) h j lb lt = omega (arith, lt)
      round_lt (suc b) (suc p) h j lb lt = omega (arith, round_lt b p h j (omega (arith, lb)) lt)

-- ===== src/Fft/Swaps.antt =====
-- The loop of ifft, which scales the elements and negates their indices.
use keyless_zk_proofs.Common.{
  ℕ, ◌-◌, ◌*◌, ◌/◌, ◌≤◌, ◌<◌, ◌≡◌, refl, sym, ◌∙◌, ap, subst, arith, List, true, false, ◌==◌,
  ==_iff, Bool-cases, ◌⊎◌, inl, inr, ltb, if◌then◌else◌,
}
use keyless_zk_proofs.Field.{CommutativeRing, BaseField}
use keyless_zk_proofs.Fft.{Fft, put_at, run_rounds, swap_scaled}
use keyless_zk_proofs.Fft.Rounds.{IsRange, run_rounds-inside, run_rounds-outside}
use keyless_zk_proofs.Fft.Butterfly.{put_at-same, put_at-other}

-- The loop of ifft, where `inv` scales the elements.
module _ {ℓ κ} {V : Type ℓ} {v : CommutativeRing V} {El : Type κ} (f : BaseField v El) (n : ℕ)
    (inv : El) where
  -- The round of a cell; those of 0, of the middle and beyond the array are not run.
  abbrev owner : ℕ → ℕ
  owner x = if ltb n x then n else if ltb x (n - x) then x else n - x

  owner-lower : (i : ℕ) → i < n / 2 → owner i ≡ i
  owner-lower i lt = ground arith

  owner-upper : (i : ℕ) → i < n / 2 → owner (n - i) ≡ i
  owner-upper i lt = ground arith

  module _ (fft_ : Fft El) where
    swap_scaled-lower :
        (i : ℕ) (a : ℕ → El) → i < n / 2 → swap_scaled f fft_ n inv i a i ≡ f.mul_el (a (n - i)) inv
    unfolding swap_scaled
    swap_scaled-lower i a lt =
        let apart : (i == (n - i)) ≡ false = ground arith in
        put_at-other (n - i) i _ _ apart ∙ put_at-same i _ a

    swap_scaled-upper :
        (i : ℕ) (a : ℕ → El) → swap_scaled f fft_ n inv i a (n - i) ≡ f.mul_el (a i) inv
    unfolding swap_scaled
    swap_scaled-upper i a = put_at-same (n - i) _ _

    swap_scaled-frame :
        (i x : ℕ) (a : ℕ → El)
        → i < n / 2
        → (owner x == i) ≡ false
        → swap_scaled f fft_ n inv i a x ≡ a x
    unfolding swap_scaled
    swap_scaled-frame i x a lt apart =
        put_at-other (n - i) x _ _ (differs x (n - i) i (owner-upper i lt) apart)
        ∙ put_at-other i x _ a (differs x i i (owner-lower i lt) apart)
      where
        differs : (x y i : ℕ) → owner y ≡ i → (owner x == i) ≡ false → (x == y) ≡ false
        differs x y i own apart = elim (Bool-cases (x == y)) [
          | inr other ↦ other
          | inl same ↦ absurd (clash (owner x) i (ap owner ((==_iff x y).0 same) ∙ own) apart)
        ]
          where
            clash : (o i : ℕ) → o ≡ i → (o == i) ≡ false → ⊥
            clash o i e h = ground arith

    -- A cell is its round's lower or upper one.
    owner-cases : (x : ℕ) → owner x < n / 2 → (x ≡ owner x) ⊎ (x ≡ n - owner x)
    owner-cases x lt = elim (Bool-cases (ltb n x)) [
      | inl beyond ↦ absurd (far x beyond lt)
      | inr within ↦ elim (Bool-cases (ltb x (n - x))) [
        | inl low ↦ inl (rw (within, low) refl)
        | inr high ↦ inr (rw (within, high) (omega (arith, back x within)))
      ]
    ]
      where
        far : (x : ℕ) → ltb n x ≡ true → owner x < n / 2 → ⊥
        far x beyond lt = ground arith

        back : (x : ℕ) → ltb n x ≡ false → n - (n - x) ≡ x
        back x within = ground arith

    -- What a round leaves in its two cells.
    swap_scaled-owner :
        (x : ℕ) (a : ℕ → El)
        → owner x < n / 2
        → swap_scaled f fft_ n inv (owner x) a x ≡ f.mul_el (a (n - x)) inv
    swap_scaled-owner x a lt = go (owner-cases x lt)
      where
        go :
            (x ≡ owner x) ⊎ (x ≡ n - owner x)
            → swap_scaled f fft_ n inv (owner x) a x ≡ f.mul_el (a (n - x)) inv
        go (inl at) =
            subst (λ y. swap_scaled f fft_ n inv (owner x) a y ≡ f.mul_el (a (n - y)) inv) (sym at)
              (swap_scaled-lower (owner x) a lt)
        go (inr at) =
            let e : n - (n - owner x) ≡ owner x = omega (arith, lt) in
            subst (λ y. swap_scaled f fft_ n inv (owner x) a y ≡ f.mul_el (a (n - y)) inv) (sym at)
              (swap_scaled-upper (owner x) a ∙ ap (λ y. f.mul_el (a y) inv) (sym e))

    owner-twin : (x : ℕ) → owner x < n / 2 → owner (n - x) ≡ owner x
    owner-twin x lt = ground arith

    swaps-inside :
        (rounds : List ℕ) (a : ℕ → El) (x : ℕ)
        → IsRange 1 (n / 2) rounds
        → 0 < owner x
        → owner x < n / 2
        → run_rounds (swap_scaled f fft_ n inv) rounds a x ≡ f.mul_el (a (n - x)) inv
    swaps-inside rounds a x range pos lt =
        run_rounds-inside (swap_scaled f fft_ n inv) owner (n / 2) swap_scaled-frame
          (λ x a b lt same.
            swap_scaled-owner x a lt
            ∙ ap (λ y. f.mul_el y inv) (same (n - x) (owner-twin x lt))
            ∙ sym (swap_scaled-owner x b lt))
          1 rounds a x range pos lt
        ∙ swap_scaled-owner x a lt

    swaps-outside :
        (rounds : List ℕ) (a : ℕ → El) (x : ℕ)
        → IsRange 1 (n / 2) rounds
        → (owner x < 1) ⊎ (n / 2 ≤ owner x)
        → run_rounds (swap_scaled f fft_ n inv) rounds a x ≡ a x
    swaps-outside rounds a x range beyond =
        run_rounds-outside (swap_scaled f fft_ n inv) owner (n / 2) swap_scaled-frame
          (λ x a b lt same.
            swap_scaled-owner x a lt
            ∙ ap (λ y. f.mul_el y inv) (same (n - x) (owner-twin x lt))
            ∙ sym (swap_scaled-owner x b lt))
          1 rounds a x range beyond

    -- The loop and the two multiplications after it, for even `n`.
    abbrev pub scaled : List ℕ → (ℕ → El) → ℕ → El
    scaled rounds a =
        let a2 = run_rounds (swap_scaled f fft_ n inv) rounds a in
        let a3 = put_at 0 (f.mul_el (a2 0) inv) a2 in put_at (n / 2) (f.mul_el (a3 (n / 2)) inv) a3

    -- Every element is scaled, and is that of the negated index.
    pub scaled_lem :
        (rounds : List ℕ) (a : ℕ → El) (x : ℕ)
        → IsRange 1 (n / 2) rounds
        → 0 < n
        → n / 2 * 2 ≡ n
        → x < n
        → scaled rounds a x ≡ f.mul_el (a (if x == 0 then 0 else n - x)) inv
    unfolding put_at
    scaled_lem rounds a x range pos even lt = elim (Bool-cases (x == 0)) [
      | inl first ↦
          let at : x ≡ 0 = (==_iff x 0).0 first in
          let apart : (0 == n / 2) ≡ false = ground arith in
          let low : owner 0 < 1 = ground arith in
          rw (at, apart) (ap (λ y. f.mul_el y inv) (swaps-outside rounds a 0 range (inl low)))
      | inr later ↦ elim (Bool-cases (x == n / 2)) [
        | inl middle ↦
            let at : x ≡ n / 2 = (==_iff x (n / 2)).0 middle in
            let same : (n / 2 == n / 2) ≡ true = ground arith in
            let apart : (n / 2 == 0) ≡ false = ground arith in
            let high : n / 2 ≤ owner (n / 2) = ground arith in
            let half : n - n / 2 ≡ n / 2 = omega (arith, even) in
            rw (at, same, apart, half)
              (ap (λ y. f.mul_el y inv) (swaps-outside rounds a (n / 2) range (inr high)))
        | inr other ↦
            rw (other, later)
              (swaps-inside rounds a x range (inner_pos x lt later) (inner_lt x lt later other))
      ]
    ]
      where
        inner_pos : (x : ℕ) → x < n → (x == 0) ≡ false → 0 < owner x
        inner_pos x lt later = ground arith

        inner_lt : (x : ℕ) → x < n → (x == 0) ≡ false → (x == n / 2) ≡ false → owner x < n / 2
        inner_lt x lt later other = ground arith

-- ===== src/Fft/Permute.antt =====
-- reversePermutation: every index trades places with its reversal, whatever the order.
use keyless_zk_proofs.Common.{
  ℕ, ◌≤◌, ◌<◌, ◌≡◌, refl, sym, ◌∙◌, ap, subst, arith, List, true, false, ◌==◌, ==_iff, ltb, ltb→lt,
  lt→ltb, if◌then◌else◌, Bool-cases, inl, inr,
}
use keyless_zk_proofs.Outcome.{ok}
use keyless_zk_proofs.Multiexp.{pow2}
use keyless_zk_proofs.Fft.{run_rounds, int_rounds, swap_one, reverse_permutation, put_at}
use keyless_zk_proofs.Multiexp.Powers.{pow2_mono}
use keyless_zk_proofs.Fft.Length.{log2-pow2}
use keyless_zk_proofs.Fft.Rounds.{IsRange, run_rounds-inside, int_rounds_lem}
use keyless_zk_proofs.Fft.Reverse.{rev, rev_lt, rev_twice}
use keyless_zk_proofs.Fft.Reverse.Whole.{br_lem}

module _ (k : ℕ) where
  -- The round that changes a cell: that of the larger of the index and its reversal.
  abbrev owner : ℕ → ℕ
  owner x = if ltb x (pow2 k) then (if ltb x (rev k x) then rev k x else x) else x

  owner_inside : (x : ℕ) → owner x < pow2 k → x < pow2 k
  owner_inside x h = elim (Bool-cases (ltb x (pow2 k))) [
    | inl below ↦ ltb→lt _ _ below
    | inr above ↦
        subst (λ b. (if b then (if ltb x (rev k x) then rev k x else x) else x) < pow2 k) above h
  ]

  owner-rev : (x : ℕ) → x < pow2 k → owner (rev k x) ≡ owner x
  owner-rev x lt =
      rw (lt→ltb x (pow2 k) lt, lt→ltb (rev k x) (pow2 k) (rev_lt k x), rev_twice k x lt)
        (higher x (rev k x))
    where
      higher : (x r : ℕ) → (if ltb r x then x else r) ≡ (if ltb x r then r else x)
      higher x r = ground arith

  owner_lt : (x : ℕ) → x < pow2 k → owner x < pow2 k
  owner_lt x lt = rw (lt→ltb x (pow2 k) lt) (elim (Bool-cases (ltb x (rev k x))) [
    | inl below ↦ rw below (rev_lt k x)
    | inr above ↦ rw above lt
  ])

module _ {ℓ} {A : Type ℓ} (k : ℕ) (few : k ≤ 30) where
  swap_one-frame :
      (i x : ℕ) (a : ℕ → A) → i < pow2 k → (owner k x == i) ≡ false → swap_one k i a x ≡ a x
  unfolding swap_one put_at
  swap_one-frame i x a lt apart =
      let r = rev k i in
      let back : rev k r ≡ i = rev_twice k i lt in
      let at = br_lem k i (omega (arith, few)) lt in
      let inside : r < pow2 k = rev_lt k i in
      elim (Bool-cases (ltb r i)) [
        | inr stays ↦ rw (at, stays) refl
        | inl swaps ↦
            let not_i : (x == i) ≡ false = elim (Bool-cases (x == i)) [
              | inr no_i ↦ no_i
              | inl same ↦
                  let e = (==_iff x i).0 same in
                  let own : owner k i ≡ i = rw (lt→ltb i (pow2 k) lt, not_below i r swaps) refl in
                  absurd (clash _ i (ap (owner k) e ∙ own) apart)
            ] in
            let not_r : (x == r) ≡ false = elim (Bool-cases (x == r)) [
              | inr no_r ↦ no_r
              | inl same ↦
                  let e = (==_iff x r).0 same in
                  let own : owner k r ≡ i = rw (lt→ltb r (pow2 k) inside, back, swaps) refl in
                  absurd (clash _ i (ap (owner k) e ∙ own) apart)
            ] in
            rw (at, swaps, not_r, not_i) refl
      ]
    where
      not_below : (i r : ℕ) → ltb r i ≡ true → ltb i r ≡ false
      not_below i r h = ground arith

      clash : (o i : ℕ) → o ≡ i → (o == i) ≡ false → ⊥
      clash o i e h = ground arith

  -- What its owner's round leaves in a cell.
  swap_one-owner : (x : ℕ) (a : ℕ → A) → x < pow2 k → swap_one k (owner k x) a x ≡ a (rev k x)
  unfolding swap_one put_at
  swap_one-owner x a lt =
      let r = rev k x in
      let back : rev k r ≡ x = rev_twice k x lt in
      let inside : r < pow2 k = rev_lt k x in
      let same : (x == x) ≡ true = ground arith in
      elim (Bool-cases (ltb x r)) [
        | inl below ↦
            rw
              (
                lt→ltb x (pow2 k) lt,
                below,
                br_lem k r (omega (arith, few)) inside,
                back,
                below,
                same,
              )
              refl
        | inr above ↦ elim (Bool-cases (ltb r x)) [
          | inl strictly ↦
              let apart : (x == r) ≡ false = ground arith in
              rw
                (
                  lt→ltb x (pow2 k) lt,
                  above,
                  br_lem k x (omega (arith, few)) lt,
                  strictly,
                  apart,
                  same,
                )
                refl
          | inr fixed ↦
              rw (lt→ltb x (pow2 k) lt, above, br_lem k x (omega (arith, few)) lt, fixed)
                (ap a (equal x r above fixed))
        ]
      ]
    where
      equal : (x r : ℕ) → ltb x r ≡ false → ltb r x ≡ false → x ≡ r
      equal x r g h = ground arith

  -- For an array of 2 ^ k elements, k at most 30, reversePermutation, in any order of its rounds,
  -- leaves at each index below 2 ^ k what was at the index with the k bits reversed.
  pub reverse_permutation_lem :
      (rounds : List ℕ) (a : ℕ → A)
      → IsRange 0 (pow2 k) rounds
      → (b : ℕ → A) × (reverse_permutation (pow2 k) rounds a ≡ ok b)
        × ((x : ℕ) → x < pow2 k → b x ≡ a (rev k x))
  unfolding reverse_permutation
  reverse_permutation_lem rounds a range =
      let small : k ≤ 63 = omega (arith, few) in
      let counted : run_rounds (int_rounds (swap_one k)) rounds a
          ≡ run_rounds (swap_one k) rounds a =
        int_rounds_lem (swap_one k) (pow2 k) (pow2_mono k 31 (omega (arith, few))) 0 rounds a
          range in
      (run_rounds (swap_one k) rounds a, rw (log2-pow2 k small, counted) refl, at)
    where
      at : (x : ℕ) → x < pow2 k → run_rounds (swap_one k) rounds a x ≡ a (rev k x)
      at x lt =
          run_rounds-inside (swap_one k) (owner k) (pow2 k) swap_one-frame
            (λ x a b lt same.
              let below = owner_inside k x lt in
              swap_one-owner x a below
              ∙ same (rev k x) (owner-rev k x below)
              ∙ sym (swap_one-owner x b below))
            0 rounds a x range (omega arith) (owner_lt k x lt)
          ∙ swap_one-owner x a lt

-- ===== src/Naf/Chain.antt =====
-- Signed digits, the lowest first, between two natural numbers.
use keyless_zk_proofs.Common.{
  ℕ, zero, suc, ◌+◌, ◌*◌, ◌/◌, ◌%◌, ◌<◌, ◌≡◌, refl, List, [], ◌∷◌, ◌++◌, Bool, true, false, arith,
  ◌==◌,
}
use keyless_zk_proofs.Naf.{odd, truth, round, rounds}

-- `n` is what the digit `d` adds to twice `m`; the digit 2 takes one away.
abbrev pub IsStep : ℕ → ℕ → ℕ → Type 0
IsStep d n m = (n + truth (d == 2) ≡ truth (d == 1) + 2 * m) × (d < 3)

-- `n` is the sum of the digits' multiples of powers of 2 and of `m` times the power behind them,
-- and so is, for a natural number in place of `n`, each suffix of the digits.
abbrev pub Chain : List ℕ → ℕ → ℕ → Type 0
Chain [] n m = n ≡ m
Chain (d ∷ ds) n m = (k : ℕ) × IsStep d n k × Chain ds k m

pub Chain-append : (xs ys : List ℕ) (n k m : ℕ) → Chain xs n k → Chain ys k m → Chain (xs ++ ys) n m
Chain-append [] ys n k m e h = rw e h
Chain-append (x ∷ xs) ys n k m (l, s, h) g = (l, s, Chain-append xs ys l k m h g)

-- The low `n` bits of `x` and `y` are the same, and `r` is `y` without them.
abbrev pub Agrees : ℕ → ℕ → ℕ → ℕ → Type 0
Agrees zero x y r = y ≡ r
Agrees (suc n) x y r = (x % 2 ≡ y % 2) × Agrees n (x / 2) (y / 2) r

-- The number that the two flags and the bits that are left stand for.
abbrev pub state : Bool → Bool → ℕ → ℕ
state last carry y = truth last + 2 * truth carry + 2 * y

abbrev pub IsSettled : Bool → Bool → Type 0
IsSettled true true = ⊥
IsSettled true false = Unit
IsSettled false carry = Unit

round_cases :
    (last cur carry : Bool) (y : ℕ)
    → y % 2 ≡ truth cur
    → IsStep
        (round last cur carry).0
        (state last carry y)
        (state (round last cur carry).1 (round last cur carry).2 (y / 2))
round_cases true true true y e = omega arith
round_cases true true false y e = omega arith
round_cases true false true y e = omega arith
round_cases true false false y e = omega arith
round_cases false true true y e = omega arith
round_cases false true false y e = omega arith
round_cases false false true y e = omega arith
round_cases false false false y e = omega arith

parity : (x y : ℕ) → x % 2 ≡ y % 2 → y % 2 ≡ truth (odd x)
parity x y e = ground arith

pub rounds_lem :
    (n x y r : ℕ) (last carry : Bool)
    → Agrees n x y r
    → Chain
        (rounds n x last carry).0
        (state last carry y)
        (state (rounds n x last carry).1 (rounds n x last carry).2 r)
unfolding rounds
rounds_lem zero x y r last carry h = rw h refl
rounds_lem (suc n) x y r last carry h =
    let (d, last', carry') = round last (odd x) carry in
    (
      state last' carry' (y / 2),
      round_cases last (odd x) carry y (parity x y h.0),
      rounds_lem n (x / 2) (y / 2) r last' carry' h.1,
    )

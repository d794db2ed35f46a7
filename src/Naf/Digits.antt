-- ===== src/Naf/Digits.antt =====
-- The digits that buildNaf writes, against the number that the bytes of the scalar hold.
use native.Mathlib.Nat.{mod-eq_of_lt}
use keyless_zk_proofs.Common.{
  ℕ, zero, suc, ◌+◌, ◌-◌, ◌*◌, ◌/◌, ◌%◌, ◌^◌, ◌≤◌, ◌<◌, ◌≡◌, refl, ap, ap₂, List, [], ◌∷◌, map,
  Bool, true, false, arith, length, get_or, drop,
}
use keyless_zk_proofs.BinFile.{from_le}
use keyless_zk_proofs.Naf.{odd, truth, round, rounds, pack, index}
use keyless_zk_proofs.Naf.Chain.{Chain, Agrees, IsSettled}

-- Every number is a byte.
abbrev pub IsBytes : List ℕ → Type 0
IsBytes [] = Unit
IsBytes (b ∷ bs) = (b < 256) × IsBytes bs

-- The mask takes the flags away, and the digits stay.
unmask : (ds : List ℕ) (n m : ℕ) → Chain ds n m → map (λ b. b % 4) ds ≡ ds
unmask [] n m h = refl
unmask (d ∷ ds) n m (k, s, h) =
    ap₂ (λ t u. t ∷ u) (mod-eq_of_lt (omega (arith, s.1))) (unmask ds k m h)

flags_lem :
    (d : ℕ) (last carry : Bool)
    → d < 3
    → ((d + 4 * truth carry + 8 * truth last) % 4 ≡ d)
      × (odd ((d + 4 * truth carry + 8 * truth last) / 8) ≡ last)
      × (odd ((d + 4 * truth carry + 8 * truth last) / 4) ≡ carry)
flags_lem d true true h = ground arith
flags_lem d true false h = ground arith
flags_lem d false true h = ground arith
flags_lem d false false h = ground arith

pub unpack :
    (ds : List ℕ) (last carry : Bool) (n m : ℕ)
    → Chain ds n m
    → 0 < length ds
    → (map (λ b. b % 4) (pack ds last carry) ≡ ds)
      × (odd (get_or (pack ds last carry) 0 0 / 8) ≡ last)
      × (odd (get_or (pack ds last carry) 0 0 / 4) ≡ carry)
unfolding pack
unpack [] last carry n m h few = absurd (omega arith)
unpack (d ∷ ds) last carry n m (k, s, h) few =
    let (e, f, g) = flags_lem d last carry s.1 in (ap₂ (λ t u. t ∷ u) e (unmask ds k m h), f, g)

pub length-rounds : (n x : ℕ) (last carry : Bool) → length (rounds n x last carry).0 ≡ n
unfolding rounds
length-rounds zero x last carry = refl
length-rounds (suc n) x last carry = ap suc (length-rounds n (x / 2) _ _)

round-IsSettled :
    (last cur carry : Bool) → IsSettled (round last cur carry).1 (round last cur carry).2
round-IsSettled true true true = tt
round-IsSettled true true false = tt
round-IsSettled true false true = tt
round-IsSettled true false false = tt
round-IsSettled false true true = tt
round-IsSettled false true false = tt
round-IsSettled false false true = tt
round-IsSettled false false false = tt

pub rounds-IsSettled :
    (n x : ℕ) (last carry : Bool)
    → IsSettled last carry
    → IsSettled (rounds n x last carry).1 (rounds n x last carry).2
unfolding rounds
rounds-IsSettled zero x last carry h = h
rounds-IsSettled (suc n) x last carry h =
    rounds-IsSettled n (x / 2) _ _ (round-IsSettled last (odd x) carry)

-- What is left of a number from byte `i` on.
abbrev pub rest : List ℕ → ℕ → ℕ
rest scalar i = from_le (drop i scalar)

pub rest_lem :
    (scalar : List ℕ) (i : ℕ) → rest scalar i ≡ get_or scalar i 0 + 256 * rest scalar (suc i)
unfolding from_le
rest_lem [] zero = refl
rest_lem [] (suc i) = refl
rest_lem (b ∷ bs) zero = refl
rest_lem (b ∷ bs) (suc i) = rest_lem bs i

pub byte_lt : (scalar : List ℕ) (i : ℕ) → IsBytes scalar → get_or scalar i 0 < 256
byte_lt [] i h = omega arith
byte_lt (b ∷ bs) zero h = h.0
byte_lt (b ∷ bs) (suc i) h = byte_lt bs i h.1

pub beyond : (scalar : List ℕ) (i : ℕ) → length scalar ≤ i → rest scalar i ≡ 0
unfolding from_le
beyond [] zero h = refl
beyond [] (suc i) h = refl
beyond (b ∷ bs) zero h = absurd (omega arith)
beyond (b ∷ bs) (suc i) h = beyond bs i (omega arith)

pub get_or-beyond : (scalar : List ℕ) (i : ℕ) → length scalar ≤ i → get_or scalar i 0 ≡ 0
get_or-beyond [] i h = refl
get_or-beyond (b ∷ bs) zero h = absurd (omega arith)
get_or-beyond (b ∷ bs) (suc i) h = get_or-beyond bs i (omega arith)

-- The index of the table, from the byte and from what is left behind it.
pub index_lem :
    (scalar : List ℕ) (i : ℕ) (last carry : Bool)
    → index scalar i last carry
      ≡ truth last
        + (get_or scalar i 0 - get_or scalar i 0 % 2)
        + rest scalar (suc i) % 2 * 2 ^ 8
        + truth carry * 2 ^ 9
unfolding index
index_lem scalar i last carry = ground (
  arith,
  rest_lem scalar (suc i),
  get_or-beyond scalar i,
  get_or-beyond scalar (suc i),
  beyond scalar (suc (suc i)),
)

pub index_bits :
    (b r : ℕ) (last carry : Bool) (input : ℕ)
    → b < 256
    → input ≡ truth last + (b - b % 2) + r % 2 * 2 ^ 8 + truth carry * 2 ^ 9
    → (odd input ≡ last)
      × (odd (input / 2 ^ 9) ≡ carry)
      × Agrees 8 (input / 2) ((b + 256 * r) / 2) (r / 2)
index_bits b r true true input h e = (ground arith, ground arith, omega arith)
index_bits b r true false input h e = (ground arith, ground arith, omega arith)
index_bits b r false true input h e = (ground arith, ground arith, omega arith)
index_bits b r false false input h e = (ground arith, ground arith, omega arith)

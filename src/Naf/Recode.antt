-- ===== src/Naf/Recode.antt =====
-- The words that buildNaf writes, one after the other.
use keyless_zk_proofs.Common.{
  ℕ, zero, suc, ◌+◌, ◌*◌, ◌/◌, ◌%◌, ◌^◌, ◌≤◌, ◌<◌, ◌≡◌, refl, ap, List, [], ◌∷◌, ◌++◌, map, Bool,
  true, false, arith, length, get_or, take,
}
use keyless_zk_proofs.BinFile.{from_le}
use keyless_zk_proofs.Naf.{odd, truth, rounds, pack, table_entry, index, build_words, build_naf}
use keyless_zk_proofs.Naf.Chain.{Chain, Chain-append, Agrees, state, IsSettled, rounds_lem}
use keyless_zk_proofs.Naf.Digits.{
  IsBytes, unpack, length-rounds, rounds-IsSettled, rest, rest_lem, byte_lt, beyond, get_or-beyond,
  index_lem, index_bits,
}

-- The flags that a word of the table leaves.
abbrev last_after : List ℕ → Bool
last_after rs = odd (get_or rs 0 0 / 8)

abbrev carry_after : List ℕ → Bool
carry_after rs = odd (get_or rs 0 0 / 4)

-- What one word says of the number that is left.
record IsWord (rs : List ℕ) (n r : ℕ) : Type 0 where
  chain : Chain (map (λ b. b % 4) rs) n (state (last_after rs) (carry_after rs) r)
  eight : length (map (λ b. b % 4) rs) ≡ 8
  settled : IsSettled (last_after rs) (carry_after rs)

table_entry-IsWord :
    (input y r : ℕ) (last carry : Bool)
    → IsSettled last carry
    → odd input ≡ last
    → odd (input / 2 ^ 9) ≡ carry
    → Agrees 8 (input / 2) y r
    → IsWord (table_entry input) (state last carry y) r
unfolding table_entry
table_entry-IsWord input y r last carry settled el ec h =
    let chain = rounds_lem 8 (input / 2) y r last carry h in
    let eight = length-rounds 8 (input / 2) last carry in
    let ok = rounds-IsSettled 8 (input / 2) last carry settled in
    let t = rounds 8 (input / 2) last carry in
    let (digits, fl, fc) =
      unpack t.0 t.1 t.2 (state last carry y) (state t.1 t.2 r) chain (omega (arith, eight)) in
    rw (el, ec)
      (record {
        chain = rw (digits, fl, fc) chain;
        eight = rw digits eight;
        settled = rw (fl, fc) ok;
      })

index-IsWord :
    (scalar : List ℕ) (i : ℕ) (last carry : Bool)
    → IsBytes scalar
    → IsSettled last carry
    → IsWord
        (table_entry (index scalar i last carry))
        (state last carry (rest scalar i / 2))
        (rest scalar (suc i) / 2)
index-IsWord scalar i last carry bytes settled =
    let (el, ec, h) =
      index_bits (get_or scalar i 0) (rest scalar (suc i)) last carry (index scalar i last carry)
        (byte_lt scalar i bytes) (index_lem scalar i last carry) in
    rw (rest_lem scalar i) (table_entry-IsWord _ _ _ last carry settled el ec h)

take-append : (xs ys : List ℕ) (n k : ℕ) → length xs ≡ n → take (n + k) (xs ++ ys) ≡ xs ++ take k ys
take-append [] ys n k e = let z : n + k ≡ k = omega arith in rw z refl
take-append (x ∷ xs) ys zero k e = absurd (omega arith)
take-append (x ∷ xs) ys (suc n) k e =
    let z : suc n + k ≡ suc (n + k) = omega arith in
    rw z (ap (λ t. x ∷ t) (take-append xs ys n k (omega arith)))

build_words_step :
    (scalar : List ℕ) (n i : ℕ) (last carry : Bool)
    → build_words scalar (suc n) i last carry
      ≡ map (λ b. b % 4) (table_entry (index scalar i last carry))
        ++ build_words scalar n
            (suc i)
            (last_after (table_entry (index scalar i last carry)))
            (carry_after (table_entry (index scalar i last carry)))
unfolding build_words
build_words_step scalar n i last carry = refl

entries :
    (ys : List ℕ)
    → (take 2 (map (λ b. b % 4) (table_entry 0) ++ ys) ≡ 0 ∷ 0 ∷ [])
      × (take 2 (map (λ b. b % 4) (table_entry 1) ++ ys) ≡ 1 ∷ 0 ∷ [])
      × (take 2 (map (λ b. b % 4) (table_entry 512) ++ ys) ≡ 0 ∷ 1 ∷ [])
unfolding table_entry rounds pack
entries ys = (refl, refl, refl)

index-beyond :
    (scalar : List ℕ) (i : ℕ) (last carry : Bool)
    → length scalar ≤ i
    → index scalar i last carry ≡ truth last + truth carry * 2 ^ 9
index-beyond scalar i last carry h = omega (
  arith,
  index_lem scalar i last carry,
  get_or-beyond scalar i h,
  beyond scalar (suc i) (omega arith),
)

-- Past the last byte two digits hold what is left, and no others are set.
tail_lem :
    (scalar : List ℕ) (i : ℕ) (last carry : Bool)
    → length scalar ≤ i
    → IsSettled last carry
    → Chain (take 2 (build_words scalar 2 i last carry)) (state last carry (rest scalar i / 2)) 0
tail_lem scalar i true true h settled = absurd settled
tail_lem scalar i true false h settled =
    let input : index scalar i true false ≡ 1 = index-beyond scalar i true false h in
    rw (build_words_step scalar 1 i true false, input, (entries _).1, beyond scalar i h)
      (0, (refl, omega arith), (0, (refl, omega arith), refl))
tail_lem scalar i false true h settled =
    let input : index scalar i false true ≡ 512 = index-beyond scalar i false true h in
    rw (build_words_step scalar 1 i false true, input, (entries _).2, beyond scalar i h)
      (1, (refl, omega arith), (0, (refl, omega arith), refl))
tail_lem scalar i false false h settled =
    let input : index scalar i false false ≡ 0 = index-beyond scalar i false false h in
    rw (build_words_step scalar 1 i false false, input, (entries _).0, beyond scalar i h)
      (0, (refl, omega arith), (0, (refl, omega arith), refl))

words_lem :
    (scalar : List ℕ) (n i : ℕ) (last carry : Bool)
    → IsBytes scalar
    → i + n ≡ length scalar
    → IsSettled last carry
    → Chain
        (take (8 * n + 2) (build_words scalar (n + 2) i last carry))
        (state last carry (rest scalar i / 2))
        0
words_lem scalar zero i last carry bytes e settled =
    tail_lem scalar i last carry (omega arith) settled
words_lem scalar (suc n) i last carry bytes e settled =
    let rounds_left : suc n + 2 ≡ suc (n + 2) = omega arith in
    let digits_left : 8 * suc n + 2 ≡ 8 + (8 * n + 2) = omega arith in
    let w = index-IsWord scalar i last carry bytes settled in
    rw
      (
        rounds_left,
        build_words_step scalar (n + 2) i last carry,
        digits_left,
        take-append _ _ 8 (8 * n + 2) w.eight,
      )
      (Chain-append _ _ _ _ 0 w.chain
        (words_lem scalar n (suc i) _ _ bytes (omega arith) w.settled))

-- For a scalar of at least one byte, the first 8 * n + 2 digits that buildNaf writes for its n
-- bytes are 0, 1 or 2 for -1, and Horner's rule on them, from the highest down and from 0, gives
-- the number in the bytes.
pub build_naf-Chain :
    (scalar : List ℕ)
    → IsBytes scalar
    → 0 < length scalar
    → Chain (take (8 * length scalar + 2) (build_naf scalar)) (from_le scalar) 0
unfolding build_naf
build_naf-Chain scalar bytes few =
    let first : truth (odd (get_or scalar 0 0)) ≡ rest scalar 0 % 2 =
      ground (arith, rest_lem scalar 0) in
    let whole : state (odd (get_or scalar 0 0)) false (rest scalar 0 / 2) ≡ from_le scalar =
      omega (arith, first) in
    rw (← whole) (
      words_lem scalar (length scalar) 0 (odd (get_or scalar 0 0)) false bytes (omega arith)
        (start (odd (get_or scalar 0 0))))
  where
    start : (b : Bool) → IsSettled b false
    start true = tt
    start false = tt

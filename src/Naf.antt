-- ===== src/Naf.antt =====
-- naf.cpp: the table of signed digits, and the recoding of a scalar through it.
pub mod Chain
pub mod Digits
pub mod Recode
pub mod Multiply
use keyless_zk_proofs.Common.{
  ℕ, zero, suc, ◌+◌, ◌-◌, ◌*◌, ◌/◌, ◌%◌, ◌^◌, ◌≡◌, List, [], ◌∷◌, ◌++◌, map, Bool, true, false,
  if◌then◌else◌, ◌==◌, ltb, length, get_or,
}

-- `in & (1 << k)`, on the number shifted by `k`.
abbrev pub odd : ℕ → Bool
odd x = x % 2 == 1

abbrev pub truth : Bool → ℕ
truth b = if b then 1 else 0

-- One round of the inner loop of buildNafTable: the digit, with 2 for -1, and `last` and `carry`
-- after it.
abbrev pub round : Bool → Bool → Bool → ℕ × Bool × Bool
round true true true = (1, false, true)
round true true false = (2, false, true)
round true false true = (2, false, true)
round true false false = (1, false, false)
round false true true = (0, false, true)
round false true false = (0, true, false)
round false false true = (0, true, false)
round false false false = (0, false, false)

-- `n` rounds; `x` is `in` shifted by the number of the next bit.
unfoldable pub rounds : ℕ → ℕ → Bool → Bool → List ℕ × Bool × Bool
rounds zero x last carry = ([], last, carry)
rounds (suc n) x last carry =
    let (d, last', carry') = round last (odd x) carry in
    let (ds, last'', carry'') = rounds n (x / 2) last' carry' in (d ∷ ds, last'', carry'')

-- The two flags are set in bits 2 and 3 of the first byte, which its digit leaves clear.
unfoldable pub pack : List ℕ → Bool → Bool → List ℕ
pack [] last carry = []
pack (d ∷ ds) last carry = (d + 4 * truth carry + 8 * truth last) ∷ ds

-- The bytes of NAFTable[in].
unfoldable pub table_entry : ℕ → List ℕ
table_entry input =
    let (ds, last, carry) = rounds 8 (input / 2) (odd input) (odd (input / 2 ^ 9)) in
    pack ds last carry

-- `st`, the index of the table.
unfoldable pub index : List ℕ → ℕ → Bool → Bool → ℕ
index scalar i last carry =
    let size = length scalar in
    let byte = get_or scalar i 0 in
    truth last
    + (if ltb i size then byte - byte % 2 else 0)
    + (if ltb i (size - 1) then get_or scalar (suc i) 0 % 2 * 2 ^ 8 else 0)
    + (if carry then 2 ^ 9 else 0)

-- The loop of buildNaf, `n` more times from `i`: the words of the result, as their bytes.
unfoldable pub build_words : List ℕ → ℕ → ℕ → Bool → Bool → List ℕ
build_words scalar zero i last carry = []
build_words scalar (suc n) i last carry =
    let rs = table_entry (index scalar i last carry) in
    let flags = get_or rs 0 0 in
    map (λ b. b % 4) rs ++ build_words scalar n (suc i) (odd (flags / 8)) (odd (flags / 4))

-- buildNaf, on a scalar of at least one byte and of fewer than 2 ^ 32 - 2, so that `scalarSize+2`
-- does not wrap.
unfoldable pub build_naf : List ℕ → List ℕ
build_naf scalar = build_words scalar (length scalar + 2) 0 (odd (get_or scalar 0 0)) false

-- ===== src/Fft/Reverse/Whole.antt =====
-- BR reverses the bits of an index.
use Prim.Native.Nat.{bit_and, bit_or}
use native.Mathlib.Nat.{mul-div_cancel}
use keyless_zk_proofs.Common.{
  ℕ, ◌+◌, ◌-◌, ◌*◌, ◌/◌, ◌%◌, ◌^◌, ◌≤◌, ◌<◌, ◌≡◌, refl, sym, ◌∙◌, ap, ap₂, subst, arith, true, ◌==◌,
  ==_iff, ltb, ltb→lt,
}
use keyless_zk_proofs.BinFile.{word64}
use keyless_zk_proofs.Multiexp.{pow2}
use keyless_zk_proofs.Multiexp.Powers.{pow2-pos, pow2_mono}
use keyless_zk_proofs.Fft.{swap_groups, br}
use keyless_zk_proofs.Fft.Reverse.{rev, rev-concat, rev-zero}
use keyless_zk_proofs.Fft.Reverse.Bitwise.{bit_and_fields, bit_or_fields}
use keyless_zk_proofs.Fft.Reverse.Words.{
  word, word_and, word_or, all_below, all_below_lem, turn, swap_groups-word,
}

-- The last three lines of BR, on one byte.
abbrev turned : ℕ → ℕ
turned x = turn 0xAA 0x55 (2 ^ 1) (turn 0xCC 0x33 (2 ^ 2) (turn 0xF0 0x0F (2 ^ 4) x))

turned-rev : (x : ℕ) → x < 256 → turned x ≡ rev 8 x
unfolding rev
turned-rev x lt =
    (==_iff (turned x) (rev 8 x)).0 (all_below_lem 256 (λ x. turned x == rev 8 x) x refl lt)

turn_lt :
    (upper lower c : ℕ)
    → all_below 256 (λ x. ltb (turn upper lower c x) 256) ≡ true
    → (x : ℕ) → x < 256
    → turn upper lower c x < 256
turn_lt upper lower c table x lt =
    ltb→lt _ 256 (all_below_lem 256 (λ x. ltb (turn upper lower c x) 256) x table lt)

and_full : (x : ℕ) → x < 256 → bit_and x 255 ≡ x
and_full x lt = (==_iff (bit_and x 255) x).0 (all_below_lem 256 (λ x. bit_and x 255 == x) x refl lt)

and_none : (x : ℕ) → x < 256 → bit_and x 0 ≡ 0
and_none x lt = (==_iff (bit_and x 0) 0).0 (all_below_lem 256 (λ x. bit_and x 0 == 0) x refl lt)

or_none : (x : ℕ) → x < 256 → bit_or x 0 ≡ x
or_none x lt = (==_iff (bit_or x 0) x).0 (all_below_lem 256 (λ x. bit_or x 0 == x) x refl lt)

none_or : (x : ℕ) → x < 256 → bit_or 0 x ≡ x
none_or x lt = (==_iff (bit_or 0 x) x).0 (all_below_lem 256 (λ x. bit_or 0 x == x) x refl lt)

-- The first two lines of BR turn the bytes round.
module _ (a b c d : ℕ) (la : a < 256) (lb : b < 256) (lc : c < 256) (ld : d < 256) where
  abbrev x : ℕ
  x = word a b c d

  -- `x | x >> 16` of the two halves, each in its place.
  rotate : bit_or (x / 2 ^ 16) (x * 2 ^ 16 % word64) ≡ (a * 256 + b) * pow2 32 + word c d a b
  rotate =
      let low : x / 2 ^ 16 ≡ 0 * pow2 16 + (a * 256 + b) = omega (arith, la, lb, lc, ld) in
      let high : x * 2 ^ 16 % word64 ≡ x * pow2 16 + 0 = omega (arith, la, lb, lc, ld) in
      let zero_or : bit_or 0 x ≡ x =
        word_or 0 0 0 0 a b c d (omega arith) (omega arith) (omega arith) lb lc ld
        ∙ ap₂ (λ (t e : ℕ). t * 256 + e)
            (ap₂ (λ (t e : ℕ). t * 256 + e)
              (ap₂ (λ (t e : ℕ). t * 256 + e) (none_or a la) (none_or b lb)) (none_or c lc))
            (none_or d ld) in
      let or_zero : bit_or (a * 256 + b) 0 ≡ a * 256 + b =
        bit_or_fields 8 a b 0 0 lb (omega arith)
        ∙ ap₂ (λ (t e : ℕ). t * 256 + e) (or_none a la) (or_none b lb) in
      rw (low, high)
        (bit_or_fields 16 0 (a * 256 + b) x 0 (omega (arith, la, lb)) (omega arith)
          ∙ rw (zero_or, or_zero) (omega arith))

  masked :
      (e f g h : ℕ)
      → f < 256
      → g < 256
      → h < 256
      → e < 256
      → bit_and ((a * 256 + b) * pow2 32 + word c d a b) (word e f g h)
        ≡ word (bit_and c e) (bit_and d f) (bit_and a g) (bit_and b h)
  masked e f g h lf lg lh le =
      let high : bit_and (a * 256 + b) 0 ≡ 0 =
        bit_and_fields 8 a b 0 0 lb (omega arith)
        ∙ ap₂ (λ (t e : ℕ). t * 256 + e) (and_none a la) (and_none b lb) in
      let place : word e f g h ≡ 0 * pow2 32 + word e f g h = omega arith in
      ap (bit_and ((a * 256 + b) * pow2 32 + word c d a b)) place
      ∙ bit_and_fields 32 (a * 256 + b) (word c d a b) 0 (word e f g h)
          (omega (arith, la, lb, lc, ld)) (omega (arith, le, lf, lg, lh))
      ∙ rw high (omega arith)
      ∙ word_and c d a b e f g h ld la lb lf lg lh

  kept_upper : bit_and ((a * 256 + b) * pow2 32 + word c d a b) 0xFF00FF00 ≡ word c 0 a 0
  kept_upper =
      masked 255 0 255 0 (omega arith) (omega arith) (omega arith) (omega arith)
      ∙ rw (and_full c lc, and_none d ld, and_full a la, and_none b lb) refl

  kept_lower : bit_and ((a * 256 + b) * pow2 32 + word c d a b) 0x00FF00FF ≡ word 0 d 0 b
  kept_lower =
      masked 0 255 0 255 (omega arith) (omega arith) (omega arith) (omega arith)
      ∙ rw (and_none c lc, and_full d ld, and_none a la, and_full b lb) refl

  bytes_round :
      swap_groups 0xFF00FF00 0x00FF00FF 8 (bit_or (x / 2 ^ 16) (x * 2 ^ 16 % word64)) ≡ word d c b a
  unfolding swap_groups
  bytes_round =
      let upper : bit_and ((a * 256 + b) * pow2 32 + word c d a b) 0xFF00FF00 / 2 ^ 8
          ≡ word 0 c 0 a =
        ap (λ (t : ℕ). t / 256) kept_upper ∙ omega (arith, la, lc) in
      let lower : bit_and ((a * 256 + b) * pow2 32 + word c d a b) 0x00FF00FF * 2 ^ 8 % word64
          ≡ word d 0 b 0 =
        ap (λ (t : ℕ). t * 256 % word64) kept_lower ∙ omega (arith, lb, ld) in
      rw (rotate, upper, lower)
        (word_or 0 c 0 a d 0 b 0 lc (omega arith) la (omega arith) lb (omega arith)
          ∙ rw (none_or d ld, or_none c lc, none_or b lb, or_none a la) refl)

-- The reversal of a word's bits, byte by byte.
rev-word :
    (a b c d : ℕ)
    → a < 256
    → b < 256
    → c < 256
    → d < 256
    → rev 32 (word a b c d) ≡ word (rev 8 d) (rev 8 c) (rev 8 b) (rev 8 a)
rev-word a b c d la lb lc ld =
    rev-concat 8 24 ((a * 256 + b) * 256 + c) d ld
    ∙ ap (λ (t : ℕ). rev 8 d * pow2 24 + t)
        (rev-concat 8 16 (a * 256 + b) c lc
          ∙ ap (λ (t : ℕ). rev 8 c * pow2 16 + t) (rev-concat 8 8 a b lb))
    ∙ omega arith

-- What BR computes of a word, before its last shift.
abbrev lines : ℕ → ℕ
lines x = swap_groups 0xAAAAAAAA 0x55555555 1 (
    swap_groups 0xCCCCCCCC 0x33333333 2 (
      swap_groups 0xF0F0F0F0 0x0F0F0F0F 4
        (swap_groups 0xFF00FF00 0x00FF00FF 8 (bit_or (x / 2 ^ 16) (x * 2 ^ 16 % word64)))))

lines-word :
    (a b c d : ℕ)
    → a < 256
    → b < 256
    → c < 256
    → d < 256
    → lines (word a b c d) ≡ rev 32 (word a b c d)
lines-word a b c d la lb lc ld =
    let four = turn_lt 0xF0 0x0F (2 ^ 4) refl in
    let two = turn_lt 0xCC 0x33 (2 ^ 2) refl in
    let first = turn 0xF0 0x0F (2 ^ 4) in
    let second = λ (x : ℕ). turn 0xCC 0x33 (2 ^ 2) (first x) in
    ap
      (λ (x : ℕ).
        swap_groups 0xAAAAAAAA 0x55555555 1
          (swap_groups 0xCCCCCCCC 0x33333333 2 (swap_groups 0xF0F0F0F0 0x0F0F0F0F 4 x)))
      (bytes_round a b c d la lb lc ld)
    ∙ ap (λ (x : ℕ). swap_groups 0xAAAAAAAA 0x55555555 1 (swap_groups 0xCCCCCCCC 0x33333333 2 x))
        (swap_groups-word 0xF0 0x0F 4 (omega arith) (omega arith) refl (omega arith) d c b a ld lc
          lb la)
    ∙ ap (swap_groups 0xAAAAAAAA 0x55555555 1) (
        swap_groups-word 0xCC 0x33 2 (omega arith) (omega arith) refl (omega arith) (first d)
          (first c) (first b) (first a) (four d ld) (four c lc) (four b lb) (four a la))
    ∙ swap_groups-word 0xAA 0x55 1 (omega arith) (omega arith) refl (omega arith) (second d)
        (second c) (second b) (second a) (two (first d) (four d ld)) (two (first c) (four c lc))
        (two (first b) (four b lb)) (two (first a) (four a la))
    ∙ rw (← turned-rev d ld, ← turned-rev c lc, ← turned-rev b lb, ← turned-rev a la) refl
    ∙ sym (rev-word a b c d la lb lc ld)

lines_lem : (x : ℕ) → x < 2 ^ 32 → lines x ≡ rev 32 x
lines_lem x lt =
    let a = x / 2 ^ 24 in
    let b = x / 2 ^ 16 % 256 in
    let c = x / 256 % 256 in
    let d = x % 256 in
    let whole : word a b c d ≡ x = omega (arith, lt) in
    subst (λ x. lines x ≡ rev 32 x) whole
      (lines-word a b c d (omega (arith, lt)) (omega arith) (omega arith) (omega arith))

-- For an index x of fewer than k bits, k at most 32: BR(x, k) is x with its k bits reversed.
pub br_lem : (k x : ℕ) → k ≤ 32 → x < pow2 k → br x k ≡ rev k x
unfolding br
br_lem k x h lt =
    let t = 32 - k in
    let all : k + t ≡ 32 = omega (arith, h) in
    let place : 0 * pow2 k + x ≡ x = omega arith in
    let bound : x < 2 ^ 32 = omega (arith, pow2_mono k 32 h) in
    let whole : rev 32 x ≡ rev k x * pow2 t =
      subst (λ n. rev n x ≡ rev k x * pow2 t) all
        (subst (λ y. rev (k + t) y ≡ rev k x * pow2 t) place
          (rev-concat k t 0 x lt ∙ omega (arith, rev-zero t))) in
    ap (λ (y : ℕ). y / pow2 t) (lines_lem x bound ∙ whole) ∙ mul-div_cancel (rev k x) (pow2-pos t)

-- ===== src/Fft/Reverse/Words.antt =====
-- Words of four bytes: the masks and shifts of BR that stay within the bytes.
use Prim.Native.Nat.{bit_and, bit_or}
use native.Mathlib.Nat.{mul_assoc, mul-add, mul_comm, mul-div_cancel_left}
use keyless_zk_proofs.Common.{
  ℕ, zero, suc, ◌+◌, ◌*◌, ◌/◌, ◌%◌, ◌^◌, ◌<◌, ◌≡◌, refl, sym, ◌∙◌, ap, ap₂, arith, Bool, true,
  false, ◌&&◌, ◌==◌, ==_iff, ltb, ltb→lt,
}
use keyless_zk_proofs.BinFile.{word64}
use keyless_zk_proofs.Fft.{swap_groups}
use keyless_zk_proofs.Fft.Reverse.Bitwise.{bit_and_fields, bit_or_fields}

abbrev pub word : ℕ → ℕ → ℕ → ℕ → ℕ
word a b c d = ((a * 256 + b) * 256 + c) * 256 + d

pub word_and :
    (a b c d e f g h : ℕ)
    → b < 256
    → c < 256
    → d < 256
    → f < 256
    → g < 256
    → h < 256
    → bit_and (word a b c d) (word e f g h)
      ≡ word (bit_and a e) (bit_and b f) (bit_and c g) (bit_and d h)
word_and a b c d e f g h lb lc ld lf lg lh =
    bit_and_fields 8 _ d _ h ld lh
    ∙ ap (λ (t : ℕ). t * 256 + bit_and d h)
        (bit_and_fields 8 _ c _ g lc lg
          ∙ ap (λ (t : ℕ). t * 256 + bit_and c g) (bit_and_fields 8 a b e f lb lf))

pub word_or :
    (a b c d e f g h : ℕ)
    → b < 256
    → c < 256
    → d < 256
    → f < 256
    → g < 256
    → h < 256
    → bit_or (word a b c d) (word e f g h)
      ≡ word (bit_or a e) (bit_or b f) (bit_or c g) (bit_or d h)
word_or a b c d e f g h lb lc ld lf lg lh =
    bit_or_fields 8 _ d _ h ld lh
    ∙ ap (λ (t : ℕ). t * 256 + bit_or d h)
        (bit_or_fields 8 _ c _ g lc lg
          ∙ ap (λ (t : ℕ). t * 256 + bit_or c g) (bit_or_fields 8 a b e f lb lf))

-- What holds of every number below `n`.
abbrev pub all_below : ℕ → (ℕ → Bool) → Bool
all_below zero test = true
all_below (suc n) test = test n && all_below n test

pub all_below_lem :
    (n : ℕ) (test : ℕ → Bool) (x : ℕ) → all_below n test ≡ true → x < n → test x ≡ true
all_below_lem zero test x h lt = absurd (omega (arith, lt))
all_below_lem (suc n) test x h lt = ground (arith, all_below_lem n test x)

-- The masks and shifts on one byte.
abbrev pub turn : ℕ → ℕ → ℕ → ℕ → ℕ
turn upper lower c x = bit_or (bit_and x upper / c) (bit_and x lower * c)

-- On a byte, the bits that are shifted stay within it.
abbrev is_inside : ℕ → ℕ → ℕ → ℕ → Bool
is_inside upper lower c x =
    (c * (bit_and x upper / c) == bit_and x upper)
    && (ltb (bit_and x upper / c) 256 && ltb (bit_and x lower * c) 256)

both : (p q : Bool) → (p && q) ≡ true → (p ≡ true) × (q ≡ true)
both true q h = (refl, h)
both false q h = absurd (ground arith)

-- One line of BR works byte by byte.
module _ (upper lower width : ℕ) (fits : upper < 256) (low : lower < 256)
    (inside : all_below 256 (is_inside upper lower (2 ^ width)) ≡ true)
    (positive : 0 < 2 ^ width) where
  abbrev c : ℕ
  c = 2 ^ width

  tests :
      (x : ℕ)
      → x < 256
      → (c * (bit_and x upper / c) ≡ bit_and x upper)
        × (bit_and x upper / c < 256)
        × (bit_and x lower * c < 256)
  tests x lt =
      let (e, rest) = both _ _ (all_below_lem 256 (is_inside upper lower c) x inside lt) in
      let (up, down) = both _ _ rest in
      ((==_iff (c * (bit_and x upper / c)) (bit_and x upper)).0 e, ltb→lt _ _ up, ltb→lt _ _ down)

  scale_word : (k a b d e : ℕ) → k * word a b d e ≡ word (k * a) (k * b) (k * d) (k * e)
  scale_word k a b d e =
      grow k ((a * 256 + b) * 256 + d) e
      ∙ ap (λ (t : ℕ). t * 256 + k * e)
          (grow k (a * 256 + b) d ∙ ap (λ (t : ℕ). t * 256 + k * d) (grow k a b))
    where
      grow : (k x y : ℕ) → k * (x * 256 + y) ≡ k * x * 256 + k * y
      grow k x y = mul-add k (x * 256) y ∙ omega (arith, mul_assoc k x 256)

  pub swap_groups-word :
      (x y z t : ℕ)
      → x < 256
      → y < 256
      → z < 256
      → t < 256
      → swap_groups
          (word upper upper upper upper)
          (word lower lower lower lower)
          width
          (word x y z t)
        ≡ word
            (turn upper lower c x)
            (turn upper lower c y)
            (turn upper lower c z)
            (turn upper lower c t)
  unfolding swap_groups
  swap_groups-word x y z t lx ly lz lt =
      let up = λ (x : ℕ). bit_and x upper / c in
      let down = λ (x : ℕ). bit_and x lower * c in
      let raised : bit_and (word x y z t) (word upper upper upper upper) / c
          ≡ word (up x) (up y) (up z) (up t) =
        ap (λ (t : ℕ). t / c)
          (word_and x y z t upper upper upper upper ly lz lt fits fits fits
            ∙ sym (
                scale_word c (up x) (up y) (up z) (up t)
                ∙ words (tests x lx).0 (tests y ly).0 (tests z lz).0 (tests t lt).0))
        ∙ mul-div_cancel_left (word (up x) (up y) (up z) (up t)) positive in
      let kept : bit_and (word x y z t) (word lower lower lower lower) * c
          ≡ word (down x) (down y) (down z) (down t) =
        ap (λ (t : ℕ). t * c) (word_and x y z t lower lower lower lower ly lz lt low low low)
        ∙ mul_comm _ c
        ∙ scale_word c (bit_and x lower) (bit_and y lower) (bit_and z lower) (bit_and t lower)
        ∙ words (mul_comm c _) (mul_comm c _) (mul_comm c _) (mul_comm c _) in
      let dx = (tests x lx).2 in
      let dy = (tests y ly).2 in
      let dz = (tests z lz).2 in
      let dt = (tests t lt).2 in
      let small : word (down x) (down y) (down z) (down t) % word64
          ≡ word (down x) (down y) (down z) (down t) =
        omega (arith, dx, dy, dz, dt) in
      rw (raised, kept, small)
        (word_or (up x) (up y) (up z) (up t) (down x) (down y) (down z) (down t) (tests y ly).1
          (tests z lz).1 (tests t lt).1 dy dz dt)
    where
      words :
          {a b d e a' b' d' e' : ℕ}
          → a ≡ a'
          → b ≡ b'
          → d ≡ d'
          → e ≡ e'
          → word a b d e ≡ word a' b' d' e'
      words p q r s =
          ap₂ (λ (t e : ℕ). t * 256 + e)
            (ap₂ (λ (t e : ℕ). t * 256 + e) (ap₂ (λ (t e : ℕ). t * 256 + e) p q) r) s

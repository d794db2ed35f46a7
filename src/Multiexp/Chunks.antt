-- ===== src/Multiexp/Chunks.antt =====
-- getChunk: where it reads, and which bits of the scalar it gives.
use native.Mathlib.Nat.{mod-eq_of_lt, div-div-eq-div-mul, div-lt_iff_lt-mul, mul_comm}
use keyless_zk_proofs.Common.{
  ℕ, ◌+◌, ◌-◌, ◌*◌, ◌/◌, ◌%◌, ◌^◌, ◌≤◌, ◌<◌, ◌≡◌, ◌⊎◌, inl, inr, refl, sym, ◌∙◌, ap, arith, List,
  take, drop, false, ltb, Bool-cases,
}
use keyless_zk_proofs.BinFile.{word64, from_le}
use keyless_zk_proofs.Naf.Digits.{IsBytes}
use keyless_zk_proofs.Multiexp.{pow2, sub64, chunk_byte, chunk_width, get_chunk}
use keyless_zk_proofs.Multiexp.Powers.{pow2-pos, pow2-add, pow2_mono, mask-shift-mask}
use keyless_zk_proofs.Multiexp.Bytes.{
  drop-IsBytes, take-IsBytes, drop-drop, take-drop-take, from_le-drop, from_le-take, from_le-lt,
}

-- Scalars of eight bytes or more, whose bits an int can count.
abbrev pub IsScalarSize : ℕ → Type 0
IsScalarSize size = (8 ≤ size) × (size * 8 + 16 < 2 ^ 31)

-- The number in the bytes of scalar `i`.
abbrev pub scalar_at : List ℕ → ℕ → ℕ → ℕ
scalar_at scalars size i = from_le (take size (drop (i * size) scalars))

pub sub64_lem : (a b : ℕ) → b ≤ a → sub64 a b ≡ a - b
sub64_lem a b h = let no_borrow : ltb a b ≡ false = ground arith in rw no_borrow refl

-- For scalars of at least 8 bytes, whose number of bits and 16 more are below 2 ^ 31, and a first
-- bit within the scalar: the eight bytes that getChunk reads end within the scalar, start at or
-- before the byte of the first bit, and either that bit lies in their first byte or they are the
-- last eight bytes.
pub chunk_byte_lem :
    (size t : ℕ)
    → IsScalarSize size
    → t < size * 8
    → (chunk_byte size t + 8 ≤ size)
      × (chunk_byte size t * 8 ≤ t)
      × ((t < chunk_byte size t * 8 + 8) ⊎ (chunk_byte size t + 8 ≡ size))
unfolding chunk_byte
chunk_byte_lem size t sized lt =
    let e : sub64 size 8 ≡ size - 8 = sub64_lem size 8 sized.0 in
    elim (Bool-cases (ltb (size - 8) (t / 8))) [
      | inl late ↦
          let past : size - 8 < t / 8 = ground arith in
          rw (e, late) (omega (arith, sized.0), omega (arith, past), inr (omega (arith, sized.0)))
      | inr early ↦
          let inside : t / 8 ≤ size - 8 = ground arith in
          rw (e, early) (omega (arith, sized.0, inside), omega arith, inl (omega arith))
    ]

-- The last chunk ends with the scalar.
pub chunk_width_lem :
    (size bits t : ℕ)
    → IsScalarSize size
    → bits ≤ 16
    → t < size * 8
    → ((chunk_width size bits t ≡ bits) × (t + bits ≤ size * 8))
      ⊎ ((chunk_width size bits t ≤ bits) × (t + chunk_width size bits t ≡ size * 8))
unfolding chunk_width
chunk_width_lem size bits t sized few lt =
    let e : size * 8 % word64 ≡ size * 8 = mod-eq_of_lt (omega (arith, sized.1)) in
    let f : (t + bits) % word64 ≡ t + bits = mod-eq_of_lt (omega (arith, sized.1, few, lt)) in
    elim (Bool-cases (ltb (size * 8) (t + bits))) [
      | inl narrow ↦
          let past : size * 8 < t + bits = ground arith in
          rw (e, f, narrow, sub64_lem (size * 8) t (omega (arith, lt)))
            (inr (omega (arith, past, lt), omega (arith, lt)))
      | inr whole ↦
          let inside : t + bits ≤ size * 8 = ground arith in rw (e, f, whole) (inl (refl, inside))
    ]

-- Eight bytes from byte `b` of a scalar, as bits of its number.
word_lem :
    (scalars : List ℕ) (size i b : ℕ)
    → IsBytes scalars
    → b + 8 ≤ size
    → from_le (take 8 (drop (i * size + b) scalars))
      ≡ scalar_at scalars size i / pow2 (8 * b) % pow2 64
word_lem scalars size i b bytes inside =
    let own = drop (i * size) scalars in
    let own_bytes = take-IsBytes size own (drop-IsBytes (i * size) scalars bytes) in
    ap (λ xs. from_le (take 8 xs)) (drop-drop (i * size) b scalars)
    ∙ ap from_le (sym (take-drop-take 8 b size own inside))
    ∙ from_le-take 8 (drop b (take size own)) (drop-IsBytes b (take size own) own_bytes)
    ∙ ap (λ (t : ℕ). t % pow2 64) (from_le-drop b (take size own) own_bytes)

-- A number below 2 ^ (t + e) keeps all of its bits from `t` on under a mask of `e` or more.
mask_all :
    (x t e bits : ℕ) → x < pow2 (t + e) → e ≤ bits → x / pow2 t % pow2 e ≡ x / pow2 t % pow2 bits
mask_all x t e bits lt le =
    let below : x / pow2 t < pow2 e = (div-lt_iff_lt-mul (pow2-pos t)).1 (
      let c : pow2 e * pow2 t ≡ pow2 (t + e) = mul_comm (pow2 e) (pow2 t) ∙ sym (pow2-add t e) in
      rw c lt) in
    mod-eq_of_lt below ∙ sym (mod-eq_of_lt (omega (arith, below, pow2_mono e bits le)))

-- The shifted bits end within the eight bytes.
fits_lem :
    (start t e size bits : ℕ)
    → start ≤ t
    → bits ≤ 16
    → (t < start + 8) ⊎ (start + 64 ≡ size * 8)
    → ((e ≡ bits) × (t + bits ≤ size * 8)) ⊎ ((e ≤ bits) × (t + e ≡ size * 8))
    → t - start + e ≤ 64
fits_lem start t e size bits le few (inl low) (inl (h, k)) = omega arith
fits_lem start t e size bits le few (inl low) (inr (h, k)) = omega arith
fits_lem start t e size bits le few (inr last) (inl (h, k)) = omega arith
fits_lem start t e size bits le few (inr last) (inr (h, k)) = omega arith

-- For scalars of at least 8 bytes, whose number of bits and 16 more are below 2 ^ 31, chunks of at
-- most 16 bits, and a chunk that starts within the scalar: getChunk gives the number in the
-- scalar's bytes, shifted by the chunk's first bit and cut to the chunk's bits.
pub get_chunk_lem :
    (scalars : List ℕ) (size bits i j : ℕ)
    → IsBytes scalars
    → IsScalarSize size
    → bits ≤ 16
    → j * bits < size * 8
    → get_chunk scalars size bits i j ≡ scalar_at scalars size i / pow2 (j * bits) % pow2 bits
unfolding get_chunk
get_chunk_lem scalars size bits i j bytes sized few lt =
    let t = j * bits in
    let x = scalar_at scalars size i in
    let no_wrap : j * bits % word64 ≡ t = mod-eq_of_lt (omega (arith, sized.1, lt)) in
    let b = chunk_byte size t in
    let (inside, before, first) = chunk_byte_lem size t sized lt in
    let e = chunk_width size bits t in
    let s = t - b * 8 in
    let shift : sub64 t (b * 8 % word64) ≡ s =
      rw (mod-eq_of_lt {n = b * 8} {m = word64} (omega (arith, sized.1, lt, before)))
        (sub64_lem t (b * 8) before) in
    let width = chunk_width_lem size bits t sized few lt in
    let fits : s + e ≤ 64 =
      fits_lem (b * 8) t e size bits before few
        (elim first [ inl low ↦ inl (omega (arith, low)) | inr last ↦ inr (omega (arith, last)) ])
        width in
    let parts : 64 ≡ s + (e + (64 - s - e)) = omega (arith, fits) in
    let split : pow2 64 ≡ pow2 (s + (e + (64 - s - e))) = ap pow2 parts in
    let start : 8 * b + s ≡ t = omega (arith, before) in
    rw (no_wrap, shift)
      (ap (λ (t : ℕ). t / pow2 s % pow2 e)
          (word_lem scalars size i b bytes inside ∙ ap (λ (t : ℕ). x / pow2 (8 * b) % t) split)
        ∙ mask-shift-mask s e (64 - s - e) (x / pow2 (8 * b))
        ∙ ap (λ (t : ℕ). t % pow2 e)
            (div-div-eq-div-mul x (pow2 (8 * b)) (pow2 s)
              ∙ ap (λ (t : ℕ). x / t) (sym (pow2-add (8 * b) s) ∙ ap pow2 start))
        ∙ elim width [
          | inl whole ↦ ap (λ (w : ℕ). x / pow2 t % pow2 w) whole.0
          | inr narrow ↦
              mask_all x t e bits
                (let f : t + e ≡ 8 * size = omega (arith, narrow.1) in
                  rw f (
                    from_le-lt size (drop (i * size) scalars)
                      (drop-IsBytes (i * size) scalars bytes)))
                narrow.0
        ])

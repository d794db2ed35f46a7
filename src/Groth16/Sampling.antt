-- ===== src/Groth16/Sampling.antt =====
-- The loop that samples and rejects: it ends with the first draw below the modulus.
use Prim.Native.Nat.{bit_and}
use native.Mathlib.Nat.{mul_comm, mul_assoc, div-add-mod, mod-lt}
use keyless_zk_proofs.Common.{
  ℕ, zero, suc, ◌+◌, ◌-◌, ◌*◌, ◌/◌, ◌%◌, ◌^◌, ◌≤◌, ◌<◌, ◌≡◌, refl, sym, ◌∙◌, ap, subst, arith, List,
  [], ◌∷◌, Option, none, some, Ordering, compare,
}
use keyless_zk_proofs.Mpn.{Gmp}
use keyless_zk_proofs.Mpn.Limbs.{value, IsLimbs}
use keyless_zk_proofs.Raw.Fields.{fr}
use keyless_zk_proofs.Multiexp.{pow2}
use keyless_zk_proofs.Multiexp.Powers.{pow2-pos}
use keyless_zk_proofs.Fft.Butterfly.{place-mod}
use keyless_zk_proofs.Fft.Reverse.Bitwise.{bit_and_digit}

-- FrRawElement fr_modulus.
abbrev pub fr_modulus : List ℕ
fr_modulus = 0x43E1F593F0000001 ∷ 0x2833E84879B97091 ∷ 0xB85045B68181585D ∷ 0x30644E72E131A029 ∷ []

-- `r.v[3] &= 0x3FFFFFFFFFFFFFFF`.
unfoldable pub mask_top : List ℕ → List ℕ
mask_top (v0 ∷ v1 ∷ v2 ∷ v3 ∷ []) = v0 ∷ v1 ∷ v2 ∷ bit_and v3 0x3FFFFFFFFFFFFFFF ∷ []
mask_top other = other

-- The loop that samples and rejects, for `fuel` rounds, where `draws` is what randombytes_buf
-- gives, from draw `i`: the limbs, and the index of the next draw.
unfoldable pub sample : Gmp → (ℕ → List ℕ) → ℕ → ℕ → Option (List ℕ × ℕ)
sample gmp draws zero i = none
sample gmp draws (suc fuel) i =
    let limbs = mask_top (draws i) in
    let rest = sample gmp draws fuel (suc i) in
    elim (gmp.cmp limbs fr_modulus 4) [ Ordering.lt ↦ some (limbs, suc i) | _ ↦ rest ]

bit_and-none : (n a : ℕ) → a ≤ n → bit_and a 0 ≡ 0
bit_and-none n zero h = refl
bit_and-none zero (suc a) h = absurd (omega (arith, h))
bit_and-none (suc n) (suc a) h =
    omega (arith, bit_and_digit (suc a) 0, bit_and-none n (suc a / 2) (omega (arith, h)))

-- A mask of `k` ones keeps the lowest bits.
mask_lem : (k a : ℕ) → bit_and a (pow2 k - 1) ≡ a % pow2 k
mask_lem zero a = omega (arith, bit_and-none a a (omega arith))
mask_lem (suc k) a =
    let p = pow2 k in
    let half : (2 * p - 1) / 2 ≡ p - 1 = omega (arith, pow2-pos k) in
    let last : (2 * p - 1) % 2 ≡ 1 = omega (arith, pow2-pos k) in
    let q = a / 2 / p in
    let r = a / 2 % p in
    let inside : r < p = mod-lt (a / 2) (pow2-pos k) in
    let whole : a / 2 ≡ q * p + r = omega (arith, div-add-mod (a / 2) p, mul_comm q p) in
    let twice : q * (2 * p) ≡ 2 * (q * p) = lower_twice q p in
    bit_and_digit a (2 * p - 1)
    ∙ rw (half, last, mask_lem k (a / 2))
        (omega arith
          ∙ sym (place-mod (2 * p) q (2 * r + a % 2) (omega (arith, inside)))
          ∙ ap (λ (t : ℕ). t % (2 * p)) (omega (arith, whole, twice)))
  where
    lower_twice : (q p : ℕ) → q * (2 * p) ≡ 2 * (q * p)
    lower_twice q p = sym (mul_assoc q 2 p) ∙ ap (λ (t : ℕ). t * p) (mul_comm q 2) ∙ mul_assoc 2 q p

fr_modulus_lem : value fr_modulus ≡ fr.q
unfolding value
fr_modulus_lem = refl

fr_modulus-IsLimbs : IsLimbs 4 fr_modulus
fr_modulus-IsLimbs = ground arith

-- Masked, a draw is its remainder modulo 2 ^ 254.
mask_top_lem :
    (xs : List ℕ)
    → IsLimbs 4 xs
    → IsLimbs 4 (mask_top xs) × (value (mask_top xs) ≡ value xs % 2 ^ 254)
unfolding mask_top value
mask_top_lem [] h = absurd h
mask_top_lem (a ∷ []) h = absurd h.1
mask_top_lem (a ∷ b ∷ []) h = absurd h.1.1
mask_top_lem (a ∷ b ∷ c ∷ []) h = absurd h.1.1.1
mask_top_lem (a ∷ b ∷ c ∷ d ∷ []) h =
    let m : bit_and d 0x3FFFFFFFFFFFFFFF ≡ d % 2 ^ 62 = mask_lem 62 d in
    ((h.0, (h.1.0, (h.1.1.0, (omega (arith, m), tt)))), rw m (omega (arith, h.0, h.1.0, h.1.1.0)))
mask_top_lem (a ∷ b ∷ c ∷ d ∷ e ∷ xs) h = absurd h.1.1.1.1

-- Where every draw is four limbs, and the draws from i have one whose remainder modulo 2 ^ 254 is
-- below the field's order, the first such at i + m with m below the fuel: the loop ends, with the
-- limbs of that remainder, and goes on from the draw after it.
pub sample_lem :
    (gmp : Gmp) (draws : ℕ → List ℕ) (fuel i m : ℕ)
    → ((j : ℕ) → IsLimbs 4 (draws j))
    → m < fuel
    → ((l : ℕ) → l < m → fr.q ≤ value (draws (i + l)) % 2 ^ 254)
    → value (draws (i + m)) % 2 ^ 254 < fr.q
    → (limbs : List ℕ) × (sample gmp draws fuel i ≡ some (limbs, suc (i + m)))
      × IsLimbs 4 limbs
      × (value limbs ≡ value (draws (i + m)) % 2 ^ 254)
unfolding sample
sample_lem gmp draws zero i m four lt above below = absurd (omega (arith, lt))
sample_lem gmp draws (suc fuel) i zero four lt above below =
    let here : i + 0 ≡ i = omega arith in
    let (limbs, same) = mask_top_lem (draws i) (four i) in
    let low : value (mask_top (draws i)) < fr.q =
      subst (λ n. n < fr.q) (sym same) (subst (λ j. value (draws j) % 2 ^ 254 < fr.q) here below) in
    let e : gmp.cmp (mask_top (draws i)) fr_modulus 4 ≡ Ordering.lt =
      gmp.cmp_value _ _ 4 limbs fr_modulus-IsLimbs
      ∙ ap (compare (value (mask_top (draws i)))) fr_modulus_lem
      ∙ less _ fr.q low in
    (mask_top (draws i), rw (here, sample, e) refl, limbs, rw here same)
  where
    less : (a b : ℕ) → a < b → compare a b ≡ Ordering.lt
    less a b h = ground arith
sample_lem gmp draws (suc fuel) i (suc m) four lt above below =
    let here : i + 0 ≡ i = omega arith in
    let next : suc i + m ≡ i + suc m = omega arith in
    let (limbs, same) = mask_top_lem (draws i) (four i) in
    let high : fr.q ≤ value (mask_top (draws i)) =
      subst (λ n. fr.q ≤ n) (sym same)
        (subst (λ j. fr.q ≤ value (draws j) % 2 ^ 254) here (above 0 (omega arith))) in
    let e : gmp.cmp (mask_top (draws i)) fr_modulus 4 ≡ compare (value (mask_top (draws i))) fr.q =
      gmp.cmp_value _ _ 4 limbs fr_modulus-IsLimbs
      ∙ ap (compare (value (mask_top (draws i)))) fr_modulus_lem in
    let (found, run, four', is) =
      sample_lem gmp draws fuel (suc i) m four (omega (arith, lt))
        (λ l p.
          subst (λ j. fr.q ≤ value (draws j) % 2 ^ 254)
            (let o : i + suc l ≡ suc i + l = omega arith in o) (above (suc l) (omega (arith, p))))
        (subst (λ j. value (draws j) % 2 ^ 254 < fr.q) (sym next) below) in
    (
      found,
      rw (sample, e) (rejected _ fr.q _ _ high ∙ run ∙ ap (λ j. some (found, suc j)) next),
      four',
      is ∙ ap (λ j. value (draws j) % 2 ^ 254) next,
    )
  where
    rejected :
        (a b : ℕ) (x y : Option (List ℕ × ℕ))
        → b ≤ a
        → elim (compare a b) [ Ordering.lt ↦ x | _ ↦ y ] ≡ y
    rejected a b x y h = ground arith

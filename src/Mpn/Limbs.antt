-- ===== src/Mpn/Limbs.antt =====
-- The value of an array of limbs, and the array of a value.
use native.Mathlib.Nat.{div-div-eq-div-mul, div-eq_of_lt}
use keyless_zk_proofs.Common.{
  ℕ, zero, suc, ◌+◌, ◌*◌, ◌/◌, ◌%◌, ◌^◌, ◌<◌, ◌≡◌, refl, ap, List, [], ◌∷◌, ◌++◌, arith,
}

-- 2 ^ 64.
abbrev pub word : ℕ
word = 2 ^ 64

-- 2 ^ (64 * n).
abbrev pub base : ℕ → ℕ
base zero = 1
base (suc n) = word * base n

unfoldable pub value : List ℕ → ℕ
value [] = 0
value (x ∷ xs) = x + word * value xs

-- The low `n` limbs of a number.
unfoldable pub limbs : ℕ → ℕ → List ℕ
limbs zero v = []
limbs (suc n) v = (v % word) ∷ limbs n (v / word)

-- `n` limbs, each of 64 bits.
abbrev pub IsLimbs : ℕ → List ℕ → Type 0
IsLimbs zero [] = Unit
IsLimbs zero (x ∷ xs) = ⊥
IsLimbs (suc n) [] = ⊥
IsLimbs (suc n) (x ∷ xs) = (x < word) × IsLimbs n xs

pub value-lt : (n : ℕ) (xs : List ℕ) → IsLimbs n xs → value xs < base n
unfolding value
value-lt zero [] h = omega arith
value-lt zero (x ∷ xs) h = absurd h
value-lt (suc n) [] h = absurd h
value-lt (suc n) (x ∷ xs) h = omega (arith, value-lt n xs h.1)

pub limbs-IsLimbs : (n v : ℕ) → IsLimbs n (limbs n v)
unfolding limbs
limbs-IsLimbs zero v = tt
limbs-IsLimbs (suc n) v = (omega arith, limbs-IsLimbs n (v / word))

-- What `n` limbs drop is a multiple of `base n`.
pub value-limbs : (n v : ℕ) → value (limbs n v) + base n * (v / base n) ≡ v
unfolding value limbs
value-limbs zero v = omega arith
value-limbs (suc n) v = omega (
  arith,
  ap (λ (t : ℕ). word * t) (value-limbs n (v / word)),
  ap (λ (t : ℕ). word * base n * t) (div-div-eq-div-mul v word (base n)),
)

pub value-limbs_of_lt : (n v : ℕ) → v < base n → value (limbs n v) ≡ v
value-limbs_of_lt n v h =
    omega (arith, value-limbs n v, ap (λ (t : ℕ). base n * t) (div-eq_of_lt h))

-- One more limb on top.
pub value-append :
    (n : ℕ) (xs : List ℕ) (high : ℕ)
    → IsLimbs n xs
    → value (xs ++ (high ∷ [])) ≡ value xs + base n * high
unfolding value
value-append zero [] high h = omega arith
value-append zero (x ∷ xs) high h = absurd h
value-append (suc n) [] high h = absurd h
value-append (suc n) (x ∷ xs) high h =
    omega (arith, ap (λ (t : ℕ). word * t) (value-append n xs high h.1))

pub append-IsLimbs :
    (n : ℕ) (xs : List ℕ) (high : ℕ)
    → IsLimbs n xs
    → high < word
    → IsLimbs (suc n) (xs ++ (high ∷ []))
append-IsLimbs zero [] high h small = (small, tt)
append-IsLimbs zero (x ∷ xs) high h small = absurd h
append-IsLimbs (suc n) [] high h small = absurd h
append-IsLimbs (suc n) (x ∷ xs) high h small = (h.0, append-IsLimbs n xs high h.1 small)

-- Arrays of one length with one value are the same array.
pub value_injective :
    (n : ℕ) (xs ys : List ℕ) → IsLimbs n xs → IsLimbs n ys → value xs ≡ value ys → xs ≡ ys
unfolding value
value_injective zero [] [] h k e = refl
value_injective zero [] (y ∷ ys) h k e = absurd k
value_injective zero (x ∷ xs) ys h k e = absurd h
value_injective (suc n) [] ys h k e = absurd h
value_injective (suc n) (x ∷ xs) [] h k e = absurd k
value_injective (suc n) (x ∷ xs) (y ∷ ys) h k e =
    let heads : x ≡ y = omega arith in
    let tails = value_injective n xs ys h.1 k.1 (omega arith) in λ i. heads i ∷ tails i

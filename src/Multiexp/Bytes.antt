-- ===== src/Multiexp/Bytes.antt =====
-- The number in a list of bytes, cut at a byte: quotients and remainders by powers of two.
use native.Mathlib.Nat.{
  zero-div, mod-eq_of_lt, div-div-eq-div-mul, add-mul-mod_self_left, mul_assoc,
}
use keyless_zk_proofs.Common.{
  ℕ, zero, suc, ◌+◌, ◌*◌, ◌/◌, ◌%◌, ◌≤◌, ◌<◌, ◌≡◌, refl, sym, ◌∙◌, ap, arith, List, [], ◌∷◌, take,
  drop,
}
use keyless_zk_proofs.BinFile.{from_le}
use keyless_zk_proofs.Naf.Digits.{IsBytes}
use keyless_zk_proofs.Multiexp.{pow2}
use keyless_zk_proofs.Multiexp.Powers.{pow2-pos, pow2-add}

pub drop-IsBytes : (n : ℕ) (xs : List ℕ) → IsBytes xs → IsBytes (drop n xs)
drop-IsBytes zero xs h = h
drop-IsBytes (suc n) [] h = tt
drop-IsBytes (suc n) (x ∷ xs) h = drop-IsBytes n xs h.1

pub take-IsBytes : (n : ℕ) (xs : List ℕ) → IsBytes xs → IsBytes (take n xs)
take-IsBytes zero xs h = tt
take-IsBytes (suc n) [] h = tt
take-IsBytes (suc n) (x ∷ xs) h = (h.0, take-IsBytes n xs h.1)

drop-nil : (n : ℕ) → drop {A = ℕ} n [] ≡ []
drop-nil zero = refl
drop-nil (suc n) = refl

pub drop-drop : (m n : ℕ) (xs : List ℕ) → drop (m + n) xs ≡ drop n (drop m xs)
drop-drop zero n xs = let e : 0 + n ≡ n = omega arith in rw e refl
drop-drop (suc m) n [] = let e : suc m + n ≡ suc (m + n) = omega arith in rw e (sym (drop-nil n))
drop-drop (suc m) n (x ∷ xs) =
    let e : suc m + n ≡ suc (m + n) = omega arith in rw e (drop-drop m n xs)

pub take-drop-take :
    (m n k : ℕ) (xs : List ℕ) → n + m ≤ k → take m (drop n (take k xs)) ≡ take m (drop n xs)
take-drop-take m zero k xs h = take-take m k xs (omega arith)
  where
    take-take : (m k : ℕ) (xs : List ℕ) → m ≤ k → take m (take k xs) ≡ take m xs
    take-take zero k xs h = refl
    take-take (suc m) zero xs h = absurd (omega arith)
    take-take (suc m) (suc k) [] h = refl
    take-take (suc m) (suc k) (x ∷ xs) h = ap (λ t. x ∷ t) (take-take m k xs (omega arith))
take-drop-take m (suc n) zero xs h = absurd (omega arith)
take-drop-take m (suc n) (suc k) [] h = refl
take-drop-take m (suc n) (suc k) (x ∷ xs) h = take-drop-take m n k xs (omega arith)

-- 256 ^ n, on the bits.
pow2-byte : (n : ℕ) → pow2 (8 * suc n) ≡ 256 * pow2 (8 * n)
pow2-byte n = let e : 8 * suc n ≡ 8 + 8 * n = omega arith in rw e (pow2-add 8 (8 * n))

pub from_le-drop :
    (n : ℕ) (xs : List ℕ) → IsBytes xs → from_le (drop n xs) ≡ from_le xs / pow2 (8 * n)
unfolding from_le
from_le-drop zero xs h = omega arith
from_le-drop (suc n) [] h = sym (zero-div (pow2 (8 * suc n)))
from_le-drop (suc n) (x ∷ xs) h =
    from_le-drop n xs h.1
    ∙ ap (λ (t : ℕ). t / pow2 (8 * n)) (omega (arith, h.0))
    ∙ div-div-eq-div-mul (x + 256 * from_le xs) 256 (pow2 (8 * n))
    ∙ ap (λ (t : ℕ). (x + 256 * from_le xs) / t) (sym (pow2-byte n))

pub from_le-lt : (n : ℕ) (xs : List ℕ) → IsBytes xs → from_le (take n xs) < pow2 (8 * n)
unfolding from_le
from_le-lt zero xs h = omega arith
from_le-lt (suc n) [] h = pow2-pos (8 * suc n)
from_le-lt (suc n) (x ∷ xs) h = omega (arith, pow2-byte n, from_le-lt n xs h.1, h.0)

pub from_le-split :
    (n : ℕ) (xs : List ℕ) → from_le xs ≡ from_le (take n xs) + pow2 (8 * n) * from_le (drop n xs)
unfolding from_le
from_le-split zero xs = omega arith
from_le-split (suc n) [] = omega arith
from_le-split (suc n) (x ∷ xs) =
    ap (λ (t : ℕ). x + 256 * t) (from_le-split n xs)
    ∙ carry (from_le (take n xs)) (pow2 (8 * n)) (from_le (drop n xs))
    ∙ ap (λ (t : ℕ). x + 256 * from_le (take n xs) + t * from_le (drop n xs)) (sym (pow2-byte n))
  where
    carry : (a w b : ℕ) → x + 256 * (a + w * b) ≡ x + 256 * a + 256 * w * b
    carry a w b = let e : 256 * w * b ≡ 256 * (w * b) = mul_assoc 256 w b in omega (arith, e)

pub from_le-take :
    (n : ℕ) (xs : List ℕ) → IsBytes xs → from_le (take n xs) ≡ from_le xs % pow2 (8 * n)
from_le-take n xs h =
    sym (mod-eq_of_lt (from_le-lt n xs h))
    ∙ sym (add-mul-mod_self_left (from_le (take n xs)) (pow2 (8 * n)) (from_le (drop n xs)))
    ∙ ap (λ (t : ℕ). t % pow2 (8 * n)) (sym (from_le-split n xs))

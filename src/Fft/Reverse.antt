-- ===== src/Fft/Reverse.antt =====
-- The reversal of the bits of an index, which BR computes.
pub mod Bitwise
pub mod Words
pub mod Whole
use native.Mathlib.Nat.{add-mul, mul_assoc}
use keyless_zk_proofs.Common.{
  ℕ, zero, suc, ◌+◌, ◌*◌, ◌/◌, ◌%◌, ◌<◌, ◌≡◌, refl, sym, ◌∙◌, ap, ap₂, subst, arith,
}
use keyless_zk_proofs.Multiexp.{pow2}
use keyless_zk_proofs.Multiexp.Powers.{pow2-pos, pow2-add}

-- The lowest `k` bits of `x`, the lowest first.
unfoldable pub rev : ℕ → ℕ → ℕ
rev zero x = 0
rev (suc k) x = x % 2 * pow2 k + rev k (x / 2)

pub rev_lt : (k x : ℕ) → rev k x < pow2 k
unfolding rev
rev_lt zero x = omega arith
rev_lt (suc k) x = bit_below (x % 2) (pow2 k) (rev k (x / 2)) (omega arith) (rev_lt k (x / 2))
  where
    bit_below : (b p r : ℕ) → b < 2 → r < p → b * p + r < 2 * p
    bit_below zero p r h lt = omega (arith, lt)
    bit_below (suc zero) p r h lt = omega (arith, lt)
    bit_below (suc (suc b)) p r h lt = absurd (omega (arith, h))

pub rev-zero : (k : ℕ) → rev k 0 ≡ 0
unfolding rev
rev-zero zero = refl
rev-zero (suc k) = omega (arith, rev-zero k)

-- The reversal of two groups of bits is that of each, the lower one first.
pub rev-concat :
    (s t hi lo : ℕ) → lo < pow2 s → rev (s + t) (hi * pow2 s + lo) ≡ rev s lo * pow2 t + rev t hi
unfolding rev
rev-concat zero t hi lo lt =
    let e : 0 + t ≡ t = omega arith in
    let x : hi * 1 + lo ≡ hi = omega (arith, lt) in rw (e, x) (omega arith)
rev-concat (suc s) t hi lo lt =
    let e : suc s + t ≡ suc (s + t) = omega arith in
    let d : hi * (2 * pow2 s) ≡ 2 * (hi * pow2 s) = double hi (pow2 s) in
    let low : (hi * pow2 (suc s) + lo) % 2 ≡ lo % 2 = omega (arith, d) in
    let rest : (hi * pow2 (suc s) + lo) / 2 ≡ hi * pow2 s + lo / 2 = omega (arith, d) in
    let bit = lo % 2 in
    rw (e, low, rest, rev-concat s t hi (lo / 2) (omega (arith, lt)), pow2-add s t)
      (regroup bit (pow2 s) (pow2 t) (rev s (lo / 2)) (rev t hi))
  where
    double : (h p : ℕ) → h * (2 * p) ≡ 2 * (h * p)
    double h p = sym (mul_assoc h 2 p) ∙ ap (λ (t : ℕ). t * p) (omega arith) ∙ mul_assoc 2 h p

    regroup : (b p q r u : ℕ) → b * (p * q) + (r * q + u) ≡ (b * p + r) * q + u
    regroup b p q r u = omega (arith, add-mul (b * p) r q, mul_assoc b p q)

pub rev_twice : (k x : ℕ) → x < pow2 k → rev k (rev k x) ≡ x
unfolding rev
rev_twice zero x lt = omega (arith, lt)
rev_twice (suc k) x lt =
    let e : k + 1 ≡ suc k = omega arith in
    let back = rev_twice k (x / 2) (omega (arith, lt)) in
    subst (λ n. rev n (x % 2 * pow2 k + rev k (x / 2)) ≡ x) e
      (rev-concat k 1 (x % 2) (rev k (x / 2)) (rev_lt k (x / 2)) ∙ omega (arith, back))

-- ===== src/Common/Modular.antt =====
-- Congruences modulo a number that is not a numeral.
use Prim.Native.Nat.{ℕ, ◌+◌, ◌-◌, ◌*◌, ◌%◌, ◌/◌, ◌<◌, ◌≤◌}
use mathlib.Core.Path.{◌≡◌, refl, sym, ap, ap₂, ◌∙◌}
use native.Mathlib.Omega.{arith}
use native.Mathlib.Nat.{mod-eq_of_lt, add-mul-mod_self_right, add-mod, mod-add-div', mod-lt}

-- A remainder is known from one equation.
pub mod_unique : (x y k q : ℕ) → x < q → y ≡ x + k * q → y % q ≡ x
mod_unique x y k q h e = rw e (add-mul-mod_self_right x k q ∙ mod-eq_of_lt h)

-- Numbers that differ by multiples of `q` have one remainder.
pub mod_eq_of_add_mul : (x y j k q : ℕ) → x + j * q ≡ y + k * q → x % q ≡ y % q
mod_eq_of_add_mul x y j k q e =
    sym (add-mul-mod_self_right x j q) ∙ ap (λ t. t % q) e ∙ add-mul-mod_self_right y k q

-- Remainders may be replaced under sums and products.
pub add-mod_congr :
    (x x' y y' q : ℕ) → x % q ≡ x' % q → y % q ≡ y' % q → (x + y) % q ≡ (x' + y') % q
add-mod_congr x x' y y' q e f = add-mod x y q ∙ ap₂ (λ s t. (s + t) % q) e f ∙ sym (add-mod x' y' q)

mul-mod : (x y q : ℕ) → (x * y) % q ≡ (x % q * (y % q)) % q
mul-mod x y q = mod_eq_of_add_mul (x * y) (x % q * (y % q)) 0 (x / q * (y % q) + x * (y / q)) q (
    omega (
      arith,
      ap (λ (t : ℕ). t * (y % q)) (mod-add-div' x q),
      ap (λ (t : ℕ). x * t) (mod-add-div' y q),
    ))

pub mul-mod_congr :
    (x x' y y' q : ℕ) → x % q ≡ x' % q → y % q ≡ y' % q → (x * y) % q ≡ (x' * y') % q
mul-mod_congr x x' y y' q e f = mul-mod x y q ∙ ap₂ (λ s t. (s * t) % q) e f ∙ sym (mul-mod x' y' q)

-- The remainder of -y.
abbrev pub neg_mod : ℕ → ℕ → ℕ
neg_mod q y = q - y % q

-- A summand cancels.
pub add-mod_cancel : (u v w q : ℕ) → 0 < q → (u + w) % q ≡ (v + w) % q → u % q ≡ v % q
add-mod_cancel u v w q h e = whole u ∙ add-mod_congr (u + w) (v + w) _ _ q e refl ∙ sym (whole v)
  where
    whole : (t : ℕ) → t % q ≡ (t + w + neg_mod q w) % q
    whole t =
        mod_eq_of_add_mul t (t + w + neg_mod q w) (w / q + 1) 0 q
          (omega (arith, mod-add-div' w q, mod-lt w h))

pub neg_mod_cancel : (x y q : ℕ) → 0 < q → (x + neg_mod q y + y) % q ≡ x % q
neg_mod_cancel x y q h =
    mod_eq_of_add_mul (x + neg_mod q y + y) x 0 (y / q + 1) q
      (omega (arith, mod-add-div' y q, mod-lt y h))

-- A difference that was computed from congruent numbers.
pub sub-mod_congr :
    (a b x y q : ℕ)
    → 0 < q
    → b ≤ q
    → a % q ≡ x % q
    → b % q ≡ y % q
    → (a + (q - b)) % q ≡ (x + neg_mod q y) % q
sub-mod_congr a b x y q h le ea eb = add-mod_cancel (a + (q - b)) (x + neg_mod q y) b q h (
    mod_eq_of_add_mul (a + (q - b) + b) a 0 1 q (omega arith)
    ∙ ea
    ∙ sym (neg_mod_cancel x y q h)
    ∙ add-mod_congr (x + neg_mod q y) (x + neg_mod q y) y b q refl (sym eb))

-- Multiplication goes into a difference.
pub neg_mod-mul :
    (x y r q : ℕ) → 0 < q → ((x + neg_mod q y) * r) % q ≡ (x * r + neg_mod q (y * r)) % q
neg_mod-mul x y r q h =
    add-mod_cancel ((x + neg_mod q y) * r) (x * r + neg_mod q (y * r)) (y * r) q h (
      ap (λ t. t % q) (omega arith)
      ∙ mul-mod_congr (x + neg_mod q y + y) x r r q (neg_mod_cancel x y q h) refl
      ∙ sym (neg_mod_cancel (x * r) (y * r) q h))

-- ===== src/Multiexp/Powers.antt =====
-- Powers of two, as the shifts and masks of the chunks use them.
use native.Mathlib.Nat.{mul_assoc, add-mul-div_left, add-mul-mod_self_left, div-add-mod, add_comm}
use keyless_zk_proofs.Common.{
  ℕ, zero, suc, ◌+◌, ◌*◌, ◌/◌, ◌%◌, ◌≤◌, ◌<◌, ◌≡◌, refl, sym, ◌∙◌, ap, arith,
}
use keyless_zk_proofs.Multiexp.{pow2}

pub pow2-pos : (k : ℕ) → 0 < pow2 k
pow2-pos zero = omega arith
pow2-pos (suc k) = omega (arith, pow2-pos k)

pub pow2-add : (a b : ℕ) → pow2 (a + b) ≡ pow2 a * pow2 b
pow2-add zero b =
    let e : 0 + b ≡ b = omega arith in let f : 1 * pow2 b ≡ pow2 b = omega arith in rw (e, f) refl
pow2-add (suc a) b =
    let e : suc a + b ≡ suc (a + b) = omega arith in
    rw (e, pow2-add a b) (sym (mul_assoc 2 (pow2 a) (pow2 b)))

-- What a mask keeps of a shifted number lies below what an earlier mask has cut.
pub mask-shift-mask : (s e d x : ℕ) → x % pow2 (s + (e + d)) / pow2 s % pow2 e ≡ x / pow2 s % pow2 e
mask-shift-mask s e d x =
    let w : pow2 (s + (e + d)) ≡ pow2 s * (pow2 e * pow2 d) =
      rw (pow2-add s (e + d), pow2-add e d) refl in
    let cut = x % pow2 (s + (e + d)) in
    let high = x / pow2 (s + (e + d)) in
    let whole : x ≡ cut + pow2 s * (pow2 e * (pow2 d * high)) =
      sym (div-add-mod x (pow2 (s + (e + d))))
      ∙ add_comm _ _
      ∙ ap (λ (t : ℕ). cut + t)
          (ap (λ (t : ℕ). t * high) w
            ∙ mul_assoc (pow2 s) (pow2 e * pow2 d) high
            ∙ ap (λ (t : ℕ). pow2 s * t) (mul_assoc (pow2 e) (pow2 d) high)) in
    sym (
      ap (λ (t : ℕ). t / pow2 s % pow2 e) whole
      ∙ ap (λ (t : ℕ). t % pow2 e) (add-mul-div_left cut _ (pow2-pos s))
      ∙ add-mul-mod_self_left (cut / pow2 s) (pow2 e) (pow2 d * high))

pub pow2_mono : (a b : ℕ) → a ≤ b → pow2 a ≤ pow2 b
pow2_mono zero b h = pow2-pos b
pow2_mono (suc a) zero h = absurd (omega arith)
pow2_mono (suc a) (suc b) h = omega (arith, pow2_mono a b (omega arith))

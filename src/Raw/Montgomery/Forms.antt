-- ===== src/Raw/Montgomery/Forms.antt =====
-- The Montgomery form of a number: what the operations on it mean, and the way there and back.
use native.Mathlib.Nat.{mod-mod, mod-eq_of_lt, mul_assoc, mul_comm, mul-one}
use keyless_zk_proofs.Common.{ℕ, ◌*◌, ◌%◌, ◌^◌, ◌≡◌, refl, sym, ◌∙◌, ap, List, arith, mul-mod_congr}
use keyless_zk_proofs.Mpn.{Gmp}
use keyless_zk_proofs.Mpn.Limbs.{value, IsLimbs, value_injective}
use keyless_zk_proofs.Raw.{Modulus, n64, raw_mmul, raw_to_montgomery, raw_from_montgomery}
use keyless_zk_proofs.Raw.Reduction.{IsReduced, Holds}
use keyless_zk_proofs.Raw.Montgomery.{
  IsQuotient, raw_mmul_lem, raw_from_montgomery_lem, r2-IsReduced, r3-IsReduced,
}

-- 2 ^ 256.
abbrev pub r : ℕ
r = 2 ^ 256

-- `a` is the Montgomery form of `v`.
abbrev pub IsForm : Modulus → List ℕ → ℕ → Type 0
IsForm m a v = Holds m a (v * r)

-- A factor 2 ^ 256 cancels modulo q.
pub cancel_r : (m : Modulus) (x y : ℕ) → (x * r) % m.q ≡ (y * r) % m.q → x % m.q ≡ y % m.q
cancel_r m x y h =
    restore x ∙ mul-mod_congr (x * r) (y * r) m.r_inverse m.r_inverse m.q h refl ∙ sym (restore y)
  where
    one : 1 % m.q ≡ (r * m.r_inverse) % m.q
    one = mod-eq_of_lt (omega (arith, m.q_gt)) ∙ sym m.r_inverse_lem

    restore : (z : ℕ) → z % m.q ≡ (z * r * m.r_inverse) % m.q
    restore z =
        ap (λ t. t % m.q) (sym (mul-one z))
        ∙ mul-mod_congr z z 1 (r * m.r_inverse) m.q refl one
        ∙ ap (λ t. t % m.q) (sym (mul_assoc z r m.r_inverse))

-- A quotient of `v` by 2 ^ 256 is the remainder of whatever `v` is 2 ^ 256 times.
pub of_quotient :
    (m : Modulus) (s : List ℕ) (v u : ℕ) → IsQuotient m s v → v % m.q ≡ (u * r) % m.q → Holds m s u
of_quotient m s v u h e = record {
  reduced = h.reduced;
  same = sym (mod-eq_of_lt h.reduced.below) ∙ cancel_r m (value s) u (h.times_r ∙ e);
}

-- What is known of a remainder serves under a product.
pub Holds-mod : (m : Modulus) (a : List ℕ) (v : ℕ) → Holds m a v → value a % m.q ≡ v % m.q
Holds-mod m a v h = rw h.same (mod-mod v m.q)

pub Holds_congr :
    (m : Modulus) (a : List ℕ) (v u : ℕ) → v % m.q ≡ u % m.q → Holds m a v → Holds m a u
Holds_congr m a v u e h = record { reduced = h.reduced; same = h.same ∙ e }

module _ (g : Gmp) (m : Modulus) where
  -- If a and b are the Montgomery forms of x and y, Fr_rawMMul of a and b is the Montgomery form
  -- of x * y.
  pub raw_mmul-IsForm :
      (a b : List ℕ) (x y : ℕ) → IsForm m a x → IsForm m b y → IsForm m (raw_mmul g m a b) (x * y)
  raw_mmul-IsForm a b x y ha hb =
      of_quotient m _ _ (x * y * r) (raw_mmul_lem g m a b ha.reduced.limbs hb.reduced) (
        mul-mod_congr (value a) (x * r) (value b) (y * r) m.q (Holds-mod m a _ ha)
          (Holds-mod m b _ hb)
        ∙ ap (λ t. t % m.q) regroup)
    where
      regroup : x * r * (y * r) ≡ x * y * r * r
      regroup = omega arith

  -- If a is the Montgomery form of x and b is reduced with the remainder of y as its value,
  -- Fr_rawMMul of the two, in either order, is reduced and has the remainder of x * y as its
  -- value.
  pub raw_mmul_mixed :
      (a b : List ℕ) (x y : ℕ)
      → IsForm m a x
      → Holds m b y
      → Holds m (raw_mmul g m a b) (x * y) × Holds m (raw_mmul g m b a) (x * y)
  raw_mmul_mixed a b x y ha hb = (
    of_quotient m _ _ (x * y) (raw_mmul_lem g m a b ha.reduced.limbs hb.reduced)
        (product (value a) (value b) (Holds-mod m a _ ha) (Holds-mod m b _ hb)),
    of_quotient m _ _ (x * y) (raw_mmul_lem g m b a hb.reduced.limbs ha.reduced) (
        ap (λ t. t % m.q) (mul_comm (value b) (value a))
        ∙ product (value a) (value b) (Holds-mod m a _ ha) (Holds-mod m b _ hb)),
  )
    where
      product :
          (u v : ℕ)
          → u % m.q ≡ (x * r) % m.q
          → v % m.q ≡ y % m.q
          → (u * v) % m.q ≡ (x * y * r) % m.q
      product u v hu hv = mul-mod_congr u (x * r) v y m.q hu hv ∙ ap (λ t. t % m.q) (omega arith)

  -- Fr_rawToMontgomery.
  pub raw_to_montgomery-IsForm :
      (a : List ℕ) → IsLimbs n64 a → IsForm m (raw_to_montgomery g m a) (value a)
  unfolding raw_to_montgomery
  raw_to_montgomery-IsForm a limbs =
      of_quotient m _ _ (value a * r) (raw_mmul_lem g m a m.raw_r2 limbs (r2-IsReduced m)) (
        mul-mod_congr (value a) (value a) (value m.raw_r2) (r * r) m.q refl
          (rw m.r2_value (mod-mod (r * r) m.q))
        ∙ ap (λ t. t % m.q) (omega arith))

  -- Fr_rawFromMontgomery.
  pub raw_from_montgomery-Holds :
      (a : List ℕ) (v : ℕ) → IsForm m a v → Holds m (raw_from_montgomery g m a) v
  raw_from_montgomery-Holds a v h =
      of_quotient m _ _ v (raw_from_montgomery_lem g m a h.reduced) (Holds-mod m a _ h)

  -- For reduced limbs a, Fr_rawFromMontgomery of Fr_rawToMontgomery of a is a again, limb by limb.
  pub raw_from-to_montgomery :
      (a : List ℕ) → IsReduced m a → raw_from_montgomery g m (raw_to_montgomery g m a) ≡ a
  raw_from-to_montgomery a ha =
      let back = raw_from_montgomery-Holds _ (value a) (raw_to_montgomery-IsForm a ha.limbs) in
      value_injective n64 _ a back.reduced.limbs ha.limbs (back.same ∙ mod-eq_of_lt ha.below)

  -- Fr_rawMMul by Fr_R3 brings a product that lacks two factors 2 ^ 256 into Montgomery form.
  pub times_r3 : (s : List ℕ) (v : ℕ) → IsQuotient m s v → IsForm m (raw_mmul g m s m.raw_r3) v
  times_r3 s v h =
      of_quotient m _ _ (v * r) (raw_mmul_lem g m s m.raw_r3 h.reduced.limbs (r3-IsReduced m)) (
        mul-mod_congr (value s) (value s) (value m.raw_r3) (r * (r * r)) m.q refl
          (rw m.r3_value (mod-mod (r * (r * r)) m.q))
        ∙ ap (λ t. t % m.q) (sym (mul_assoc (value s) r (r * r)))
        ∙ mul-mod_congr (value s * r) v (r * r) (r * r) m.q h.times_r refl
        ∙ ap (λ t. t % m.q) (sym (mul_assoc v r r)))

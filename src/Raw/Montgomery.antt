-- ===== src/Raw/Montgomery.antt =====
-- Montgomery multiplication (Fr_rawMMul, Fr_rawMMul1, Fr_rawToMontgomery and
-- Fr_rawFromMontgomery): what the rounds compute together modulo q.
pub mod Rounds
pub mod Forms
use native.Mathlib.Nat.{mod-mod, mod-lt}
use keyless_zk_proofs.Common.{
  ℕ, ◌+◌, ◌*◌, ◌%◌, ◌^◌, ◌<◌, ◌≡◌, refl, sym, ◌∙◌, ap, List, [], ◌∷◌, ◌++◌, arith, get_or,
  mod_eq_of_add_mul, mul-mod_congr,
}
use keyless_zk_proofs.Mpn.{Gmp}
use keyless_zk_proofs.Mpn.Limbs.{word, base, value, IsLimbs, value-append, append-IsLimbs}
use keyless_zk_proofs.Raw.{
  Modulus, n64, reduce, first_row, row, shift_row, last_subtraction, raw_mmul, raw_mmul1,
  raw_to_montgomery, raw_from_montgomery,
}
use keyless_zk_proofs.Raw.Reduction.{IsReduced, Holds, subtract_once}
use Rounds.{Rounded, reduce_lem, first_row_lem, row_lem, shift_row_lem}

-- `a` is reduced, and its value times 2 ^ 256 is congruent to `v`.
pub record IsQuotient (m : Modulus) (a : List ℕ) (v : ℕ) : Type 0 where
  pub reduced : IsReduced m a
  pub times_r : (value a * 2 ^ 256) % m.q ≡ v % m.q

pub r2-IsReduced : (m : Modulus) → IsReduced m m.raw_r2
r2-IsReduced m = record {
  limbs = m.r2_limbs;
  below = rw m.r2_value (mod-lt _ (omega (arith, m.q_gt)));
}

pub r3-IsReduced : (m : Modulus) → IsReduced m m.raw_r3
r3-IsReduced m = record {
  limbs = m.r3_limbs;
  below = rw m.r3_value (mod-lt _ (omega (arith, m.q_gt)));
}

module _ (g : Gmp) (m : Modulus) where
  last :
      (v : ℕ) (s : List ℕ × ℕ)
      → (r : Rounded m v s) → Holds m (last_subtraction g m s) (value r.upper)
  unfolding last_subtraction
  last v s r = rw r.shape (subtract_once g m r.upper (value r.upper) r.limbs refl r.below)

  scale :
      (v k : ℕ) (s : List ℕ) (u : ℕ) → Holds m s u → u * 2 ^ 256 ≡ v + k * m.q → IsQuotient m s v
  scale v k s u h e = record {
    reduced = h.reduced;
    times_r =
        mul-mod_congr (value s) u (2 ^ 256) (2 ^ 256) m.q (rw h.same (mod-mod u m.q)) refl
        ∙ mod_eq_of_add_mul (u * 2 ^ 256) v 0 k m.q (omega arith);
  }

  limbs_value :
      (a : List ℕ)
      → IsLimbs n64 a
      → (get_or a 0 0 < word)
        × (get_or a 1 0 < word)
        × (get_or a 2 0 < word)
        × (get_or a 3 0 < word)
        × (value a
            ≡ get_or a 0 0 + word * (get_or a 1 0 + word * (get_or a 2 0 + word * get_or a 3 0)))
  unfolding value
  limbs_value a h = ground arith

  -- For four limbs a and a reduced b, Fr_rawMMul yields a reduced result whose value times 2 ^ 256
  -- is congruent to the product of the values of a and b modulo q.
  pub raw_mmul_lem :
      (a b : List ℕ)
      → IsLimbs n64 a
      → IsReduced m b
      → IsQuotient m (raw_mmul g m a b) (value a * value b)
  unfolding raw_mmul
  raw_mmul_lem a b ha hb =
      let (h0, h1, h2, h3, e) = limbs_value a ha in
      let r0 = first_row_lem g m b (get_or a 0 0) hb h0 in
      let r1 = row_lem g m b (get_or a 1 0) _ _ hb h1 r0 in
      let r2 = row_lem g m b (get_or a 2 0) _ _ hb h2 r1 in
      let r3 = row_lem g m b (get_or a 3 0) _ _ hb h3 r2 in
      scale _ (r0.k + word * (r1.k + word * (r2.k + word * r3.k))) _ _ (last _ _ r3)
        (omega (arith, ap (λ (t : ℕ). value b * t) e))

  -- For a reduced a and a 64-bit number b, Fr_rawMMul1 yields a reduced result whose value times 2
  -- ^ 256 is congruent to the value of a times b modulo q.
  pub raw_mmul1_lem :
      (a : List ℕ) (b : ℕ)
      → IsReduced m a
      → b < word
      → IsQuotient m (raw_mmul1 g m a b) (value a * b)
  unfolding raw_mmul1
  raw_mmul1_lem a b ha hb =
      let r0 = first_row_lem g m a b ha hb in
      let r1 = shift_row_lem g m _ _ r0 in
      let r2 = shift_row_lem g m _ _ r1 in
      let r3 = shift_row_lem g m _ _ r2 in
      scale _ (r0.k + word * (r1.k + word * (r2.k + word * r3.k))) _ _ (last _ _ r3) (omega arith)

  pub raw_from_montgomery_lem :
      (a : List ℕ) → IsReduced m a → IsQuotient m (raw_from_montgomery g m a) (value a)
  unfolding raw_from_montgomery
  raw_from_montgomery_lem a ha =
      let r0 =
        reduce_lem g m (a ++ (0 ∷ [])) (value a) (append-IsLimbs n64 a 0 ha.limbs (omega arith))
          (omega (arith, value-append n64 a 0 ha.limbs)) (omega (arith, m.q_gt)) in
      let r1 = shift_row_lem g m _ _ r0 in
      let r2 = shift_row_lem g m _ _ r1 in
      let r3 = shift_row_lem g m _ _ r2 in
      scale _ (r0.k + word * (r1.k + word * (r2.k + word * r3.k))) _ _ (last _ _ r3) (omega arith)

-- ===== src/Raw/Montgomery/Rounds.antt =====
-- One round of Montgomery multiplication: a multiple of q makes the lowest limb 0.
use native.Mathlib.Nat.{mul-le-mul, mod-add-div'}
use keyless_zk_proofs.Common.{
  ℕ, suc, ◌+◌, ◌-◌, ◌*◌, ◌/◌, ◌%◌, ◌≤◌, ◌<◌, ◌≡◌, refl, ap, List, [], ◌∷◌, ◌++◌, arith, get_or,
  mod_eq_of_add_mul,
}
use keyless_zk_proofs.Mpn.{Gmp}
use keyless_zk_proofs.Mpn.Limbs.{word, base, value, IsLimbs, value-lt, value-append, append-IsLimbs}
use keyless_zk_proofs.Raw.{Modulus, n64, raw_zero, reduce, first_row, row, shift_row}
use keyless_zk_proofs.Raw.Reduction.{IsReduced}

-- A round that starts from the value `v` leaves a lowest limb 0 and no carry, and above it the
-- limbs `upper` of `(v + k * q) / 2 ^ 64`, which are less than 2q.
pub record Rounded (m : Modulus) (v : ℕ) (s : List ℕ × ℕ) : Type 0 where
  pub upper : List ℕ
  pub k : ℕ
  pub shape : s ≡ (0 ∷ upper, 0)
  pub limbs : IsLimbs n64 upper
  pub below : value upper < 2 * m.q
  pub equation : word * value upper ≡ v + k * m.q

-- With np = -1/q modulo 2 ^ 64, the multiple of q that is added cancels the low limb.
low_limb_cancels :
    (q np v : ℕ) → (q * np + 1) % word ≡ 0 → (v + q * ((np * (v % word)) % word)) % word ≡ 0
low_limb_cancels q np v h =
    let low = v % word in
    mod_eq_of_add_mul (v + q * ((np * low) % word)) 0 (q * (np * low / word))
      (v / word + low * ((q * np + 1) / word)) word
      (omega (
        arith,
        ap (λ (t : ℕ). q * t) (mod-add-div' (np * low) word),
        ap (λ (t : ℕ). low * t) (mod-add-div' (q * np + 1) word),
        ap (λ (t : ℕ). low * t) h,
      ))

-- The limbs of a multiple of the word.
low_zero :
    (n : ℕ) (xs : List ℕ)
    → IsLimbs (suc n) xs
    → value xs % word ≡ 0
    → (upper : List ℕ) × (xs ≡ 0 ∷ upper) × IsLimbs n upper × (value xs ≡ word * value upper)
unfolding value
low_zero n [] limbs h = absurd limbs
low_zero n (x ∷ xs) limbs h =
    let zero_x : x ≡ 0 = omega arith in (xs, ap (λ t. t ∷ xs) zero_x, limbs.1, omega arith)

low-value : (n : ℕ) (xs : List ℕ) → IsLimbs (suc n) xs → get_or xs 0 0 ≡ value xs % word
unfolding value
low-value n [] limbs = absurd limbs
low-value n (x ∷ xs) limbs = omega arith

module _ (g : Gmp) (m : Modulus) where
  -- The product that is added never reaches the sixth limb.
  reduce-value :
      (p : List ℕ) (v : ℕ)
      → IsLimbs 5 p
      → value p ≡ v
      → v < word * m.q + m.q
      → let k = (m.np * (v % word)) % word in
        let s = reduce g m p in
        (value s.0 ≡ v + m.q * k) × (s.1 ≡ 0) × IsLimbs 5 s.0 × (v + m.q * k < 2 * word * m.q)
  unfolding reduce
  reduce-value p v limbs e h =
      let k = (m.np * (v % word)) % word in
      let start : (m.np * get_or p 0 0) % word ≡ k = rw (low-value 4 p limbs, e) refl in
      let fits : m.q * k ≤ m.q * (word - 1) = mul-le-mul (omega arith) (omega arith) in
      let small = g.addmul_1_limbs p m.rawq 5 k limbs m.rawq_limbs (omega arith) in
      let sum = g.addmul_1_value p m.rawq 5 k limbs m.rawq_limbs (omega arith) in
      let size = value-lt 5 (g.addmul_1 p m.rawq 5 k).0 small in
      let shift = ap (λ (t : ℕ). t * k) m.rawq_value in
      let bound : v + m.q * k < 2 * word * m.q = omega arith in
      let none : (g.addmul_1 p m.rawq 5 k).1 ≡ 0 = omega (arith, m.q_lt) in
      rw (start, reduce) (omega arith, none, small, bound)

  pub reduce_lem :
      (p : List ℕ) (v : ℕ)
      → IsLimbs 5 p
      → value p ≡ v
      → v < word * m.q + m.q
      → Rounded m v (reduce g m p)
  reduce_lem p v limbs e h =
      let (sum, none, small, bound) = reduce-value p v limbs e h in
      let (upper, shape, upper_limbs, shifted) =
        low_zero 4 (reduce g m p).0 small (rw sum (low_limb_cancels m.q m.np v m.np_inverse)) in
      record {
        upper = upper;
        k = (m.np * (v % word)) % word;
        shape = λ i. (shape i, none i);
        limbs = upper_limbs;
        below = omega arith;
        equation = omega arith;
      }

  -- The five limbs of a product by one limb.
  joined :
      (r : List ℕ) (high v : ℕ)
      → IsLimbs n64 r
      → value r + base n64 * high ≡ v
      → v < base 5
      → IsLimbs 5 (r ++ (high ∷ [])) × (value (r ++ (high ∷ [])) ≡ v)
  joined r high v limbs e h =
      (append-IsLimbs n64 r high limbs (omega arith), omega (arith, value-append n64 r high limbs))

  -- What the upper limbs of the last product and the new row add up to.
  next_product :
      (p upper : List ℕ) (v : ℕ)
      → IsLimbs 5 p
      → IsLimbs n64 upper
      → value p + value upper ≡ v
      → v < word * m.q + m.q
      → Rounded m v (reduce g m (g.add p 5 upper 4).0)
  next_product p upper v limbs upper_limbs e h =
      let small = g.add_limbs p 5 upper 4 limbs upper_limbs in
      let size = value-lt 5 (g.add p 5 upper 4).0 small in
      let sum = g.add_value p 5 upper 4 limbs upper_limbs (omega arith) in
      reduce_lem (g.add p 5 upper 4).0 v small (omega (arith, m.q_lt)) h

  pub first_row_lem :
      (b : List ℕ) (limb : ℕ)
      → IsReduced m b
      → limb < word
      → Rounded m (value b * limb) (reduce g m (first_row g m b limb))
  unfolding first_row
  first_row_lem b limb hb hl =
      let bound : value b * limb ≤ m.q * (word - 1) = mul-le-mul (omega arith) (omega arith) in
      let (limbs, e) =
        joined _ _ (value b * limb) (g.mul_1_limbs b n64 limb hb.limbs hl)
          (g.mul_1_value b n64 limb hb.limbs hl) (omega (arith, m.q_lt)) in
      reduce_lem (first_row g m b limb) (value b * limb) limbs e (omega arith)

  pub row_lem :
      (b : List ℕ) (limb v : ℕ) (s : List ℕ × ℕ)
      → IsReduced m b
      → limb < word
      → (r : Rounded m v s) → Rounded m (value b * limb + value r.upper) (row g m b s limb)
  unfolding row value
  row_lem b limb v s hb hl r =
      let bound : value b * limb ≤ (m.q - 1) * (word - 1) =
        mul-le-mul (omega arith) (omega arith) in
      let zeros : IsLimbs n64 (0 ∷ 0 ∷ 0 ∷ 0 ∷ []) = omega arith in
      let t = g.addmul_1 raw_zero b n64 limb in
      let (limbs, e) =
        joined t.0 t.1 (value b * limb) (g.addmul_1_limbs raw_zero b n64 limb zeros hb.limbs hl)
          (omega (arith, g.addmul_1_value raw_zero b n64 limb zeros hb.limbs hl))
          (omega (arith, m.q_lt)) in
      rw r.shape (next_product _ r.upper _ limbs r.limbs (omega arith) (omega (arith, m.q_gt)))

  pub shift_row_lem :
      (v : ℕ) (s : List ℕ × ℕ) → (r : Rounded m v s) → Rounded m (value r.upper) (shift_row g m s)
  unfolding shift_row value
  shift_row_lem v s r = rw r.shape (
      next_product (0 ∷ raw_zero) r.upper _ (omega arith) r.limbs (omega arith)
        (omega (arith, m.q_gt)))

-- ===== src/Raw/Reduction.antt =====
-- Values below the modulus: one addition or subtraction of the modulus brings a result there.
use keyless_zk_proofs.Common.{
  ℕ, ◌+◌, ◌-◌, ◌*◌, ◌%◌, ◌≤◌, ◌<◌, ◌≡◌, ◌≢◌, sym, inl, inr, compare, List, true, false, arith,
  if◌then◌else◌, mod_unique, Bool-cases, ltb→lt,
}
use keyless_zk_proofs.Mpn.{Gmp}
use keyless_zk_proofs.Mpn.Limbs.{base, value, IsLimbs, value-lt}
use keyless_zk_proofs.Raw.{Modulus, n64, q4, nonzero, is_ge, is_eq, raw_zero}

-- Four limbs whose value is below the modulus.
pub record IsReduced (m : Modulus) (a : List ℕ) : Type 0 where
  pub limbs : IsLimbs n64 a
  pub below : value a < m.q

-- `a` is reduced, and its value is the remainder of `v`.
pub record Holds (m : Modulus) (a : List ℕ) (v : ℕ) : Type 0 where
  pub reduced : IsReduced m a
  pub same : value a ≡ v % m.q

pub is_ge→le : (x y : ℕ) → is_ge (compare x y) ≡ true → y ≤ x
is_ge→le x y h = ground arith

pub is_ge→lt : (x y : ℕ) → is_ge (compare x y) ≡ false → x < y
is_ge→lt x y h = ground arith

pub is_eq→eq : (x y : ℕ) → is_eq (compare x y) ≡ true → x ≡ y
is_eq→eq x y h = ground arith

pub is_eq→ne : (x y : ℕ) → is_eq (compare x y) ≡ false → x ≢ y
is_eq→ne x y h = ground arith

pub holds :
    (m : Modulus) (a : List ℕ) (v k : ℕ)
    → IsLimbs n64 a
    → value a < m.q
    → v ≡ value a + k * m.q
    → Holds m a v
holds m a v k limbs below e = record {
  reduced = record { limbs = limbs; below = below };
  same = sym (mod_unique (value a) v k m.q below e);
}

module _ (g : Gmp) (m : Modulus) where
  -- A carry or a borrow moves the value by `base n64`, and no result is that large.
  pub minus_q :
      (r : List ℕ)
      → IsLimbs n64 r
      → m.q ≤ value r
      → IsLimbs n64 (g.sub_n r (q4 g m) n64).0 × (value (g.sub_n r (q4 g m) n64).0 + m.q ≡ value r)
  minus_q r limbs h =
      let small = g.sub_n_limbs r (q4 g m) n64 limbs m.low_limbs in
      (
        small,
        omega (
          arith,
          g.sub_n_value r (q4 g m) n64 limbs m.low_limbs,
          m.low_value,
          value-lt n64 r limbs,
          value-lt n64 (g.sub_n r (q4 g m) n64).0 small,
        ),
      )

  -- After a borrow, which left the value `base n64 - d`, adding q gives `q - d`.
  pub plus_q :
      (r : List ℕ) (d : ℕ)
      → IsLimbs n64 r
      → value r + d ≡ base n64
      → d ≤ m.q
      → 0 < d
      → IsLimbs n64 (g.add_n r (q4 g m) n64).0 × (value (g.add_n r (q4 g m) n64).0 + d ≡ m.q)
  plus_q r d limbs e h h0 =
      let small = g.add_n_limbs r (q4 g m) n64 limbs m.low_limbs in
      (
        small,
        omega (
          arith,
          g.add_n_value r (q4 g m) n64 limbs m.low_limbs,
          m.low_value,
          m.q_lt,
          value-lt n64 r limbs,
          value-lt n64 (g.add_n r (q4 g m) n64).0 small,
        ),
      )

  pub cmp_q : (r : List ℕ) → IsLimbs n64 r → g.cmp r (q4 g m) n64 ≡ compare (value r) m.q
  cmp_q r limbs = rw (← m.low_value) (g.cmp_value r (q4 g m) n64 limbs m.low_limbs)

  pub cmp_zero : (a : List ℕ) → IsLimbs n64 a → g.cmp a raw_zero n64 ≡ compare (value a) 0
  unfolding value
  cmp_zero a limbs = g.cmp_value a raw_zero n64 limbs (omega arith)

  -- One subtraction of the modulus brings a value below 2q under it.
  pub subtract_once :
      (r : List ℕ) (v : ℕ)
      → IsLimbs n64 r
      → value r ≡ v
      → v < 2 * m.q
      → Holds m (if is_ge (g.cmp r (q4 g m) n64) then (g.sub_n r (q4 g m) n64).0 else r) v
  subtract_once r v limbs e h =
      rw (cmp_q r limbs) (elim (Bool-cases (is_ge (compare (value r) m.q))) [
        | inl ge ↦
            let (small, e') = minus_q r limbs (is_ge→le _ _ ge) in
            rw ge (holds m _ v 1 small (omega arith) (omega arith))
        | inr lt ↦ rw lt (holds m r v 0 limbs (is_ge→lt _ _ lt) (omega arith))
      ])

  -- The borrow of a subtraction decides whether the modulus is added back.
  pub add_back :
      (r : List ℕ) (borrow x y : ℕ)
      → IsLimbs n64 r
      → value r + y ≡ x + base n64 * borrow
      → x ≤ m.q
      → y ≤ m.q
      → x < m.q + y
      → Holds m (if nonzero borrow then (g.add_n r (q4 g m) n64).0 else r) (x + (m.q - y))
  add_back r borrow x y limbs e hx hy lt = elim (Bool-cases (nonzero borrow)) [
    | inl yes_borrow ↦
        let pos_borrow = ltb→lt 0 borrow yes_borrow in
        let size = value-lt n64 r limbs in
        let (small, e') =
          plus_q r (y - x) limbs (omega (arith, m.q_lt)) (omega arith) (omega (arith, m.q_lt)) in
        rw yes_borrow (holds m _ _ 0 small (omega (arith, m.q_lt)) (omega (arith, m.q_lt)))
    | inr no_borrow ↦
        let none_borrow : borrow ≡ 0 = ground arith in
        rw no_borrow (holds m r _ 1 limbs (omega arith) (omega arith))
  ]

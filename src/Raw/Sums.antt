-- ===== src/Raw/Sums.antt =====
-- The additive operations of fr_raw_generic.cpp, against arithmetic modulo q.
use keyless_zk_proofs.Common.{
  ℕ, suc, ◌+◌, ◌-◌, ◌^◌, ◌<◌, ◌≡◌, inl, inr, compare, List, [], ◌∷◌, arith, Bool-cases,
}
use keyless_zk_proofs.Common.Int.{pos, negsuc}
use keyless_zk_proofs.Mpn.{Gmp}
use keyless_zk_proofs.Mpn.Limbs.{word, value, IsLimbs, value-lt}
use keyless_zk_proofs.Raw.{
  Modulus, n64, q4, is_eq, raw_zero, raw_add, raw_add_ls, raw_sub, raw_sub_sl, raw_sub_ls, raw_neg,
  raw_neg_ls, raw_copy_s2l,
}
use keyless_zk_proofs.Raw.Reduction.{
  IsReduced, Holds, is_eq→eq, is_eq→ne, holds, plus_q, cmp_zero, subtract_once, add_back,
}

-- The limbs of -(n + 1) as a 64-bit integer that is extended by its sign.
abbrev sign_extended : ℕ → List ℕ
sign_extended n = (word - 1 - n) ∷ (word - 1) ∷ (word - 1) ∷ (word - 1) ∷ []

module _ (g : Gmp) (m : Modulus) where
  -- For reduced a and b, Fr_rawAdd is reduced and has as its value the remainder modulo q of the
  -- sum of the values of a and b.
  pub raw_add_lem :
      (a b : List ℕ) → IsReduced m a → IsReduced m b → Holds m (raw_add g m a b) (value a + value b)
  unfolding raw_add
  raw_add_lem a b ha hb =
      let e = g.add_n_value a b n64 ha.limbs hb.limbs in
      let no_carry : (g.add_n a b n64).1 ≡ 0 = omega (arith, m.q_lt) in
      rw no_carry (
        subtract_once g m _ _ (g.add_n_limbs a b n64 ha.limbs hb.limbs) (omega arith) (omega arith))

  -- Fr_rawAddLS, the addition of a 64-bit number.
  pub raw_add_ls_lem :
      (a : List ℕ) (b : ℕ) → IsReduced m a → b < word → Holds m (raw_add_ls g m a b) (value a + b)
  unfolding raw_add_ls
  raw_add_ls_lem a b ha hb =
      let e = g.add_1_value a n64 b ha.limbs hb in
      let no_carry : (g.add_1 a n64 b).1 ≡ 0 = omega (arith, m.q_lt) in
      rw no_carry (
        subtract_once g m _ _ (g.add_1_limbs a n64 b ha.limbs hb) (omega arith)
          (omega (arith, m.q_gt)))

  -- For reduced a and b, Fr_rawSub is reduced and has as its value the remainder modulo q of the
  -- value of a plus q less the value of b.
  pub raw_sub_lem :
      (a b : List ℕ)
      → IsReduced m a
      → IsReduced m b
      → Holds m (raw_sub g m a b) (value a + (m.q - value b))
  unfolding raw_sub
  raw_sub_lem a b ha hb =
      add_back g m _ _ _ _ (g.sub_n_limbs a b n64 ha.limbs hb.limbs)
        (g.sub_n_value a b n64 ha.limbs hb.limbs) (omega arith) (omega arith) (omega arith)

  -- Fr_rawSubLS, the subtraction of a 64-bit number.
  pub raw_sub_ls_lem :
      (a : List ℕ) (b : ℕ)
      → IsReduced m a
      → b < word
      → Holds m (raw_sub_ls g m a b) (value a + (m.q - b))
  unfolding raw_sub_ls
  raw_sub_ls_lem a b ha hb =
      add_back g m _ _ _ _ (g.sub_1_limbs a n64 b ha.limbs (omega arith))
        (g.sub_1_value a n64 b ha.limbs (omega arith)) (omega arith) (omega (arith, m.q_gt))
        (omega arith)

  -- For a 64-bit number a and a reduced b, Fr_rawSubSL is reduced and has as its value the
  -- remainder modulo q of a plus q less the value of b.
  pub raw_sub_sl_lem :
      (a : ℕ) (b : List ℕ)
      → a < word
      → IsReduced m b
      → Holds m (raw_sub_sl g m a b) (a + (m.q - value b))
  unfolding raw_sub_sl value
  raw_sub_sl_lem a b ha hb =
      let limbs : IsLimbs n64 (a ∷ 0 ∷ 0 ∷ 0 ∷ []) = omega arith in
      let e = g.sub_n_value (a ∷ 0 ∷ 0 ∷ 0 ∷ []) b n64 limbs hb.limbs in
      add_back g m _ _ a (value b) (g.sub_n_limbs _ b n64 limbs hb.limbs) (omega (arith, e))
        (omega (arith, m.q_gt)) (omega arith) (omega (arith, m.q_gt))

  -- For a reduced a, Fr_rawNeg is reduced and has as its value the remainder modulo q of q less
  -- the value of a.
  pub raw_neg_lem : (a : List ℕ) → IsReduced m a → Holds m (raw_neg g m a) (m.q - value a)
  unfolding raw_neg value
  raw_neg_lem a ha = rw (cmp_zero g m a ha.limbs) (elim (Bool-cases (is_eq (compare (value a) 0))) [
    | inl zero_a ↦
        let e = is_eq→eq _ _ zero_a in
        rw zero_a (holds m raw_zero _ 1 (omega arith) (omega (arith, m.q_gt)) (omega arith))
    | inr nonzero_a ↦
        let ne = is_eq→ne _ _ nonzero_a in
        let small = g.sub_n_limbs (q4 g m) a n64 m.low_limbs ha.limbs in
        let e = g.sub_n_value (q4 g m) a n64 m.low_limbs ha.limbs in
        let size = value-lt n64 (g.sub_n (q4 g m) a n64).0 small in
        rw nonzero_a (
          holds m _ _ 0 small (omega (arith, m.low_value, m.q_lt))
            (omega (arith, m.low_value, m.q_lt)))
  ])

  -- For a reduced a and a positive 64-bit number b, Fr_rawNegLS is reduced and has as its value
  -- the remainder modulo q of q less b plus q less the value of a.
  pub raw_neg_ls_lem :
      (a : List ℕ) (b : ℕ)
      → IsReduced m a
      → 0 < b
      → b < word
      → Holds m (raw_neg_ls g m a b) (m.q - b + (m.q - value a))
  unfolding raw_neg_ls
  raw_neg_ls_lem a b ha h0 hb =
      let small = g.sub_1_limbs (q4 g m) n64 b m.low_limbs (omega arith) in
      let e = g.sub_1_value (q4 g m) n64 b m.low_limbs (omega arith) in
      let size = value-lt n64 (g.sub_1 (q4 g m) n64 b).0 small in
      let no_borrow : (g.sub_1 (q4 g m) n64 b).1 ≡ 0 = omega (arith, m.low_value, m.q_lt, m.q_gt) in
      let first : value (g.sub_1 (q4 g m) n64 b).0 ≡ m.q - b = omega (arith, m.low_value, m.q_gt) in
      rw no_borrow (
        add_back g m _ _ (m.q - b) (value a) (g.sub_n_limbs _ a n64 small ha.limbs)
          (omega (arith, g.sub_n_value (g.sub_1 (q4 g m) n64 b).0 a n64 small ha.limbs))
          (omega arith) (omega arith) (omega (arith, m.q_gt)))

  pub raw_copy_s2l-pos : (n : ℕ) → n < word → Holds m (raw_copy_s2l g m (pos n)) n
  unfolding raw_copy_s2l value
  raw_copy_s2l-pos n h = holds m _ n 0 (omega arith) (omega (arith, m.q_gt)) (omega arith)

  pub raw_copy_s2l-negsuc :
      (n : ℕ) → n < 2 ^ 63 → Holds m (raw_copy_s2l g m (negsuc n)) (m.q - suc n)
  unfolding raw_copy_s2l value
  raw_copy_s2l-negsuc n h =
      let small : IsLimbs n64 (sign_extended n) = omega arith in
      let (limbs, e) =
        plus_q g m (sign_extended n) (suc n) small (omega arith) (omega (arith, m.q_gt))
          (omega arith) in
      holds m _ _ 0 limbs (omega arith) (omega (arith, m.q_gt))

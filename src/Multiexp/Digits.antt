-- ===== src/Multiexp/Digits.antt =====
-- A number put together from its chunks, as sums of multiples see it.
use native.Mathlib.Nat.{mul-add, div-div-eq-div-mul, div-add-mod, mul_comm, mul_assoc, div-eq_of_lt}
use keyless_zk_proofs.Common.{
  ℕ, zero, suc, ◌+◌, ◌*◌, ◌/◌, ◌%◌, ◌<◌, ◌≡◌, refl, sym, ◌∙◌, ap, ap₂, arith,
}
use keyless_zk_proofs.Group.{AbelianGroup}
use keyless_zk_proofs.Group.Times.{times, times-add}
use keyless_zk_proofs.Multiexp.{pow2}
use keyless_zk_proofs.Multiexp.Powers.{pow2-add}
use keyless_zk_proofs.Multiexp.Sums.{sum, sum_congr, sum-none, sum-plus, times-sum, times-times}

-- The digits `c`, of `bits` bits each, with their weights.
abbrev assemble : ℕ → (ℕ → ℕ) → ℕ → ℕ
assemble bits c zero = 0
assemble bits c (suc m) = pow2 (bits * m) * c m + assemble bits c m

-- The first `m` digits of a number are its remainder.
assemble_lem :
    (bits x m : ℕ)
    → assemble bits (λ j. x / pow2 (j * bits) % pow2 bits) m
        + pow2 (bits * m) * (x / pow2 (bits * m))
      ≡ x
assemble_lem bits x zero =
    let e : bits * 0 ≡ 0 = omega arith in ap (λ (w : ℕ). 0 + pow2 w * (x / pow2 w)) e ∙ omega arith
assemble_lem bits x (suc m) =
    let w = pow2 (bits * m) in
    let p = pow2 bits in
    let y = x / w in
    let lower = assemble bits (λ j. x / pow2 (j * bits) % p) m in
    let grown : pow2 (bits * suc m) ≡ w * p = ap pow2 (shift bits m) ∙ pow2-add (bits * m) bits in
    let above : x / pow2 (bits * suc m) ≡ y / p =
      ap (λ (t : ℕ). x / t) grown ∙ sym (div-div-eq-div-mul x w p) in
    let place : m * bits ≡ bits * m = mul_comm m bits in
    rw (above, grown, place)
      (regroup w (y % p) lower p (y / p)
        ∙ ap (λ (t : ℕ). lower + w * t) (div-add-mod y p)
        ∙ assemble_lem bits x m)
  where
    shift : (bits m : ℕ) → bits * suc m ≡ bits * m + bits
    shift bits m = omega arith

    regroup : (w r a p q : ℕ) → w * r + a + w * p * q ≡ a + w * (p * q + r)
    regroup w r a p q =
        let e : w * p * q ≡ w * (p * q) = mul_assoc w p q in omega (arith, e, mul-add w (p * q) r)

assemble_whole :
    (bits x m : ℕ)
    → x < pow2 (bits * m)
    → assemble bits (λ j. x / pow2 (j * bits) % pow2 bits) m ≡ x
assemble_whole bits x m lt =
    let e : x / pow2 (bits * m) ≡ 0 = div-eq_of_lt lt in
    let f : pow2 (bits * m) * 0 ≡ 0 = omega arith in
    let w = assemble_lem bits x m in omega (arith, ap (λ (t : ℕ). pow2 (bits * m) * t) e, f, w)

module _ {ℓ} {V : Type ℓ} (v : AbelianGroup V) where
  times-assemble :
      (bits m : ℕ) (c : ℕ → ℕ) (x : V)
      → sum v m (λ j. times v (pow2 (bits * j)) (times v (c j) x)) ≡ times v (assemble bits c m) x
  unfolding sum times
  times-assemble bits zero c x = refl
  times-assemble bits (suc m) c x =
      ap₂ v.plus (times-times v (pow2 (bits * m)) (c m) x) (times-assemble bits m c x)
      ∙ sym (times-add v (pow2 (bits * m) * c m) (assemble bits c m) x)

  pub sum-sum :
      (m n : ℕ) (f : ℕ → ℕ → V)
      → sum v m (λ j. sum v n (λ i. f j i)) ≡ sum v n (λ i. sum v m (λ j. f j i))
  unfolding sum
  sum-sum zero n f = sym (sum-none v n _ (λ i p. refl))
  sum-sum (suc m) n f = ap (v.plus (sum v n (λ i. f m i))) (sum-sum m n f) ∙ sym (sum-plus v n _ _)

  -- Chunk by chunk or scalar by scalar: the weighted sums over the chunks' digits of all scalars
  -- are the sum of the scalars' multiples.
  pub chunks-scalars :
      (bits m n : ℕ) (c : ℕ → ℕ → ℕ) (x : ℕ → ℕ) (base : ℕ → V)
      → ((j i : ℕ) → j < m → i < n → c j i ≡ x i / pow2 (j * bits) % pow2 bits)
      → ((i : ℕ) → i < n → x i < pow2 (bits * m))
      → sum v m (λ j. times v (pow2 (bits * j)) (sum v n (λ i. times v (c j i) (base i))))
        ≡ sum v n (λ i. times v (x i) (base i))
  chunks-scalars bits m n c x base digits bounded =
      sum_congr v m _ _ (λ j p. times-sum v (pow2 (bits * j)) n _)
      ∙ sum-sum m n _
      ∙ sum_congr v n _ _ (λ i q.
        sum_congr v m _ _
          (λ j p. ap (λ t. times v (pow2 (bits * j)) (times v t (base i))) (digits j i p q))
        ∙ times-assemble bits m (λ j. x i / pow2 (j * bits) % pow2 bits) (base i)
        ∙ ap (λ t. times v t (base i)) (assemble_whole bits (x i) m (bounded i q)))

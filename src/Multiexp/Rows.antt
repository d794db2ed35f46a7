-- ===== src/Multiexp/Rows.antt =====
-- The rows of accumulators, one for each thread: where they lie, and the weights of their places.
use native.Mathlib.Nat.{
  mul-add-mod_self_right, mod-eq_of_lt, div-add-mod', le-div_iff_mul-le, div-lt_iff_lt-mul, mod-lt,
}
use keyless_zk_proofs.Common.{ℕ, zero, suc, ◌+◌, ◌*◌, ◌/◌, ◌%◌, ◌≤◌, ◌<◌, ◌≡◌, ◌∙◌, ap, arith}
use keyless_zk_proofs.Group.{AbelianGroup, Points}
use keyless_zk_proofs.Group.Times.{times}
use keyless_zk_proofs.Multiexp.Sums.{sum_congr, sum-extend, times-none}
use keyless_zk_proofs.Multiexp.Moves.{weigh}

pub row_mod : (size j i : ℕ) → i < size → (j * size + i) % size ≡ i
row_mod size j i lt = mul-add-mod_self_right j size i ∙ mod-eq_of_lt lt

pub row_lt : (size threads j i : ℕ) → i < size → j < threads → j * size + i < threads * size
row_lt size zero j i lt lj = absurd (omega arith)
row_lt size (suc threads) zero i lt lj =
    let e : suc threads * size ≡ size + threads * size = omega arith in
    let z : 0 * size ≡ 0 = omega arith in omega (arith, e, z, lt)
row_lt size (suc threads) (suc j) i lt lj =
    let below : j * size + i < threads * size = row_lt size threads j i lt (omega (arith, lj)) in
    let e : suc threads * size ≡ size + threads * size = omega arith in
    let z : suc j * size ≡ size + j * size = omega arith in omega (arith, e, z, below)

-- A statement about all places of the rows, from one about each row.
pub by_rows {ℓ} :
    (P : ℕ → Type ℓ) (size threads : ℕ)
    → ((j i : ℕ) → 0 < j → j < threads → i < size → P (j * size + i))
    → (a : ℕ) → 0 < size
    → size ≤ a
    → a < threads * size
    → P a
by_rows P size threads each a positive lo hi = rw (div-add-mod' a size) at (
    each (a / size) (a % size) ((le-div_iff_mul-le positive).1 (omega (arith, lo)))
      ((div-lt_iff_lt-mul positive).1 hi) (mod-lt a positive))

module _ {ℓ κ μ} {V : Type ℓ} {v : AbelianGroup V} {Point : Type κ} {PointAffine : Type μ}
    (g : Points v Point PointAffine) where
  -- The rows of accumulators have the places' remainders as weights.
  abbrev pub weigh_rows : ℕ → ℕ → (ℕ → Point) → V
  weigh_rows size threads accs = weigh g (λ a. a % size) (threads * size) accs

  -- When the other rows hold no value, only the first one counts.
  pub weigh_rows-first :
      (size threads : ℕ) (accs : ℕ → Point)
      → 0 < threads
      → ((a : ℕ) → size ≤ a → a < threads * size → g.value_of (accs a) ≡ v.none)
      → weigh_rows size threads accs ≡ weigh g (λ a. a) size accs
  unfolding weigh
  weigh_rows-first size zero accs positive clear = absurd (omega arith)
  weigh_rows-first size (suc threads) accs positive clear =
      let e : suc threads * size ≡ threads * size + size = omega arith in
      rw e (
        sum-extend v size (threads * size) _ (λ i p q.
          ap (times v (i % size)) (clear i p (omega (arith, e, q))) ∙ times-none v (i % size)))
      ∙ sum_congr v size _ _ (λ a p. ap (λ w. times v w (g.value_of (accs a))) (mod-eq_of_lt p))

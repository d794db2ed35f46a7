-- ===== src/Groth16/Coset.antt =====
-- ifft, shift and fft: the polynomial through an array's values, on a coset of the roots.
use native.Mathlib.Nat.{mul_comm}
use keyless_zk_proofs.Common.{ℕ, zero, suc, ◌≤◌, ◌<◌, ◌≡◌, sym, ◌∙◌, ap, arith, List}
use keyless_zk_proofs.Outcome.{ok}
use keyless_zk_proofs.Multiexp.{pow2}
use keyless_zk_proofs.Field.{CommutativeRing, BaseField}
use keyless_zk_proofs.Field.Laws.{mult_swap}
use keyless_zk_proofs.Multiexp.Sums.{sum, sum_congr}
use keyless_zk_proofs.Fft.{Fft, Orders, root}
use keyless_zk_proofs.Fft.Rounds.{IsRange}
use keyless_zk_proofs.Fft.Powers.{power, power-times}
use keyless_zk_proofs.Fft.Transform.{transform, transform_congr}
use keyless_zk_proofs.Fft.Roots.{IsRootTable, IsOrders, gen, root_lem}
use keyless_zk_proofs.Fft.Stages.{fft_lem}
use keyless_zk_proofs.Fft.Inverse.{ifft_lem}
use keyless_zk_proofs.Groth16.Arrays.{shift_array, to_coset}
use keyless_zk_proofs.Groth16.Loops.{at_cell_lem}

module _ {ℓ} {V : Type ℓ} (v : CommutativeRing V) where
  -- The polynomial with `n` coefficients, at `x`.
  unfoldable pub evaluate : ℕ → (ℕ → V) → V → V
  evaluate n coefs x = sum v.sums n (λ l. v.mult (coefs l) (power v x l))

  power-mult : (x y : V) (n : ℕ) → power v (v.mult x y) n ≡ v.mult (power v x n) (power v y n)
  unfolding power
  power-mult x y zero = sym (v.unit-mult v.unit)
  power-mult x y (suc n) =
      ap (v.mult (v.mult x y)) (power-mult x y n)
      ∙ v.mult_assoc x y _
      ∙ ap (v.mult x) (mult_swap v y (power v x n) (power v y n))
      ∙ sym (v.mult_assoc x _ _)

  transform-evaluate :
      (g : V) (n : ℕ) (c : ℕ → V) (j : ℕ) → transform v g n c j ≡ evaluate n c (power v g j)
  unfolding transform evaluate
  transform-evaluate g n c j =
      sum_congr v.sums n _ _
        (λ l p. ap (v.mult (c l)) (ap (power v g) (mul_comm l j) ∙ power-times v g j l))

  transform-shift_array :
      (g z : V) (n : ℕ) (c : ℕ → V) (j : ℕ)
      → transform v g n (λ l. v.mult (c l) (power v z l)) j ≡ evaluate n c (v.mult z (power v g j))
  unfolding transform evaluate
  transform-shift_array g z n c j = sum_congr v.sums n _ _ (λ l p.
      v.mult_assoc (c l) _ _
      ∙ ap (v.mult (c l)) (
          ap (v.mult (power v z l)) (ap (power v g) (mul_comm l j) ∙ power-times v g j l)
          ∙ sym (power-mult z (power v g j) l)))

module _ {ℓ κ} {V : Type ℓ} {v : CommutativeRing V} {El : Type κ} (f : BaseField v El)
    (fft_ : Fft El) (w : V) (table : IsRootTable f fft_ w) (k : ℕ) (pos : 0 < k)
    (room : suc k ≤ fft_.s) (few : k ≤ 30) where
  abbrev g : ℕ → V
  g = gen f fft_ w table

  shift_array_lem :
      (rounds : List ℕ) (a : ℕ → El) (i : ℕ)
      → IsRange 0 (pow2 k) rounds
      → i < pow2 k
      → f.val (shift_array f fft_ k rounds a i) ≡ v.mult (f.val (a i)) (power v (g (suc k)) i)
  unfolding shift_array
  shift_array_lem rounds a i range lt =
      ap f.val (at_cell_lem (λ i x. f.mul_el x (root fft_ (suc k) i)) (pow2 k) rounds a i range lt)
      ∙ f.mul_val _ _
      ∙ ap (v.mult _) (root_lem f fft_ w table (suc k) i room (omega (arith, lt)))

  -- Where the table of roots reaches 2 ^ (k + 1), for n = 2 ^ k with k positive and at most 30,
  -- and loops that run each of their rounds once, in any order: ifft, the shift and fft come to
  -- an end without a failed assertion. There are coefficients whose polynomial has the array's
  -- value j at the power j of the root of order n, and the result's value j is that polynomial at
  -- the same power times the root of order 2 n.
  pub to_coset_lem :
      (inverse forward : Orders) (rounds : List ℕ) (a : ℕ → El)
      → IsOrders k inverse
      → IsRange 0 (pow2 k) rounds
      → IsOrders k forward
      → (b : ℕ → El) × (coefs : ℕ → V) × (to_coset f fft_ (pow2 k) k inverse rounds forward a
          ≡ ok b)
        × ((j : ℕ) → j < pow2 k → evaluate v (pow2 k) coefs (power v (g k) j) ≡ f.val (a j))
        × ((j : ℕ)
            → j < pow2 k
            → f.val (b j) ≡ evaluate v (pow2 k) coefs (v.mult (g (suc k)) (power v (g k) j)))
  unfolding to_coset
  to_coset_lem inverse forward rounds a first range second =
      let (c, run, through) =
        ifft_lem f fft_ w table k inverse a pos (omega (arith, room)) few first in
      let (b, run', at) =
        fft_lem f fft_ w table k forward (shift_array f fft_ k rounds c) (omega (arith, room)) few
          second in
      (
        b,
        λ l. f.val (c l),
        rw run run',
        λ j lt. sym (transform-evaluate v (g k) (pow2 k) _ j) ∙ through j lt,
        λ j lt.
            at j lt
            ∙ transform_congr v (g k) (pow2 k) _ _ j (λ l p. shift_array_lem rounds c l range p)
            ∙ transform-shift_array v (g k) (g (suc k)) (pow2 k) _ j,
      )

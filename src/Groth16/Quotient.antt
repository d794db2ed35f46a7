-- ===== src/Groth16/Quotient.antt =====
-- prove up to the multi-exponentiation of pointsH: what the array a holds at the end.
use keyless_zk_proofs.Common.{ℕ, suc, ◌≤◌, ◌<◌, ◌≡◌, refl, sym, ◌∙◌, ap, ap₂, arith}
use keyless_zk_proofs.Outcome.{ok}
use keyless_zk_proofs.Multiexp.{pow2}
use keyless_zk_proofs.Field.{CommutativeRing, BaseField}
use keyless_zk_proofs.Group.Times.{times}
use keyless_zk_proofs.Multiexp.Sums.{sum}
use keyless_zk_proofs.Fft.{Fft}
use keyless_zk_proofs.Fft.Length.{log2-pow2}
use keyless_zk_proofs.Fft.Rounds.{IsRange}
use keyless_zk_proofs.Fft.Powers.{power}
use keyless_zk_proofs.Fft.Roots.{IsRootTable, IsOrders, gen}
use keyless_zk_proofs.Groth16.{ScalarField, Circuit, LoopOrders}
use keyless_zk_proofs.Groth16.Arrays.{clear_array, multiply, process_coefs, combine_abc, quotient}
use keyless_zk_proofs.Groth16.Loops.{at_cell_lem, term_a, term_b, process_coefs_lem}
use keyless_zk_proofs.Groth16.Coset.{evaluate, to_coset_lem}

-- Each loop runs each of its rounds once.
pub record IsLoopOrders (k n_coefs : ℕ) (loops : LoopOrders) : Type 0 where
  pub clearing_range : IsRange 0 (pow2 k) loops.clearing
  pub coefs_range : IsRange 0 n_coefs loops.coefs
  pub products_range : IsRange 0 (pow2 k) loops.products
  pub inverse_orders : (j : ℕ) → IsOrders k (loops.inverse j)
  pub shifts_range : (j : ℕ) → IsRange 0 (pow2 k) (loops.shifts j)
  pub forward_orders : (j : ℕ) → IsOrders k (loops.forward j)
  pub abc_range : IsRange 0 (pow2 k) loops.abc

module _ {ℓ κ} {V : Type ℓ} {v : CommutativeRing V} {El : Type κ} (f : BaseField v El)
    (sf : ScalarField f) (fft_ : Fft El) (w : V) (table : IsRootTable f fft_ w) where
  -- Coefficients of a polynomial with these values on the powers of the root of order 2 ^ k.
  abbrev pub Interpolates : ℕ → (ℕ → V) → (ℕ → V) → Type ℓ
  Interpolates k values coefs =
      (j : ℕ) → j < pow2 k → evaluate v (pow2 k) coefs (power v (gen f fft_ w table k) j) ≡ values j

  -- The point `j` of the coset.
  abbrev pub coset_point : ℕ → ℕ → V
  coset_point k j = v.mult (gen f fft_ w table (suc k)) (power v (gen f fft_ w table k) j)

  module _ (k : ℕ) (p : Circuit El) (loops : LoopOrders) (fresh : ℕ → ℕ → El) (wtns : ℕ → El)
      (ranges : IsLoopOrders k p.n_coefs loops) where
    -- The sums of coefficients times witnesses that name cell `x` of a, and of b.
    abbrev pub side_a : ℕ → V
    side_a x = sum v.sums p.n_coefs (term_a f p.coefs wtns x)

    abbrev pub side_b : ℕ → V
    side_b x = sum v.sums p.n_coefs (term_b f p.coefs wtns x)

    abbrev filled : (ℕ → El) × (ℕ → El)
    filled =
        process_coefs f p.coefs wtns loops.coefs
          (clear_array f loops.clearing (fresh 0), clear_array f loops.clearing (fresh 1))

    clear_array_val :
        (a : ℕ → El) (x : ℕ) → x < pow2 k → f.val (clear_array f loops.clearing a x) ≡ v.sums.none
    unfolding clear_array
    clear_array_val a x lt =
        ap f.val
          (at_cell_lem (λ i y. f.zero_el) (pow2 k) loops.clearing a x ranges.clearing_range lt)
        ∙ f.zero_val

    filled_a : (x : ℕ) → x < pow2 k → f.val (filled.0 x) ≡ side_a x
    filled_a x lt =
        (process_coefs_lem f p.coefs wtns p.n_coefs loops.coefs x _ ranges.coefs_range).0
        ∙ ap (λ t. v.sums.plus t (side_a x)) (clear_array_val (fresh 0) x lt)
        ∙ v.sums.none-plus _

    filled_b : (x : ℕ) → x < pow2 k → f.val (filled.1 x) ≡ side_b x
    filled_b x lt =
        (process_coefs_lem f p.coefs wtns p.n_coefs loops.coefs x _ ranges.coefs_range).1
        ∙ ap (λ t. v.sums.plus t (side_b x)) (clear_array_val (fresh 1) x lt)
        ∙ v.sums.none-plus _

    abbrev products : ℕ → El
    products = multiply f loops.products filled.0 filled.1 (fresh 2)

    products_val : (x : ℕ) → x < pow2 k → f.val (products x) ≡ v.mult (side_a x) (side_b x)
    unfolding multiply
    products_val x lt =
        ap f.val (
          at_cell_lem (λ i y. f.mul_el (filled.0 i) (filled.1 i)) (pow2 k) loops.products (fresh 2)
            x ranges.products_range lt)
        ∙ f.mul_val _ _
        ∙ ap₂ v.mult (filled_a x lt) (filled_b x lt)

    combine_val :
        (a b c : ℕ → El) (x : ℕ)
        → x < pow2 k
        → v.sums.plus
            (times v.sums (sf.number (combine_abc f sf loops.abc a b c x)) v.unit)
            (f.val (c x))
          ≡ v.mult (f.val (a x)) (f.val (b x))
    unfolding combine_abc
    combine_val a b c x lt =
        ap (λ y. v.sums.plus (times v.sums (sf.number y) v.unit) (f.val (c x)))
          (at_cell_lem (λ i y. sf.from_montgomery (f.sub_el (f.mul_el y (b i)) (c i))) (pow2 k)
            loops.abc a x ranges.abc_range lt)
        ∙ ap (λ t. v.sums.plus t (f.val (c x))) (sf.from_value _)
        ∙ f.sub_val _ _
        ∙ f.mul_val _ _

    -- For domainSize = 2 ^ k with k positive and at most 30, a table of roots that reaches 2 ^ (k
    -- + 1), and loops that run each of their rounds once, in any order, whatever `new` leaves in
    -- the arrays: prove reaches the multi-exponentiation of pointsH without a failed assertion.
    -- With polynomials A and B through the two sums of coefficients times witnesses on the powers
    -- of the root of order 2 ^ k, and C through the products of the two, scalar j is the number of
    -- A * B - C at point j of the coset.
    pub quotient_lem :
        p.domain_size ≡ pow2 k
        → 0 < k
        → suc k ≤ fft_.s
        → k ≤ 30
        → (h : ℕ → El) × (ca : ℕ → V) × (cb : ℕ → V) × (cc : ℕ → V) × (quotient f sf fft_ p loops
              fresh wtns
            ≡ ok h)
          × Interpolates k side_a ca
          × Interpolates k side_b cb
          × Interpolates k (λ x. v.mult (side_a x) (side_b x)) cc
          × ((j : ℕ)
              → j < pow2 k
              → v.sums.plus
                  (times v.sums (sf.number (h j)) v.unit)
                  (evaluate v (pow2 k) cc (coset_point k j))
                ≡ v.mult
                    (evaluate v (pow2 k) ca (coset_point k j))
                    (evaluate v (pow2 k) cb (coset_point k j)))
    unfolding quotient
    quotient_lem size pos room few =
        let coset = to_coset_lem f fft_ w table k pos room few in
        let run = λ (j : ℕ) (x : ℕ → El).
          coset (loops.inverse j) (loops.forward j) (loops.shifts j) x (ranges.inverse_orders j)
            (ranges.shifts_range j) (ranges.forward_orders j) in
        let (a1, ca, run_a, through_a, at_a) = run 0 filled.0 in
        let (b1, cb, run_b, through_b, at_b) = run 1 filled.1 in
        let (c1, cc, run_c, through_c, at_c) = run 2 products in
        (
          combine_abc f sf loops.abc a1 b1 c1,
          ca,
          cb,
          cc,
          rw (size, log2-pow2 k (omega (arith, few)), run_a, run_b, run_c) refl,
          λ j lt. through_a j lt ∙ filled_a j lt,
          λ j lt. through_b j lt ∙ filled_b j lt,
          λ j lt. through_c j lt ∙ products_val j lt,
          λ j lt.
              ap (v.sums.plus _) (sym (at_c j lt))
              ∙ combine_val a1 b1 c1 j lt
              ∙ ap₂ v.mult (at_a j lt) (at_b j lt),
        )

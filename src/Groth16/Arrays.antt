-- ===== src/Groth16/Arrays.antt =====
-- prove on the arrays a, b and c: the loop over the coefficients, the transforms and the quotient.
use keyless_zk_proofs.Common.{ℕ, suc, List, [], ◌∷◌, if◌then◌else◌, ◌==◌}
use keyless_zk_proofs.Outcome.{Outcome, ok, ◌>>=◌}
use keyless_zk_proofs.Field.{CommutativeRing, BaseField}
use keyless_zk_proofs.Fft.{Fft, Orders, log2, root, put_at, run_rounds, fft, ifft}
use keyless_zk_proofs.Groth16.{ScalarField, Coef, Circuit, LoopOrders}

module _ {ℓ κ} {V : Type ℓ} {v : CommutativeRing V} {El : Type κ} (f : BaseField v El) where
  -- The body of the loop over the coefficients, on the arrays a and b.
  unfoldable pub add_coef : (ℕ → Coef El) → (ℕ → El) → ℕ → (ℕ → El) × (ℕ → El) → (ℕ → El) × (ℕ → El)
  add_coef coefs wtns i (a, b) =
      let k = coefs i in
      let aux = f.mul_el (wtns k.s) k.coef in
      if k.m == 0
      then (put_at k.c (f.add_el (a k.c) aux) a, b)
      else (a, put_at k.c (f.add_el (b k.c) aux) b)

  -- "Processing coefs". The loop counts in an int: fewer than 2 ^ 31 coefficients are meant, each
  -- with `c` below domainSize.
  unfoldable pub process_coefs :
      (ℕ → Coef El) → (ℕ → El) → List ℕ → (ℕ → El) × (ℕ → El) → (ℕ → El) × (ℕ → El)
  process_coefs coefs wtns [] ab = ab
  process_coefs coefs wtns (i ∷ rounds) ab =
      process_coefs coefs wtns rounds (add_coef coefs wtns i ab)

  -- The loop that clears an array, as `new` left it.
  unfoldable pub clear_array : List ℕ → (ℕ → El) → ℕ → El
  clear_array rounds a = run_rounds (λ i. put_at i f.zero_el) rounds a

  -- "Calculating c": c is what `new` left.
  unfoldable pub multiply : List ℕ → (ℕ → El) → (ℕ → El) → (ℕ → El) → ℕ → El
  multiply rounds a b c = run_rounds (λ i. put_at i (f.mul_el (a i) (b i))) rounds c

  -- "Start Shift": an array times the powers of the root of twice the order.
  unfoldable pub shift_array : Fft El → ℕ → List ℕ → (ℕ → El) → ℕ → El
  shift_array fft_ domain_power rounds a =
      run_rounds (λ i a. put_at i (f.mul_el (a i) (root fft_ (suc domain_power) i)) a) rounds a

  -- ifft, shift and fft of one array.
  unfoldable pub to_coset : Fft El → ℕ → ℕ → Orders → List ℕ → Orders → (ℕ → El) → Outcome (ℕ → El)
  to_coset fft_ domain_size domain_power inverse rounds forward a = do
    a1 ← ifft f fft_ inverse domain_size a
    fft f fft_ forward domain_size (shift_array fft_ domain_power rounds a1)

  -- "Start ABC".
  unfoldable pub combine_abc : ScalarField f → List ℕ → (ℕ → El) → (ℕ → El) → (ℕ → El) → ℕ → El
  combine_abc sf rounds a b c =
      run_rounds (λ i a. put_at i (sf.from_montgomery (f.sub_el (f.mul_el (a i) (b i)) (c i))) a)
        rounds a

module _ {ℓ κ} {V : Type ℓ} {v : CommutativeRing V} {El : Type κ} (f : BaseField v El)
    (sf : ScalarField f) (fft_ : Fft El) where
  -- prove, up to the multi-exponentiation of pointsH: the array a at the end. The three futures
  -- are the arrays 0, 1 and 2 of `loops`; `fresh` is what `new` leaves in an array.
  unfoldable pub quotient : Circuit El → LoopOrders → (ℕ → ℕ → El) → (ℕ → El) → Outcome (ℕ → El)
  quotient p loops fresh wtns = do
    let a0 = clear_array f loops.clearing (fresh 0) in
        let b0 = clear_array f loops.clearing (fresh 1) in
        let (a, b) = process_coefs f p.coefs wtns loops.coefs (a0, b0) in
        let c = multiply f loops.products a b (fresh 2) in
        log2 p.domain_size >>= λ domain_power.
        let coset = λ (j : ℕ) (x : ℕ → El).
          to_coset f fft_ p.domain_size domain_power (loops.inverse j) (loops.shifts j)
            (loops.forward j) x in
        coset 0 a >>= λ a1.
        coset 1 b >>= λ b1. coset 2 c >>= λ c1. ok (combine_abc f sf loops.abc a1 b1 c1)

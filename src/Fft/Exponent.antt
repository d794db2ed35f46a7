-- ===== src/Fft/Exponent.antt =====
-- exp of RawFr, which fft.cpp calls with the eight bytes of an index as the exponent.
use native.Mathlib.Nat.{div-eq_of_lt, div-div-eq-div-mul, mul_comm}
use keyless_zk_proofs.Common.{
  ℕ, zero, suc, ◌+◌, ◌*◌, ◌/◌, ◌%◌, ◌^◌, ◌<◌, ◌≡◌, sym, ◌∙◌, ap, ap₂, arith, Bool, true, false,
  if◌then◌else◌, ◌==◌, Bool-cases, inl, inr, ==_iff,
}
use keyless_zk_proofs.Multiexp.{pow2}
use keyless_zk_proofs.Field.{CommutativeRing, BaseField}
use keyless_zk_proofs.Fft.Powers.{power, power-add}

-- The bits above place `i`, and that at it.
next_bit : (n i : ℕ) → n / pow2 i ≡ 2 * (n / pow2 (suc i)) + n / pow2 i % 2
next_bit n i =
    let e : n / pow2 (suc i) ≡ n / pow2 i / 2 =
      ap (λ (t : ℕ). n / t) (mul_comm 2 (pow2 i)) ∙ sym (div-div-eq-div-mul n (pow2 i) 2) in
    omega (arith, e)

odd_next : (n i : ℕ) → (n / pow2 i % 2 == 1) ≡ true → n / pow2 i ≡ suc (2 * (n / pow2 (suc i)))
odd_next n i set = omega (arith, next_bit n i, (==_iff (n / pow2 i % 2) 1).0 set)

even_next : (n i : ℕ) → (n / pow2 i % 2 == 1) ≡ false → n / pow2 i ≡ 2 * (n / pow2 (suc i))
even_next n i unset = let e = next_bit n i in ground arith

module _ {ℓ κ} {V : Type ℓ} {v : CommutativeRing V} {El : Type κ} (f : BaseField v El) where
  -- The loop of exp over the bits below `i`, with `oneFound` and `r`.
  unfoldable pub exp_loop : El → ℕ → ℕ → Bool → El → Bool × El
  exp_loop base n zero found r = (found, r)
  exp_loop base n (suc i) found r =
      let bit = n / pow2 i % 2 == 1 in
      let found1 = if found then true else bit in
      let r1 =
        (if found
          then (if bit then f.mul_el (f.square_el r) base else f.square_el r)
          else if bit
          then base
          else r) in
      exp_loop base n i found1 r1

  -- After it, the destination holds one if no bit was set.
  abbrev pub finish : Bool × El → El
  finish (true, r) = r
  finish (false, r) = f.one_el

  -- exp, for a scalar of eight bytes; `r` is what the destination holds.
  unfoldable pub exp : El → El → ℕ → El
  exp r base n = finish (exp_loop base n 64 false r)

  square-power : (x : V) (n : ℕ) → v.mult (power v x n) (power v x n) ≡ power v x (2 * n)
  square-power x n = let e : 2 * n ≡ n + n = omega arith in rw e (sym (power-add v x n n))

  -- Once a bit was set, the destination holds the power by the bits that the loop has seen.
  exp_loop-true :
      (base : El) (n i : ℕ) (r : El)
      → f.val r ≡ power v (f.val base) (n / pow2 i)
      → f.val (finish (exp_loop base n i true r)) ≡ power v (f.val base) n
  unfolding exp_loop power
  exp_loop-true base n zero r h = h ∙ ap (power v (f.val base)) (omega arith)
  exp_loop-true base n (suc i) r h =
      let twice : f.val (f.square_el r) ≡ power v (f.val base) (2 * (n / pow2 (suc i))) =
        f.square_val r ∙ ap₂ v.mult h h ∙ square-power _ _ in
      elim (Bool-cases (n / pow2 i % 2 == 1)) [
        | inl set ↦
            let e : n / pow2 i ≡ suc (2 * (n / pow2 (suc i))) = odd_next n i set in
            rw set (
              exp_loop-true base n i _ (
                f.mul_val _ _
                ∙ v.mult_comm _ _
                ∙ ap (v.mult (f.val base)) twice
                ∙ ap (power v (f.val base)) (sym e)))
        | inr unset ↦
            let e : n / pow2 i ≡ 2 * (n / pow2 (suc i)) = even_next n i unset in
            rw unset (exp_loop-true base n i _ (twice ∙ ap (power v (f.val base)) (sym e)))
      ]

  exp_loop-false :
      (base : El) (n i : ℕ) (r : El)
      → n / pow2 i ≡ 0
      → f.val (finish (exp_loop base n i false r)) ≡ power v (f.val base) n
  unfolding exp_loop power
  exp_loop-false base n zero r h =
      f.one_val ∙ ap (power v (f.val base)) (let e : 0 ≡ n = omega (arith, h) in e)
  exp_loop-false base n (suc i) r h = elim (Bool-cases (n / pow2 i % 2 == 1)) [
    | inl set ↦
        let e : n / pow2 i ≡ 1 = omega (arith, odd_next n i set, h) in
        rw set (
          exp_loop-true base n i base
            (sym (v.mult_comm _ v.unit ∙ v.unit-mult _) ∙ ap (power v (f.val base)) (sym e)))
    | inr unset ↦
        let e : n / pow2 i ≡ 0 = omega (arith, even_next n i unset, h) in
        rw unset (exp_loop-false base n i r e)
  ]

  -- For an exponent of 64 bits, exp computes the power, whatever the destination held.
  pub exp_lem : (r base : El) (n : ℕ) → n < 2 ^ 64 → f.val (exp r base n) ≡ power v (f.val base) n
  unfolding exp
  exp_lem r base n lt = exp_loop-false base n 64 r (div-eq_of_lt lt)

-- ===== src/Groth16/Proving.antt =====
-- prove from the witness to the proof.
use keyless_zk_proofs.Common.{
  ℕ, suc, ◌+◌, ◌%◌, ◌^◌, ◌≤◌, ◌<◌, ◌≡◌, refl, sym, ◌∙◌, ap, subst, arith, List, some,
}
use keyless_zk_proofs.Outcome.{ok}
use keyless_zk_proofs.Mpn.{Gmp}
use keyless_zk_proofs.Mpn.Limbs.{value, IsLimbs}
use keyless_zk_proofs.Raw.Fields.{fr}
use keyless_zk_proofs.Multiexp.{pow2}
use keyless_zk_proofs.Group.{AbelianGroup, Points}
use keyless_zk_proofs.Field.{CommutativeRing, BaseField}
use keyless_zk_proofs.Fft.{Fft}
use keyless_zk_proofs.Fft.Roots.{IsRootTable}
use keyless_zk_proofs.Groth16.{
  ScalarField, Subtraction, Runs, Circuit, LoopOrders, ProvingKey, Proof,
}
use keyless_zk_proofs.Groth16.Arrays.{quotient}
use keyless_zk_proofs.Groth16.Prove.{assemble_proof, prove}
use keyless_zk_proofs.Groth16.Sampling.{sample}
use keyless_zk_proofs.Groth16.Sampling.{sample_lem}
use keyless_zk_proofs.Groth16.Quotient.{IsLoopOrders, quotient_lem}
use keyless_zk_proofs.Groth16.Whole.{IsSized, IsRuns, IsProof, assemble_proof_lem}

-- Draw `m` from `i` is the first whose remainder modulo 2 ^ 254 is below the field's order.
abbrev pub IsFirst : (ℕ → List ℕ) → ℕ → ℕ → Type 0
IsFirst draws i m =
    ((l : ℕ) → l < m → fr.q ≤ value (draws (i + l)) % 2 ^ 254)
    × (value (draws (i + m)) % 2 ^ 254 < fr.q)

module _ {ℓ κ} {V : Type ℓ} {v : CommutativeRing V} {El : Type κ} {f : BaseField v El}
    (sf : ScalarField f) (order : sf.order ≡ fr.q) (gmp : Gmp) (draws : ℕ → List ℕ)
    (four : (j : ℕ) → IsLimbs 4 (draws j)) (fuel : ℕ) where
  -- A sampled element.
  drawn :
      (i m : ℕ)
      → m < fuel
      → IsFirst draws i m
      → (limbs : List ℕ) × (sample gmp draws fuel i ≡ some (limbs, suc (i + m)))
        × (sf.number (sf.of_limbs limbs) ≡ value (draws (i + m)) % 2 ^ 254)
  drawn i m lt (above, below) =
      let (limbs, run, four_limbs, same) = sample_lem gmp draws fuel i m four lt above below in
      let inside : value limbs < sf.order =
        subst (λ n. value limbs < n) (sym order) (subst (λ n. n < fr.q) (sym same) below) in
      (limbs, run, sf.of_limbs_number limbs four_limbs inside ∙ same)

  module _ {μ ν η} {U1 : Type μ} {u1 : AbelianGroup U1} {Point1 : Type ν} {Affine1 : Type η}
      (g1 : Points u1 Point1 Affine1) (c1 : Subtraction g1) where
    module _ {μ' ν' η'} {U2 : Type μ'} {u2 : AbelianGroup U2} {Point2 : Type ν'} {Affine2 : Type η'}
        (g2 : Points u2 Point2 Affine2) (c2 : Subtraction g2) where
      -- For a field of the order that groth16.cpp writes out, draws of four limbs, of which the
      -- first that the loop for r accepts is draw m and the first after it that the loop for s
      -- accepts is draw m + 1 + l, m and l below the fuel, domainSize = 2 ^ k with k positive and
      -- at most 30, a table of roots that reaches 2 ^ (k + 1), sizes that fit their integers, and
      -- loops and multi-exponentiations that run each of their rounds once, in any order, with
      -- whatever `new` leaves in the arrays: prove comes to an end without a failed assertion. Its
      -- r and s are the remainders of these two draws modulo 2 ^ 254, its h is what the quotient
      -- computes, and the proof's points are the sums of Groth's protocol for h, r and s.
      pub prove_lem :
          (fft_ : Fft El) (w : V) (k : ℕ) (loops : LoopOrders) (fresh : ℕ → ℕ → El)
          (key : ProvingKey Affine1 Affine2) (p : Circuit El) (runs : Runs) (wtns : ℕ → El)
          (m l : ℕ)
          → IsRootTable f fft_ w
          → IsLoopOrders k p.n_coefs loops
          → p.domain_size ≡ pow2 k
          → 0 < k
          → suc k ≤ fft_.s
          → k ≤ 30
          → IsSized p.n_vars p.n_public
          → IsRuns p runs
          → m < fuel
          → l < fuel
          → IsFirst draws 0 m
          → IsFirst draws (suc m) l
          → (proof : Proof Affine1 Affine2) × (h : ℕ → El) × (r : El) × (s : El) × (prove sf g1 c1
                g2 c2 gmp draws fuel fft_ loops fresh key p runs wtns
              ≡ ok (some proof))
            × (quotient f sf fft_ p loops fresh wtns ≡ ok h)
            × (sf.number r ≡ value (draws m) % 2 ^ 254)
            × (sf.number s ≡ value (draws (suc m + l)) % 2 ^ 254)
            × IsProof sf g1 c1 g2 c2 key p wtns h r s proof
      unfolding prove
      prove_lem fft_ w k loops fresh key p runs wtns m l table ranges size pos room few sized sound
            m_lt l_lt first second =
          let (h, ca, cb, cc, run, through_a, through_b, through_c, at) =
            quotient_lem f sf fft_ w table k p loops fresh wtns ranges size pos room few in
          let (r, run_r, is_r) = drawn 0 m m_lt first in
          let (s, run_s, is_s) = drawn (suc m) l l_lt second in
          let start : 0 + m ≡ m = omega arith in
          let next : suc (0 + m) ≡ suc m = omega arith in
          (
            assemble_proof sf g1 c1 g2 c2 key p runs wtns h (sf.of_limbs r) (sf.of_limbs s),
            h,
            sf.of_limbs r,
            sf.of_limbs s,
            rw (run, run_r, next, run_s) refl,
            run,
            is_r ∙ ap (λ j. value (draws j) % 2 ^ 254) start,
            is_s,
            assemble_proof_lem sf g1 c1 g2 c2 key p wtns runs sized sound h _ _,
          )

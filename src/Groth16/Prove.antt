-- ===== src/Groth16/Prove.antt =====
-- prove: the multi-exponentiations, the sampled elements and the proof's points.
use keyless_zk_proofs.Common.{
  ℕ, zero, suc, ◌+◌, ◌-◌, ◌*◌, ◌/◌, ◌%◌, ◌^◌, List, [], ◌++◌, Option, none, some,
}
use keyless_zk_proofs.Outcome.{Outcome, ok, ◌>>=◌}
use keyless_zk_proofs.Mpn.{Gmp}
use keyless_zk_proofs.Naf.Multiply.{naf_mul_by_scalar}
use keyless_zk_proofs.Group.{AbelianGroup, Points}
use keyless_zk_proofs.Multiexp.{multiexp}
use keyless_zk_proofs.Field.{CommutativeRing, BaseField}
use keyless_zk_proofs.Fft.{Fft}
use keyless_zk_proofs.Groth16.{
  ScalarField, Subtraction, on_points, Run, Runs, Circuit, LoopOrders, ProvingKey, Proof,
}
use keyless_zk_proofs.Groth16.Sampling.{sample}
use keyless_zk_proofs.Groth16.Arrays.{quotient}

-- Unsigned arithmetic on 32 bits: nVars - nPublic - 1.
unfoldable pub private_count : ℕ → ℕ → ℕ
private_count n_vars n_public = (n_vars + 2 ^ 32 + 2 ^ 32 - n_public - 1) % 2 ^ 32

-- (nPublic + 1) * sW bytes, in elements of 32 bytes.
unfoldable pub private_start : ℕ → ℕ
private_start n_public = (n_public + 1) % 2 ^ 32 * 32 % 2 ^ 32 / 32

module _ {ℓ κ} {V : Type ℓ} {v : CommutativeRing V} {El : Type κ} {f : BaseField v El}
    (sf : ScalarField f) where
  -- The bytes of `n` elements of an array from element `i`.
  unfoldable pub bytes_from : (ℕ → El) → ℕ → ℕ → List ℕ
  bytes_from a i zero = []
  bytes_from a i (suc n) = sf.bytes (a i) ++ bytes_from a (suc i) n

  module _ {μ ν η} {U : Type μ} {u : AbelianGroup U} {Point : Type ν} {PointAffine : Type η}
      (g : Points u Point PointAffine) where
    -- multiMulByScalar with elements as scalars, from element `first`.
    unfoldable pub multi_mul : Run → (ℕ → PointAffine) → (ℕ → El) → ℕ → ℕ → Point
    multi_mul run bases a first n =
        multiexp g run.log2_of bases (bytes_from a first n) 32 n run.threads run.plans

    -- mulByScalar of an affine point.
    unfoldable pub mul_by_scalar : PointAffine → El → Point
    mul_by_scalar base x = naf_mul_by_scalar g base (sf.bytes x)

  module _ {μ ν η} {U1 : Type μ} {u1 : AbelianGroup U1} {Point1 : Type ν} {Affine1 : Type η}
      (g1 : Points u1 Point1 Affine1) (c1 : Subtraction g1) where
    module _ {μ' ν' η'} {U2 : Type μ'} {u2 : AbelianGroup U2} {Point2 : Type ν'} {Affine2 : Type η'}
        (g2 : Points u2 Point2 Affine2) (c2 : Subtraction g2) where
      -- prove, after the array h of the quotient is known and r and s are drawn.
      unfoldable pub assemble_proof :
          ProvingKey Affine1 Affine2
          → Circuit El
          → Runs
          → (ℕ → El)
          → (ℕ → El)
          → El
          → El
          → Proof Affine1 Affine2
      assemble_proof key p runs wtns h r s =
          let pi_a = multi_mul g1 runs.run_a key.points_a wtns 0 p.n_vars in
          let pib1 = multi_mul g1 runs.run_b1 key.points_b1 wtns 0 p.n_vars in
          let pi_b = multi_mul g2 runs.run_b2 key.points_b2 wtns 0 p.n_vars in
          let pi_c =
            multi_mul g1 runs.run_c key.points_c wtns (private_start p.n_public)
              (private_count p.n_vars p.n_public) in
          let pih = multi_mul g1 runs.run_h key.points_h h 0 p.domain_size in
          let pi_a = g1.add_affine pi_a key.vk_alpha1 in
          let pi_a = g1.add_point pi_a (mul_by_scalar g1 key.vk_delta1 r) in
          let pi_b = g2.add_affine pi_b key.vk_beta2 in
          let pi_b = g2.add_point pi_b (mul_by_scalar g2 key.vk_delta2 s) in
          let pib1 = g1.add_affine pib1 key.vk_beta1 in
          let pib1 = g1.add_point pib1 (mul_by_scalar g1 key.vk_delta1 s) in
          let pi_c = g1.add_point pi_c pih in
          let pi_c = g1.add_point pi_c (mul_by_scalar (on_points g1 c1) pi_a s) in
          let pi_c = g1.add_point pi_c (mul_by_scalar (on_points g1 c1) pib1 r) in
          let rs = sf.to_montgomery (f.mul_el r s) in
          let pi_c = c1.sub_point pi_c (mul_by_scalar g1 key.vk_delta1 rs) in
          record { a = c1.to_affine pi_a; b = c2.to_affine pi_b; c = c1.to_affine pi_c }

      -- prove. Without a draw below the modulus within `fuel` draws for each of r and s, none.
      unfoldable pub prove :
          Gmp
          → (ℕ → List ℕ)
          → ℕ
          → Fft El
          → LoopOrders
          → (ℕ → ℕ → El)
          → ProvingKey Affine1 Affine2
          → Circuit El
          → Runs
          → (ℕ → El)
          → Outcome (Option (Proof Affine1 Affine2))
      prove gmp draws fuel fft_ loops fresh key p runs wtns = do
        h ← quotient f sf fft_ p loops fresh wtns
        elim (sample gmp draws fuel 0) [
          | none ↦ ok none
          | some r ↦ elim (sample gmp draws fuel r.1) [
            | none ↦ ok none
            | some s ↦
                ok (some (assemble_proof key p runs wtns h (sf.of_limbs r.0) (sf.of_limbs s.0)))
          ]
        ]

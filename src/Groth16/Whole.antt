-- ===== src/Groth16/Whole.antt =====
-- prove as a whole: the proof's points, and that the parts come to an end.
use keyless_zk_proofs.Common.{ℕ, ◌+◌, ◌-◌, ◌*◌, ◌%◌, ◌^◌, ◌<◌, ◌≡◌, sym, ◌∙◌, ap, ap₂, arith}
use keyless_zk_proofs.Group.{AbelianGroup, Points}
use keyless_zk_proofs.Group.Times.{times}
use keyless_zk_proofs.Field.{CommutativeRing, BaseField}
use keyless_zk_proofs.Multiexp.Sums.{sum}
use keyless_zk_proofs.Groth16.{
  ScalarField, Subtraction, on_points, Run, Runs, Circuit, ProvingKey, Proof,
}
use keyless_zk_proofs.Groth16.Prove.{
  private_count, private_start, multi_mul, mul_by_scalar, assemble_proof,
}
use keyless_zk_proofs.Groth16.Scalars.{IsRun, multi_mul_lem, mul_by_scalar_lem}

-- The numbers of variables and of public ones fit their machine integers, and so do the bytes of
-- the public witnesses.
abbrev pub IsSized : ℕ → ℕ → Type 0
IsSized n_vars n_public = (n_public < n_vars) × (n_vars < 2 ^ 32) × (n_public + 1 < 2 ^ 27)

private_count_lem :
    (n_vars n_public : ℕ)
    → IsSized n_vars n_public
    → private_count n_vars n_public ≡ n_vars - (n_public + 1)
unfolding private_count
private_count_lem n_vars n_public (enough, few, bytes) = omega (arith, enough, few)

private_start_lem :
    (n_vars n_public : ℕ) → IsSized n_vars n_public → private_start n_public ≡ n_public + 1
unfolding private_start
private_start_lem n_vars n_public (enough, few, bytes) = omega (arith, bytes)

-- The multi-exponentiations run each base once.
pub record IsRuns {ℓ} {El : Type ℓ} (p : Circuit El) (runs : Runs) : Type 0 where
  pub a_run : IsRun p.n_vars runs.run_a
  pub b1_run : IsRun p.n_vars runs.run_b1
  pub b2_run : IsRun p.n_vars runs.run_b2
  pub c_run : IsRun (p.n_vars - (p.n_public + 1)) runs.run_c
  pub h_run : IsRun p.domain_size runs.run_h

-- The sum of the bases' values, times the numbers of elements from element `first`.
abbrev pub linear {ℓ κ ν} :
    {V : Type ℓ} {v : CommutativeRing V} {El : Type κ} {f : BaseField v El} (sf : ScalarField f)
    {U : Type ν} (u : AbelianGroup U)
    → (ℕ → U)
    → (ℕ → El)
    → ℕ
    → ℕ
    → U
linear sf u bases a first n = sum u n (λ i. times u (sf.number (a (first + i))) (bases i))

module _ {ℓ κ} {V : Type ℓ} {v : CommutativeRing V} {El : Type κ} {f : BaseField v El}
    (sf : ScalarField f) where
  module _ {μ ν η} {U1 : Type μ} {u1 : AbelianGroup U1} {Point1 : Type ν} {Affine1 : Type η}
      (g1 : Points u1 Point1 Affine1) (c1 : Subtraction g1) where
    module _ {μ' ν' η'} {U2 : Type μ'} {u2 : AbelianGroup U2} {Point2 : Type ν'} {Affine2 : Type η'}
        (g2 : Points u2 Point2 Affine2) (c2 : Subtraction g2) where
      module _ (key : ProvingKey Affine1 Affine2) (p : Circuit El) (wtns : ℕ → El) where
        -- The sum for A, that for B, and that for B over the first group.
        abbrev pub sum_a : El → U1
        sum_a r =
            u1.plus
              (u1.plus (linear sf u1 (λ i. g1.value_of_affine (key.points_a i)) wtns 0 p.n_vars)
                (g1.value_of_affine key.vk_alpha1))
              (times u1 (sf.number r) (g1.value_of_affine key.vk_delta1))

        abbrev pub sum_b : El → U2
        sum_b s =
            u2.plus
              (u2.plus (linear sf u2 (λ i. g2.value_of_affine (key.points_b2 i)) wtns 0 p.n_vars)
                (g2.value_of_affine key.vk_beta2))
              (times u2 (sf.number s) (g2.value_of_affine key.vk_delta2))

        abbrev pub sum_b1 : El → U1
        sum_b1 s =
            u1.plus
              (u1.plus (linear sf u1 (λ i. g1.value_of_affine (key.points_b1 i)) wtns 0 p.n_vars)
                (g1.value_of_affine key.vk_beta1))
              (times u1 (sf.number s) (g1.value_of_affine key.vk_delta1))

        -- The sum for C, before the product of r and s is taken away.
        abbrev pub sum_c : (ℕ → El) → El → El → U1
        sum_c h r s =
            u1.plus
              (u1.plus
                (u1.plus
                  (linear sf u1 (λ i. g1.value_of_affine (key.points_c i)) wtns (p.n_public + 1)
                    (p.n_vars - (p.n_public + 1)))
                  (linear sf u1 (λ i. g1.value_of_affine (key.points_h i)) h 0 p.domain_size))
                (times u1 (sf.number s) (sum_a r)))
              (times u1 (sf.number r) (sum_b1 s))

        -- The proof's points are the sums of Groth's protocol.
        abbrev pub IsProof : (ℕ → El) → El → El → Proof Affine1 Affine2 → Type (μ ⊔ μ')
        IsProof h r s proof =
            (g1.value_of_affine proof.a ≡ sum_a r)
            × (g2.value_of_affine proof.b ≡ sum_b s)
            × (u1.plus (g1.value_of_affine proof.c) (
                  times u1 (sf.number r * sf.number s % sf.order)
                    (g1.value_of_affine key.vk_delta1))
                ≡ sum_c h r s)

        module _ (runs : Runs) (sized : IsSized p.n_vars p.n_public) (ranges : IsRuns p runs) where
          -- A multi-exponentiation, an affine point and a multiple, one after another.
          three :
              (run : Run) (bases : ℕ → Affine1) (first : Affine1) (x : El)
              → IsRun p.n_vars run
              → g1.value_of (
                  g1.add_point
                    (g1.add_affine (multi_mul sf g1 run bases wtns 0 p.n_vars) first)
                    (mul_by_scalar sf g1 key.vk_delta1 x))
                ≡ u1.plus
                    (u1.plus
                      (linear sf u1 (λ i. g1.value_of_affine (bases i)) wtns 0 p.n_vars)
                      (g1.value_of_affine first))
                    (times u1 (sf.number x) (g1.value_of_affine key.vk_delta1))
          three run bases first x sound =
              g1.add_value _ _
              ∙ ap₂ u1.plus
                  (g1.add_affine_value _ _
                    ∙ ap (λ t. u1.plus t (g1.value_of_affine first))
                        (multi_mul_lem sf g1 run bases wtns 0 p.n_vars sound))
                  (mul_by_scalar_lem sf g1 key.vk_delta1 x)

          private_sum :
              g1.value_of (
                multi_mul sf g1 runs.run_c key.points_c wtns
                  (private_start p.n_public)
                  (private_count p.n_vars p.n_public))
              ≡ linear sf u1
                  (λ i. g1.value_of_affine (key.points_c i))
                  wtns
                  (p.n_public + 1)
                  (p.n_vars - (p.n_public + 1))
          private_sum =
              ap₂ (λ i n. g1.value_of (multi_mul sf g1 runs.run_c key.points_c wtns i n))
                (private_start_lem p.n_vars p.n_public sized)
                (private_count_lem p.n_vars p.n_public sized)
              ∙ multi_mul_lem sf g1 runs.run_c key.points_c wtns _ _ ranges.c_run

          -- For sizes that fit their integers, and multi-exponentiations that run each base once:
          -- A is the witness's sum over pointsA plus alpha1 plus r delta1, B the sum over pointsB2
          -- plus beta2 plus s delta2, and C plus (r s mod q) delta1 the private witness's sum
          -- over pointsC plus the sum of h over pointsH plus s A plus r times the sum over
          -- pointsB1 plus beta1 plus s delta1.
          pub assemble_proof_lem :
              (h : ℕ → El) (r s : El)
              → IsProof h r s (assemble_proof sf g1 c1 g2 c2 key p runs wtns h r s)
          unfolding assemble_proof
          assemble_proof_lem h r s =
              let a = three runs.run_a key.points_a key.vk_alpha1 r ranges.a_run in
              let b1 = three runs.run_b1 key.points_b1 key.vk_beta1 s ranges.b1_run in
              (
                c1.to_affine_value _ ∙ a,
                c2.to_affine_value _
                    ∙ g2.add_value _ _
                    ∙ ap₂ u2.plus
                        (g2.add_affine_value _ _
                          ∙ ap (λ t. u2.plus t (g2.value_of_affine key.vk_beta2))
                              (multi_mul_lem sf g2 runs.run_b2 key.points_b2 wtns 0 p.n_vars
                                ranges.b2_run))
                        (mul_by_scalar_lem sf g2 key.vk_delta2 s),
                ap₂ u1.plus (c1.to_affine_value _) (
                      ap (λ n. times u1 n (g1.value_of_affine key.vk_delta1))
                        (sym (sf.product_number r s))
                      ∙ sym (mul_by_scalar_lem sf g1 key.vk_delta1 _))
                    ∙ c1.sub_value _ _
                    ∙ g1.add_value _ _
                    ∙ ap₂ u1.plus
                        (g1.add_value _ _
                          ∙ ap₂ u1.plus
                              (g1.add_value _ _
                                ∙ ap₂ u1.plus private_sum (
                                    multi_mul_lem sf g1 runs.run_h key.points_h h 0 p.domain_size
                                      ranges.h_run))
                              (mul_by_scalar_lem sf (on_points g1 c1) _ s
                                ∙ ap (times u1 (sf.number s)) a))
                        (mul_by_scalar_lem sf (on_points g1 c1) _ r
                          ∙ ap (times u1 (sf.number r)) b1),
              )

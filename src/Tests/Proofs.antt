-- ===== src/Tests/Proofs.antt =====
-- The theorems about the prover, for a circuit of two variables, with the integers as its groups.
use native.Mathlib.Nat.{mod-eq_of_lt}
use mathlib.Core.Int.{ℤ, pos}
use keyless_zk_proofs.Common.{
  ℕ, zero, suc, ◌+◌, ◌%◌, ◌^◌, ◌≤◌, ◌<◌, ◌≡◌, refl, sym, subst, ◌∙◌, arith, List, [], ◌∷◌, some,
}
use keyless_zk_proofs.Outcome.{ok}
use keyless_zk_proofs.Mpn.Reference.{reference}
use keyless_zk_proofs.Mpn.Limbs.{value, IsLimbs}
use keyless_zk_proofs.Raw.Fields.{fr, fr_q}
use keyless_zk_proofs.Prover.{alt_bbn128r}
use keyless_zk_proofs.BinFile.Reads.{to_le, length-to_le, from_le-to_le}
use keyless_zk_proofs.Group.Integers.{integer_points}
use keyless_zk_proofs.Group.Times.{times}
use keyless_zk_proofs.Multiexp.{Plan, pow2, bits_per_chunk}
use keyless_zk_proofs.Multiexp.Sums.{sum}
use keyless_zk_proofs.Multiexp.Whole.{IsSound}
use keyless_zk_proofs.Field.Residues.{Residue, residue_back}
use keyless_zk_proofs.Fft.Powers.{power}
use keyless_zk_proofs.Fft.Roots.{gen}
use keyless_zk_proofs.Groth16.{
  ScalarField, Subtraction, Coef, Run, Runs, Circuit, LoopOrders, ProvingKey, Proof,
}
use keyless_zk_proofs.Groth16.Arrays.{process_coefs, quotient}
use keyless_zk_proofs.Groth16.Prove.{prove}
use keyless_zk_proofs.Groth16.Sampling.{sample}
use keyless_zk_proofs.Groth16.RawScalars.{times-residue, to_le-IsBytes}
use keyless_zk_proofs.Groth16.Scalars.{IsRun}
use keyless_zk_proofs.Groth16.Sampling.{sample_lem}
use keyless_zk_proofs.Groth16.Loops.{term_a, term_b, process_coefs_lem}
use keyless_zk_proofs.Groth16.Coset.{evaluate}
use keyless_zk_proofs.Groth16.Quotient.{IsLoopOrders, Interpolates, quotient_lem}
use keyless_zk_proofs.Groth16.Whole.{IsRuns, IsProof}
use keyless_zk_proofs.Groth16.Proving.{prove_lem}
use keyless_zk_proofs.Tests.Points.{downward, downward-IsOnce, downward-IsPlanned, downward-Covers}
use keyless_zk_proofs.Tests.Scalars.{
  ring, several, of, residue_field, eighth, table, table-IsRootTable, countdown, countdown-IsRange,
  backwards, backwards-IsOrders,
}

-- The remainders as their own scalars: the Montgomery conversions change nothing.
abbrev scalars : ScalarField residue_field
scalars = record {
  order = alt_bbn128r;
  to_montgomery = λ x. x;
  from_montgomery = λ x. x;
  number = λ x. x.0;
  bytes = λ x. to_le 32 x.0;
  of_limbs = λ xs. of (value xs);
  number_lt = λ x. x.1;
  from_value = λ x. times-residue alt_bbn128r several x.0 ∙ residue_back alt_bbn128r several x;
  product_number = λ x y. refl;
  bytes_length = λ x. length-to_le 32 x.0;
  bytes_IsBytes = λ x. to_le-IsBytes 32 x.0;
  bytes_number = λ x. from_le-to_le 32 x.0 (omega (arith, x.1));
  of_limbs_number = λ xs h lt. mod-eq_of_lt lt;
}

abbrev subtraction : Subtraction integer_points
subtraction = record {
  sub_point = integer_points.sub_affine;
  to_affine = λ k. k;
  sub_value = integer_points.sub_affine_value;
  to_affine_value = λ k. refl;
}

-- Coefficients 3 of a and 5 of b at cell 1.
abbrev two_coefs : ℕ → Coef (Residue alt_bbn128r)
two_coefs zero = record { m = 0; c = 1; s = 0; coef = of 3 }
two_coefs (suc i) = record { m = 1; c = 1; s = 1; coef = of 5 }

abbrev circuit : Circuit (Residue alt_bbn128r)
circuit = record { n_vars = 2; n_public = 0; domain_size = 4; n_coefs = 2; coefs = two_coefs }

abbrev witnesses : ℕ → Residue alt_bbn128r
witnesses i = of (i + 7)

abbrev loops : LoopOrders
loops = record {
  clearing = countdown 4;
  coefs = countdown 2;
  products = countdown 4;
  inverse = λ j. backwards;
  shifts = λ j. countdown 4;
  forward = λ j. backwards;
  abc = countdown 4;
}

loops-IsLoopOrders : IsLoopOrders 2 2 loops
loops-IsLoopOrders = record {
  clearing_range = countdown-IsRange 4;
  coefs_range = countdown-IsRange 2;
  products_range = countdown-IsRange 4;
  inverse_orders = λ j. backwards-IsOrders;
  shifts_range = λ j. countdown-IsRange 4;
  forward_orders = λ j. backwards-IsOrders;
  abc_range = countdown-IsRange 4;
}

-- What `new` left.
abbrev fresh : ℕ → ℕ → Residue alt_bbn128r
fresh j i = of 99

process_coefs_lem_example :
    ((process_coefs residue_field two_coefs witnesses (countdown 2) (fresh 0, fresh 1)).0 1
      ≡ ring.sums.plus (of 99) (sum ring.sums 2 (term_a residue_field two_coefs witnesses 1)))
    × ((process_coefs residue_field two_coefs witnesses (countdown 2) (fresh 0, fresh 1)).1 1
        ≡ ring.sums.plus (of 99) (sum ring.sums 2 (term_b residue_field two_coefs witnesses 1)))
process_coefs_lem_example =
    process_coefs_lem residue_field two_coefs witnesses 2 (countdown 2) 1 (fresh 0, fresh 1)
      (countdown-IsRange 2)

abbrev roots : ℕ → Residue alt_bbn128r
roots = gen residue_field table eighth table-IsRootTable

quotient_lem_example :
    (h : ℕ → Residue alt_bbn128r) × (ca : ℕ → Residue alt_bbn128r) × (cb : ℕ → Residue alt_bbn128r)
    × (cc : ℕ → Residue alt_bbn128r) × (quotient residue_field scalars table circuit loops fresh
          witnesses
        ≡ ok h)
    × Interpolates residue_field scalars table eighth table-IsRootTable 2
        (λ x. sum ring.sums 2 (term_a residue_field two_coefs witnesses x))
        ca
    × Interpolates residue_field scalars table eighth table-IsRootTable 2
        (λ x. sum ring.sums 2 (term_b residue_field two_coefs witnesses x))
        cb
    × Interpolates residue_field scalars table eighth table-IsRootTable 2
        (λ x.
          ring.mult
            (sum ring.sums 2 (term_a residue_field two_coefs witnesses x))
            (sum ring.sums 2 (term_b residue_field two_coefs witnesses x)))
        cc
    × ((j : ℕ)
        → j < pow2 2
        → ring.sums.plus
            (times ring.sums (h j).0 ring.unit)
            (evaluate ring (pow2 2) cc (ring.mult (roots 3) (power ring (roots 2) j)))
          ≡ ring.mult
              (evaluate ring (pow2 2) ca (ring.mult (roots 3) (power ring (roots 2) j)))
              (evaluate ring (pow2 2) cb (ring.mult (roots 3) (power ring (roots 2) j))))
quotient_lem_example =
    quotient_lem residue_field scalars table eighth table-IsRootTable 2 circuit loops fresh
      witnesses loops-IsLoopOrders refl (omega arith) (omega arith) (omega arith)

-- The first draw is above the modulus, and the others are 5.
abbrev draws : ℕ → List ℕ
draws zero = 0 ∷ 0 ∷ 0 ∷ 0x3FFFFFFFFFFFFFFF ∷ []
draws (suc j) = 5 ∷ 0 ∷ 0 ∷ 0 ∷ []

draws-IsLimbs : (j : ℕ) → IsLimbs 4 (draws j)
draws-IsLimbs zero = ground arith
draws-IsLimbs (suc j) = ground arith

draws_above : (l : ℕ) → l < 1 → fr.q ≤ value (draws (0 + l)) % 2 ^ 254
unfolding value
draws_above zero lt = subst (λ q. q ≤ value (draws 0) % 2 ^ 254) (sym fr_q) (omega arith)
draws_above (suc l) lt = absurd (omega (arith, lt))

five_below : 5 < fr.q
five_below = subst (λ q. 5 < q) (sym fr_q) (omega arith)

sample_lem_example :
    (limbs : List ℕ) × (sample reference draws 4 0 ≡ some (limbs, 2))
    × IsLimbs 4 limbs
    × (value limbs ≡ value (draws 1) % 2 ^ 254)
unfolding value
sample_lem_example =
    sample_lem reference draws 4 0 1 draws-IsLimbs (omega arith) draws_above five_below

-- The schedules of a multi-exponentiation of `n` bases.
abbrev plan : ℕ → Plan
plan n = record { process = downward n; pack = downward 4; halves = λ k. downward (pow2 k) }

plan-IsSound : (n : ℕ) → IsSound n 4 2 (plan n)
plan-IsSound n = record {
  once = downward-IsOnce n;
  planned = downward-IsPlanned 4 4 (omega arith);
  covers = downward-Covers 4;
  full = λ k. (downward-IsPlanned (pow2 k) (pow2 k) (omega arith), downward-Covers (pow2 k));
}

abbrev run : ℕ → Run
run n = record { log2_of = λ n. 0; threads = 2; plans = λ j. plan n }

run-IsRun : (n : ℕ) → IsRun n (run n)
unfolding bits_per_chunk
run-IsRun n = (omega arith, λ j lt. plan-IsSound n)

abbrev all_runs : Runs
all_runs = record { run_a = run 2; run_b1 = run 2; run_b2 = run 2; run_c = run 1; run_h = run 4 }

all_runs-IsRuns : IsRuns circuit all_runs
all_runs-IsRuns = record {
  a_run = run-IsRun 2;
  b1_run = run-IsRun 2;
  b2_run = run-IsRun 2;
  c_run = run-IsRun 1;
  h_run = run-IsRun 4;
}

abbrev key : ProvingKey ℤ ℤ
key = record {
  vk_alpha1 = pos 2;
  vk_beta1 = pos 3;
  vk_beta2 = pos 3;
  vk_delta1 = pos 5;
  vk_delta2 = pos 5;
  points_a = λ i. pos 7;
  points_b1 = λ i. pos 11;
  points_b2 = λ i. pos 11;
  points_c = λ i. pos 13;
  points_h = λ i. pos 17;
}

prove_lem_example :
    (proof : Proof ℤ ℤ) × (h : ℕ → Residue alt_bbn128r) × (r : Residue alt_bbn128r) × (s : Residue
      alt_bbn128r)
    × (prove scalars integer_points subtraction integer_points subtraction reference draws 4 table
          loops fresh key circuit all_runs witnesses
        ≡ ok (some proof))
    × (quotient residue_field scalars table circuit loops fresh witnesses ≡ ok h)
    × (r.0 ≡ value (draws 1) % 2 ^ 254)
    × (s.0 ≡ value (draws 2) % 2 ^ 254)
    × IsProof scalars integer_points subtraction integer_points subtraction key circuit witnesses h
        r s proof
unfolding value
prove_lem_example =
    prove_lem scalars (sym fr_q) reference draws draws-IsLimbs 4 integer_points subtraction
      integer_points subtraction table eighth 2 loops fresh key circuit all_runs witnesses 1 0
      table-IsRootTable loops-IsLoopOrders refl (omega arith) (omega arith) (omega arith)
      (omega arith, omega arith, omega arith) all_runs-IsRuns (omega arith) (omega arith)
      (draws_above, five_below) (λ l lt. absurd (omega (arith, lt)), five_below)

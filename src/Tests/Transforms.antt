-- ===== src/Tests/Transforms.antt =====
-- The theorems about the Fourier transform, for 4 elements of the scalar field.
use keyless_zk_proofs.Common.{
  ℕ, suc, ◌+◌, ◌*◌, ◌≤◌, ◌<◌, ◌≡◌, refl, arith, ◌==◌, if◌then◌else◌, ◌-◌, sym, ap, ==_iff, true,
  ◌^◌, ◌%◌, ◌/◌, zero,
}
use keyless_zk_proofs.Outcome.{ok}
use keyless_zk_proofs.Prover.{alt_bbn128r}
use keyless_zk_proofs.Multiexp.{pow2}
use keyless_zk_proofs.Field.Residues.{Residue, residue, residue_eq, residues}
use keyless_zk_proofs.Group.Times.{times}
use keyless_zk_proofs.Groth16.RawScalars.{times-residue}
use keyless_zk_proofs.Fft.{Fft}
use keyless_zk_proofs.Fft.Roots.{IsRootTable}
use keyless_zk_proofs.Fft.Table.{make_fft}
use keyless_zk_proofs.Fft.Constructor.{make_fft_lem}
use keyless_zk_proofs.Tests.Pairs.{seven, small_field}
use keyless_zk_proofs.Fft.{log2, br, reverse_permutation, fft, ifft}
use keyless_zk_proofs.Fft.Length.{log2_lem}
use keyless_zk_proofs.Fft.Reverse.{rev}
use keyless_zk_proofs.Fft.Reverse.Whole.{br_lem}
use keyless_zk_proofs.Fft.Permute.{reverse_permutation_lem}
use keyless_zk_proofs.Fft.Transform.{transform}
use keyless_zk_proofs.Fft.Roots.{gen}
use keyless_zk_proofs.Fft.Stages.{fft_lem}
use keyless_zk_proofs.Fft.Inverse.{ifft_lem}
use keyless_zk_proofs.Tests.Scalars.{
  ring, of, residue_field, eighth, table, table-IsRootTable, countdown, countdown-IsRange,
  backwards, backwards-IsOrders,
}

log2_lem_example : (k : ℕ) × (log2 1000 ≡ ok k) × (pow2 k ≤ 1000) × (1000 < pow2 (suc k))
log2_lem_example = log2_lem 1000 (omega arith) (omega arith)

br_lem_example : br 6 5 ≡ rev 5 6
br_lem_example = br_lem 5 6 (omega arith) (omega arith)

abbrev values : ℕ → Residue alt_bbn128r
values i = of (i * i + 3)

reverse_permutation_lem_example :
    (b : ℕ → Residue alt_bbn128r) × (reverse_permutation (pow2 2) (countdown 4) values ≡ ok b)
    × ((x : ℕ) → x < pow2 2 → b x ≡ values (rev 2 x))
reverse_permutation_lem_example =
    reverse_permutation_lem 2 (omega arith) (countdown 4) values (countdown-IsRange 4)

fft_lem_example :
    (b : ℕ → Residue alt_bbn128r) × (fft residue_field table backwards (pow2 2) values ≡ ok b)
    × ((j : ℕ)
        → j < pow2 2
        → b j
          ≡ transform ring
              (gen residue_field table eighth table-IsRootTable 2)
              (pow2 2)
              (λ l. values l)
              j)
fft_lem_example =
    fft_lem residue_field table eighth table-IsRootTable 2 backwards values (omega arith)
      (omega arith) backwards-IsOrders

ifft_lem_example :
    (b : ℕ → Residue alt_bbn128r) × (ifft residue_field table backwards (pow2 2) values ≡ ok b)
    × ((j : ℕ)
        → j < pow2 2
        → transform ring (gen residue_field table eighth table-IsRootTable 2) (pow2 2) (λ i. b i) j
          ≡ values j)
ifft_lem_example =
    ifft_lem residue_field table eighth table-IsRootTable 2 backwards values (omega arith)
      (omega arith) (omega arith) backwards-IsOrders

-- The constructor over the remainders modulo 7, with three spans.
equal_residues : (x y : Residue 7) → x ≡ y → (x.0 == y.0) ≡ true
equal_residues x y e = (==_iff x.0 y.0).1 (ap (λ r. r.0) e)

seven_units : times (residues 7 seven).sums 7 (residues 7 seven).unit ≡ (residues 7 seven).sums.none
unfolding times
seven_units = residue_eq 7 seven _ _ refl

make_fft_lem_example :
    (fft_ : Fft (Residue 7)) × (w : Residue 7) × (make_fft small_field
        (residue 7 seven)
        (λ b e q. if q == 0 then 0 else b ^ e % q)
        (λ a q. 4)
        7
        2
        (pow2 1)
        3
        (countdown 3)
        (λ j i. residue 7 seven 5)
      ≡ ok fft_)
    × (fft_.s ≡ 1)
    × IsRootTable small_field fft_ w
make_fft_lem_example =
    make_fft_lem small_field (residue 7 seven) (λ b e q. if q == 0 then 0 else b ^ e % q) (λ a q. 4)
      7 2 1 3 1 3 (countdown 3) (λ j i. residue 7 seven 5) equal_residues
      (λ n lt. sym (times-residue 7 seven n)) seven_units (λ b e. refl) (omega arith) refl
      (omega arith) (omega arith) refl (omega arith) ones refl (omega arith) (omega arith)
      (countdown-IsRange 3)
  where
    ones : (l : ℕ) → l < 1 → (2 + l) ^ ((7 - 1) / 2) % 7 ≡ 1
    ones zero lt = refl
    ones (suc l) lt = absurd (omega (arith, lt))

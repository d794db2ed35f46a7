-- ===== src/Fft/Table.antt =====
-- FFT's constructor: the table of the roots, span by span, and the inverses of the powers of two.
-- GMP's mpz_powm and mpz_invert, and fromMpz of the field, are parameters.
-- Every span reads roots[1]; where a span starts at 1, its exp writes that cell with the value that
-- it has, so that whole spans in an order stand for every interleaving here too.
pub mod Spans
pub mod Cells
pub mod Both
use native.Mathlib.Nat.{
  div-add-mod, mod-lt, mul_comm, mul-le-mul_right, add-mul, mul_assoc, pow-suc, pow-zero,
}
use keyless_zk_proofs.Common.{
  ℕ, zero, suc, ◌+◌, ◌-◌, ◌*◌, ◌/◌, ◌%◌, ◌^◌, ◌≤◌, ◌<◌, ◌≡◌, refl, sym, ◌∙◌, ap, ap₂, subst, arith,
  List, [], ◌∷◌, Bool, true, false, if◌then◌else◌, ◌==◌, ==_iff, leb, ltb, ltb→lt, ◌&&◌, Bool-cases,
  ◌⊎◌, inl, inr, Option, none, some,
}
use keyless_zk_proofs.Multiexp.{pow2}
use keyless_zk_proofs.Field.{CommutativeRing, BaseField}
use keyless_zk_proofs.Field.Laws.{plus-mult, none-mult}
use keyless_zk_proofs.Group.Times.{times, plus-none, times-add}
use keyless_zk_proofs.Multiexp.Sums.{times-times, times-none}
use keyless_zk_proofs.Fft.{put_at, run_rounds, Fft, log2, finished}
use keyless_zk_proofs.Fft.Rounds.{IsRange, IsRange-outside, head_bound, runs}
use keyless_zk_proofs.Fft.Powers.{power, power-times, power-add, minus_square}
use keyless_zk_proofs.Fft.Exponent.{exp, exp_lem}
use keyless_zk_proofs.Outcome.{Outcome, ok, throws, aborts, range_error, assert, ◌>>=◌, ◌>>◌}
use keyless_zk_proofs.Multiexp.Powers.{pow2-pos, pow2_mono}
use keyless_zk_proofs.Fft.Length.{log2-pow2}
use keyless_zk_proofs.Fft.Roots.{IsRootTable}

-- The loop that looks for a number whose power is not 1, for `fuel` rounds.
unfoldable pub find_nqr : (ℕ → ℕ → ℕ → ℕ) → ℕ → ℕ → ℕ → ℕ → Option ℕ
find_nqr powm half q zero nqr = none
find_nqr powm half q (suc fuel) nqr =
    let rest = find_nqr powm half q fuel (suc nqr) in
    if powm nqr half q == 1 then rest else some nqr

-- The loop that halves `m_aux` and counts in `s`; each round counts towards `domain_pow`.
unfoldable pub halve_loop : ℕ → ℕ → ℕ → ℕ → ℕ × ℕ
halve_loop domain_pow zero s aux = (s, aux)
halve_loop domain_pow (suc fuel) s aux =
    if (aux % 2 == 0) && ltb s domain_pow
    then halve_loop domain_pow fuel (suc s) (aux / 2)
    else (s, aux)

-- `start` and `end` of a span.
unfoldable pub span_start : ℕ → ℕ → ℕ
span_start increment id = if id == 0 then 2 else id * increment

unfoldable pub span_end : ℕ → ℕ → ℕ → ℕ → ℕ
span_end n_roots n_span increment id = if id == n_span - 1 then n_roots else (id + 1) * increment

module _ {ℓ κ} {V : Type ℓ} {v : CommutativeRing V} {El : Type κ} (f : BaseField v El) where
  -- `count` rounds of the loop of a span, from index `i`; the loop over powTwoInv is the same.
  unfoldable pub fill_loop : ℕ → ℕ → (ℕ → El) → ℕ → El
  fill_loop zero i roots = roots
  fill_loop (suc count) i roots =
      fill_loop count (suc i) (put_at i (f.mul_el (roots (i - 1)) (roots 1)) roots)

  -- One span.
  unfoldable pub fill_span : ℕ → ℕ → ℕ → (ℕ → El) → ℕ → El
  fill_span n_roots n_span id roots =
      let increment = n_roots / n_span in
      let start = span_start increment id in
      let end = span_end n_roots n_span increment id in
      if ltb start end
      then fill_loop (end - (start + 1)) (start + 1)
          (put_at start (exp f (roots start) (roots 1) start) roots)
      else roots

  -- The tables, from roots[1] and powTwoInv[1]; `fresh` is what resize leaves in them.
  unfoldable pub make_tables : ℕ → ℕ → List ℕ → El → El → (ℕ → ℕ → El) → Outcome (Fft El)
  make_tables s n_span rounds root_one half_one fresh =
      let n_roots = pow2 s in
      let roots =
        run_rounds (fill_span n_roots n_span) rounds
          (put_at 1 root_one (put_at 0 f.one_el (fresh 0))) in
      let inverses = fill_loop (s - 1) 2 (put_at 1 half_one (put_at 0 f.one_el (fresh 1))) in
      assert (f.eq_el (f.mul_el (roots (n_roots - 1)) (roots 1)) f.one_el)
      >> ok (record { s = s; roots = roots; pow_two_inv = inverses })

  -- FFT(maxDomainSize), over the field of order `q`.
  unfoldable pub make_fft :
      (ℕ → El)
      → (ℕ → ℕ → ℕ → ℕ)
      → (ℕ → ℕ → ℕ)
      → ℕ
      → ℕ
      → ℕ
      → ℕ
      → List ℕ
      → (ℕ → ℕ → El)
      → Outcome (Fft El)
  make_fft from_mpz powm invert q fuel max_domain_size n_span rounds fresh = do
    domain_pow ← log2 max_domain_size
    let half = (q - 1) / 2 in
        finished (find_nqr powm half q fuel 2) >>= λ nqr.
        let (s, aux) = halve_loop domain_pow domain_pow 1 half in
        if ltb s domain_pow
        then throws range_error
        else make_tables s n_span rounds (from_mpz (powm nqr aux q)) (from_mpz (invert 2 q)) fresh

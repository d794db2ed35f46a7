-- ===== src/Prover/Service.antt =====
-- What a service answers, by what its constructor met.
use keyless_zk_proofs.Common.{
  ℕ, ◌+◌, ◌^◌, ◌≤◌, ◌<◌, ◌≡◌, refl, sym, ap, List, [], Bool, true, false, none, some, ◌==◌, arith,
  length, if◌then◌else◌, ◌⊎◌, inl, inr,
}
use keyless_zk_proofs.Outcome.{
  Outcome, ok, throws, aborts, reads_outside, invalid_argument, range_error, system_error, ◌>>=◌,
}
use keyless_zk_proofs.BinFile.{
  BinFile, Section, word64, find, section_at, start_read_section, get_section_data,
}
use keyless_zk_proofs.BinFile.Reads.{file}
use keyless_zk_proofs.BinFile.Format.{encode, layout, HaveTypes, open_file-encode}
use keyless_zk_proofs.Headers.{check_protocol, make_zkey_header}
use keyless_zk_proofs.Headers.Offsets.{u32_at, slice}
use keyless_zk_proofs.Headers.Witness.{make_wtns_header-offsets}
use keyless_zk_proofs.Prover.{
  System, load, make_from_file, zkey, wtns, alt_bbn128r, ProverInput, Impl, FullProver,
  error_response, success_response, prover_not_ready, witness_generation_invalid_curve, make_impl,
  answer, catch, make_full_prover, impl_prove, prove, is_ok, zkey_file_load_error,
  unsupported_zkey_curve,
}

module _ (os : System) (mpz_import : List ℕ → ℕ) {Prover : Type 0}
    (make_prover : BinFile → ProverInput → Outcome Prover)
    (groth16_prove : Prover → BinFile → ℕ → Outcome (List ℕ)) where
  -- The service of an implementation that was made, or one that was not.
  abbrev pub Answers : Outcome (Impl Prover) → FullProver Prover → Type 0
  Answers made p =
      (i : Impl Prover) × ((made ≡ ok i)
        × ((w : List ℕ)
            → prove os mpz_import make_prover groth16_prove p w
              ≡ impl_prove os mpz_import make_prover groth16_prove i w))

  abbrev pub Refuses : Outcome (Impl Prover) → FullProver Prover → Type 0
  Refuses made p =
      ((made ≡ throws invalid_argument) ⊎ (made ≡ throws system_error))
      × ((w : List ℕ)
          → prove os mpz_import make_prover groth16_prove p w
            ≡ ok (error_response prover_not_ready))

  catch-cases :
      (made : Outcome (Impl Prover)) (p : FullProver Prover)
      → catch os mpz_import make_prover groth16_prove made ≡ ok p
      → Answers made p ⊎ Refuses made p
  unfolding catch prove
  catch-cases (ok i) p e =
      let q : FullProver Prover = record { impl = some i; state = is_ok } in
      let same : q ≡ p = cc in
      inl (i, (refl, λ w. ap (λ r. prove os mpz_import make_prover groth16_prove r w) (sym same)))
  catch-cases (throws invalid_argument) p e =
      let q : FullProver Prover = record { impl = none; state = unsupported_zkey_curve } in
      let same : q ≡ p = cc in
      inr (inl refl, λ w. ap (λ r. prove os mpz_import make_prover groth16_prove r w) (sym same))
  catch-cases (throws system_error) p e =
      let q : FullProver Prover = record { impl = none; state = zkey_file_load_error } in
      let same : q ≡ p = cc in
      inr (inr refl, λ w. ap (λ r. prove os mpz_import make_prover groth16_prove r w) (sym same))
  catch-cases (throws range_error) p e = cc
  catch-cases aborts p e = cc
  catch-cases reads_outside p e = cc

  -- If the constructor of FullProver returns a service, then either the implementation was made
  -- and each call of prove answers what the implementation's prove answers, or the construction of
  -- the implementation threw invalid_argument or system_error and each call of prove answers
  -- PROVER_NOT_READY; in neither case is a null pointer followed.
  pub make_full_prover-cases :
      (name : List ℕ) (p : FullProver Prover)
      → make_full_prover os mpz_import make_prover groth16_prove name ≡ ok p
      → Answers (make_impl os mpz_import make_prover groth16_prove name) p
        ⊎ Refuses (make_impl os mpz_import make_prover groth16_prove name) p
  unfolding make_full_prover
  make_full_prover-cases name p e =
      catch-cases (make_impl os mpz_import make_prover groth16_prove name) p e

  -- For a loaded key file that is written with the type zkey, a version of at most 1, fewer than 2
  -- ^ 32 sections whose types fit 32 bits, fewer than 2 ^ 64 bytes and no section of type 1, the
  -- constructor of FullProver ends in range_error.
  pub make_full_prover-missing_section :
      (name : List ℕ) (version : ℕ) (sections : List (ℕ × List ℕ))
      → version ≤ 1
      → length sections < 2 ^ 32
      → HaveTypes sections
      → length (encode zkey version sections) < word64
      → load os name ≡ ok (encode zkey version sections)
      → find 1 (layout 12 sections []) ≡ none
      → make_full_prover os mpz_import make_prover groth16_prove name ≡ throws range_error
  unfolding make_full_prover catch make_impl make_from_file make_zkey_header check_protocol
      start_read_section section_at
  make_full_prover-missing_section name version sections old few h small loaded missing =
      rw
        (
          make_full_prover,
          make_impl,
          make_from_file,
          loaded,
          open_file-encode 122 107 101 121 version 1 sections old (omega arith) few h small,
          make_zkey_header,
          check_protocol,
          start_read_section,
          section_at,
          missing,
        )
        refl

  answer-cases :
      (right : Bool) (i : Impl Prover) (b : BinFile) (t : Section)
      → section_at b.sections 2 0 ≡ ok t
      → answer os mpz_import make_prover groth16_prove right i b ≡ (
          if right
          then groth16_prove i.prover b t.start >>= (λ proof. ok (success_response proof))
          else ok (error_response witness_generation_invalid_curve))
  unfolding answer get_section_data
  answer-cases true i b t et = rw (answer, get_section_data, et) refl
  answer-cases false i b t et = refl

  -- For a witness file that is opened with no section being read, of fewer than 2 ^ 64 bytes,
  -- whose header fills its first section and stands in the file, and which has a section of type
  -- 2: FullProverImpl::prove answers the proof of the Groth16 prover, from the start of that
  -- section, when the imported prime is that of BN254's scalars, and
  -- WITNESS_GENERATION_INVALID_CURVE otherwise.
  pub impl_prove_lem :
      (i : Impl Prover) (name : List ℕ) (type : List ℕ) (version : ℕ) (addr : List ℕ) (pos : ℕ)
      (sections : List (ℕ × List Section)) (s t : Section)
      → make_from_file os name wtns 2 ≡ ok (file type version none addr pos sections)
      → length addr < word64
      → section_at sections 1 0 ≡ ok s
      → s.start + 8 + u32_at addr s.start ≤ length addr
      → s.size ≡ 8 + u32_at addr s.start
      → section_at sections 2 0 ≡ ok t
      → impl_prove os mpz_import make_prover groth16_prove i name ≡ (
          if mpz_import (slice addr (s.start + 4) (u32_at addr s.start)) == alt_bbn128r
          then groth16_prove i.prover
              (file type version none addr (s.start + (8 + u32_at addr s.start)) sections)
              t.start
            >>= (λ proof. ok (success_response proof))
          else ok (error_response witness_generation_invalid_curve))
  unfolding impl_prove
  impl_prove_lem i name type version addr pos sections s t opened small es room whole et =
      let after = file type version none addr (s.start + (8 + u32_at addr s.start)) sections in
      let prime = mpz_import (slice addr (s.start + 4) (u32_at addr s.start)) in
      let filled : (8 + u32_at addr s.start == s.size) ≡ true = ground arith in
      rw
        (
          impl_prove,
          opened,
          make_wtns_header-offsets type version sections addr small mpz_import pos s es room,
          filled,
        )
        (answer-cases (prime == alt_bbn128r) i after t et)

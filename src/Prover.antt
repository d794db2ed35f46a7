-- ===== src/Prover.antt =====
-- fullprover.cpp, fullprover.hpp, fileloader.hpp and the file constructors of binfile_utils.cpp:
-- the service that loads a key once and answers with proofs. The operating system's calls, what
-- mpz_import makes of bytes, and the Groth16 prover are parameters.
pub mod Service
use keyless_zk_proofs.Common.{
  ℕ, ◌+◌, ◌≡◌, List, [], ◌∷◌, Bool, true, false, Option, none, some, ◌==◌, if◌then◌else◌,
}
use keyless_zk_proofs.Outcome.{
  Outcome, ok, throws, aborts, reads_outside, Exception, invalid_argument, range_error,
  system_error, ◌>>=◌, ◌>>◌,
}
use keyless_zk_proofs.BinFile.{BinFile, open_file, get_section_data}
use keyless_zk_proofs.Headers.{ZKeyHeader, make_zkey_header, make_wtns_header}

pub data FullProverState : Type 0 where
  is_ok zkey_file_load_error unsupported_zkey_curve : FullProverState

pub data ProverError : Type 0 where
  no_error prover_not_ready invalid_input witness_generation_invalid_curve : ProverError

pub data ProverResponseType : Type 0 where
  is_success is_error : ProverResponseType

-- open, fstat and mmap: a descriptor, a size and the bytes that are mapped, where they succeed.
pub record System : Type 0 where
  pub open_fd : List ℕ → Option ℕ
  pub fstat : ℕ → Option ℕ
  pub mmap : ℕ → ℕ → Option (List ℕ)

-- The constructor of FileLoader.
unfoldable pub load : System → List ℕ → Outcome (List ℕ)
load os name = elim (os.open_fd name) [
  | none ↦ throws system_error
  | some fd ↦ elim (os.fstat fd) [
    | none ↦ throws system_error
    | some size ↦ elim (os.mmap fd size) [ none ↦ throws system_error | some bytes ↦ ok bytes ]
  ]
]

-- BinFile::make_from_file.
unfoldable pub make_from_file : System → List ℕ → List ℕ → ℕ → Outcome BinFile
make_from_file os name type version = load os name >>= λ bytes. open_file bytes type version

-- The characters of "zkey" and of "wtns".
abbrev pub zkey : List ℕ
zkey = 122 ∷ 107 ∷ 101 ∷ 121 ∷ []

abbrev pub wtns : List ℕ
wtns = 119 ∷ 116 ∷ 110 ∷ 115 ∷ []

-- The order of the scalar field of BN254.
abbrev pub alt_bbn128r : ℕ
alt_bbn128r = 21888242871839275222246405745257275088548364400416034343698204186575808495617

-- What makeProver is given: the sizes, the key's points and the sections 4 to 9.
pub record ProverInput : Type 0 where
  pub header : ZKeyHeader
  pub coefs_data : ℕ
  pub points_a : ℕ
  pub points_b1 : ℕ
  pub points_b2 : ℕ
  pub points_c : ℕ
  pub points_h1 : ℕ

-- FullProverImpl.
pub record Impl (Prover : Type 0) : Type 0 where
  pub prover : Prover
  pub zk_header : ZKeyHeader
  pub z_key : BinFile

-- FullProver: `impl` may be null.
pub record FullProver (Prover : Type 0) : Type 0 where
  pub impl : Option (Impl Prover)
  pub state : FullProverState

pub record ProverResponse : Type 0 where
  pub type : ProverResponseType
  pub raw_json : List ℕ
  pub error : ProverError

-- ProverResponse(ProverError) and ProverResponse(const char*, ProverResponseMetrics), the time
-- that the metrics hold left out.
abbrev pub error_response : ProverError → ProverResponse
error_response e = record { type = is_error; raw_json = []; error = e }

abbrev pub success_response : List ℕ → ProverResponse
success_response json = record { type = is_success; raw_json = json; error = no_error }

module _ (os : System) (mpz_import : List ℕ → ℕ) {Prover : Type 0}
    (make_prover : BinFile → ProverInput → Outcome Prover)
    (groth16_prove : Prover → BinFile → ℕ → Outcome (List ℕ)) where
  -- The arguments of makeProver.
  unfoldable pub prover_input : ZKeyHeader → BinFile → Outcome ProverInput
  prover_input header file = do
    coefs_data ← get_section_data 4 0 file
    points_a ← get_section_data 5 0 file
    points_b1 ← get_section_data 6 0 file
    points_b2 ← get_section_data 7 0 file
    points_c ← get_section_data 8 0 file
    points_h1 ← get_section_data 9 0 file
    ok (record {
      header = header;
      coefs_data = coefs_data;
      points_a = points_a;
      points_b1 = points_b1;
      points_b2 = points_b2;
      points_c = points_c;
      points_h1 = points_h1;
    })

  -- FullProverImpl::FullProverImpl.
  unfoldable pub make_impl : List ℕ → Outcome (Impl Prover)
  unfolding prover_input
  make_impl name = do
    file ← make_from_file os name zkey 1
    (header, b) ← make_zkey_header mpz_import file
    if header.r_prime == alt_bbn128r then ok b else throws invalid_argument
    input ← prover_input header b
    prover ← make_prover b input
    ok (record { prover = prover; zk_header = header; z_key = b })

  -- FullProver::FullProver: two kinds of exceptions are caught.
  unfoldable pub catch : Outcome (Impl Prover) → Outcome (FullProver Prover)
  catch (ok i) = ok (record { impl = some i; state = is_ok })
  catch (throws invalid_argument) = ok (record { impl = none; state = unsupported_zkey_curve })
  catch (throws system_error) = ok (record { impl = none; state = zkey_file_load_error })
  catch (throws range_error) = throws range_error
  catch aborts = aborts
  catch reads_outside = reads_outside

  unfoldable pub make_full_prover : List ℕ → Outcome (FullProver Prover)
  make_full_prover name = catch (make_impl name)

  -- The rest of FullProverImpl::prove, by whether the witness is over the supported prime.
  unfoldable pub answer : Bool → Impl Prover → BinFile → Outcome ProverResponse
  answer false i b = ok (error_response witness_generation_invalid_curve)
  answer true i b = do
    wtns_data ← get_section_data 2 0 b
    proof ← groth16_prove i.prover b wtns_data
    ok (success_response proof)

  -- FullProverImpl::prove.
  unfoldable pub impl_prove : Impl Prover → List ℕ → Outcome ProverResponse
  impl_prove i name = do
    file ← make_from_file os name wtns 2
    (header, b) ← make_wtns_header mpz_import file
    answer (header.prime == alt_bbn128r) i b

  -- FullProver::prove; a null `impl` would be followed.
  unfoldable pub prove : FullProver Prover → List ℕ → Outcome ProverResponse
  prove p name = elim p.state [
    | is_ok ↦ elim p.impl [ none ↦ reads_outside | some i ↦ impl_prove i name ]
    | _ ↦ ok (error_response prover_not_ready)
  ]

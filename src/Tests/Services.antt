-- ===== src/Tests/Services.antt =====
-- The theorems about the service, with an operating system that holds one file.
use keyless_zk_proofs.Common.{
  ℕ, ◌≡◌, ◌⊎◌, refl, List, [], ◌∷◌, none, some, arith, length, if◌then◌else◌, ◌==◌, replicate,
}
use keyless_zk_proofs.Outcome.{Outcome, ok, throws, range_error, ◌>>=◌}
use keyless_zk_proofs.BinFile.{
  BinFile, Section, open_file, find, push_section, section_at, start_read_section, end_read_section,
  from_le, bytes_at, read_le, read_u32le, read_u64le, read, in_file, advance, read_sections,
  get_section_size, get_section_data, same_type,
}
use keyless_zk_proofs.BinFile.Reads.{to_le, file}
use keyless_zk_proofs.BinFile.Format.{encode, encode_sections, layout}
use keyless_zk_proofs.Headers.{coefs, read_prime, check_protocol, make_zkey_header}
use keyless_zk_proofs.Prover.{
  System, load, make_from_file, zkey, wtns, alt_bbn128r, ProverInput, Impl, FullProver, is_ok,
  error_response, success_response, witness_generation_invalid_curve, prover_input, make_impl,
  catch, make_full_prover, impl_prove,
}
use keyless_zk_proofs.Prover.Service.{
  Answers, Refuses, make_full_prover-cases, make_full_prover-missing_section, impl_prove_lem,
}

-- Every name is that of the file that holds `bytes`.
abbrev one_file : List ℕ → System
one_file bytes = record {
  open_fd = λ name. some 3;
  fstat = λ fd. some (length bytes);
  mmap = λ fd size. some bytes;
}

-- A prover is the number of its coefficients, and a proof is that number and where the witness is.
abbrev prover_of : BinFile → ProverInput → Outcome ℕ
prover_of b input = ok input.header.n_coefs

abbrev proof_of : ℕ → BinFile → ℕ → Outcome (List ℕ)
proof_of prover b start = ok (prover ∷ start ∷ [])

abbrev any_prime : List ℕ → ℕ
any_prime bytes = alt_bbn128r

abbrev key_sections : List (ℕ × List ℕ)
key_sections =
    (1, 1 ∷ 0 ∷ 0 ∷ 0 ∷ [])
    ∷ (2, 1 ∷ 0 ∷ 0 ∷ 0 ∷ 7 ∷ 1 ∷ 0 ∷ 0 ∷ 0 ∷ 5 ∷ replicate 30 0)
    ∷ (4, replicate 26 0)
    ∷ (5, [])
    ∷ (6, [])
    ∷ (7, [])
    ∷ (8, [])
    ∷ (9, [])
    ∷ []

abbrev key_system : System
unfolding encode encode_sections to_le
key_system = one_file (encode zkey 1 key_sections)

abbrev key_file : BinFile
key_file = file zkey 1 none (encode zkey 1 key_sections) 80 (
    (1, record { start = 24; size = 4 } ∷ [])
    ∷ (2, record { start = 40; size = 40 } ∷ [])
    ∷ (4, record { start = 92; size = 26 } ∷ [])
    ∷ (5, record { start = 130; size = 0 } ∷ [])
    ∷ (6, record { start = 142; size = 0 } ∷ [])
    ∷ (7, record { start = 154; size = 0 } ∷ [])
    ∷ (8, record { start = 166; size = 0 } ∷ [])
    ∷ (9, record { start = 178; size = 0 } ∷ [])
    ∷ [])

abbrev service : FullProver ℕ
service = record {
  impl = some (record {
    prover = 2;
    zk_header = record {
      n8q = 1;
      q_prime = alt_bbn128r;
      n8r = 1;
      r_prime = alt_bbn128r;
      n_vars = 0;
      n_public = 0;
      domain_size = 0;
      n_coefs = 2;
      vk_alpha1 = 62;
      vk_beta1 = 64;
      vk_beta2 = 66;
      vk_gamma2 = 70;
      vk_delta1 = 74;
      vk_delta2 = 76;
    };
    z_key = key_file;
  });
  state = is_ok;
}

make_full_prover-cases_example :
    Answers key_system any_prime prover_of proof_of
      (make_impl key_system any_prime prover_of proof_of [])
      service
    ⊎ Refuses key_system any_prime prover_of proof_of
        (make_impl key_system any_prime prover_of proof_of [])
        service
unfolding key_system encode encode_sections to_le from_le load make_from_file open_file same_type
    read_u32le read_u64le read_le in_file bytes_at advance read_sections push_section section_at
    find make_full_prover catch make_impl prover_input make_zkey_header check_protocol
    start_read_section end_read_section read_prime read coefs get_section_size get_section_data
make_full_prover-cases_example =
    make_full_prover-cases key_system any_prime prover_of proof_of [] service refl

make_full_prover-missing_section_example :
    make_full_prover (one_file (encode zkey 1 [])) from_le prover_of proof_of []
    ≡ throws range_error
unfolding encode encode_sections to_le load layout find
make_full_prover-missing_section_example =
    make_full_prover-missing_section (one_file (encode zkey 1 [])) from_le prover_of proof_of [] 1
      [] (omega arith) (omega arith) tt (omega arith) refl refl

-- The first section holds the header of a witness; the second is empty.
abbrev wtns_bytes : List ℕ
wtns_bytes = encode wtns 2 ((1, 2 ∷ 0 ∷ 0 ∷ 0 ∷ 1 ∷ 1 ∷ 3 ∷ 0 ∷ 0 ∷ 0 ∷ []) ∷ (2, []) ∷ [])

abbrev first_section : Section
first_section = record { start = 24; size = 10 }

abbrev second_section : Section
second_section = record { start = 46; size = 0 }

abbrev wtns_table : List (ℕ × List Section)
wtns_table = (1, first_section ∷ []) ∷ (2, second_section ∷ []) ∷ []

abbrev made : Impl ℕ
made = record {
  prover = 2;
  zk_header = record {
    n8q = 1;
    q_prime = 7;
    n8r = 1;
    r_prime = 5;
    n_vars = 0;
    n_public = 0;
    domain_size = 0;
    n_coefs = 2;
    vk_alpha1 = 0;
    vk_beta1 = 0;
    vk_beta2 = 0;
    vk_gamma2 = 0;
    vk_delta1 = 0;
    vk_delta2 = 0;
  };
  z_key = file zkey 1 none [] 0 [];
}

impl_prove_lem_example : impl_prove (one_file wtns_bytes) from_le prover_of proof_of made [] ≡ (
    if 257 == alt_bbn128r
    then proof_of 2 (file wtns 2 none wtns_bytes 34 wtns_table) 46
      >>= (λ proof. ok (success_response proof))
    else ok (error_response witness_generation_invalid_curve))
unfolding encode encode_sections to_le from_le load make_from_file open_file same_type read_u32le
    read_u64le read_le in_file bytes_at advance read_sections push_section section_at find
impl_prove_lem_example =
    impl_prove_lem (one_file wtns_bytes) from_le prover_of proof_of made [] wtns 2 wtns_bytes 0
      wtns_table first_section second_section refl (omega arith) refl (omega arith) refl refl

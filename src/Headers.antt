-- ===== src/Headers.antt =====
-- zkey_utils.hpp and wtns_utils.hpp: the headers of a key file and of a witness file. What
-- mpz_import (GMP) makes of the bytes of a prime is a parameter.
pub mod Offsets
pub mod Witness
pub mod Key
use keyless_zk_proofs.Common.{
  ℕ, ◌+◌, ◌*◌, ◌/◌, ◌%◌, ◌^◌, ◌≡◌, List, Bool, true, false, Option, none, some, ◌==◌, if◌then◌else◌,
}
use keyless_zk_proofs.Outcome.{Outcome, ok, throws, aborts, invalid_argument, ◌>>=◌, ◌>>◌}
use keyless_zk_proofs.BinFile.{
  BinFile, Step, bytes_at, read, read_u32le, start_read_section, end_read_section, get_section_size,
}

-- WtnsUtils::Header.
pub record WtnsHeader : Type 0 where
  pub n8 : ℕ
  pub prime : ℕ
  pub n_vars : ℕ

-- ZKeyUtils::Header; a pointer into the file is a distance from its start.
pub record ZKeyHeader : Type 0 where
  pub n8q : ℕ
  pub q_prime : ℕ
  pub n8r : ℕ
  pub r_prime : ℕ
  pub n_vars : ℕ
  pub n_public : ℕ
  pub domain_size : ℕ
  pub n_coefs : ℕ
  pub vk_alpha1 : ℕ
  pub vk_beta1 : ℕ
  pub vk_beta2 : ℕ
  pub vk_gamma2 : ℕ
  pub vk_delta1 : ℕ
  pub vk_delta2 : ℕ

-- A uint32_t product.
abbrev pub mul32 : ℕ → ℕ → ℕ
mul32 a b = a * b % 2 ^ 32

-- getSectionSize(4) / (12 + n8r): the divisor is a uint32_t, and a zero divisor traps.
unfoldable pub coefs : ℕ → ℕ → Outcome ℕ
coefs size n8r = if (12 + n8r) % 2 ^ 32 == 0 then aborts else ok (size / ((12 + n8r) % 2 ^ 32))

-- The first section: the protocol must be 1, Groth16.
unfoldable pub check_protocol : Step (Unit {0})
check_protocol b = do
  (u, b0) ← start_read_section 1 0 b
  (protocol, b1) ← read_u32le b0
  if protocol == 1 then ok b1 else throws invalid_argument
  end_read_section true b1

module _ (mpz_import : List ℕ → ℕ) where
  -- `mpz_import(prime, n, -1, 1, -1, 0, bin_file.read(n))`.
  unfoldable pub read_prime : ℕ → Step ℕ
  read_prime n b = do
    (address, b1) ← read n b
    bytes ← bytes_at b1.addr address n
    ok (mpz_import bytes, b1)

  -- WtnsUtils::Header::make_from_bin_file.
  unfoldable pub make_wtns_header : Step WtnsHeader
  make_wtns_header b = do
    (u, b0) ← start_read_section 1 0 b
    (n8, b1) ← read_u32le b0
    (prime, b2) ← read_prime n8 b1
    (n_vars, b3) ← read_u32le b2
    (v, b4) ← end_read_section true b3
    ok (record { n8 = n8; prime = prime; n_vars = n_vars }, b4)

  -- ZKeyUtils::Header::make_from_bin_file.
  unfoldable pub make_zkey_header : Step ZKeyHeader
  make_zkey_header b = do
    (u, c) ← check_protocol b
    (v, b0) ← start_read_section 2 0 c
    (n8q, b1) ← read_u32le b0
    (q_prime, b2) ← read_prime n8q b1
    (n8r, b3) ← read_u32le b2
    (r_prime, b4) ← read_prime n8r b3
    (n_vars, b5) ← read_u32le b4
    (n_public, b6) ← read_u32le b5
    (domain_size, b7) ← read_u32le b6
    (vk_alpha1, b8) ← read (mul32 n8q 2) b7
    (vk_beta1, b9) ← read (mul32 n8q 2) b8
    (vk_beta2, b10) ← read (mul32 n8q 4) b9
    (vk_gamma2, b11) ← read (mul32 n8q 4) b10
    (vk_delta1, b12) ← read (mul32 n8q 2) b11
    (vk_delta2, b13) ← read (mul32 n8q 4) b12
    (w, b14) ← end_read_section true b13
    size ← get_section_size 4 0 b14
    n_coefs ← coefs size n8r
    ok (
      record {
        n8q = n8q;
        q_prime = q_prime;
        n8r = n8r;
        r_prime = r_prime;
        n_vars = n_vars;
        n_public = n_public;
        domain_size = domain_size;
        n_coefs = n_coefs;
        vk_alpha1 = vk_alpha1;
        vk_beta1 = vk_beta1;
        vk_beta2 = vk_beta2;
        vk_gamma2 = vk_gamma2;
        vk_delta1 = vk_delta1;
        vk_delta2 = vk_delta2;
      },
      b14,
    )

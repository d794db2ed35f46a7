-- ===== src/Headers/Witness.antt =====
-- The header of a witness file, by its offsets.
use keyless_zk_proofs.Common.{
  ℕ, ◌+◌, ◌≤◌, ◌<◌, ◌≡◌, List, none, some, arith, length, if◌then◌else◌, ◌==◌,
}
use keyless_zk_proofs.Outcome.{ok, throws, range_error}
use keyless_zk_proofs.BinFile.{Section, word64, section_at}
use keyless_zk_proofs.BinFile.Reads.{file}
use keyless_zk_proofs.Headers.{make_wtns_header}
use keyless_zk_proofs.Headers.Offsets.{
  u32_at, slice, read_u32le-u32_at, read_prime_at, start_at, end_at,
}

module _ (type : List ℕ) (version : ℕ) (sections : List (ℕ × List Section)) (addr : List ℕ)
    (small : length addr < word64) where
  -- For a file of fewer than 2 ^ 64 bytes, no section being read, with a first section from whose
  -- start the file has room for the header: WtnsUtils::Header::make_from_bin_file yields the
  -- fields at their offsets and the position after them when the section's size is the header's,
  -- and throws range_error otherwise.
  pub make_wtns_header-offsets :
      (mpz_import : List ℕ → ℕ) (pos : ℕ) (s : Section)
      → section_at sections 1 0 ≡ ok s
      → s.start + 8 + u32_at addr s.start ≤ length addr
      → make_wtns_header mpz_import (file type version none addr pos sections) ≡ (
          if 8 + u32_at addr s.start == s.size
          then ok (
            record {
              n8 = u32_at addr s.start;
              prime = mpz_import (slice addr (s.start + 4) (u32_at addr s.start));
              n_vars = u32_at addr (s.start + 4 + u32_at addr s.start);
            },
            file type version none addr (s.start + (8 + u32_at addr s.start)) sections,
          )
          else throws range_error)
  unfolding make_wtns_header
  make_wtns_header-offsets mpz_import pos s e room =
      let n8 = u32_at addr s.start in
      let at_end : s.start + 4 + n8 + 4 ≡ s.start + (8 + n8) = omega arith in
      rw
        (
          make_wtns_header,
          start_at type version sections addr small 1 pos s e,
          read_u32le-u32_at type version (some s) sections addr small s.start (omega arith),
          read_prime_at type version (some s) sections addr small mpz_import n8 (s.start + 4)
              (omega arith),
          read_u32le-u32_at type version (some s) sections addr small (s.start + 4 + n8)
              (omega arith),
          at_end,
          end_at type version sections addr small s (8 + n8) (omega arith),
        )
        (ground arith)

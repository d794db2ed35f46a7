-- ===== src/Headers/Key.antt =====
-- The header of a key file, by its offsets.
use native.Mathlib.Nat.{mod-eq_of_lt}
use keyless_zk_proofs.Common.{
  ℕ, ◌+◌, ◌*◌, ◌/◌, ◌%◌, ◌^◌, ◌≤◌, ◌<◌, ◌≡◌, refl, List, false, none, some, arith, length,
  if◌then◌else◌, ◌==◌, Bool-cases, inl, inr,
}
use keyless_zk_proofs.Outcome.{ok, throws, range_error}
use keyless_zk_proofs.BinFile.{Section, word64, section_at, get_section_size}
use keyless_zk_proofs.BinFile.Reads.{file}
use keyless_zk_proofs.Headers.{ZKeyHeader, check_protocol, coefs, mul32, make_zkey_header}
use keyless_zk_proofs.Headers.Offsets.{
  u32_at, slice, read_at, read_u32le-u32_at, read_prime_at, start_at, end_at,
}

-- Where the header of the second section puts its fields.
abbrev pub zkey_offsets : (addr : List ℕ) (mpz_import : List ℕ → ℕ) → ℕ → ℕ → ℕ → ZKeyHeader
zkey_offsets addr mpz_import start n8q size4 =
    let at_r = start + 4 + n8q in
    let n8r = u32_at addr at_r in
    let counts = at_r + 4 + n8r in
    let points = counts + 12 in
    record {
      n8q = n8q;
      q_prime = mpz_import (slice addr (start + 4) n8q);
      n8r = n8r;
      r_prime = mpz_import (slice addr (at_r + 4) n8r);
      n_vars = u32_at addr counts;
      n_public = u32_at addr (counts + 4);
      domain_size = u32_at addr (counts + 8);
      n_coefs = size4 / (12 + n8r);
      vk_alpha1 = points;
      vk_beta1 = points + n8q * 2;
      vk_beta2 = points + n8q * 4;
      vk_gamma2 = points + n8q * 8;
      vk_delta1 = points + n8q * 12;
      vk_delta2 = points + n8q * 14;
    }

-- How many bytes the header has, by the widths of its two primes.
abbrev pub zkey_size : ℕ → ℕ → ℕ
zkey_size n8q n8r = 20 + n8q * 19 + n8r

module _ (type : List ℕ) (version : ℕ) (sections : List (ℕ × List Section)) (addr : List ℕ)
    (small : length addr < word64) where
  -- The first section must be Groth16's and hold its four bytes only.
  check_protocol_at :
      (pos : ℕ) (s : Section)
      → section_at sections 1 0 ≡ ok s
      → s.start + 4 ≤ length addr
      → s.size ≡ 4
      → u32_at addr s.start ≡ 1
      → check_protocol (file type version none addr pos sections)
        ≡ ok (tt, file type version none addr (s.start + 4) sections)
  unfolding check_protocol
  check_protocol_at pos s e room four one =
      rw
        (
          check_protocol,
          start_at type version sections addr small 1 pos s e,
          read_u32le-u32_at type version (some s) sections addr small s.start room,
          one,
          end_at type version sections addr small s 4 room,
          four,
        )
        refl

  -- For a file of fewer than 2 ^ 64 bytes, no section being read, with a first section of four
  -- bytes that says Groth16, a section of type 4, and a section of type 2 from whose start the
  -- file has room for the header, and widths of primes whose uint32_t products and sums do not
  -- wrap: ZKeyUtils::Header::make_from_bin_file yields the fields and points at their offsets, and
  -- the position after them, when the second section's size is the header's, and throws
  -- range_error otherwise.
  pub make_zkey_header-offsets :
      (mpz_import : List ℕ → ℕ) (pos : ℕ) (s t u : Section) (n8q n8r : ℕ)
      → section_at sections 1 0 ≡ ok s
      → s.start + 4 ≤ length addr
      → s.size ≡ 4
      → u32_at addr s.start ≡ 1
      → section_at sections 2 0 ≡ ok t
      → section_at sections 4 0 ≡ ok u
      → u32_at addr t.start ≡ n8q
      → u32_at addr (t.start + 4 + n8q) ≡ n8r
      → n8q * 4 < 2 ^ 32
      → 12 + n8r < 2 ^ 32
      → t.start + zkey_size n8q n8r ≤ length addr
      → make_zkey_header mpz_import (file type version none addr pos sections) ≡ (
          if zkey_size n8q n8r == t.size
          then ok (
            zkey_offsets addr mpz_import t.start n8q u.size,
            file type version none addr (t.start + zkey_size n8q n8r) sections,
          )
          else throws range_error)
  unfolding make_zkey_header coefs get_section_size
  make_zkey_header-offsets mpz_import pos s t u n8q n8r es room four one et eu eq er small_q small_r
        fits =
      let start = t.start in
      let at_r = start + 4 + n8q in
      let counts = at_r + 4 + n8r in
      let points = counts + 12 in
      let u32 = read_u32le-u32_at type version (some t) sections addr small in
      let prime = read_prime_at type version (some t) sections addr small mpz_import in
      let skip = read_at type version (some t) sections addr small in
      let twice : mul32 n8q 2 ≡ n8q * 2 = mod-eq_of_lt (omega arith) in
      let four_times : mul32 n8q 4 ≡ n8q * 4 = mod-eq_of_lt (omega arith) in
      let divisor : (12 + n8r) % 2 ^ 32 ≡ 12 + n8r = mod-eq_of_lt small_r in
      let not_zero : (12 + n8r == 0) ≡ false = ground arith in
      let at_8 : counts + 4 + 4 ≡ counts + 8 = omega arith in
      let at_points : counts + 8 + 4 ≡ points = omega arith in
      let at_4q : points + n8q * 2 + n8q * 2 ≡ points + n8q * 4 = omega arith in
      let at_8q : points + n8q * 4 + n8q * 4 ≡ points + n8q * 8 = omega arith in
      let at_12q : points + n8q * 8 + n8q * 4 ≡ points + n8q * 12 = omega arith in
      let at_14q : points + n8q * 12 + n8q * 2 ≡ points + n8q * 14 = omega arith in
      let at_end : points + n8q * 14 + n8q * 4 ≡ start + zkey_size n8q n8r = omega arith in
      rw
        (
          make_zkey_header,
          check_protocol_at pos s es room four one,
          start_at type version sections addr small 2 (s.start + 4) t et,
          u32 start (omega arith),
          eq,
          prime n8q (start + 4) (omega arith),
          u32 at_r (omega arith),
          er,
          prime n8r (at_r + 4) (omega arith),
          u32 counts (omega arith),
          u32 (counts + 4) (omega arith),
          at_8,
          u32 (counts + 8) (omega arith),
          at_points,
          twice,
          four_times,
          skip (n8q * 2) points (omega arith),
          skip (n8q * 2) (points + n8q * 2) (omega arith),
          at_4q,
          skip (n8q * 4) (points + n8q * 4) (omega arith),
          at_8q,
          skip (n8q * 4) (points + n8q * 8) (omega arith),
          at_12q,
          skip (n8q * 2) (points + n8q * 12) (omega arith),
          at_14q,
          skip (n8q * 4) (points + n8q * 14) (omega arith),
          at_end,
          end_at type version sections addr small t (zkey_size n8q n8r) fits,
        )
        (elim (Bool-cases (zkey_size n8q n8r == t.size)) [
          | inl whole ↦ rw (whole, get_section_size, eu, divisor, not_zero) refl
          | inr part ↦ rw (part) refl
        ])

-- ===== src/Headers/Offsets.antt =====
-- Reads of a file by offsets: what stands at a position, and the position after it.
use native.Mathlib.Nat.{mod-eq_of_lt}
use keyless_zk_proofs.Common.{
  ℕ, ◌+◌, ◌-◌, ◌%◌, ◌≤◌, ◌<◌, ◌≡◌, refl, List, true, Option, none, some, arith, leb, length, take,
  drop, if◌then◌else◌, ◌==◌,
}
use keyless_zk_proofs.Outcome.{ok, throws, range_error}
use keyless_zk_proofs.BinFile.{
  Section, word64, from_le, bytes_at, in_file, advance, read, read_le, read_u32le, section_at,
  start_read_section, end_read_section,
}
use keyless_zk_proofs.BinFile.Reads.{file}
use keyless_zk_proofs.Headers.{read_prime}

-- The 32-bit number, and the bytes, that stand at an offset.
abbrev pub u32_at : List ℕ → ℕ → ℕ
u32_at addr pos = from_le (take 4 (drop pos addr))

abbrev pub slice : List ℕ → ℕ → ℕ → List ℕ
slice addr pos n = take n (drop pos addr)

module _ (type : List ℕ) (version : ℕ) (reading : Option Section)
    (sections : List (ℕ × List Section)) (addr : List ℕ) (small : length addr < word64) where
  inside_true : (pos n : ℕ) → pos + n ≤ length addr → leb (pos + n) (length addr) ≡ true
  inside_true pos n h = ground arith

  pub read_at :
      (n pos : ℕ)
      → pos + n ≤ length addr
      → read n (file type version reading addr pos sections)
        ≡ ok (pos, file type version reading addr (pos + n) sections)
  unfolding read in_file advance
  read_at n pos h =
      let no_wrap : (pos + n) % word64 ≡ pos + n = mod-eq_of_lt (omega arith) in
      rw (read, in_file, no_wrap, inside_true pos n h, advance) refl

  pub bytes_at-slice :
      (n pos : ℕ) → pos + n ≤ length addr → bytes_at addr pos n ≡ ok (slice addr pos n)
  unfolding bytes_at
  bytes_at-slice n pos h = rw (bytes_at, inside_true pos n h) refl

  pub read_u32le-u32_at :
      (pos : ℕ)
      → pos + 4 ≤ length addr
      → read_u32le (file type version reading addr pos sections)
        ≡ ok (u32_at addr pos, file type version reading addr (pos + 4) sections)
  unfolding read_u32le read_le in_file advance
  read_u32le-u32_at pos h =
      let no_wrap : (pos + 4) % word64 ≡ pos + 4 = mod-eq_of_lt (omega arith) in
      rw
        (
          read_u32le,
          read_le,
          in_file,
          no_wrap,
          inside_true pos 4 h,
          bytes_at-slice 4 pos h,
          advance,
        )
        refl

  pub read_prime_at :
      (mpz_import : List ℕ → ℕ) (n pos : ℕ)
      → pos + n ≤ length addr
      → read_prime mpz_import n (file type version reading addr pos sections)
        ≡ ok (mpz_import (slice addr pos n), file type version reading addr (pos + n) sections)
  unfolding read_prime
  read_prime_at mpz_import n pos h = rw (read_prime, read_at n pos h, bytes_at-slice n pos h) refl

module _ (type : List ℕ) (version : ℕ) (sections : List (ℕ × List Section)) (addr : List ℕ)
    (small : length addr < word64) where
  pub start_at :
      (id pos : ℕ) (s : Section)
      → section_at sections id 0 ≡ ok s
      → start_read_section id 0 (file type version none addr pos sections)
        ≡ ok (tt, file type version (some s) addr s.start sections)
  unfolding start_read_section
  start_at id pos s e = rw (start_read_section, e) refl

  -- The check at the end compares what was read with the section's size.
  pub end_at :
      (s : Section) (n : ℕ)
      → s.start + n ≤ length addr
      → end_read_section true (file type version (some s) addr (s.start + n) sections) ≡ (
          if n == s.size
          then ok (tt, file type version none addr (s.start + n) sections)
          else throws range_error)
  unfolding end_read_section
  end_at s n h =
      let d : (s.start + n + word64 - s.start) % word64 ≡ n = omega arith in
      rw (end_read_section, d) refl

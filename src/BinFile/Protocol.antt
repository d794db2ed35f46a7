-- ===== src/BinFile/Protocol.antt =====
-- The order of calls on a file: a section is begun, read and ended.
use native.Mathlib.Nat.{mod-eq_of_lt}
use keyless_zk_proofs.Common.{
  ℕ, ◌+◌, ◌-◌, ◌%◌, ◌≤◌, ◌<◌, ◌≡◌, refl, true, none, arith, leb, length, if◌then◌else◌, ◌==◌,
}
use keyless_zk_proofs.Outcome.{Outcome, ok, throws, range_error, ◌>>=◌}
use keyless_zk_proofs.BinFile.{
  BinFile, Section, word64, in_file, advance, read, section_at, start_read_section,
  end_read_section,
}

-- A caller that begins a section, reads `n` bytes of it and ends it with the check.
abbrev pub read_part : ℕ → ℕ → ℕ → BinFile → Outcome (Unit {0} × BinFile)
read_part id at n b0 = do
  (u, b1) ← start_read_section id at b0
  (address, b2) ← read n b1
  end_read_section true b2

distance : (start n : ℕ) → start + n < word64 → (start + n + word64 - start) % word64 ≡ n
distance start n h = omega arith

-- For a section that is in the table and whose first n bytes stand in the file of fewer than 2 ^
-- 64 bytes, with no section being read: beginning it, reading n bytes and ending it with the check
-- succeeds, with no section being read after it and the position n bytes past its start, when n is
-- the section's size, and throws range_error otherwise.
pub read_part_exact :
    (id at n : ℕ) (b : BinFile) (s : Section)
    → section_at b.sections id at ≡ ok s
    → b.reading_section ≡ none
    → s.start + n ≤ length b.addr
    → length b.addr < word64
    → read_part id at n b ≡ (
        if n == s.size
        then ok (tt, record b { pos = s.start + n; reading_section = none })
        else throws range_error)
unfolding start_read_section read in_file advance end_read_section
read_part_exact id at n b s es er inside small =
    let no_wrap : (s.start + n) % word64 ≡ s.start + n = mod-eq_of_lt (omega arith) in
    let fits : leb (s.start + n) (length b.addr) ≡ true = ground arith in
    rw
      (
        read_part,
        start_read_section,
        es,
        er,
        read,
        in_file,
        no_wrap,
        fits,
        advance,
        end_read_section,
        distance s.start n (omega arith),
      )
      refl

-- With no section being read and two sections in the table, beginning the second after the first
-- without ending the first throws range_error.
pub start_while_reading :
    (id at other index : ℕ) (b : BinFile) (s t : Section)
    → section_at b.sections id at ≡ ok s
    → section_at b.sections other index ≡ ok t
    → b.reading_section ≡ none
    → (start_read_section id at b >>= λ r. start_read_section other index r.1) ≡ throws range_error
unfolding start_read_section
start_while_reading id at other index b s t es et er = rw (start_read_section, es, er, et) refl

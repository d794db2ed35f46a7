-- ===== src/BinFile/Reads.antt =====
-- Reads at the end of a known prefix of the file.
use native.Mathlib.Nat.{mod-eq_of_lt}
use keyless_zk_proofs.Common.{
  ℕ, zero, suc, ◌+◌, ◌*◌, ◌/◌, ◌%◌, ◌<◌, ◌≡◌, refl, ◌∙◌, ap, List, [], ◌∷◌, ◌++◌, true, Option,
  arith, leb, length, take, drop, length-append,
}
use keyless_zk_proofs.Outcome.{ok}
use keyless_zk_proofs.BinFile.{BinFile, Section, word64, from_le, bytes_at, read_le}

-- A number in `n` bytes, least significant first.
unfoldable pub to_le : ℕ → ℕ → List ℕ
to_le zero v = []
to_le (suc n) v = (v % 256) ∷ to_le n (v / 256)

-- 256 ^ n.
abbrev pub bound : ℕ → ℕ
bound zero = 1
bound (suc n) = 256 * bound n

pub length-to_le : (n v : ℕ) → length (to_le n v) ≡ n
unfolding to_le
length-to_le zero v = refl
length-to_le (suc n) v = ap suc (length-to_le n (v / 256))

pub from_le-to_le : (n v : ℕ) → v < bound n → from_le (to_le n v) ≡ v
unfolding from_le to_le
from_le-to_le zero v h = omega arith
from_le-to_le (suc n) v h = omega (arith, from_le-to_le n (v / 256) (omega arith))

pub drop-append : (pre rest : List ℕ) → drop (length pre) (pre ++ rest) ≡ rest
drop-append [] rest = refl
drop-append (x ∷ pre) rest = drop-append pre rest

pub take-append : (mid rest : List ℕ) → take (length mid) (mid ++ rest) ≡ mid
take-append [] rest = refl
take-append (x ∷ mid) rest = ap (λ t. x ∷ t) (take-append mid rest)

module _ (type : List ℕ) (version : ℕ) (reading : Option Section) where
  -- A file with its position and its table.
  abbrev pub file : List ℕ → ℕ → List (ℕ × List Section) → BinFile
  file addr pos sections = record {
    addr = addr;
    pos = pos;
    sections = sections;
    type = type;
    version = version;
    reading_section = reading;
  }

  -- The bytes that stand at the position are read, and the position moves past them.
  pub read_le-append :
      (pre mid rest : List ℕ) (sections : List (ℕ × List Section))
      → length (pre ++ (mid ++ rest)) < word64
      → read_le (length mid) (file (pre ++ (mid ++ rest)) (length pre) sections)
        ≡ ok (from_le mid, file (pre ++ (mid ++ rest)) (length pre + length mid) sections)
  unfolding read_le bytes_at
  read_le-append pre mid rest sections h =
      let total : length (pre ++ (mid ++ rest)) ≡ length pre + (length mid + length rest) =
        length-append pre (mid ++ rest) ∙ ap (λ (t : ℕ). length pre + t) (length-append mid rest) in
      let no_wrap : (length pre + length mid) % word64 ≡ length pre + length mid =
        mod-eq_of_lt (omega arith) in
      let inside : leb (length pre + length mid) (length (pre ++ (mid ++ rest))) ≡ true =
        ground arith in
      rw (no_wrap, inside, drop-append, take-append)

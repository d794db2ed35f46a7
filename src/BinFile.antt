-- ===== src/BinFile.antt =====
-- binfile_utils.cpp and binfile_utils.hpp: the reader of the sectioned files that hold keys and
-- witnesses.
pub mod Reads
pub mod Sections
pub mod Format
pub mod Oversized
pub mod Protocol
use keyless_zk_proofs.Common.{
  ℕ, zero, suc, ◌+◌, ◌-◌, ◌*◌, ◌%◌, ◌^◌, ◌≡◌, List, [], ◌∷◌, ◌++◌, Bool, true, false, Option, none,
  some, ltb, leb, ◌==◌, if◌then◌else◌, length, get_elem?, take, drop,
}
use keyless_zk_proofs.Outcome.{
  Outcome, ok, throws, aborts, reads_outside, Exception, invalid_argument, range_error, ◌>>=◌, ◌>>◌,
  assert,
}

-- `start` is the distance from the start of the file.
pub record Section : Type 0 where
  pub start : ℕ
  pub size : ℕ

-- `addr` is the mapped file; `pos` is a 64-bit word.
pub record BinFile : Type 0 where
  pub addr : List ℕ
  pub pos : ℕ
  pub sections : List (ℕ × List Section)
  pub type : List ℕ
  pub version : ℕ
  pub reading_section : Option Section

-- A step on a file: its result and the file after it.
abbrev pub Step : Type 0 → Type 0
Step A = BinFile → Outcome (A × BinFile)

abbrev pub word64 : ℕ
word64 = 2 ^ 64

-- The number that bytes hold, least significant first.
unfoldable pub from_le : List ℕ → ℕ
from_le [] = 0
from_le (b ∷ bs) = b + 256 * from_le bs

-- What memcpy reads: `len` bytes at `pos`, which the program must have mapped.
unfoldable pub bytes_at : List ℕ → ℕ → ℕ → Outcome (List ℕ)
bytes_at addr pos len =
    if leb (pos + len) (length addr) then ok (take len (drop pos addr)) else reads_outside

-- `assert(pos + len <= size)`, in 64-bit arithmetic.
unfoldable pub in_file : BinFile → ℕ → Bool
in_file b len = leb ((b.pos + len) % word64) (length b.addr)

unfoldable pub advance : ℕ → BinFile → BinFile
advance len b = record b { pos = (b.pos + len) % word64 }

unfoldable pub read_le : ℕ → Step ℕ
unfolding in_file advance
read_le len b = do
  assert (in_file b len)
  bytes ← bytes_at b.addr b.pos len
  ok (from_le bytes, advance len b)

unfoldable pub read_u32le : Step ℕ
read_u32le = read_le 4

unfoldable pub read_u64le : Step ℕ
read_u64le = read_le 8

-- The address that is returned, as a distance from the start of the file.
unfoldable pub read : ℕ → Step ℕ
unfolding in_file advance
read len b = do assert (in_file b len); ok (b.pos, advance len b)

-- `sections.find`, and `sections[sType].push_back` on a new vector where there was none.
unfoldable pub find : ℕ → List (ℕ × List Section) → Option (List Section)
find id [] = none
find id ((j, v) ∷ rest) = if j == id then some v else find id rest

unfoldable pub push_section : ℕ → Section → List (ℕ × List Section) → List (ℕ × List Section)
push_section id s [] = (id, s ∷ []) ∷ []
push_section id s ((j, v) ∷ rest) =
    if j == id then (j, v ++ (s ∷ [])) ∷ rest else (j, v) ∷ push_section id s rest

-- The table of sections: a type, a size and the bytes, `n` times.
unfoldable pub read_sections : ℕ → BinFile → Outcome BinFile
read_sections zero b = ok b
read_sections (suc n) b = do
  (s_type, b1) ← read_u32le b
  (s_size, b2) ← read_u64le b1
  read_sections n (record (advance s_size b2) {
    sections = push_section s_type (record { start = b2.pos; size = s_size }) b2.sections;
  })

-- The comparison of std::string.
unfoldable pub same_type : List ℕ → List ℕ → Bool
same_type [] [] = true
same_type [] (y ∷ ys) = false
same_type (x ∷ xs) [] = false
same_type (x ∷ xs) (y ∷ ys) = if x == y then same_type xs ys else false

-- The constructor.
unfoldable pub open_file : List ℕ → List ℕ → ℕ → Outcome BinFile
unfolding same_type
open_file addr expected_type max_version = do
  assert (leb 4 (length addr))
  let type = take 4 addr
  let b : BinFile = record {
    addr = addr;
    pos = 4;
    sections = [];
    type = type;
    version = 0;
    reading_section = none;
  }
  if same_type type expected_type then ok b else throws invalid_argument
  (version, b1) ← read_u32le b
  if ltb max_version version then throws invalid_argument else ok b1
  (n_sections, b2) ← read_u32le b1
  b3 ← read_sections n_sections (record b2 { version = version })
  ok (record b3 { pos = 0; reading_section = none })

-- The two tests that startReadSection, getSectionData and getSectionSize begin with.
unfoldable pub section_at : List (ℕ × List Section) → ℕ → ℕ → Outcome Section
section_at sections id at = elim (find id sections) [
  | none ↦ throws range_error
  | some v ↦ elim (get_elem? v at) [ none ↦ throws range_error | some s ↦ ok s ]
]

unfoldable pub start_read_section : ℕ → ℕ → Step (Unit {0})
start_read_section id at b = do
  s ← section_at b.sections id at
  elim b.reading_section [
    | none ↦ ok (tt, record b { pos = s.start; reading_section = some s })
    | some other ↦ throws range_error
  ]

-- A call with no section being read follows a null pointer where it checks.
unfoldable pub end_read_section : Bool → Step (Unit {0})
end_read_section check b = elim b.reading_section [
  | none ↦ if check then reads_outside else ok (tt, record b { reading_section = none })
  | some s ↦
      if check
      then if (b.pos + word64 - s.start) % word64 == s.size
        then ok (tt, record b { reading_section = none })
        else throws range_error
      else ok (tt, record b { reading_section = none })
]

unfoldable pub get_section_data : ℕ → ℕ → BinFile → Outcome ℕ
get_section_data id at b = section_at b.sections id at >>= λ s. ok s.start

unfoldable pub get_section_size : ℕ → ℕ → BinFile → Outcome ℕ
get_section_size id at b = section_at b.sections id at >>= λ s. ok s.size

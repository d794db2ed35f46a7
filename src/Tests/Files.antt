-- ===== src/Tests/Files.antt =====
-- The theorems about files, at files of a few bytes.
use keyless_zk_proofs.Common.{
  ℕ, ◌+◌, ◌≡◌, refl, List, [], ◌∷◌, ◌++◌, map, none, arith, replicate, length, if◌then◌else◌, ◌==◌,
}
use keyless_zk_proofs.Outcome.{ok, throws, range_error, ◌>>=◌}
use keyless_zk_proofs.BinFile.{
  BinFile, Section, open_file, find, section_at, start_read_section, from_le,
}
use keyless_zk_proofs.BinFile.Reads.{to_le, file}
use keyless_zk_proofs.BinFile.Format.{encode, encode_sections, layout, open_file-encode}
use keyless_zk_proofs.BinFile.Sections.{contents, found, payloads, layout-contents}
use keyless_zk_proofs.BinFile.Oversized.{claiming, claim_of, open_file-claiming}
use keyless_zk_proofs.BinFile.Protocol.{start_while_reading}
use keyless_zk_proofs.Headers.{make_wtns_header, make_zkey_header}
use keyless_zk_proofs.Headers.Witness.{make_wtns_header-offsets}
use keyless_zk_proofs.Headers.Key.{zkey_offsets, zkey_size, make_zkey_header-offsets}

abbrev two_sections : List (ℕ × List ℕ)
two_sections = (1, 5 ∷ 6 ∷ 7 ∷ []) ∷ (2, []) ∷ []

open_file-encode_example :
    open_file (encode (119 ∷ 116 ∷ 110 ∷ 115 ∷ []) 2 two_sections) (119 ∷ 116 ∷ 110 ∷ 115 ∷ []) 2
    ≡ ok (
        file
          (119 ∷ 116 ∷ 110 ∷ 115 ∷ [])
          2
          none
          (encode (119 ∷ 116 ∷ 110 ∷ 115 ∷ []) 2 two_sections)
          0
          (layout 12 two_sections []))
unfolding encode encode_sections to_le
open_file-encode_example =
    open_file-encode 119 116 110 115 2 2 two_sections (omega arith) (omega arith) (omega arith)
      (omega arith, (omega arith, tt)) (omega arith)

layout-contents_example :
    map (contents (9 ∷ encode_sections two_sections)) (found (find 1 (layout 1 two_sections [])))
    ≡ map (contents (9 ∷ encode_sections two_sections)) (found (find 1 []))
      ++ payloads 1 two_sections
layout-contents_example =
    layout-contents 1 two_sections (9 ∷ encode_sections two_sections) (9 ∷ []) 1 [] refl refl

open_file-claiming_example :
    (length (claiming (119 ∷ 116 ∷ 110 ∷ 115 ∷ []) 2 1000000) ≡ 24)
    × ((open_file (claiming (119 ∷ 116 ∷ 110 ∷ 115 ∷ []) 2 1000000) (119 ∷ 116 ∷ 110 ∷ 115 ∷ []) 1
          >>= claim_of 2)
        ≡ ok (24, 1000000))
open_file-claiming_example =
    open_file-claiming 119 116 110 115 2 1000000 (omega arith) (omega arith)

-- A witness header of the prime 257 and three variables, in a section from offset 0.
abbrev wtns_bytes : List ℕ
wtns_bytes = 2 ∷ 0 ∷ 0 ∷ 0 ∷ 1 ∷ 1 ∷ 3 ∷ 0 ∷ 0 ∷ 0 ∷ []

abbrev whole : Section
whole = record { start = 0; size = 10 }

abbrev wtns_table : List (ℕ × List Section)
wtns_table = (1, whole ∷ []) ∷ []

first_section : section_at wtns_table 1 0 ≡ ok whole
unfolding section_at find
first_section = refl

abbrev wtns_file : BinFile
wtns_file = file [] 2 none wtns_bytes 0 wtns_table

start_while_reading_example :
    (start_read_section 1 0 wtns_file >>= λ r. start_read_section 1 0 r.1) ≡ throws range_error
start_while_reading_example =
    start_while_reading 1 0 1 0 wtns_file whole whole first_section first_section refl

make_wtns_header-offsets_example : make_wtns_header from_le wtns_file ≡ (
    if 8 + 2 == 10
    then ok (record { n8 = 2; prime = 257; n_vars = 3 }, file [] 2 none wtns_bytes 10 wtns_table)
    else throws range_error)
unfolding from_le
make_wtns_header-offsets_example =
    make_wtns_header-offsets [] 2 wtns_table wtns_bytes (omega arith) from_le 0 whole first_section
      (omega arith)

-- A key's two headers: Groth16, then primes of one byte each, in 44 bytes.
abbrev zkey_bytes : List ℕ
zkey_bytes =
    1
    ∷ 0
    ∷ 0
    ∷ 0
    ∷ 1
    ∷ 0
    ∷ 0
    ∷ 0
    ∷ 7
    ∷ 1
    ∷ 0
    ∷ 0
    ∷ 0
    ∷ 5
    ∷ 3
    ∷ 0
    ∷ 0
    ∷ 0
    ∷ 1
    ∷ 0
    ∷ 0
    ∷ 0
    ∷ 4
    ∷ 0
    ∷ 0
    ∷ 0
    ∷ replicate 18 0

abbrev protocol : Section
protocol = record { start = 0; size = 4 }

abbrev header : Section
header = record { start = 4; size = 40 }

abbrev coefficients : Section
coefficients = record { start = 44; size = 26 }

abbrev zkey_table : List (ℕ × List Section)
zkey_table = (1, protocol ∷ []) ∷ (2, header ∷ []) ∷ (4, coefficients ∷ []) ∷ []

in_zkey_table :
    (section_at zkey_table 1 0 ≡ ok protocol)
    × (section_at zkey_table 2 0 ≡ ok header)
    × (section_at zkey_table 4 0 ≡ ok coefficients)
unfolding section_at find
in_zkey_table = (refl, refl, refl)

make_zkey_header-offsets_example :
    make_zkey_header from_le (file [] 1 none zkey_bytes 0 zkey_table) ≡ (
      if zkey_size 1 1 == header.size
      then ok (
        zkey_offsets zkey_bytes from_le 4 1 26,
        file [] 1 none zkey_bytes (4 + zkey_size 1 1) zkey_table,
      )
      else throws range_error)
unfolding from_le
make_zkey_header-offsets_example =
    make_zkey_header-offsets [] 1 zkey_table zkey_bytes (omega arith) from_le 0 protocol header
      coefficients 1 1 in_zkey_table.0 (omega arith) refl refl in_zkey_table.1 in_zkey_table.2 refl
      refl (omega arith) (omega arith) (omega arith)

-- ===== src/BinFile/Oversized.antt =====
-- The table that the constructor in binfile_utils.cpp makes of a declared size.
use keyless_zk_proofs.Common.{
  ℕ, ◌^◌, ◌<◌, ◌≡◌, refl, List, [], ◌∷◌, ◌++◌, true, none, some, arith, ◌==◌, length,
}
use keyless_zk_proofs.Outcome.{Outcome, ok, ◌>>=◌}
use keyless_zk_proofs.BinFile.{
  BinFile, Section, word64, advance, read_sections, push_section, open_file, get_section_size,
  get_section_data, section_at, find,
}
use keyless_zk_proofs.BinFile.Reads.{to_le, file}
use keyless_zk_proofs.BinFile.Format.{read_u32le_at, read_u64le_at, same_type_self}

-- A file of 24 bytes: a header, and one section of type `id` that claims `size` bytes.
abbrev pub claiming : List ℕ → ℕ → ℕ → List ℕ
claiming type id size = type ++ (to_le 4 1 ++ (to_le 4 1 ++ (to_le 4 id ++ (to_le 8 size ++ []))))

-- What getSectionData and getSectionSize answer.
abbrev pub claim_of : ℕ → BinFile → Outcome (ℕ × ℕ)
claim_of id f = do start ← get_section_data id 0 f; size ← get_section_size id 0 f; ok (start, size)

same : (id : ℕ) → (id == id) ≡ true
same id = ground arith

find_one : (id : ℕ) (v : List Section) → find id ((id, v) ∷ []) ≡ some v
unfolding find
find_one id v = ground (arith, same id)

section_at-one : (id : ℕ) (s : Section) → section_at ((id, s ∷ []) ∷ []) id 0 ≡ ok s
unfolding section_at
section_at-one id s = rw (section_at, find_one id (s ∷ [])) refl

claim_of_one :
    (type : List ℕ) (id start size : ℕ) (addr : List ℕ)
    → claim_of id (file type 1 none addr 0 ((id, record { start = start; size = size } ∷ []) ∷ []))
      ≡ ok (start, size)
unfolding get_section_data get_section_size
claim_of_one type id start size addr =
    rw (claim_of, get_section_data, get_section_size, section_at-one id) refl

-- For every type of the file, section type below 2 ^ 32 and size below 2 ^ 64: the file of 24
-- bytes whose one section claims that size is accepted by the constructor, and getSectionData and
-- getSectionSize then answer the offset 24, the end of the file, and the claimed size.
pub open_file-claiming :
    (a b c d id size : ℕ)
    → id < 2 ^ 32
    → size < word64
    → (length (claiming (a ∷ b ∷ c ∷ d ∷ []) id size) ≡ 24)
      × ((open_file (claiming (a ∷ b ∷ c ∷ d ∷ []) id size) (a ∷ b ∷ c ∷ d ∷ []) 1 >>= claim_of id)
          ≡ ok (24, size))
unfolding open_file to_le read_sections advance push_section
open_file-claiming a b c d id size hi hs =
    let type = a ∷ b ∷ c ∷ d ∷ [] in
    let addr = claiming type id size in
    (
      refl,
      rw
          (
            same_type_self type,
            read_u32le_at type 0 none addr type (to_le 4 1 ++ (to_le 4 id ++ (to_le 8 size ++ [])))
                4 1 [] refl refl (omega arith) (omega arith),
            read_u32le_at type 0 none addr (type ++ to_le 4 1) (to_le 4 id ++ (to_le 8 size ++ []))
                8 1 [] refl refl (omega arith) (omega arith),
            read_u32le_at type 1 none addr (type ++ (to_le 4 1 ++ to_le 4 1)) (to_le 8 size ++ [])
                12 id [] refl refl hi (omega arith),
            read_u64le_at type 1 none addr (type ++ (to_le 4 1 ++ (to_le 4 1 ++ to_le 4 id))) [] 16
                size [] refl refl hs (omega arith),
          )
          (claim_of_one (a ∷ b ∷ c ∷ d ∷ []) id 24 size addr),
    )

-- ===== src/BinFile/Format.antt =====
-- The format of the files that the constructor in binfile_utils.cpp reads, written out.
use native.Mathlib.Nat.{mod-eq_of_lt}
use keyless_zk_proofs.Common.{
  ℕ, suc, ◌+◌, ◌%◌, ◌^◌, ◌≤◌, ◌<◌, ◌≡◌, refl, sym, ◌∙◌, ap, List, [], ◌∷◌, ◌++◌, true, false,
  Option, none, arith, leb, ltb, length, length-append, append_assoc, append-nil,
}
use keyless_zk_proofs.Outcome.{ok}
use keyless_zk_proofs.BinFile.{
  Section, word64, advance, read_u32le, read_u64le, read_sections, push_section, open_file,
  same_type,
}
use keyless_zk_proofs.BinFile.Reads.{to_le, length-to_le, from_le-to_le, file, read_le-append}

-- Sections in the order of the file: a type and its bytes.
unfoldable pub encode_sections : List (ℕ × List ℕ) → List ℕ
encode_sections [] = []
encode_sections ((id, bytes) ∷ rest) =
    to_le 4 id ++ (to_le 8 (length bytes) ++ (bytes ++ encode_sections rest))

unfoldable pub encode : List ℕ → ℕ → List (ℕ × List ℕ) → List ℕ
unfolding encode_sections
encode type version sections =
    type ++ (to_le 4 version ++ (to_le 4 (length sections) ++ encode_sections sections))

-- The table of sections that begin at `pos`: each section's bytes stand behind 12 bytes of header.
unfoldable pub layout : ℕ → List (ℕ × List ℕ) → List (ℕ × List Section) → List (ℕ × List Section)
layout pos [] table = table
layout pos ((id, bytes) ∷ rest) table =
    layout (pos + 12 + length bytes) rest
      (push_section id (record { start = pos + 12; size = length bytes }) table)

-- Every type fits 32 bits.
abbrev pub HaveTypes : List (ℕ × List ℕ) → Type 0
HaveTypes [] = Unit
HaveTypes ((id, bytes) ∷ rest) = (id < 2 ^ 32) × HaveTypes rest

size_of_section :
    (pre : List ℕ) (id : ℕ) (bytes rest : List ℕ)
    → length (pre ++ (to_le 4 id ++ (to_le 8 (length bytes) ++ (bytes ++ rest))))
      ≡ length pre + 12 + length bytes + length rest
size_of_section pre id bytes rest =
    rw (length-append, length-append, length-append, length-append, length-to_le, length-to_le)
      (omega arith)

pub ep_after :
    (pos : ℕ) (pre : List ℕ) (id : ℕ) (bytes : List ℕ)
    → pos ≡ length pre
    → pos + 12 + length bytes ≡ length (pre ++ (to_le 4 id ++ (to_le 8 (length bytes) ++ bytes)))
ep_after pos pre id bytes ep =
    rw (length-append, length-append, length-append, length-to_le, length-to_le) (omega arith)

module _ (type : List ℕ) (version : ℕ) (reading : Option Section) where
  pub read_u32le_at :
      (addr pre rest : List ℕ) (pos v : ℕ) (table : List (ℕ × List Section))
      → addr ≡ pre ++ (to_le 4 v ++ rest)
      → pos ≡ length pre
      → v < 2 ^ 32
      → length addr < word64
      → read_u32le (file type version reading addr pos table)
        ≡ ok (v, file type version reading addr (pos + 4) table)
  unfolding read_u32le
  read_u32le_at addr pre rest pos v table ea ep small h =
      rw (ea, ep)
        (rw (from_le-to_le 4 v (omega arith), length-to_le 4 v) at
          (read_le-append type version reading pre (to_le 4 v) rest table (rw (← ea) h)))

  pub read_u64le_at :
      (addr pre rest : List ℕ) (pos v : ℕ) (table : List (ℕ × List Section))
      → addr ≡ pre ++ (to_le 8 v ++ rest)
      → pos ≡ length pre
      → v < word64
      → length addr < word64
      → read_u64le (file type version reading addr pos table)
        ≡ ok (v, file type version reading addr (pos + 8) table)
  unfolding read_u64le
  read_u64le_at addr pre rest pos v table ea ep small h =
      rw (ea, ep)
        (rw (from_le-to_le 8 v (omega arith), length-to_le 8 v) at
          (read_le-append type version reading pre (to_le 8 v) rest table (rw (← ea) h)))

  -- The header of a section, and the step over its bytes.
  read_header :
      (n : ℕ) (addr pre bytes rest : List ℕ) (pos id : ℕ) (table : List (ℕ × List Section))
      → addr ≡ pre ++ (to_le 4 id ++ (to_le 8 (length bytes) ++ (bytes ++ rest)))
      → pos ≡ length pre
      → id < 2 ^ 32
      → length addr < word64
      → read_sections (suc n) (file type version reading addr pos table)
        ≡ read_sections n (
            file type version reading addr
              (pos + 12 + length bytes)
              (push_section id (record { start = pos + 12; size = length bytes }) table))
  unfolding read_sections advance
  read_header n addr pre bytes rest pos id table ea ep small h =
      let size : length addr ≡ length pre + 12 + length bytes + length rest =
        ap length ea ∙ size_of_section pre id bytes rest in
      let after : pos + 4 + 8 ≡ pos + 12 = omega arith in
      let no_wrap : (pos + 12 + length bytes) % word64 ≡ pos + 12 + length bytes =
        mod-eq_of_lt (omega arith) in
      rw
        (
          read_u32le_at addr pre (to_le 8 (length bytes) ++ (bytes ++ rest)) pos id table ea ep
              small h,
          read_u64le_at addr (pre ++ to_le 4 id) (bytes ++ rest) (pos + 4) (length bytes) table
              (ea ∙ sym (append_assoc pre (to_le 4 id) (to_le 8 (length bytes) ++ (bytes ++ rest))))
              (rw (length-append, length-to_le) (ap (λ (t : ℕ). t + 4) ep)) (omega arith) h,
          after,
          no_wrap,
        )
        refl

  pub read_sections-encode :
      (sections : List (ℕ × List ℕ)) (addr pre : List ℕ) (pos : ℕ) (table : List (ℕ × List Section))
      → addr ≡ pre ++ encode_sections sections
      → pos ≡ length pre
      → HaveTypes sections
      → length addr < word64
      → read_sections (length sections) (file type version reading addr pos table)
        ≡ ok (file type version reading addr (length addr) (layout pos sections table))
  unfolding encode_sections layout read_sections
  read_sections-encode [] addr pre pos table ea ep h fits = rw (ep, ea, append-nil) refl
  read_sections-encode ((id, bytes) ∷ rest) addr pre pos table ea ep h fits =
      read_header (length rest) addr pre bytes (encode_sections rest) pos id table ea ep h.0 fits
      ∙ read_sections-encode rest addr (pre ++ (to_le 4 id ++ (to_le 8 (length bytes) ++ bytes)))
          (pos + 12 + length bytes) _ (ea ∙ simp (append_assoc)) (ep_after pos pre id bytes ep) h.1
          fits

pub same_type_self : (type : List ℕ) → same_type type type ≡ true
unfolding same_type
same_type_self [] = refl
same_type_self (x ∷ xs) = ground (arith, same_type_self xs)

pub not_newer : (max_version version : ℕ) → version ≤ max_version → ltb max_version version ≡ false
not_newer m v h = ground arith

after_header : (v n : ℕ) → 12 ≡ 4 + length (to_le 4 v ++ to_le 4 n)
after_header v n = rw (length-append, length-to_le, length-to_le) refl

-- A file that is written with a four-byte type, a version of at most 32 bits that is not above the
-- greatest accepted one, fewer than 2 ^ 32 sections whose types fit 32 bits, and fewer than 2 ^ 64
-- bytes in all is opened by BinFile's constructor, with that type and version, the position 0, no
-- section being read, and the table of the sections' types, starts and sizes.
pub open_file-encode :
    (a b c d version max_version : ℕ) (sections : List (ℕ × List ℕ))
    → version ≤ max_version
    → version < 2 ^ 32
    → length sections < 2 ^ 32
    → HaveTypes sections
    → length (encode (a ∷ b ∷ c ∷ d ∷ []) version sections) < word64
    → open_file (encode (a ∷ b ∷ c ∷ d ∷ []) version sections) (a ∷ b ∷ c ∷ d ∷ []) max_version
      ≡ ok (
          file
            (a ∷ b ∷ c ∷ d ∷ [])
            version
            none
            (encode (a ∷ b ∷ c ∷ d ∷ []) version sections)
            0
            (layout 12 sections []))
unfolding open_file encode to_le
open_file-encode a b c d version max_version sections old small few h fits =
    let type = a ∷ b ∷ c ∷ d ∷ [] in
    let addr = encode type version sections in
    let enough : leb 4 (length addr) ≡ true = ground arith in
    rw
      (
        enough,
        same_type_self type,
        read_u32le_at type 0 none addr type (to_le 4 (length sections) ++ encode_sections sections)
            4 version [] refl refl small fits,
        not_newer max_version version old,
        read_u32le_at type 0 none addr (type ++ to_le 4 version) (encode_sections sections) 8
            (length sections) [] refl refl few fits,
        read_sections-encode type version none sections addr
            (type ++ (to_le 4 version ++ to_le 4 (length sections))) 12 []
            (sym (
              ap (λ t. type ++ t)
                (append_assoc (to_le 4 version) (to_le 4 (length sections))
                  (encode_sections sections))))
            (after_header version (length sections)) h fits,
      )
      refl

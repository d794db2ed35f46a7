-- ===== src/BinFile/Sections.antt =====
-- What the table of sections of a written file leads back to, and the order in which a section
-- is begun and ended.
use keyless_zk_proofs.Common.{
  ℕ, ◌+◌, ◌≡◌, refl, sym, ◌∙◌, ap, List, [], ◌∷◌, ◌++◌, map, Bool, true, false, Option, none, some,
  arith, length, take, drop, if◌then◌else◌, ◌==◌, length-append, append_assoc, append-nil,
}
use mathlib.Core.List
use keyless_zk_proofs.BinFile.{Section, find, push_section}
use keyless_zk_proofs.BinFile.Reads.{to_le, length-to_le, drop-append, take-append}
use keyless_zk_proofs.BinFile.Format.{encode_sections, layout, ep_after}

-- The bytes of a section, and those of every section of one type.
abbrev pub contents : List ℕ → Section → List ℕ
contents addr s = take s.size (drop s.start addr)

abbrev pub found : Option (List Section) → List Section
found none = []
found (some v) = v

abbrev pub payloads : ℕ → List (ℕ × List ℕ) → List (List ℕ)
payloads id [] = []
payloads id ((j, bytes) ∷ rest) = if j == id then bytes ∷ payloads id rest else payloads id rest

-- What a new section adds to what is found.
found-push :
    (id j : ℕ) (s : Section) (table : List (ℕ × List Section))
    → found (find id (push_section j s table))
      ≡ (if j == id then found (find id table) ++ (s ∷ []) else found (find id table))
unfolding find push_section
found-push id j s [] = ground arith
found-push id j s ((k, v) ∷ rest) = ground (arith, found-push id j s rest)

contents-at :
    (pre mid rest : List ℕ) (n m : ℕ)
    → n ≡ length pre
    → m ≡ length mid
    → take m (drop n (pre ++ (mid ++ rest))) ≡ mid
contents-at pre mid rest n m en em = rw (en, em, drop-append, take-append) refl

-- One section more is one list of bytes more, where its type is the one looked for.
pick :
    (t : Bool) (f : Section → List ℕ) (xs : List Section) (s : Section) (bytes : List ℕ)
    (more : List (List ℕ))
    → f s ≡ bytes
    → map f (if t then xs ++ (s ∷ []) else xs) ++ more
      ≡ map f xs ++ (if t then bytes ∷ more else more)
pick true f xs s bytes more e = rw (List.map-append, e, append_assoc) refl
pick false f xs s bytes more e = refl

-- For a file that ends in written sections from the position pos on: the bytes that the sections
-- of one type in the extended table lead to are those that the table led to before, followed by
-- the bytes written in sections of that type, in their order.
pub layout-contents :
    (id : ℕ) (sections : List (ℕ × List ℕ)) (addr pre : List ℕ) (pos : ℕ)
    (table : List (ℕ × List Section))
    → addr ≡ pre ++ encode_sections sections
    → pos ≡ length pre
    → map (contents addr) (found (find id (layout pos sections table)))
      ≡ map (contents addr) (found (find id table)) ++ payloads id sections
unfolding encode_sections layout
layout-contents id [] addr pre pos table ea ep = sym (append-nil _)
layout-contents id ((j, bytes) ∷ rest) addr pre pos table ea ep =
    let header = pre ++ (to_le 4 j ++ to_le 8 (length bytes)) in
    let s : Section = record { start = pos + 12; size = length bytes } in
    let at_header : addr ≡ header ++ (bytes ++ encode_sections rest) = ea ∙ simp (append_assoc) in
    let reads : contents addr s ≡ bytes =
      ap (λ t. take (length bytes) (drop (pos + 12) t)) at_header
      ∙ contents-at header bytes (encode_sections rest) (pos + 12) (length bytes)
          (rw (length-append, length-append, length-to_le, length-to_le) (omega arith)) refl in
    layout-contents id rest addr (pre ++ (to_le 4 j ++ (to_le 8 (length bytes) ++ bytes)))
      (pos + 12 + length bytes) (push_section j s table) (ea ∙ simp (append_assoc))
      (ep_after pos pre j bytes ep)
    ∙ rw (found-push id j s table)
        (pick (j == id) (contents addr) (found (find id table)) s bytes (payloads id rest) reads)

-- ===== src/Vault/Sections/Tests.antt =====
-- src/vault/sections.ts on a concrete note.
use brainstem_mcp.Prelude.{
  List, Text, [], arith, codes, drop, join, refl, some, split, take, ℕ, ◌++◌, ◌∷◌, ◌≡◌, ◌≤◌, ◌⊎◌,
}
use brainstem_mcp.Vault.Sections.{
  HeadingHit, SectionRange, at_end, find_section, has_crlf, insert_into_section, insertion_lines,
  newline, normalize_segment, segments_of, slice_section,
}
use brainstem_mcp.Vault.Sections.Content.{insert_into_section-keeps}
use brainstem_mcp.Vault.Sections.Insert.{solid}
use brainstem_mcp.Vault.Sections.Ranges.{InOrder, IsSection, find_section-IsSection, last_segment}

abbrev note : Text
note =
    join newline
      (codes "# A" ∷ [] ∷ codes "## B" ∷ codes "x" ∷ [] ∷ [] ∷ codes "# C" ∷ codes "y" ∷ [])

abbrev headings_of_note : List HeadingHit
headings_of_note =
    record { level = 1; text = codes "A"; line = 1 }
    ∷ record { level = 2; text = codes "B"; line = 3 }
    ∷ record { level = 1; text = codes "C"; line = 7 }
    ∷ []

abbrev range_b : SectionRange
range_b = record { start_line = 3; end_line = 6; level = 2; heading = codes "B" }

abbrev same_case : Text → Text
same_case s = s

sliced : slice_section note range_b ≡ join newline (codes "## B" ∷ codes "x" ∷ [] ∷ [] ∷ [])
unfolding slice_section
sliced = refl

-- Two blank lines before the next heading become one.
inserted_at_end :
    insert_into_section note range_b (codes "z") at_end
    ≡ join newline (
        codes "# A" ∷ [] ∷ codes "## B" ∷ codes "x" ∷ codes "z" ∷ [] ∷ codes "# C" ∷ codes "y" ∷ [])
unfolding insert_into_section
inserted_at_end = refl

found : find_section same_case headings_of_note 8 (codes "#A > ## B") ≡ some range_b
unfolding find_section
found = refl

note-InOrder : InOrder 8 headings_of_note
note-InOrder = (
  omega arith,
  (omega arith, (omega arith, tt)),
  (omega arith, (omega arith, tt), (omega arith, tt, tt)),
)

find_section-IsSection_example :
    IsSection 8 headings_of_note range_b
    × (((segment : Text) × (deeper : List Text) × (segments_of (codes "#A > ## B")
            ≡ segment ∷ deeper)
          × (codes "B" ≡ last_segment segment deeper))
        ⊎ (codes "B" ≡ normalize_segment (codes "#A > ## B")))
find_section-IsSection_example =
    find_section-IsSection same_case headings_of_note 8 (codes "#A > ## B") range_b note-InOrder
      found

insert_into_section-keeps_example :
    (at : ℕ) × (3 ≤ at)
    × (at ≤ 6)
    × (solid (split newline (insert_into_section note range_b (codes "z") at_end))
        ≡ solid (take at (split newline note))
          ++ (solid (insertion_lines (codes "z") (has_crlf note))
              ++ solid (drop at (split newline note))))
insert_into_section-keeps_example =
    insert_into_section-keeps note range_b (codes "z") at_end (omega arith) (omega arith)

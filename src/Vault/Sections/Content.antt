-- ===== src/Vault/Sections/Content.antt =====
-- src/vault/sections.ts: an insertion into the text of a note.
use brainstem_mcp.Prelude.{
  All, All-append, Avoids, Bool, Bool-cases, List, Text, [], ap, arith, drop, extend, false,
  if◌then◌else◌, inl, inr, is_empty, join, length, ltb, map, refl, split, suc, take, true, zero, ℕ,
  ◌++◌, ◌+◌, ◌-◌, ◌∙◌, ◌∷◌, ◌≡◌, ◌≤◌,
}
use brainstem_mcp.Prelude.Pieces.{split-Avoids, split-join}
use brainstem_mcp.Vault.Sections.{
  Position, SectionRange, at_end, at_start, carriage, ends_empty, has_crlf, insert_into_section,
  insert_lines, insertion_lines, last_non_blank, newline, pop_empty, splice, unify,
}
use brainstem_mcp.Vault.Sections.Insert.{insert_lines-keeps, solid}

module _ {A : Type 0} (P : A → Type 0) where
  All-take : (n : ℕ) (xs : List A) → All P xs → All P (take n xs)
  All-take zero xs h = tt
  All-take (suc n) [] h = tt
  All-take (suc n) (x ∷ xs) h = (h.0, All-take n xs h.1)

  All-drop : (n : ℕ) (xs : List A) → All P xs → All P (drop n xs)
  All-drop zero xs h = h
  All-drop (suc n) [] h = tt
  All-drop (suc n) (x ∷ xs) h = All-drop n xs h.1

-- Lines: no text of the list holds a line feed.
AreLines : List Text → Type 0
AreLines lines = All (Avoids newline) lines

pop_empty-AreLines : (ps : List Text) → AreLines ps → AreLines (pop_empty ps)
unfolding pop_empty AreLines
pop_empty-AreLines [] h = tt
pop_empty-AreLines (p ∷ []) h = ground (arith, h.0)
pop_empty-AreLines (p ∷ q ∷ ps) h = (h.0, pop_empty-AreLines (q ∷ ps) h.1)

carriage-Avoids : (p : Text) → Avoids newline p → Avoids newline (p ++ carriage ∷ [])
carriage-Avoids [] h = refl
carriage-Avoids (c ∷ p) h = ground (arith, carriage-Avoids p)

carriage-AreLines : (ps : List Text) → AreLines ps → AreLines (map (λ l. l ++ carriage ∷ []) ps)
unfolding AreLines
carriage-AreLines [] h = tt
carriage-AreLines (p ∷ ps) h = (carriage-Avoids p h.0, carriage-AreLines ps h.1)

insertion_lines-AreLines : (text : Text) (crlf : Bool) → AreLines (insertion_lines text crlf)
unfolding insertion_lines AreLines
insertion_lines-AreLines text true =
    carriage-AreLines _ (pop_empty-AreLines _ (split-Avoids newline (unify text)))
insertion_lines-AreLines text false = pop_empty-AreLines _ (split-Avoids newline (unify text))

splice-AreLines :
    (at count : ℕ) (new lines : List Text)
    → AreLines new
    → AreLines lines
    → AreLines (splice at count new lines)
unfolding AreLines
splice-AreLines at count new lines n h =
    All-append _ (take at lines) (new ++ drop (at + count) lines) (All-take _ at lines h)
      (All-append _ new (drop (at + count) lines) n (All-drop _ (at + count) lines h))

insert_lines-AreLines :
    (lines : List Text) (range : SectionRange) (new : List Text) (crlf : Bool) (position : Position)
    → AreLines new
    → AreLines lines
    → AreLines (insert_lines lines range new crlf position)
unfolding insert_lines AreLines
insert_lines-AreLines lines range new crlf at_start n h = splice-AreLines _ 0 new lines n h
insert_lines-AreLines lines range new crlf at_end n h =
    let last =
      last_non_blank (drop (range.start_line - 1) lines) (range.end_line - (range.start_line - 1))
        (range.start_line - 1) (range.start_line - 1) in
    let sep = if crlf then carriage ∷ [] else [] in
    let clean : Avoids newline sep = ground arith in
    let inserted = splice-AreLines (last + 1) 0 new lines n h in
    elim (Bool-cases (ltb range.end_line (length lines))) [
      | inl e ↦ rw e (
          splice-AreLines (last + 1) (range.end_line - 1 - last) (new ++ sep ∷ []) lines
            (All-append _ new (sep ∷ []) n (clean, tt)) h)
      | inr e ↦ elim (Bool-cases (ends_empty (splice (last + 1) 0 new lines))) [
        | inl f ↦ rw (e, f) inserted
        | inr f ↦
            rw (e, f) (All-append _ (splice (last + 1) 0 new lines) ([] ∷ []) inserted (refl, tt))
      ]
    ]

extend-filled : (c : ℕ) (ps : List Text) → is_empty (extend c ps) ≡ false
extend-filled c [] = refl
extend-filled c (p ∷ ps) = refl

split-filled : (s : Text) → is_empty (split newline s) ≡ false
split-filled [] = refl
split-filled (c ∷ s) = ground (arith, extend-filled c (split newline s))

module _ {A : Type 0} where
  filled_left : (xs ys : List A) → is_empty xs ≡ false → is_empty (xs ++ ys) ≡ false
  filled_left [] ys h = cc
  filled_left (x ∷ xs) ys h = refl

  filled_right : (xs ys : List A) → is_empty ys ≡ false → is_empty (xs ++ ys) ≡ false
  filled_right [] ys h = h
  filled_right (x ∷ xs) ys h = refl

splice-filled :
    (at : ℕ) (new lines : List Text)
    → is_empty lines ≡ false
    → is_empty (splice at 0 new lines) ≡ false
splice-filled at new [] h = cc
splice-filled zero new (x ∷ lines) h = filled_right new (x ∷ lines) refl
splice-filled (suc at) new (x ∷ lines) h = refl

insert_lines-filled :
    (lines : List Text) (range : SectionRange) (new : List Text) (crlf : Bool) (position : Position)
    → is_empty lines ≡ false
    → is_empty (insert_lines lines range new crlf position) ≡ false
unfolding insert_lines
insert_lines-filled lines range new crlf at_start h = splice-filled _ new lines h
insert_lines-filled lines range new crlf at_end h =
    let last =
      last_non_blank (drop (range.start_line - 1) lines) (range.end_line - (range.start_line - 1))
        (range.start_line - 1) (range.start_line - 1) in
    let sep = if crlf then carriage ∷ [] else [] in
    let inserted = splice (last + 1) 0 new lines in
    elim (Bool-cases (ltb range.end_line (length lines))) [
      | inl e ↦ rw e (
          filled_right (take (last + 1) lines) _
            (filled_left (new ++ sep ∷ []) _ (filled_right new (sep ∷ []) refl)))
      | inr e ↦ elim (Bool-cases (ends_empty inserted)) [
        | inl f ↦ rw (e, f) (splice-filled (last + 1) new lines h)
        | inr f ↦ rw (e, f) (filled_right inserted ([] ∷ []) refl)
      ]
    ]

split-AreLines : (content : Text) → AreLines (split newline content)
unfolding AreLines
split-AreLines content = split-Avoids newline content

split-join_filled :
    (lines : List Text)
    → is_empty lines ≡ false
    → AreLines lines
    → split newline (join newline lines) ≡ lines
unfolding AreLines
split-join_filled [] h a = cc
split-join_filled (p ∷ ps) h a = split-join newline p ps a

-- Inserting into a section that is not empty keeps every line of the note that holds text, in its
-- order, byte for byte, and puts the lines of the inserted text that hold text between two lines
-- of the note, after the heading and not after the end of the section.
pub insert_into_section-keeps :
    (content : Text) (range : SectionRange) (text : Text) (position : Position)
    → 1 ≤ range.start_line
    → range.start_line ≤ range.end_line
    → (at : ℕ) × (range.start_line ≤ at)
      × (at ≤ range.end_line)
      × (solid (split newline (insert_into_section content range text position))
          ≡ solid (take at (split newline content))
            ++ (solid (insertion_lines text (has_crlf content))
                ++ solid (drop at (split newline content))))
unfolding insert_into_section
insert_into_section-keeps content range text position one order =
    let crlf = has_crlf content in
    let lines = split newline content in
    let new = insertion_lines text crlf in
    let (at, low, high, same) = insert_lines-keeps lines range new crlf position one order in
    let filled = insert_lines-filled lines range new crlf position (split-filled content) in
    let clean =
      insert_lines-AreLines lines range new crlf position (insertion_lines-AreLines text crlf)
        (split-AreLines content) in
    (at, low, high, ap solid (split-join_filled _ filled clean) ∙ same)

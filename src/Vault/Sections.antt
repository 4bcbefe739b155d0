-- ===== src/Vault/Sections.antt =====
-- src/vault/sections.ts: headings, the range of a section, and inserting into it. The headings of
-- the text are an argument: finding them takes the regular expressions of note-parse.ts.
pub mod Ranges
pub mod Insert
pub mod Content
mod Tests
use brainstem_mcp.Prelude.{
  Bool, List, Option, Text, [], drop, false, filter, get_elem?, if◌then◌else◌, is_empty, join, leb,
  length, ltb, map, none, not, some, split, suc, take, text_eq, true, zero, ℕ, ◌&&◌, ◌++◌, ◌+◌, ◌-◌,
  ◌==◌, ◌||◌, ◌∷◌,
}
use brainstem_mcp.Storage.PathPolicy.{trim, trim_start}

pub record SectionRange : Type 0 where
  pub start_line : ℕ
  pub end_line : ℕ
  pub level : ℕ
  pub heading : Text

pub record HeadingHit : Type 0 where
  pub level : ℕ
  pub text : Text
  pub line : ℕ

abbrev pub newline : ℕ
newline = 10

abbrev pub carriage : ℕ
carriage = 13

abbrev pub number_sign : ℕ
number_sign = 35

abbrev pub greater : ℕ
greater = 62

-- `stripCr`
unfoldable pub strip_cr : Text → Text
strip_cr [] = []
strip_cr (c ∷ []) = if c == carriage then [] else c ∷ []
strip_cr (c ∷ d ∷ s) = c ∷ strip_cr (d ∷ s)

unfoldable pub is_blank : Text → Bool
unfolding strip_cr
is_blank line = is_empty (strip_cr line)

-- `isBlank` of a line that may be undefined.
abbrev pub blank_at : List Text → ℕ → Bool
unfolding is_blank
blank_at lines i = elim (get_elem? lines i) [ none ↦ true | some line ↦ is_blank line ]

-- The loop of `rangeFor` over the later headings.
unfoldable pub end_of : ℕ → ℕ → List HeadingHit → ℕ
end_of level total [] = total
end_of level total (h ∷ later) = if leb h.level level then h.line - 1 else end_of level total later

unfoldable pub range_for : ℕ → HeadingHit → List HeadingHit → SectionRange
unfolding end_of
range_for total h later = record {
  start_line = h.line;
  end_line = end_of h.level total later;
  level = h.level;
  heading = h.text;
}

-- The loop over the headings, each with those after it.
unfoldable pub first_found :
    (HeadingHit → List HeadingHit → Option SectionRange) → List HeadingHit → Option SectionRange
first_found try [] = none
first_found try (h ∷ later) = elim (try h later) [
  | some range ↦ some range
  | none ↦ first_found try later
]

-- What follows the leading signs and the white space after them.
unfoldable pub after_signs : Text → Text
unfolding trim_start
after_signs [] = []
after_signs (c ∷ s) =
    let rest = after_signs s in if c == number_sign then rest else trim_start (c ∷ s)

-- `replace(/^#+\s*/, '')`
unfoldable pub strip_signs : Text → Text
unfolding after_signs
strip_signs [] = []
strip_signs (c ∷ s) = if c == number_sign then after_signs s else c ∷ s

unfoldable pub normalize_segment : Text → Text
unfolding trim strip_signs
normalize_segment segment = trim (strip_signs (trim segment))

-- The segments of a path that are not empty.
unfoldable pub segments_of : Text → List Text
unfolding normalize_segment
segments_of path = filter (λ s. not (is_empty s)) (map normalize_segment (split greater path))

module _ (lower : Text → Text) (headings : List HeadingHit) (total : ℕ) where
  -- The three tests that `continue`.
  unfoldable pub skips : Text → ℕ → ℕ → ℕ → HeadingHit → Bool
  skips segment bounds_start bounds_end parent h =
      ltb h.line bounds_start
      || ltb bounds_end h.line
      || leb h.level parent
      || not (text_eq (lower h.text) (lower segment))

  unfoldable pub resolve_segments : List Text → ℕ → ℕ → ℕ → Option SectionRange
  unfolding first_found range_for skips
  resolve_segments [] bounds_start bounds_end parent = none
  resolve_segments (segment ∷ segments) bounds_start bounds_end parent =
      first_found
        (λ h later.
          let range = range_for total h later in
          let deeper = resolve_segments segments range.start_line range.end_line range.level in
          if skips segment bounds_start bounds_end parent h
          then none
          else if is_empty segments
          then some range
          else deeper)
        headings

  -- `findSection` after its segments have been split and normalised.
  unfoldable pub find_segments : List Text → Text → Option SectionRange
  unfolding resolve_segments
  find_segments segments whole =
      elim (if is_empty segments then none else resolve_segments segments 1 total 0) [
        | some nested ↦ some nested
        | none ↦ if is_empty whole then none else resolve_segments (whole ∷ []) 1 total 0
      ]

  unfoldable pub find_section : Text → Option SectionRange
  unfolding find_segments segments_of
  find_section path = find_segments (segments_of path) (normalize_segment path)

unfoldable pub slice_section : Text → SectionRange → Text
slice_section content range =
    join newline (drop (range.start_line - 1) (take range.end_line (split newline content)))

-- `replace(/\r\n/g, '\n')`
unfoldable pub unify : Text → Text
unify [] = []
unify (c ∷ []) = c ∷ []
unify (c ∷ d ∷ s) =
    let rest = unify (d ∷ s) in if c == carriage && d == newline then rest else c ∷ rest

-- A last element that is empty goes.
unfoldable pub pop_empty : List Text → List Text
pop_empty [] = []
pop_empty (p ∷ []) = if is_empty p then [] else p ∷ []
pop_empty (p ∷ q ∷ ps) = p ∷ pop_empty (q ∷ ps)

unfoldable pub insertion_lines : Text → Bool → List Text
unfolding unify pop_empty
insertion_lines text crlf =
    let parts = pop_empty (split newline (unify text)) in
    if crlf then map (λ l. l ++ carriage ∷ []) parts else parts

-- `splice(at, count, ...new)`
abbrev pub splice : ℕ → ℕ → List Text → List Text → List Text
splice at count new lines = take at lines ++ (new ++ drop (at + count) lines)

-- The loop for `lastNonBlank`: the lines from number `i` on, of which `n` are looked at. A line
-- that is not there is blank.
unfoldable pub last_non_blank : List Text → ℕ → ℕ → ℕ → ℕ
unfolding is_blank
last_non_blank lines zero i last = last
last_non_blank [] (suc n) i last = last
last_non_blank (x ∷ lines) (suc n) i last =
    last_non_blank lines n (i + 1) (if is_blank x then last else i)

unfoldable pub ends_empty : List Text → Bool
ends_empty [] = false
ends_empty (p ∷ []) = is_empty p
ends_empty (p ∷ q ∷ ps) = ends_empty (q ∷ ps)

pub data Position : Type 0 where
  at_start at_end : Position

-- The lines of `insertIntoSection` before they are joined.
unfoldable pub insert_lines : List Text → SectionRange → List Text → Bool → Position → List Text
unfolding is_blank last_non_blank ends_empty
insert_lines lines range new crlf at_start =
    let at =
      if leb (range.start_line + 1) range.end_line && blank_at lines range.start_line
      then range.start_line + 1
      else range.start_line in
    splice at 0 new lines
insert_lines lines range new crlf at_end =
    let last =
      last_non_blank (drop (range.start_line - 1) lines) (range.end_line - (range.start_line - 1))
        (range.start_line - 1) (range.start_line - 1) in
    let inserted = splice (last + 1) 0 new lines in
    if ltb range.end_line (length lines)
    then splice (last + 1) (range.end_line - 1 - last)
        (new ++ (if crlf then carriage ∷ [] else []) ∷ []) lines
    else if ends_empty inserted
    then inserted
    else inserted ++ [] ∷ []

-- `content.includes('\r\n')`
unfoldable pub has_crlf : Text → Bool
has_crlf [] = false
has_crlf (c ∷ []) = false
has_crlf (c ∷ d ∷ s) = (c == carriage && d == newline) || has_crlf (d ∷ s)

unfoldable pub insert_into_section : Text → SectionRange → Text → Position → Text
unfolding has_crlf insertion_lines insert_lines
insert_into_section content range text position =
    let crlf = has_crlf content in
    join newline
      (insert_lines (split newline content) range (insertion_lines text crlf) crlf position)

-- ===== src/Vault/Sections/Insert.antt =====
-- src/vault/sections.ts: an insertion into a section loses no line that holds text.
use brainstem_mcp.Prelude.{
  Bool, Bool-cases, List, Text, [], ap, arith, drop, filter, if◌then◌else◌, inl, inr, leb, length,
  ltb, not, refl, suc, sym, take, zero, ℕ, ◌&&◌, ◌++◌, ◌+◌, ◌-◌, ◌<◌, ◌∙◌, ◌∷◌, ◌≡◌, ◌≤◌,
}
use brainstem_mcp.Vault.Sections.{
  Position, SectionRange, at_end, at_start, blank_at, carriage, ends_empty, insert_lines, is_blank,
  last_non_blank, splice, strip_cr,
}
use mathlib.Core.List.{append-nil}

abbrev pub holds_text : Text → Bool
unfolding is_blank
holds_text line = not (is_blank line)

-- The lines that hold text.
abbrev pub solid : List Text → List Text
unfolding is_blank
solid lines = filter holds_text lines

module _ {A : Type 0} where
  filter-append : (p : A → Bool) (xs ys : List A) → filter p (xs ++ ys) ≡ filter p xs ++ filter p ys
  filter-append p [] ys = refl
  filter-append p (x ∷ xs) ys = ground (arith, filter-append p xs ys)

  drop_none : (a : ℕ) → drop {A = A} a [] ≡ []
  drop_none zero = refl
  drop_none (suc a) = refl

  drop-drop : (a b : ℕ) (xs : List A) → drop a (drop b xs) ≡ drop (b + a) xs
  drop-drop a zero xs = ap (λ m. drop m xs) (omega arith)
  drop-drop a (suc b) [] = drop_none a ∙ sym (drop_none (suc b + a))
  drop-drop a (suc b) (x ∷ xs) =
      let same : suc (b + a) ≡ suc b + a = omega arith in
      drop-drop a b xs ∙ ap (λ m. drop m (x ∷ xs)) same

-- The last line that is not blank stands in the part looked at, or before it.
last_non_blank_bounds :
    (lines : List Text) (n i last : ℕ)
    → last < i
    → (last ≤ last_non_blank lines n i last) × (last_non_blank lines n i last < i + n)
unfolding last_non_blank
last_non_blank_bounds lines zero i last h = (omega arith, omega arith)
last_non_blank_bounds [] (suc n) i last h = (omega arith, omega arith)
last_non_blank_bounds (x ∷ lines) (suc n) i last h = elim (Bool-cases (is_blank x)) [
  | inl e ↦
      let ih = last_non_blank_bounds lines n (i + 1) last (omega arith) in
      rw (e, last_non_blank) (omega (arith, ih.0), omega (arith, ih.1))
  | inr e ↦
      let ih = last_non_blank_bounds lines n (i + 1) i (omega arith) in
      rw (e, last_non_blank) (omega (arith, ih.0), omega (arith, ih.1))
]

past_blank :
    (x : Text) (lines : List Text) (m i : ℕ)
    → solid (x ∷ lines) ≡ solid lines
    → solid (drop (m + 1 - i) (x ∷ lines)) ≡ solid (drop (m + 1 - (i + 1)) lines)
past_blank x lines m i blank = elim (Bool-cases (ltb m i)) [
  | inl before ↦
      let here : m + 1 - i ≡ 0 = ground arith in
      let next : m + 1 - (i + 1) ≡ 0 = ground arith in
      ap (λ j. solid (drop j (x ∷ lines))) here ∙ blank ∙ ap (λ j. solid (drop j lines)) (sym next)
  | inr after ↦
      let next : m + 1 - i ≡ suc (m + 1 - (i + 1)) = ground arith in
      ap (λ j. solid (drop j (x ∷ lines))) next
]

-- The lines after it, up to the end of the part looked at, are blank.
last_non_blank-solid :
    (lines : List Text) (n i last : ℕ)
    → last < i
    → solid (drop (last_non_blank lines n i last + 1 - i) lines) ≡ solid (drop n lines)
unfolding last_non_blank
last_non_blank-solid lines zero i last h =
    let first : last + 1 - i ≡ 0 = omega arith in ap (λ m. solid (drop m lines)) first
last_non_blank-solid [] (suc n) i last h = ap solid (drop_none (last + 1 - i))
last_non_blank-solid (x ∷ lines) (suc n) i last h = elim (Bool-cases (is_blank x)) [
  | inl e ↦
      let ih = last_non_blank-solid lines n (i + 1) last (omega arith) in
      let m = last_non_blank lines n (i + 1) last in
      let blank : solid (x ∷ lines) ≡ solid lines = ground arith in
      rw (e, last_non_blank) (past_blank x lines m i blank ∙ ih)
  | inr e ↦
      let ih = last_non_blank-solid lines n (i + 1) i (omega arith) in
      let m = last_non_blank lines n (i + 1) i in
      let after : m + 1 - i ≡ suc (m + 1 - (i + 1)) =
        omega (arith, (last_non_blank_bounds lines n (i + 1) i (omega arith)).0) in
      rw (e, last_non_blank) (ap (λ j. solid (drop j (x ∷ lines))) after ∙ ih)
]

solid-splice :
    (at count : ℕ) (new lines : List Text)
    → solid (splice at count new lines)
      ≡ solid (take at lines) ++ (solid new ++ solid (drop (at + count) lines))
unfolding solid
solid-splice at count new lines =
    filter-append holds_text (take at lines) (new ++ drop (at + count) lines)
    ∙ ap (◌++◌ (solid (take at lines))) (filter-append holds_text new (drop (at + count) lines))

solid-splice_none :
    (at : ℕ) (new lines : List Text)
    → solid (splice at 0 new lines) ≡ solid (take at lines) ++ (solid new ++ solid (drop at lines))
solid-splice_none at new lines =
    let none_gone : at + 0 ≡ at = omega arith in
    solid-splice at 0 new lines
    ∙ ap (λ j. solid (take at lines) ++ (solid new ++ solid (drop j lines))) none_gone

-- The separating line is blank, and so are the lines that go.
solid-splice_blank :
    (at count end : ℕ) (crlf : Bool) (new lines : List Text)
    → at + count ≡ end
    → solid (drop at lines) ≡ solid (drop end lines)
    → solid (splice at count (new ++ (if crlf then carriage ∷ [] else []) ∷ []) lines)
      ≡ solid (take at lines) ++ (solid new ++ solid (drop at lines))
unfolding solid holds_text is_blank strip_cr
solid-splice_blank at count end crlf new lines reach blank =
    let sep = if crlf then carriage ∷ [] else [] in
    let empty : solid (sep ∷ []) ≡ [] = ground arith in
    let fresh : solid (new ++ sep ∷ []) ≡ solid new =
      filter-append holds_text new (sep ∷ [])
      ∙ ap (◌++◌ (solid new)) empty
      ∙ append-nil (solid new) in
    solid-splice at count (new ++ sep ∷ []) lines
    ∙ ap (λ t. solid (take at lines) ++ (t ++ solid (drop (at + count) lines))) fresh
    ∙ ap (λ j. solid (take at lines) ++ (solid new ++ solid (drop j lines))) reach
    ∙ ap (λ t. solid (take at lines) ++ (solid new ++ t)) (sym blank)

-- The line after which an insertion at the end of a section goes.
last_line : List Text → SectionRange → ℕ
unfolding last_non_blank
last_line lines range =
    last_non_blank (drop (range.start_line - 1) lines) (range.end_line - (range.start_line - 1))
      (range.start_line - 1) (range.start_line - 1)

last_non_blank-first :
    (lines : List Text) (n i : ℕ)
    → (i ≤ last_non_blank lines (suc n) i i)
      × (last_non_blank lines (suc n) i i < i + suc n)
      × (solid (drop (last_non_blank lines (suc n) i i + 1 - i) lines) ≡ solid (drop (suc n) lines))
unfolding last_non_blank
last_non_blank-first [] n i = (omega arith, omega arith, ap solid (drop_none (i + 1 - i)))
last_non_blank-first (x ∷ lines) n i =
    let same : last_non_blank (x ∷ lines) (suc n) i i ≡ last_non_blank lines n (i + 1) i =
      ground arith in
    let bounds = last_non_blank_bounds lines n (i + 1) i (omega arith) in
    let m = last_non_blank lines n (i + 1) i in
    let after : m + 1 - i ≡ suc (m + 1 - (i + 1)) = omega (arith, bounds.0) in
    rw same (
      bounds.0,
      omega (arith, bounds.1),
      ap (λ j. solid (drop j (x ∷ lines))) after
          ∙ last_non_blank-solid lines n (i + 1) i (omega arith),
    )

last_line_lem :
    (lines : List Text) (range : SectionRange)
    → 1 ≤ range.start_line
    → range.start_line ≤ range.end_line
    → (range.start_line ≤ last_line lines range + 1)
      × (last_line lines range + 1 ≤ range.end_line)
      × (solid (drop (last_line lines range + 1) lines) ≡ solid (drop range.end_line lines))
unfolding last_line
last_line_lem lines range one order =
    let i = range.start_line - 1 in
    let n = range.end_line - range.start_line in
    let count : range.end_line - (range.start_line - 1) ≡ suc n = omega (arith, one, order) in
    let (low, high, blank) = last_non_blank-first (drop i lines) n i in
    let m = last_non_blank (drop i lines) (suc n) i i in
    let here : i + (m + 1 - i) ≡ m + 1 = omega (arith, low) in
    let there : i + suc n ≡ range.end_line = omega (arith, one, order) in
    let moved : solid (drop (m + 1) lines) ≡ solid (drop range.end_line lines) =
      ap (λ j. solid (drop j lines)) (sym here)
      ∙ ap solid (sym (drop-drop (m + 1 - i) i lines))
      ∙ blank
      ∙ ap solid (drop-drop (suc n) i lines)
      ∙ ap (λ j. solid (drop j lines)) there in
    rw count (omega (arith, low, one), omega (arith, high, one, order), moved)

-- The lines that hold text after an insertion are those before it, with the new ones between two
-- of them: nothing but blank lines goes, and the new lines stand after the heading and not after
-- the section, at either end of it, for a range that is not empty.
pub insert_lines-keeps :
    (lines : List Text) (range : SectionRange) (new : List Text) (crlf : Bool) (position : Position)
    → 1 ≤ range.start_line
    → range.start_line ≤ range.end_line
    → (at : ℕ) × (range.start_line ≤ at)
      × (at ≤ range.end_line)
      × (solid (insert_lines lines range new crlf position)
          ≡ solid (take at lines) ++ (solid new ++ solid (drop at lines)))
unfolding insert_lines last_line
insert_lines-keeps lines range new crlf at_start one order =
    let cond = leb (range.start_line + 1) range.end_line && blank_at lines range.start_line in
    let at = if cond then range.start_line + 1 else range.start_line in
    (at, ground arith, ground arith, solid-splice_none at new lines)
insert_lines-keeps lines range new crlf at_end one order =
    let last = last_line lines range in
    let at = last + 1 in
    let (low, high, blank) = last_line_lem lines range one order in
    let inserted = splice at 0 new lines in
    (
      at,
      low,
      high,
      elim (Bool-cases (ltb range.end_line (length lines))) [
        | inl e ↦ rw e (
            solid-splice_blank at (range.end_line - 1 - last) range.end_line crlf new lines
              (omega (arith, high)) blank)
        | inr e ↦ elim (Bool-cases (ends_empty inserted)) [
          | inl f ↦ rw (e, f) (solid-splice_none at new lines)
          | inr f ↦
              rw (e, f)
                (filter-append holds_text inserted ([] ∷ [])
                  ∙ append-nil (solid inserted)
                  ∙ solid-splice_none at new lines)
        ]
      ],
    )

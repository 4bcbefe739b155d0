-- ===== src/Vault/Sections/Ranges.antt =====
-- src/vault/sections.ts: the range of a section that is found.
use brainstem_mcp.Prelude.{
  All, All-append, All-append_right, All-map, Bool, Bool-cases, List, Option, Option-cases, Text,
  [], ap, arith, false, if◌then◌else◌, inl, inr, leb, none, refl, some, text_eq-eq, ℕ, ◌++◌, ◌+◌,
  ◌-◌, ◌<◌, ◌∙◌, ◌∷◌, ◌≡◌, ◌≤◌, ◌⊎◌,
}
use brainstem_mcp.Vault.Sections.{
  HeadingHit, SectionRange, end_of, find_section, find_segments, first_found, normalize_segment,
  range_for, resolve_segments, segments_of, skips,
}

-- Headings in the order of their lines, within the text.
abbrev pub InOrder : ℕ → List HeadingHit → Type 0
InOrder total [] = Unit
InOrder total (h ∷ later) =
    (h.line ≤ total) × All (λ k. h.line < k.line) later × InOrder total later

-- The heading stands in the list.
abbrev pub Listed : HeadingHit → List HeadingHit → Type 0
Listed h headings =
    (before : List HeadingHit) × (later : List HeadingHit) × (headings ≡ before ++ h ∷ later)

-- The line is the last one of the text, or the next heading not below the level follows it.
abbrev pub EndsAt : ℕ → ℕ → List HeadingHit → ℕ → Type 0
EndsAt level total headings line =
    (line ≡ total)
    ⊎ ((k : HeadingHit) × Listed k headings × (k.line ≡ line + 1) × (k.level ≤ level))

-- The range of a listed heading: it starts at its line, has its level and text, lies within the
-- text, every heading under it is deeper than its own, and it goes as far as that allows.
pub record IsSection (total : ℕ) (headings : List HeadingHit) (r : SectionRange) : Type 0 where
  pub own :
      (h : HeadingHit) × Listed h headings
      × (r.start_line ≡ h.line)
      × (r.level ≡ h.level)
      × (r.heading ≡ h.text)
  pub not_empty : r.start_line ≤ r.end_line
  pub within : r.end_line ≤ total
  pub deeper : All (λ k. r.start_line < k.line → k.line ≤ r.end_line → r.level < k.level) headings
  pub ends : EndsAt r.level total headings r.end_line

end_of_bounds :
    (line level total : ℕ) (later : List HeadingHit)
    → line ≤ total
    → All (λ k. line < k.line) later
    → InOrder total later
    → (line ≤ end_of level total later) × (end_of level total later ≤ total)
unfolding end_of
end_of_bounds line level total [] h a s = (h, omega arith)
end_of_bounds line level total (k ∷ later) h a s =
    let ih = end_of_bounds line level total later h a.1 s.2 in
    let under = a.0 in let within = s.0 in (ground (arith, ih.0), ground (arith, ih.1))

after_end :
    (level total n : ℕ) (later : List HeadingHit) (line e : ℕ)
    → All (λ k. line < k.line) later
    → e < line + 1
    → All (λ k. n < k.line → k.line ≤ e → level < k.level) later
after_end level total n [] line e a h = tt
after_end level total n (k ∷ later) line e a h =
    (λ s t. let above = a.0 in omega arith, after_end level total n later line e a.1 h)

end_of-deeper :
    (n level total : ℕ) (later : List HeadingHit)
    → InOrder total later
    → All (λ k. n < k.line → k.line ≤ end_of level total later → level < k.level) later
unfolding end_of
end_of-deeper n level total [] s = tt
end_of-deeper n level total (k ∷ later) s = elim (Bool-cases (leb k.level level)) [
  | inl e ↦
      let same : end_of level total (k ∷ later) ≡ k.line - 1 = ground arith in
      (
        λ a b. ground arith,
        after_end level total n later k.line (end_of level total (k ∷ later)) s.1 (omega arith),
      )
  | inr e ↦
      let same : end_of level total (k ∷ later) ≡ end_of level total later = ground arith in
      (
        λ a b. ground arith,
        All-map later (λ j deeper a b. deeper a (omega (arith, same, b)))
            (end_of-deeper n level total later s.2),
      )
]

Listed-left :
    (k : HeadingHit) (before later : List HeadingHit) → Listed k later → Listed k (before ++ later)
Listed-left k [] later l = l
Listed-left k (h ∷ before) later l =
    let (above, below, parts) = Listed-left k before later l in (h ∷ above, below, ap (◌∷◌ h) parts)

end_of-EndsAt :
    (line level total : ℕ) (later : List HeadingHit)
    → All (λ k. line < k.line) later
    → EndsAt level total later (end_of level total later)
unfolding end_of
end_of-EndsAt line level total [] a = inl refl
end_of-EndsAt line level total (k ∷ later) a = elim (Bool-cases (leb k.level level)) [
  | inl e ↦
      let above : line < k.line = a.0 in
      rw e (inr (k, ([], later, refl), omega (arith, above), ground (arith, e)))
  | inr e ↦ rw e (elim (end_of-EndsAt line level total later a.1) [
    | inl last ↦ inl last
    | inr (j, l, next, high) ↦ inr (j, Listed-left j (k ∷ []) later l, next, high)
  ])
]

InOrder-append_right :
    (total : ℕ) (before later : List HeadingHit)
    → InOrder total (before ++ later)
    → InOrder total later
InOrder-append_right total [] later s = s
InOrder-append_right total (k ∷ before) later s = InOrder-append_right total before later s.2

InOrder-append_left :
    (total : ℕ) (before : List HeadingHit) (h : HeadingHit) (later : List HeadingHit)
    → InOrder total (before ++ h ∷ later)
    → All (λ k. k.line < h.line) before
InOrder-append_left total [] h later s = tt
InOrder-append_left total (k ∷ before) h later s = (
  (All-append_right (λ j. k.line < j.line) before (h ∷ later) s.1).0,
  InOrder-append_left total before h later s.2,
)

range_for-IsSection :
    (total : ℕ) (before : List HeadingHit) (h : HeadingHit) (later : List HeadingHit)
    → InOrder total (before ++ h ∷ later)
    → IsSection total (before ++ h ∷ later) (range_for total h later)
unfolding range_for
range_for-IsSection total before h later s =
    let own : InOrder total (h ∷ later) = InOrder-append_right total before (h ∷ later) s in
    let bounds = end_of_bounds h.line h.level total later own.0 own.1 own.2 in
    let lower = InOrder-append_left total before h later s in
    record {
      own = (h, (before, later, refl), refl, refl, refl);
      not_empty = bounds.0;
      within = bounds.1;
      deeper =
          All-append _ before (h ∷ later)
            (All-map before (λ k below a b. omega (arith, below, a)) lower)
            (λ a b. omega (arith, a), end_of-deeper h.line h.level total later own.2);
      ends = elim (end_of-EndsAt h.line h.level total later own.1) [
        | inl last ↦ inl last
        | inr (k, l, next, high) ↦
            inr (k, Listed-left k before (h ∷ later) (Listed-left k (h ∷ []) later l), next, high)
      ];
    }

first_found-comes :
    (try : HeadingHit → List HeadingHit → Option SectionRange) (headings : List HeadingHit)
    (r : SectionRange)
    → first_found try headings ≡ some r
    → (before : List HeadingHit) × (h : HeadingHit) × (later : List HeadingHit) × (headings
        ≡ before ++ h ∷ later)
      × (try h later ≡ some r)
unfolding first_found
first_found-comes try [] r e = cc
first_found-comes try (h ∷ later) r e = elim (Option-cases (try h later)) [
  | inl missed ↦
      let found : first_found try later ≡ some r = ground arith in
      let (before, k, rest, parts, hit) = first_found-comes try later r found in
      (h ∷ before, k, rest, ap (◌∷◌ h) parts, hit)
  | inr (q, hit) ↦ let same : some q ≡ some r = ground arith in ([], h, later, refl, hit ∙ same)
]

not_skipped :
    (b : Bool) (o : Option SectionRange) (r : SectionRange)
    → (if b then none else o) ≡ some r
    → (b ≡ false) × (o ≡ some r)
not_skipped b o r e = (ground arith, ground arith)

-- The last of the segments, the first given apart.
abbrev pub last_segment : Text → List Text → Text
last_segment segment [] = segment
last_segment segment (s ∷ segments) = last_segment s segments

module _ (lower : Text → Text) (headings : List HeadingHit) (total : ℕ) where
  -- The range is that of a heading with this name, from a line on, deeper than a level.
  Names : Text → ℕ → ℕ → SectionRange → Type 0
  Names name bounds_start parent r =
      (before : List HeadingHit) × (h : HeadingHit) × (later : List HeadingHit) × (headings
        ≡ before ++ h ∷ later)
      × (r ≡ range_for total h later)
      × (lower h.text ≡ lower name)
      × (bounds_start ≤ h.line)
      × (parent < h.level)

  skips-false :
      (segment : Text) (bounds_start bounds_end parent : ℕ) (h : HeadingHit)
      → skips lower headings total segment bounds_start bounds_end parent h ≡ false
      → (bounds_start ≤ h.line) × (parent < h.level) × (lower h.text ≡ lower segment)
  unfolding skips
  skips-false segment bs be parent h e = (ground arith, ground arith, text_eq-eq _ _ (ground arith))

  resolve_segments-Names :
      (segment : Text) (segments : List Text) (bounds_start bounds_end parent : ℕ)
      (r : SectionRange)
      → resolve_segments lower headings total (segment ∷ segments) bounds_start bounds_end parent
        ≡ some r
      → Names (last_segment segment segments) bounds_start parent r
  unfolding resolve_segments range_for Names
  resolve_segments-Names segment [] bs be parent r e =
      let (before, h, later, parts, hit) = first_found-comes _ headings r e in
      let (passed, found) = not_skipped _ _ r hit in
      let (first, deeper, named) = skips-false segment bs be parent h passed in
      let same : r ≡ range_for total h later = cc in
      (before, h, later, parts, same, named, first, deeper)
  resolve_segments-Names segment (s ∷ segments) bs be parent r e =
      let (before, h, later, parts, hit) = first_found-comes _ headings r e in
      let (passed, found) = not_skipped _ _ r hit in
      let (first, deeper, named) = skips-false segment bs be parent h passed in
      let outer = range_for total h later in
      let (above, k, below, parts', same, named', first', deeper') =
        resolve_segments-Names s segments outer.start_line outer.end_line outer.level r found in
      (
        above,
        k,
        below,
        parts',
        same,
        named',
        omega (arith, first, first'),
        omega (arith, deeper, deeper'),
      )

  Names-IsSection :
      (name : Text) (bounds_start parent : ℕ) (r : SectionRange)
      → InOrder total headings
      → Names name bounds_start parent r
      → IsSection total headings r × (lower r.heading ≡ lower name)
  unfolding range_for Names
  Names-IsSection name bs parent r s (before, h, later, parts, same, named, _, _) =
      (rw (parts, same) (range_for-IsSection total before h later (rw parts at s)), rw same named)

  find_segments-Names :
      (segments : List Text) (whole : Text) (r : SectionRange)
      → find_segments lower headings total segments whole ≡ some r
      → ((segment : Text) × (deeper : List Text) × (segments ≡ segment ∷ deeper)
          × Names (last_segment segment deeper) 1 0 r)
        ⊎ Names whole 1 0 r
  unfolding find_segments
  find_segments-Names [] whole r e =
      inr (resolve_segments-Names whole [] 1 total 0 r (ground arith))
  find_segments-Names (segment ∷ segments) whole r e =
      elim (Option-cases (resolve_segments lower headings total (segment ∷ segments) 1 total 0)) [
        | inr (q, nested) ↦ inl (
          segment,
          segments,
          refl,
          resolve_segments-Names segment segments 1 total 0 r (ground arith),
        )
        | inl missed ↦ inr (resolve_segments-Names whole [] 1 total 0 r (ground arith))
      ]

  -- What is found for a path is the section of one of the headings: it starts at the line of the
  -- heading, lies within the text, holds no other heading of its level or a higher one, and ends at
  -- the end of the text or right before the next heading of its level or a higher one; and its
  -- heading equals, in lower case, the last segment of the path or else the path as a whole. The
  -- headings are assumed to be in the order of their lines.
  pub find_section-IsSection :
      (path : Text) (r : SectionRange)
      → InOrder total headings
      → find_section lower headings total path ≡ some r
      → IsSection total headings r
        × (((segment : Text) × (deeper : List Text) × (segments_of path ≡ segment ∷ deeper)
              × (lower r.heading ≡ lower (last_segment segment deeper)))
            ⊎ (lower r.heading ≡ lower (normalize_segment path)))
  unfolding find_section
  find_section-IsSection path r s e =
      elim (find_segments-Names (segments_of path) (normalize_segment path) r e) [
        | inl (segment, deeper, parts, named) ↦
            let found = Names-IsSection _ 1 0 r s named in
            (found.0, inl (segment, deeper, parts, found.1))
        | inr named ↦ let found = Names-IsSection _ 1 0 r s named in (found.0, inr found.1)
      ]

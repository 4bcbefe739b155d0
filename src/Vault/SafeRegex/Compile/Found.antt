-- ===== src/Vault/SafeRegex/Compile/Found.antt =====
-- src/vault/safe-regex.ts: what a compiled search finds.
use brainstem_mcp.Prelude.{
  All, Bool, Bool-cases, List, Text, ap, arith, false, inl, inr, length, ltb, none, some, subst,
  sym, ℕ, ◌*◌, ◌++◌, ◌<◌, ◌∙◌, ◌≡◌, ◌≤◌,
}
use brainstem_mcp.Vault.SafeRegex.{Ast, max_subject_chars}
use brainstem_mcp.Vault.SafeRegex.Compile.{
  Automaton, SafeSearchMatcher, compile_safe_search, find_line, search_fold, search_variants,
}
use brainstem_mcp.Vault.SafeRegex.Compile.Correct.{
  IsCompiled, MatchAt, NoneBefore, find_in-leftmost, searched,
}
use brainstem_mcp.Vault.SafeRegex.Language.{Matches}
use brainstem_mcp.Vault.SafeRegex.Literals.{cannot_match, derive_required_literals}
use brainstem_mcp.Vault.SafeRegex.Literals.Held.{units}
use brainstem_mcp.Vault.SafeRegex.Literals.Ruled.{cannot_match_lem}
use brainstem_mcp.Vault.SafeRegex.Literals.Sound.{Folds}
use brainstem_mcp.Vault.SafeRegex.Literals.Units.{units-code_points}
use brainstem_mcp.Vault.SafeRegex.Matcher.{code_points}
use brainstem_mcp.Vault.SafeRegex.Matcher.Tested.{length-code_points}
use brainstem_mcp.Vault.SafeRegex.Nfa.Compiled.{build_nfa-accepts}
use brainstem_mcp.Vault.SafeRegex.Parser.{parse_pattern}
use brainstem_mcp.Vault.SafeRegex.Pattern.{parsed}
use brainstem_mcp.Vault.SafeRegex.Search.{SearchMatch}
use brainstem_mcp.Vault.SafeRegex.Search.Finds.{find_in-Early}

find_line-leftmost :
    (fold : Text → Text) (variants : ℕ → List ℕ) (pattern : Text) (a : Automaton) (line : Text)
    (m : SearchMatch)
    → IsCompiled pattern a
    → find_line fold variants a line ≡ some m
    → MatchAt variants a.ast (code_points line) m
      × NoneBefore variants a.ast (code_points line) m.start
unfolding find_line
find_line-leftmost fold variants pattern a line m k e =
    elim (Bool-cases (cannot_match fold (derive_required_literals a.ast) line)) [
      | inl out ↦ let no : none ≡ some m = rw out at e in cc
      | inr may ↦ elim (Bool-cases (ltb (2 * max_subject_chars) (length line))) [
        | inl out ↦ let no : none ≡ some m = rw (may, out) at e in cc
        | inr short ↦ elim (Bool-cases (ltb max_subject_chars (length (code_points line)))) [
          | inl out ↦ let no : none ≡ some m = rw (may, short, out) at e in cc
          | inr fits ↦
              find_in-leftmost variants pattern a (code_points line) m k
                (rw (may, short, fits) at e)
        ]
      ]
    ]

not_over : (a n : ℕ) → n ≤ a → ltb a n ≡ false
not_over a n h = ground arith

-- A match in a line of at most 2048 characters is not missed.
find_line-finds :
    (fold : Text → Text) (variants : ℕ → List ℕ) (pattern : Text) (a : Automaton) (line : Text)
    (y x z : List ℕ)
    → Folds variants fold
    → IsCompiled pattern a
    → All (λ u. u < 0x10000) line
    → length (code_points line) ≤ max_subject_chars
    → code_points line ≡ y ++ (x ++ z)
    → Matches variants a.ast x
    → (m : SearchMatch) × (find_line fold variants a line ≡ some m)
unfolding find_line
find_line-finds fold variants pattern a line y x z folds k units16 fits parts h =
    let whole : units (y ++ (x ++ z)) ≡ line =
      ap units (sym parts) ∙ units-code_points line units16 in
    let may : cannot_match fold (derive_required_literals a.ast) line ≡ false =
      subst (λ t. cannot_match fold (derive_required_literals a.ast) t ≡ false) whole
        (cannot_match_lem variants fold folds a.ast y x z h) in
    let half = length-code_points line in
    let short : ltb (2 * max_subject_chars) (length line) ≡ false =
      not_over (2 * max_subject_chars) (length line) (omega (arith, half, fits)) in
    let inside : ltb max_subject_chars (length (code_points line)) ≡ false =
      not_over max_subject_chars (length (code_points line)) fits in
    let (m, found, _) =
      find_in-Early variants a.nfa y x z (code_points line) parts
        ((build_nfa-accepts variants a.ast a.nfa x k.bounded k.builds).1 h) in
    (m, rw (may, short, inside) found)

module _ (lower_case upper_case : Text → Text) where
  -- What `find` of a compiled search returns is a match of the pattern in the line, and no match
  -- starts before it.
  pub compile_safe_search-leftmost :
      (case_sensitive : Bool) (pattern line : Text) (matcher : SafeSearchMatcher) (m : SearchMatch)
      → compile_safe_search lower_case upper_case case_sensitive pattern ≡ parsed matcher
      → matcher.find line ≡ some m
      → (ast : Ast) × (parse_pattern (code_points pattern) ≡ parsed ast)
        × MatchAt (search_variants lower_case upper_case case_sensitive) ast (code_points line) m
        × NoneBefore
            (search_variants lower_case upper_case case_sensitive)
            ast
            (code_points line)
            m.start
  compile_safe_search-leftmost case_sensitive pattern line matcher m e found =
      let variants = search_variants lower_case upper_case case_sensitive in
      let (a, k, same) = searched lower_case upper_case case_sensitive pattern matcher e in
      let (here, first) =
        find_line-leftmost (search_fold lower_case upper_case case_sensitive) variants pattern a
          line m k (ap (λ f. f line) (sym same) ∙ found) in
      (a.ast, k.parses, here, first)

  -- Where folding a text works character by character and makes the variants of a character
  -- equal, `find` of a compiled search returns a match for a line of 16-bit units and at most 2048
  -- characters with a part that the pattern's syntax tree matches: neither the prefilter nor the
  -- caps lose it.
  pub compile_safe_search-finds :
      (case_sensitive : Bool) (pattern line : Text) (matcher : SafeSearchMatcher) (ast : Ast)
      (y x z : List ℕ)
      → Folds
          (search_variants lower_case upper_case case_sensitive)
          (search_fold lower_case upper_case case_sensitive)
      → compile_safe_search lower_case upper_case case_sensitive pattern ≡ parsed matcher
      → parse_pattern (code_points pattern) ≡ parsed ast
      → All (λ u. u < 0x10000) line
      → length (code_points line) ≤ max_subject_chars
      → code_points line ≡ y ++ (x ++ z)
      → Matches (search_variants lower_case upper_case case_sensitive) ast x
      → (m : SearchMatch) × (matcher.find line ≡ some m)
  compile_safe_search-finds case_sensitive pattern line matcher ast y x z folds e p units16 fits
        parts h =
      let variants = search_variants lower_case upper_case case_sensitive in
      let (a, k, same) = searched lower_case upper_case case_sensitive pattern matcher e in
      let tree : parsed ast ≡ parsed a.ast = sym p ∙ k.parses in
      let trees : ast ≡ a.ast = cc in
      let (m, found) =
        find_line-finds (search_fold lower_case upper_case case_sensitive) variants pattern a line y
          x z folds k units16 fits parts (subst (λ t. Matches variants t x) trees h) in
      (m, ap (λ f. f line) same ∙ found)

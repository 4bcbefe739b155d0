-- ===== src/Vault/SafeRegex/Compile/Tests.antt =====
-- src/vault/safe-regex.ts on concrete patterns and lines.
use brainstem_mcp.Prelude.{
  Bool, List, Option, Text, [], ap, arith, codes, false, get_elem?, if◌then◌else◌, length, map,
  none, refl, some, sym, true, ℕ, ◌++◌, ◌<◌, ◌==◌, ◌||◌, ◌↔◌, ◌∷◌, ◌≡◌, ◌≤◌,
}
use brainstem_mcp.Storage.Types.{ok}
use brainstem_mcp.Vault.SafeRegex.{
  Ast, concat, last, literal_set, max_nfa_states, max_subject_chars, more, range, repeat, set,
  set_matches,
}
use brainstem_mcp.Vault.SafeRegex.Compile.{
  Automaton, SafeMatcher, SafeSearchMatcher, compile_safe_pattern, compile_safe_search, find_line,
  search_fold, search_variants, text_variants,
}
use brainstem_mcp.Vault.SafeRegex.Compile.Correct.{
  MatchAt, NoneBefore, compile_safe_pattern-decides,
}
use brainstem_mcp.Vault.SafeRegex.Compile.Found.{
  compile_safe_search-finds, compile_safe_search-leftmost,
}
use brainstem_mcp.Vault.SafeRegex.Language.{Matches, One, Power}
use brainstem_mcp.Vault.SafeRegex.Literals.{cannot_match, char_text, derive_required_literals}
use brainstem_mcp.Vault.SafeRegex.Literals.Held.{units}
use brainstem_mcp.Vault.SafeRegex.Literals.Ruled.{cannot_match_lem}
use brainstem_mcp.Vault.SafeRegex.Literals.Sound.{Folds}
use brainstem_mcp.Vault.SafeRegex.Matcher.{code_points, marked, test}
use brainstem_mcp.Vault.SafeRegex.Nfa.{Nfa, build_nfa, char_state, match_state, split_state}
use brainstem_mcp.Vault.SafeRegex.Nfa.Accepts.{Accepts}
use brainstem_mcp.Vault.SafeRegex.Nfa.Built.{TargetsBelow}
use brainstem_mcp.Vault.SafeRegex.Nfa.Closed.{build_nfa-closed}
use brainstem_mcp.Vault.SafeRegex.Nfa.Compiled.{IsBounded, build_nfa-accepts}
use brainstem_mcp.Vault.SafeRegex.Nfa.Sizes.{build_nfa-bounded}
use brainstem_mcp.Vault.SafeRegex.Parser.{parse_pattern}
use brainstem_mcp.Vault.SafeRegex.Parser.Bounded.{parse_pattern-IsBounded}
use brainstem_mcp.Vault.SafeRegex.Parser.Ends.{Gives}
use brainstem_mcp.Vault.SafeRegex.Pattern.{Parse, invalid, parsed}
use brainstem_mcp.Vault.SafeRegex.Search.{SearchMatch}

-- Two letters with case: S, whose lower case is s, and the long s, whose upper case is S.
abbrev lower_letter : ℕ → ℕ
lower_letter c = if c == 83 then 115 else c

abbrev upper_letter : ℕ → ℕ
upper_letter c = if c == 115 || c == 383 then 83 else c

abbrev lower_text : Text → Text
lower_text s = map lower_letter s

abbrev upper_text : Text → Text
upper_text s = map upper_letter s

abbrev tested : Parse SafeMatcher → Text → Option Bool
tested (parsed m) s = some (m.test s)
tested _ s = none

abbrev found : Parse SafeSearchMatcher → Text → Option SearchMatch
found (parsed m) s = m.find s
found _ s = none

-- A star, a counted repetition, an alternative, and what the parser refuses.
stars :
    tested (compile_safe_pattern lower_text upper_text (codes "a*b{2}|S")) (codes "aabb")
    ≡ some true
unfolding compile_safe_pattern set_matches text_variants char_text
stars = refl

ignores_case :
    tested (compile_safe_pattern lower_text upper_text (codes "a*b{2}|S")) (codes "s") ≡ some true
unfolding compile_safe_pattern set_matches text_variants char_text
ignores_case = refl

whole_subject :
    tested (compile_safe_pattern lower_text upper_text (codes "a*b{2}|S")) (codes "aabbb")
    ≡ some false
unfolding compile_safe_pattern set_matches text_variants char_text
whole_subject = refl

refuses_anchor : compile_safe_pattern lower_text upper_text (codes "^a") ≡ invalid
unfolding compile_safe_pattern
refuses_anchor = refl

-- The first alternative wins among the leftmost matches.
first_alternative :
    found (compile_safe_search lower_text upper_text true (codes "a|ab")) (codes "xab")
    ≡ some (record { start = 1; end = 2 })
unfolding compile_safe_search char_text set_matches
first_alternative = refl

-- The automaton matches the long s with the pattern S, and the prefilter rules it out.
matches_long_s :
    tested (compile_safe_pattern lower_text upper_text (codes "S")) (383 ∷ []) ≡ some true
unfolding compile_safe_pattern set_matches text_variants char_text
matches_long_s = refl

misses_long_s :
    found (compile_safe_search lower_text upper_text false (codes "S")) (383 ∷ []) ≡ none
unfolding compile_safe_search char_text
misses_long_s = refl

abbrev letter : ℕ → Ast
letter c = set (literal_set c)

-- The tree of `ab+`.
abbrev tree : Ast
tree = concat (more (letter b'a') (last (repeat (letter b'b') 1 none)))

tree_parses : parse_pattern (code_points (codes "ab+")) ≡ parsed tree
unfolding parse_pattern code_points literal_set
tree_parses = refl

parse_pattern-IsBounded_example : Gives IsBounded (parse_pattern (codes "a{2,3}"))
parse_pattern-IsBounded_example = parse_pattern-IsBounded (codes "a{2,3}")

abbrev plain : Text → Text
plain s = s

abbrev alone : ℕ → List ℕ
alone c = c ∷ []

plain-Folds : Folds alone plain
plain-Folds = record { joins = λ s t. refl; equates = λ c v m. ap char_text (sym (only c v m)) }
  where
    only : (c v : ℕ) → marked (c ∷ []) v ≡ true → c ≡ v
    only c v m = ground arith

tree_matches : Matches alone tree (codes "abb")
unfolding Matches literal_set set_matches
tree_matches =
    (b'a' ∷ [], b'b' ∷ b'b' ∷ [], refl, (b'a', refl, refl), (b'b' ∷ b'b' ∷ [], [], refl, two, refl))
  where
    two : (k : ℕ) × (1 ≤ k) × Power (One alone (literal_set b'b')) k (codes "bb")
    two = (
      2,
      omega arith,
      (
        b'b' ∷ [],
        b'b' ∷ [],
        refl,
        (b'b', refl, refl),
        (b'b' ∷ [], [], refl, (b'b', refl, refl), refl),
      ),
    )

tree-IsBounded : IsBounded tree
unfolding IsBounded
tree-IsBounded = (tt, (omega arith, tt))

cannot_match_lem_example :
    cannot_match plain
      (derive_required_literals tree)
      (units (codes "x" ++ (codes "abb" ++ codes "c")))
    ≡ false
cannot_match_lem_example =
    cannot_match_lem alone plain plain-Folds tree (codes "x") (codes "abb") (codes "c") tree_matches

abbrev automaton : Nfa
automaton = record {
  states =
      char_state (record { negated = false; items = range b'a' b'a' ∷ [] }) (some 1)
      ∷ char_state (record { negated = false; items = range b'b' b'b' ∷ [] }) (some 2)
      ∷ split_state (some 3) (some 4)
      ∷ char_state (record { negated = false; items = range b'b' b'b' ∷ [] }) (some 2)
      ∷ match_state
      ∷ [];
  start = 0;
}

automaton_built : build_nfa tree ≡ ok automaton
unfolding build_nfa literal_set
automaton_built = refl

build_nfa-accepts_example :
    ((n : ℕ) × Accepts alone automaton.states n automaton.start (codes "abb"))
    ↔ Matches alone tree (codes "abb")
build_nfa-accepts_example =
    build_nfa-accepts alone tree automaton (codes "abb") tree-IsBounded automaton_built

abbrev compiled : Automaton
compiled = record { ast = tree; nfa = automaton }

abbrev matcher : SafeMatcher
matcher = record { source = codes "ab+"; test = test (text_variants plain plain) automaton }

matcher_compiles : compile_safe_pattern plain plain (codes "ab+") ≡ parsed matcher
unfolding compile_safe_pattern code_points literal_set
matcher_compiles = refl

compile_safe_pattern-decides_example :
    (ast : Ast) × (parse_pattern (code_points (codes "ab+")) ≡ parsed ast)
    × ((subject : Text)
        → (matcher.test subject ≡ true) ↔ (
            (length (code_points subject) ≤ max_subject_chars)
            × Matches (text_variants plain plain) ast (code_points subject)))
compile_safe_pattern-decides_example =
    compile_safe_pattern-decides plain plain (codes "ab+") matcher matcher_compiles

abbrev searcher : SafeSearchMatcher
searcher = record {
  source = codes "ab+";
  find = find_line (search_fold plain plain true) (search_variants plain plain true) compiled;
  cannot_match = cannot_match (search_fold plain plain true) (derive_required_literals tree);
}

searcher_compiles : compile_safe_search plain plain true (codes "ab+") ≡ parsed searcher
unfolding compile_safe_search code_points literal_set
searcher_compiles = refl

abbrev hit : SearchMatch
hit = record { start = 1; end = 4 }

searcher_hits : searcher.find (codes "xabbc") ≡ some hit
unfolding find_line set_matches char_text literal_set
searcher_hits = refl

compile_safe_search-leftmost_example :
    (ast : Ast) × (parse_pattern (code_points (codes "ab+")) ≡ parsed ast)
    × MatchAt (search_variants plain plain true) ast (code_points (codes "xabbc")) hit
    × NoneBefore (search_variants plain plain true) ast (code_points (codes "xabbc")) 1
compile_safe_search-leftmost_example =
    compile_safe_search-leftmost plain plain true (codes "ab+") (codes "xabbc") searcher hit
      searcher_compiles searcher_hits

line_parts : code_points (codes "xabbc") ≡ codes "x" ++ (codes "abb" ++ codes "c")
unfolding code_points
line_parts = refl

line_length : length (code_points (codes "xabbc")) ≤ max_subject_chars
unfolding code_points
line_length = omega arith

compile_safe_search-finds_example : (m : SearchMatch) × (searcher.find (codes "xabbc") ≡ some m)
compile_safe_search-finds_example =
    compile_safe_search-finds plain plain true (codes "ab+") (codes "xabbc") searcher tree
      (codes "x") (codes "abb") (codes "c") plain-Folds searcher_compiles tree_parses
      (omega arith, (omega arith, (omega arith, (omega arith, (omega arith, tt))))) line_length
      line_parts tree_matches

build_nfa-bounded_example : length automaton.states ≤ max_nfa_states
build_nfa-bounded_example = build_nfa-bounded tree automaton automaton_built

build_nfa-closed_example :
    (automaton.start < length automaton.states)
    × ((i : ℕ)
        → i < length automaton.states
        → TargetsBelow (length automaton.states) (get_elem? automaton.states i))
build_nfa-closed_example = build_nfa-closed tree automaton tree-IsBounded automaton_built

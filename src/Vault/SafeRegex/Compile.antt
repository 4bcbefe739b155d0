-- ===== src/Vault/SafeRegex/Compile.antt =====
-- src/vault/safe-regex.ts: the compiled matchers. `toLowerCase` and `toUpperCase` of a text are
-- arguments. Every refusal is INVALID_INPUT.
pub mod Correct
pub mod Tests
pub mod Found
use brainstem_mcp.Prelude.{
  Bool, List, Option, Text, [], if◌then◌else◌, length, ltb, none, ℕ, ◌*◌, ◌∷◌,
}
use brainstem_mcp.Storage.Types.{Result, err, ok}
use brainstem_mcp.Vault.SafeRegex.{Ast, max_pattern_chars, max_subject_chars, variants_of}
use brainstem_mcp.Vault.SafeRegex.Literals.{cannot_match, char_text, derive_required_literals}
use brainstem_mcp.Vault.SafeRegex.Matcher.{code_points, test}
use brainstem_mcp.Vault.SafeRegex.Nfa.{Nfa, build_nfa}
use brainstem_mcp.Vault.SafeRegex.Parser.{parse_pattern}
use brainstem_mcp.Vault.SafeRegex.Pattern.{Parse, invalid, parsed, ◌>>=◌}
use brainstem_mcp.Vault.SafeRegex.Search.{SearchMatch, find_in}

pub record SafeMatcher : Type 0 where
  pub source : Text
  pub test : Text → Bool

pub record SafeSearchMatcher : Type 0 where
  pub source : Text
  pub find : Text → Option SearchMatch
  pub cannot_match : Text → Bool

-- A pattern's syntax tree and automaton.
pub record Automaton : Type 0 where
  pub ast : Ast
  pub nfa : Nfa

abbrev pub built : Ast → Result Nfa → Parse Automaton
built ast (ok nfa) = parsed (record { ast = ast; nfa = nfa })
built ast (err code) = invalid

unfoldable pub automaton_of : Text → Parse Automaton
unfolding parse_pattern build_nfa
automaton_of pattern =
    if ltb max_pattern_chars (length pattern)
    then invalid
    else (parse_pattern (code_points pattern) >>= λ ast. built ast (build_nfa ast))

-- The prefilter, the caps on the line's length, and the search.
unfoldable pub find_line : (Text → Text) → (ℕ → List ℕ) → Automaton → Text → Option SearchMatch
unfolding find_in cannot_match derive_required_literals code_points
find_line fold variants a line =
    if cannot_match fold (derive_required_literals a.ast) line
    then none
    else if ltb (2 * max_subject_chars) (length line)
    then none
    else if ltb max_subject_chars (length (code_points line))
    then none
    else find_in variants a.nfa (code_points line)

module _ (lower_case upper_case : Text → Text) where
  -- The code points of a character's lower and upper case.
  abbrev pub cased : (Text → Text) → ℕ → List ℕ
  cased change c = code_points (change (char_text c))

  unfoldable pub text_variants : ℕ → List ℕ
  unfolding variants_of
  text_variants c = variants_of (cased lower_case) (cased upper_case) c

  unfoldable pub compile_safe_pattern : Text → Parse SafeMatcher
  unfolding automaton_of test
  compile_safe_pattern pattern = automaton_of pattern >>= λ a.
      parsed (record { source = pattern; test = test text_variants a.nfa })

  abbrev pub search_variants : Bool → ℕ → List ℕ
  search_variants case_sensitive c = if case_sensitive then c ∷ [] else text_variants c

  abbrev pub search_fold : Bool → Text → Text
  search_fold case_sensitive text = if case_sensitive then text else lower_case text

  unfoldable pub compile_safe_search : Bool → Text → Parse SafeSearchMatcher
  unfolding automaton_of find_line cannot_match derive_required_literals
  compile_safe_search case_sensitive pattern = automaton_of pattern >>= λ a. parsed (record {
    source = pattern;
    find = find_line (search_fold case_sensitive) (search_variants case_sensitive) a;
    cannot_match = cannot_match (search_fold case_sensitive) (derive_required_literals a.ast);
  })

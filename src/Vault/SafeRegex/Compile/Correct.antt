-- ===== src/Vault/SafeRegex/Compile/Correct.antt =====
-- src/vault/safe-regex.ts: what the compiled matchers decide and find.
use brainstem_mcp.Prelude.{
  Bool, Bool-cases, List, Text, ap, arith, inl, inr, length, ltb, refl, some, subst, sym, true, ℕ,
  ◌++◌, ◌↔◌, ◌∙◌, ◌≡◌, ◌≤◌,
}
use brainstem_mcp.Storage.Types.{Result, err, ok}
use brainstem_mcp.Vault.SafeRegex.{Ast, max_pattern_chars, max_subject_chars}
use brainstem_mcp.Vault.SafeRegex.Compile.{
  Automaton, SafeMatcher, SafeSearchMatcher, automaton_of, built, compile_safe_pattern,
  compile_safe_search, find_line, search_fold, search_variants, text_variants,
}
use brainstem_mcp.Vault.SafeRegex.Language.{Matches}
use brainstem_mcp.Vault.SafeRegex.Literals.{cannot_match, derive_required_literals}
use brainstem_mcp.Vault.SafeRegex.Matcher.{code_points, test}
use brainstem_mcp.Vault.SafeRegex.Matcher.Tested.{test-decides}
use brainstem_mcp.Vault.SafeRegex.Nfa.{Nfa, build_nfa}
use brainstem_mcp.Vault.SafeRegex.Nfa.Compiled.{IsBounded, build_nfa-accepts}
use brainstem_mcp.Vault.SafeRegex.Parser.{parse_pattern}
use brainstem_mcp.Vault.SafeRegex.Parser.Bounded.{parse_pattern-IsBounded}
use brainstem_mcp.Vault.SafeRegex.Parser.Ends.{Gives}
use brainstem_mcp.Vault.SafeRegex.Pattern.{Parse, invalid, out_of_fuel, parsed, ◌>>=◌}
use brainstem_mcp.Vault.SafeRegex.Search.{SearchMatch, find_in}
use brainstem_mcp.Vault.SafeRegex.Search.Finds.{find_in-Early, find_in-Found}
use brainstem_mcp.Vault.SafeRegex.Search.Leftmost.{FoundIf}

Gives-parsed : {A : Type 0} (P : A → Type 0) (p : Parse A) (a : A) → Gives P p → p ≡ parsed a → P a
Gives-parsed P (parsed b) a g e = let same : b ≡ a = cc in subst P same g
Gives-parsed P invalid a g e = cc
Gives-parsed P out_of_fuel a g e = cc

>>=-eq-parsed :
    {A B : Type 0} (p : Parse A) (next : A → Parse B) (b : B)
    → (p >>= next) ≡ parsed b
    → (a : A) × (p ≡ parsed a) × (next a ≡ parsed b)
>>=-eq-parsed (parsed a) next b e = (a, refl, e)
>>=-eq-parsed invalid next b e = cc
>>=-eq-parsed out_of_fuel next b e = cc

-- The pattern has a syntax tree, whose automaton this is.
pub record IsCompiled (pattern : Text) (a : Automaton) : Type 0 where
  pub short : length pattern ≤ max_pattern_chars
  pub parses : parse_pattern (code_points pattern) ≡ parsed a.ast
  pub builds : build_nfa a.ast ≡ ok a.nfa
  pub bounded : IsBounded a.ast

built-parsed :
    (ast : Ast) (r : Result Nfa) (a : Automaton)
    → built ast r ≡ parsed a
    → (ast ≡ a.ast) × (r ≡ ok a.nfa)
built-parsed ast (ok nfa) a e =
    let same : record { ast = ast; nfa = nfa } ≡ a = cc in
    (ap (λ (x : Automaton). x.ast) same, ap (λ (x : Automaton). ok x.nfa) same)
built-parsed ast (err code) a e = cc

automaton_of-IsCompiled :
    (pattern : Text) (a : Automaton) → automaton_of pattern ≡ parsed a → IsCompiled pattern a
unfolding automaton_of
automaton_of-IsCompiled pattern a e = elim (Bool-cases (ltb max_pattern_chars (length pattern))) [
  | inl over ↦ let no : invalid ≡ parsed a = rw over at e in cc
  | inr within ↦
      let (ast, parses, whole) =
        >>=-eq-parsed (parse_pattern (code_points pattern)) (λ ast. built ast (build_nfa ast)) a
          (rw within at e) in
      let (same, builds) = built-parsed ast (build_nfa ast) a whole in
      record {
        short = ground arith;
        parses = parses ∙ ap parsed same;
        builds = ap build_nfa (sym same) ∙ builds;
        bounded =
            Gives-parsed IsBounded (parse_pattern (code_points pattern)) a.ast
              (parse_pattern-IsBounded (code_points pattern)) (parses ∙ ap parsed same);
      }
]

-- A part of the line that the pattern matches, at the offsets.
abbrev pub MatchAt : (ℕ → List ℕ) → Ast → List ℕ → SearchMatch → Type 0
MatchAt variants ast line m =
    (y x z : List ℕ) × (line ≡ y ++ (x ++ z))
    × (length y ≡ m.start)
    × (length (y ++ x) ≡ m.end)
    × Matches variants ast x

-- No match of the pattern in the line starts before the offset.
abbrev pub NoneBefore : (ℕ → List ℕ) → Ast → List ℕ → ℕ → Type 0
NoneBefore variants ast line start =
    (y x z : List ℕ) → line ≡ y ++ (x ++ z) → Matches variants ast x → start ≤ length y

pub find_in-leftmost :
    (variants : ℕ → List ℕ) (pattern : Text) (a : Automaton) (line : List ℕ) (m : SearchMatch)
    → IsCompiled pattern a
    → find_in variants a.nfa line ≡ some m
    → MatchAt variants a.ast line m × NoneBefore variants a.ast line m.start
find_in-leftmost variants pattern a line m k e =
    let means = λ (x : List ℕ). build_nfa-accepts variants a.ast a.nfa x k.bounded k.builds in
    let (y, x, z, parts, start, end, whole) =
      subst (FoundIf variants a.nfa line) e (find_in-Found variants a.nfa line) in
    (
      (y, x, z, parts, start, end, (means x).0 whole),
      λ y x z parts h.
          let (m', found, early) = find_in-Early variants a.nfa y x z line parts ((means x).1 h) in
          let same : m' ≡ m = cc in subst (λ (t : SearchMatch). t.start ≤ length y) same early,
    )

module _ (lower_case upper_case : Text → Text) where
  -- A pattern that compiles has a syntax tree, and the matcher of `compileSafePattern` answers
  -- true exactly for the subjects of at most 2048 characters that the tree matches as a whole.
  pub compile_safe_pattern-decides :
      (pattern : Text) (matcher : SafeMatcher)
      → compile_safe_pattern lower_case upper_case pattern ≡ parsed matcher
      → (ast : Ast) × (parse_pattern (code_points pattern) ≡ parsed ast)
        × ((subject : Text)
            → (matcher.test subject ≡ true) ↔ (
                (length (code_points subject) ≤ max_subject_chars)
                × Matches (text_variants lower_case upper_case) ast (code_points subject)))
  unfolding compile_safe_pattern
  compile_safe_pattern-decides pattern matcher e =
      let variants = text_variants lower_case upper_case in
      let (a, compiled, whole) =
        >>=-eq-parsed (automaton_of pattern)
          (λ a. parsed (record { source = pattern; test = test variants a.nfa })) matcher e in
      let k = automaton_of-IsCompiled pattern a compiled in
      let same : record { source = pattern; test = test variants a.nfa } ≡ matcher = cc in
      (
        a.ast,
        k.parses,
        λ subject.
            let decides = test-decides variants a.ast a.nfa subject k.bounded k.builds in
            let asked = ap (λ (x : SafeMatcher). x.test subject) same in
            (λ h. decides.0 (asked ∙ h), λ h. sym asked ∙ decides.1 h),
      )

  pub searched :
      (case_sensitive : Bool) (pattern : Text) (matcher : SafeSearchMatcher)
      → compile_safe_search lower_case upper_case case_sensitive pattern ≡ parsed matcher
      → (a : Automaton) × IsCompiled pattern a
        × (matcher.find
            ≡ find_line
                (search_fold lower_case upper_case case_sensitive)
                (search_variants lower_case upper_case case_sensitive)
                a)
  unfolding compile_safe_search
  searched case_sensitive pattern matcher e =
      let (a, compiled, whole) = >>=-eq-parsed (automaton_of pattern) _ matcher e in
      let same : record {
        source = pattern;
        find =
            find_line (search_fold lower_case upper_case case_sensitive)
              (search_variants lower_case upper_case case_sensitive) a;
        cannot_match =
            cannot_match (search_fold lower_case upper_case case_sensitive)
              (derive_required_literals a.ast);
      }
          ≡ matcher =
        cc in
      (
        a,
        automaton_of-IsCompiled pattern a compiled,
        ap (λ (x : SafeSearchMatcher). x.find) (sym same),
      )

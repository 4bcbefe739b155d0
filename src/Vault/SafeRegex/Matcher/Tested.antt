-- ===== src/Vault/SafeRegex/Matcher/Tested.antt =====
-- src/vault/safe-regex.ts: the matcher decides whether the pattern matches.
use brainstem_mcp.Prelude.{
  Bool-cases, List, Text, [], arith, false, inl, inr, length, ltb, ltb→lt, true, ℕ, ◌&&◌, ◌*◌, ◌↔◌,
  ◌∷◌, ◌≡◌, ◌≤◌,
}
use brainstem_mcp.Storage.Types.{ok}
use brainstem_mcp.Vault.SafeRegex.{Ast, max_subject_chars}
use brainstem_mcp.Vault.SafeRegex.Language.{Matches}
use brainstem_mcp.Vault.SafeRegex.Matcher.{
  add_state, code_points, high_surrogate, low_surrogate, nothing_seen, test,
}
use brainstem_mcp.Vault.SafeRegex.Matcher.Stopped.{
  Only-stops, begin_alive, begin_stops, run-decides,
}
use brainstem_mcp.Vault.SafeRegex.Nfa.{Nfa, build_nfa}
use brainstem_mcp.Vault.SafeRegex.Nfa.Compiled.{IsBounded, build_nfa-accepts}

pub length-code_points : (s : Text) → length s ≤ 2 * length (code_points s)
unfolding code_points
length-code_points [] = omega arith
length-code_points (u ∷ []) = omega arith
length-code_points (h ∷ l ∷ s) = elim (Bool-cases (high_surrogate h && low_surrogate l)) [
  | inl e ↦ rw e (omega (arith, length-code_points s))
  | inr e ↦ rw e (omega (arith, length-code_points (l ∷ s)))
]

-- The matcher answers true exactly when the subject has at most 2048 characters and the pattern
-- matches all of it, where the counts of the repetitions are in order.
pub test-decides :
    (variants : ℕ → List ℕ) (ast : Ast) (nfa : Nfa) (subject : Text)
    → IsBounded ast
    → build_nfa ast ≡ ok nfa
    → (test variants nfa subject ≡ true) ↔ (
        (length (code_points subject) ≤ max_subject_chars)
        × Matches variants ast (code_points subject))
unfolding test
test-decides variants ast nfa subject o e =
    let states = nfa.states in
    let cs = code_points subject in
    let first = (add_state false states nfa.start nothing_seen).list in
    let stops = Only-stops variants states _ first (begin_stops variants states nfa.start) in
    let runs = run-decides variants states cs 0 first stops (omega arith) in
    let begins = begin_alive variants states nfa.start cs in
    let means = build_nfa-accepts variants ast nfa cs o e in
    let short = length-code_points subject in
    elim (Bool-cases (ltb (2 * max_subject_chars) (length subject))) [
      | inl over ↦
          let past = ltb→lt (2 * max_subject_chars) (length subject) over in
          rw over
            (λ h. let no : false ≡ true = h in cc, λ a. absurd (omega (arith, a.0, past, short)))
      | inr within ↦ rw within (
        λ h. let (fits, alive) = runs.0 h in (omega (arith, fits), means.0 (begins.0 alive)),
        λ (fits, m). runs.1 (omega (arith, fits), begins.1 (means.1 m)),
      )
    ]

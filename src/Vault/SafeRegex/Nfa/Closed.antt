-- ===== src/Vault/SafeRegex/Nfa/Closed.antt =====
-- src/vault/safe-regex.ts: the targets of an automaton are states of it.
use brainstem_mcp.Prelude.{
  [], ap, arith, get_elem?, inl, inr, length, length-append, some, subst, ℕ, ◌++◌, ◌+◌, ◌<◌, ◌∙◌,
  ◌∷◌, ◌≡◌, ◌≤◌,
}
use brainstem_mcp.Storage.Types.{>>=-eq-ok, ok}
use brainstem_mcp.Vault.SafeRegex.{Ast}
use brainstem_mcp.Vault.SafeRegex.Nfa.{Nfa, build_nfa, compile, match_state, patch_all}
use brainstem_mcp.Vault.SafeRegex.Nfa.Built.{
  TargetsBelow, alloc-eq-ok, at_state, get-append_end, get-append_left, split_at,
}
use brainstem_mcp.Vault.SafeRegex.Nfa.Compiled.{IsBounded, compile-Builds}
use brainstem_mcp.Vault.SafeRegex.Nfa.Patching.{
  fill, get-patch_all, length-patch_all, map_some, stays_above,
}

-- The automaton starts in one of its states, and every state of it has targets that are states of
-- it: patching has left no target -1, where the counts of the repetitions are in order.
pub build_nfa-closed :
    (ast : Ast) (nfa : Nfa)
    → IsBounded ast
    → build_nfa ast ≡ ok nfa
    → (nfa.start < length nfa.states)
      × ((i : ℕ)
          → i < length nfa.states
          → TargetsBelow (length nfa.states) (get_elem? nfa.states i))
unfolding build_nfa
build_nfa-closed ast nfa o e =
    let ((s1, frag), compiled, rest) = >>=-eq-ok (compile ast []) _ e in
    let b = compile-Builds (λ c. c ∷ []) ast o [] s1 frag compiled in
    let t = length s1 in
    let s2 = s1 ++ match_state ∷ [] in
    let final = patch_all frag.patch t s2 in
    let whole : ok (record { states = final; start = frag.start }) ≡ ok nfa =
      alloc-eq-ok match_state s1 _ rest in
    let same : record { states = final; start = frag.start } ≡ nfa = cc in
    let size : length final ≡ t + 1 =
      length-patch_all frag.patch t s2 ∙ length-append s1 (match_state ∷ []) in
    let at : get_elem? final t ≡ some match_state =
      get-patch_all frag.patch t s2 t
      ∙ stays_above frag.patch 0 t t t _ b.exits (omega arith)
      ∙ get-append_end s1 match_state in
    let fits = λ (i : ℕ) (l : 0 ≤ i) (h : i < t).
      get-patch_all frag.patch t s2 i
      ∙ ap (map_some (fill frag.patch t i)) (get-append_left s1 (match_state ∷ []) i h) in
    let (_, _, wired) = b.reads final t fits in
    subst
      (λ (a : Nfa).
        (a.start < length a.states)
        × ((i : ℕ) → i < length a.states → TargetsBelow (length a.states) (get_elem? a.states i)))
      same
      (
        omega (arith, wired.starts, size),
        λ i h. elim (split_at t i) [
          | inl less ↦
              wired.below (length final) (omega (arith, size)) (omega (arith, size)) i (omega arith)
                less
          | inr past ↦
              at_state final (length final) i t match_state at (omega (arith, past, h, size)) tt
        ],
      )

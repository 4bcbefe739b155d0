-- ===== src/Vault/SafeRegex/Search/Finds.antt =====
-- src/vault/safe-regex.ts: the search from the start of a line.
use brainstem_mcp.Prelude.{
  List, [], arith, inl, inr, length, none, refl, some, ℕ, ◌++◌, ◌∷◌, ◌≡◌, ◌≤◌,
}
use brainstem_mcp.Vault.SafeRegex.Nfa.{Nfa}
use brainstem_mcp.Vault.SafeRegex.Search.{SearchMatch, add_thread, find_in, no_threads}
use brainstem_mcp.Vault.SafeRegex.Search.First.{find_from-Early}
use brainstem_mcp.Vault.SafeRegex.Search.Leftmost.{
  Continues, FoundIf, Threads, Whole, continues_new, find_from-Found,
}
use brainstem_mcp.Vault.SafeRegex.Search.Threads.{
  Grows, add_thread-Covers, add_thread-Grows, no_threads-Sorted,
}

module _ (variants : ℕ → List ℕ) (nfa : Nfa) where
  first_Grows :
      Grows variants nfa.states
        (Continues variants nfa [])
        0
        no_threads
        (add_thread nfa.states nfa.start 0 no_threads)
  first_Grows =
      add_thread-Grows variants nfa.states (Continues variants nfa []) nfa.start 0 no_threads
        (no_threads-Sorted variants nfa.states (Continues variants nfa []) 0)
        (λ n w d. continues_new variants nfa [] n w d)

  first_Threads : Threads variants nfa [] (add_thread nfa.states nfa.start 0 no_threads).threads
  first_Threads =
      let good = first_Grows.good in
      record { sorted = good.sorted; below = good.below; kept = good.kept }

  -- What the search finds is a match.
  pub find_in-Found : (line : List ℕ) → FoundIf variants nfa line (find_in variants nfa line)
  unfolding find_in
  find_in-Found line =
      find_from-Found variants nfa line [] 0 none
        (add_thread nfa.states nfa.start 0 no_threads).threads refl first_Threads tt

  -- It starts no later than any match.
  pub find_in-Early :
      (y x z line : List ℕ)
      → line ≡ y ++ (x ++ z)
      → Whole variants nfa x
      → (m : SearchMatch) × (find_in variants nfa line ≡ some m) × (m.start ≤ length y)
  unfolding find_in
  find_in-Early [] x z line e (n, d) =
      find_from-Early variants nfa [] x z (n, d) line [] 0 none
        (add_thread nfa.states nfa.start 0 no_threads).threads refl e first_Threads tt
        (inr (
          inr (
            [],
            x,
            refl,
            refl,
            add_thread-Covers variants nfa.states (Continues variants nfa []) nfa.start 0 n x
                no_threads (no_threads-Sorted variants nfa.states (Continues variants nfa []) 0)
                (λ n w d. continues_new variants nfa [] n w d) d,
          )))
  find_in-Early (c ∷ y) x z line e w =
      find_from-Early variants nfa (c ∷ y) x z w line [] 0 none
        (add_thread nfa.states nfa.start 0 no_threads).threads refl e first_Threads tt
        (inr (inl (refl, omega arith)))

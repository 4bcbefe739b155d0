-- ===== src/Vault/Budget/Tests.antt =====
-- src/vault/budget.ts on concrete lists and texts.
use brainstem_mcp.Prelude.{
  List, Text, [], arith, codes, false, refl, some, take, true, ℕ, ◌++◌, ◌∷◌, ◌≡◌, ◌≤◌,
}
use brainstem_mcp.Vault.Budget.{
  array_length, fit_within_budget, json_length, prefix_within_serialized,
}
use brainstem_mcp.Vault.Budget.Laws.{fit_within_budget-fits}
use brainstem_mcp.Vault.Budget.Prefix.{prefix_within_serialized-fits, splits_pair}

abbrev sizes : List ℕ
sizes = 3 ∷ 50 ∷ 4 ∷ 9 ∷ []

abbrev own : ℕ → ℕ
own n = n

kept : fit_within_budget own sizes 12 ≡ (3 ∷ 4 ∷ [], true)
unfolding fit_within_budget
kept = refl

fit_within_budget-fits_example : array_length own (fit_within_budget own sizes 12).0 ≤ 12
fit_within_budget-fits_example = fit_within_budget-fits own sizes 12 (omega arith)

-- A grinning face is two code units; three of them take eight characters with their quotes.
abbrev face : Text
face = 0xd83d ∷ 0xde00 ∷ []

prefix_within_serialized-fits_example :
    (n : ℕ) × (prefix_within_serialized (face ++ codes "ab") 5 ≡ some (take n (face ++ codes "ab")))
    × (json_length (take n (face ++ codes "ab")) ≤ 5)
    × (splits_pair n (face ++ codes "ab") ≡ false)
prefix_within_serialized-fits_example =
    prefix_within_serialized-fits (face ++ codes "ab") 5 (omega arith)

-- The prefix of two faces fits six characters, but the search probes in the middle of a pair,
-- where the lone half counts six, and ends with the empty text.
not_longest :
    (prefix_within_serialized (face ++ face ++ face) 6 ≡ some [])
    × (json_length (take 4 (face ++ face ++ face)) ≡ 6)
unfolding prefix_within_serialized
not_longest = (refl, refl)

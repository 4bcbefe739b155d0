-- ===== src/Vault/SafeRegex/Search/Bounds.antt =====
-- src/vault/safe-regex.ts: how early the threads and the match so far start.
use brainstem_mcp.Prelude.{
  Bool-cases, Option, [], arith, get_elem?, inl, inr, none, some, ℕ, ◌∷◌, ◌≡◌, ◌≤◌,
}
use brainstem_mcp.Vault.SafeRegex.Matcher.{is_match}
use brainstem_mcp.Vault.SafeRegex.Nfa.{States}
use brainstem_mcp.Vault.SafeRegex.Search.{SearchMatch, ThreadList, match_start}
use brainstem_mcp.Vault.SafeRegex.Search.Lists.{UpTo}

pub match_start-UpTo :
    (states : States) (b start : ℕ) (threads : ThreadList)
    → UpTo b threads
    → match_start states threads ≡ some start
    → start ≤ b
unfolding match_start
match_start-UpTo states b start [] u e = cc
match_start-UpTo states b start ((i, s) ∷ threads) u e =
    elim (Bool-cases (is_match (get_elem? states i))) [
      | inl m ↦
          let found : some s ≡ some start = rw m at e in
          let same : s ≡ start = cc in omega (arith, u.0, same)
      | inr m ↦ match_start-UpTo states b start threads u.1 (rw m at e)
    ]

-- The threads start no later than the match so far.
abbrev pub Bound : Option SearchMatch → ThreadList → Type 0
Bound none current = Unit
Bound (some m) current = UpTo m.start current

-- A match from `st` on, or an earlier one, is already there.
abbrev pub Early : ℕ → Option SearchMatch → Type 0
Early st matched = (m : SearchMatch) × (matched ≡ some m) × (m.start ≤ st)

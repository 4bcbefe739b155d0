-- ===== src/Vault/SafeRegex/Nfa/Accepts.antt =====
-- src/vault/safe-regex.ts: the texts that an automaton accepts from one of its states.
use brainstem_mcp.Prelude.{
  List, Option, [], get_elem?, none, some, subst, suc, sym, zero, ℕ, ◌≡◌, ◌⊎◌,
}
use brainstem_mcp.Vault.SafeRegex.Language.{One, Texts, Then}
use brainstem_mcp.Vault.SafeRegex.Nfa.{NfaState, States, char_state, match_state, split_state}

module _ (variants : ℕ → List ℕ) where
  -- What a state accepts, by what its targets accept.
  abbrev pub From : (ℕ → Texts) → Option ℕ → Texts
  From accepts none w = ⊥
  From accepts (some i) w = accepts i w

  abbrev pub Through : (ℕ → Texts) → Option NfaState → Texts
  Through accepts none w = ⊥
  Through accepts (some match_state) w = w ≡ []
  Through accepts (some (split_state a b)) w = From accepts a w ⊎ From accepts b w
  Through accepts (some (char_state chars next)) w = Then (One variants chars) (From accepts next) w

  -- A state accepts a text along a path of fewer than `n` states.
  unfoldable pub Accepts : States → ℕ → ℕ → Texts
  Accepts states zero i w = ⊥
  Accepts states (suc n) i w = Through (Accepts states n) (get_elem? states i) w

  pub Accepts-at :
      (states : States) (n i : ℕ) (w : List ℕ) (s : Option NfaState)
      → get_elem? states i ≡ s
      → Accepts states (suc n) i w
      → Through (Accepts states n) s w
  unfolding Accepts
  Accepts-at states n i w s e h = subst (λ o. Through (Accepts states n) o w) e h

  pub Accepts_of :
      (states : States) (n i : ℕ) (w : List ℕ) (s : Option NfaState)
      → get_elem? states i ≡ s
      → Through (Accepts states n) s w
      → Accepts states (suc n) i w
  unfolding Accepts
  Accepts_of states n i w s e h = subst (λ o. Through (Accepts states n) o w) (sym e) h

  pub Accepts_none : (states : States) (i : ℕ) (w : List ℕ) → Accepts states zero i w → ⊥
  unfolding Accepts
  Accepts_none states i w h = h

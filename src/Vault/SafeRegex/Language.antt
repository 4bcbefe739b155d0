-- ===== src/Vault/SafeRegex/Language.antt =====
-- src/vault/safe-regex.ts: what a pattern means, stated with no automaton.
use brainstem_mcp.Prelude.{
  List, Option, [], none, some, suc, true, zero, ℕ, ◌++◌, ◌∷◌, ◌≡◌, ◌≤◌, ◌⊎◌,
}
use brainstem_mcp.Vault.SafeRegex.{
  Ast, Asts, CharSet, alt, concat, empty, last, more, repeat, set, set_matches,
}

-- A set of texts.
abbrev pub Texts : Type 1
Texts = List ℕ → Type 0

-- A text that is two texts in a row.
abbrev pub Then : Texts → Texts → Texts
Then L M w = (u v : List ℕ) × (w ≡ u ++ v) × L u × M v

-- A number of texts in a row.
abbrev pub Power : Texts → ℕ → Texts
Power L zero w = w ≡ []
Power L (suc k) w = Then L (Power L k) w

-- At least `min` texts in a row and at most `max`.
abbrev pub Times : Texts → ℕ → Option ℕ → Texts
Times L min none w = (k : ℕ) × (min ≤ k) × Power L k w
Times L min (some max) w = (k : ℕ) × (min ≤ k) × (k ≤ max) × Power L k w

abbrev pub One : (ℕ → List ℕ) → CharSet → Texts
One variants chars w = (c : ℕ) × (w ≡ c ∷ []) × (set_matches chars (variants c) ≡ true)

module _ (variants : ℕ → List ℕ) where
  unfoldable mutual
    pub Matches : Ast → Texts
    Matches empty w = w ≡ []
    Matches (set s) w = One variants s w
    Matches (concat parts) w = MatchesAll parts w
    Matches (alt options) w = MatchesAny options w
    Matches (repeat node min max) w = Times (Matches node) min max w

    pub MatchesAll : Asts → Texts
    MatchesAll (last node) w = Then (Matches node) (λ v. v ≡ []) w
    MatchesAll (more node nodes) w = Then (Matches node) (MatchesAll nodes) w

    pub MatchesAny : Asts → Texts
    MatchesAny (last node) w = Matches node w
    MatchesAny (more node nodes) w = Matches node w ⊎ MatchesAny nodes w

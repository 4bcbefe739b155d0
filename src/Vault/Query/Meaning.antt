-- ===== src/Vault/Query/Meaning.antt =====
-- src/vault/query.ts: what it means that a note fits a query, written apart from the tests of
-- Vault.Query.Filter: as texts that are parts of other texts, and as "some" and "every".
use brainstem_mcp.Prelude.{
  All, Bool, List, Option, Text, [], codes, none, some, true, ◌++◌, ◌∷◌, ◌≡◌, ◌⊎◌,
}
use brainstem_mcp.Storage.Types.{ok}
use brainstem_mcp.Vault.Query.{Runtime, Value, wanted}
use brainstem_mcp.Vault.Query.Conditions.{Cond, compile_cond}
use brainstem_mcp.Vault.Query.Filter.{Entry, Query, TagFilters, VaultGraph, field_value}

-- A predicate of some element.
abbrev pub Any {ℓ} : {A : Type ℓ} → (A → Type 0) → List A → Type 0
Any P [] = ⊥
Any P (x ∷ xs) = P x ⊎ Any P xs

-- The text goes on after the prefix.
abbrev pub Extends : Text → Text → Type 0
Extends s p = (rest : Text) × (s ≡ p ++ rest)

-- The path is in the folder, which is named with or without a slash at its end.
abbrev pub InFolder : Text → Text → Type 0
InFolder path folder =
    Extends path (folder ++ codes "/")
    ⊎ ((dir : Text) × (folder ≡ dir ++ codes "/") × Extends path folder)

abbrev pub InFolderIfGiven : Text → Option Text → Type 0
InFolderIfGiven path none = Unit
InFolderIfGiven path (some []) = Unit
InFolderIfGiven path (some (c ∷ folder)) = InFolder path (c ∷ folder)

-- The tag is the other one or nested in it.
abbrev pub IsNested : Text → Text → Type 0
IsNested tag parent = (tag ≡ parent) ⊎ Extends tag (parent ++ codes "/")

abbrev pub IfGiven : (List Text → Type 0) → Option (List Text) → Type 0
IfGiven P none = Unit
IfGiven P (some ts) = P ts

module _ (lower : Text → Text) where
  abbrev pub Carries : List Text → Text → Type 0
  Carries tags wanted = Any (λ t. IsNested (lower t) (lower wanted)) tags

  abbrev pub TagsFit : List Text → Option TagFilters → Type 0
  TagsFit tags none = Unit
  TagsFit tags (some f) =
      IfGiven (Any (Carries tags)) f.any_of
      × IfGiven (All (Carries tags)) f.all_of
      × IfGiven (All (λ t. ¬ Carries tags t)) f.none_of

module _ {N O F : Type 0} (r : Runtime N O) (get_path : F → Text → Value N O)
    (graph : VaultGraph) where
  -- The condition compiles and holds of the value of its field.
  abbrev pub Holds : Entry F → Cond N O → Type 0
  Holds entry cond =
      (test : Value N O → Bool) × (compile_cond r cond.op cond.value ≡ ok test)
      × (test (field_value r get_path entry graph cond.field) ≡ true)

  pub record Fits (q : Query N O) (entry : Entry F) : Type 0 where
    pub in_folder : InFolderIfGiven entry.path q.path_prefix
    pub tags_fit : TagsFit r.lower entry.tags q.tags
    pub conditions_hold : All (Holds entry) q.conds

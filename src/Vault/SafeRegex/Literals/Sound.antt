-- ===== src/Vault/SafeRegex/Literals/Sound.antt =====
-- src/vault/safe-regex.ts: a text that is ruled out has no match.
use brainstem_mcp.Prelude.{
  ==_iff, Bool, Bool-cases, List, Option, Text, [], any, ap, false, inl, inr, ltb, none, refl, some,
  subst, sym, true, ℕ, ◌++◌, ◌==◌, ◌∙◌, ◌∷◌, ◌≡◌,
}
use brainstem_mcp.Vault.SafeRegex.{
  Ast, SetItem, alt, class, concat, empty, items_match, range, repeat, set, set_matches,
}
use brainstem_mcp.Vault.SafeRegex.Language.{Matches}
use brainstem_mcp.Vault.SafeRegex.Literals.{
  Requirement, char_text, consider, consider_run, definite_char, definite_requirement, literal_of,
  single_item,
}
use brainstem_mcp.Vault.SafeRegex.Literals.Held.{
  Holds, Holds-map, single_variant, units, units-append,
}
use brainstem_mcp.Vault.SafeRegex.Matcher.{marked}
use mathlib.Core.List.{append-nil, append_assoc}

-- Folding works character by character, and makes the variants of a character equal.
pub record Folds (variants : ℕ → List ℕ) (fold : Text → Text) : Type 0 where
  pub joins : (s t : Text) → fold (s ++ t) ≡ fold s ++ fold t
  pub equates : (c v : ℕ) → marked (variants c) v ≡ true → fold (char_text v) ≡ fold (char_text c)

module _ (variants : ℕ → List ℕ) (fold : Text → Text) (folds : Folds variants fold) where
  -- The folded text of the characters holds the folded literal.
  abbrev pub InText : List ℕ → Text → Type 0
  InText w literal = (a b : Text) × (fold (units w) ≡ a ++ (fold literal ++ b))

  abbrev pub Has : Option Requirement → List ℕ → Type 0
  Has none w = Unit
  Has (some r) w = Holds (InText w) r.literals

  InText-wider :
      (u v z : List ℕ) (literal : Text) → InText v literal → InText (u ++ (v ++ z)) literal
  InText-wider u v z literal (a, b, e) = (
    fold (units u) ++ a,
    b ++ fold (units z),
    ap fold (units-append u (v ++ z) ∙ ap (◌++◌ (units u)) (units-append v z))
        ∙ folds.joins (units u) (units v ++ units z)
        ∙ ap (◌++◌ (fold (units u)))
            (folds.joins (units v) (units z) ∙ ap (λ t. t ++ fold (units z)) e)
        ∙ ap (◌++◌ (fold (units u))) (
            append_assoc a (fold literal ++ b) (fold (units z))
            ∙ ap (◌++◌ a) (append_assoc (fold literal) b (fold (units z))))
        ∙ sym (append_assoc (fold (units u)) a (fold literal ++ (b ++ fold (units z)))),
  )

  pub Has-wider : (r : Option Requirement) (u v z : List ℕ) → Has r v → Has r (u ++ (v ++ z))
  Has-wider none u v z h = tt
  Has-wider (some r) u v z h =
      Holds-map (InText v) (InText (u ++ (v ++ z))) r.literals (InText-wider u v z) h

  pub Has-consider :
      (r best : Option Requirement) (w : List ℕ) → Has r w → Has best w → Has (consider r best) w
  unfolding consider
  Has-consider none best w h k = k
  Has-consider (some r) none w h k = h
  Has-consider (some r) (some b) w h k = elim (Bool-cases (ltb b.score r.score)) [
    | inl e ↦ rw e h
    | inr e ↦ rw e k
  ]

  -- The text ends with the sofar.
  abbrev pub Ends : List ℕ → Text → Type 0
  Ends w sofar = (a : Text) × (fold (units w) ≡ a ++ fold sofar)

  pub Has-consider_run :
      (sofar : Text) (best : Option Requirement) (w : List ℕ)
      → Ends w sofar
      → Has best w
      → Has (consider_run sofar best) w
  unfolding consider_run
  Has-consider_run [] best w e h = h
  Has-consider_run (c ∷ sofar) best w (a, e) h =
      Has-consider (some (literal_of (c ∷ sofar))) best w
        (inl (a, [], e ∙ ap (◌++◌ a) (sym (append-nil (fold (c ∷ sofar)))))) h

  set_folds :
      (negated : Bool) (items : List SetItem) (ch : Text) (c : ℕ)
      → single_item negated items ≡ some ch
      → set_matches (record { negated = negated; items = items }) (variants c) ≡ true
      → fold (char_text c) ≡ fold ch
  unfolding set_matches
  set_folds true items ch c e m = cc
  set_folds false [] ch c e m = cc
  set_folds false (class name ∷ items) ch c e m = cc
  set_folds false (range from to ∷ next ∷ items) ch c e m = cc
  set_folds false (range from to ∷ []) ch c e m = elim (Bool-cases (from == to)) [
    | inl same ↦
        let ends : from ≡ to = (==_iff from to).0 same in
        let taken : some (char_text from) ≡ some ch = rw same at e in
        let literal : char_text from ≡ ch = cc in
        let alone : any (items_match (range from from ∷ [])) (variants c) ≡ true =
          subst (λ t. any (items_match (range from t ∷ [])) (variants c) ≡ true) (sym ends) m in
        sym (folds.equates c from (single_variant from (variants c) alone)) ∙ ap fold literal
    | inr other ↦ let no : none ≡ some ch = rw other at e in cc
  ]

  pub definite_folds :
      (node : Ast) (ch : Text) (w : List ℕ)
      → definite_char node ≡ some ch
      → Matches variants node w
      → fold (units w) ≡ fold ch
  unfolding definite_char Matches units
  definite_folds empty ch w e m = cc
  definite_folds (concat parts) ch w e m = cc
  definite_folds (alt options) ch w e m = cc
  definite_folds (repeat node min max) ch w e m = cc
  definite_folds (set s) ch w e (c, alone, m) =
      ap (λ x. fold (units x)) alone
      ∙ ap fold (append-nil (char_text c))
      ∙ set_folds s.negated s.items ch c e m

  pub Has-definite :
      (o : Option Text) (w : List ℕ)
      → ((ch : Text) → o ≡ some ch → fold (units w) ≡ fold ch)
      → Has (definite_requirement o) w
  Has-definite none w h = tt
  Has-definite (some ch) w h = inl ([], [], h ch refl ∙ sym (append-nil (fold ch)))

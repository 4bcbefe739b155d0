-- ===== src/Vault/SafeRegex/Literals/Held.antt =====
-- src/vault/safe-regex.ts: a list of literals of which one has a property, and code units.
use brainstem_mcp.Prelude.{
  Bool-cases, List, Text, [], any, ap, arith, false, inl, inr, leb, refl, starts_with, subst, sym,
  text_eq, text_eq-eq, true, ||-true, ℕ, ◌&&◌, ◌++◌, ◌==◌, ◌||◌, ◌∙◌, ◌∷◌, ◌≡◌, ◌⊎◌,
}
use brainstem_mcp.Prelude.Sort.{unique, without}
use brainstem_mcp.Vault.SafeRegex.{item_matches, items_match, range}
use brainstem_mcp.Vault.SafeRegex.Literals.{char_text, includes}
use brainstem_mcp.Vault.SafeRegex.Matcher.{marked}
use mathlib.Core.List.{append_assoc}

-- The code units of characters.
unfoldable pub units : List ℕ → Text
unfolding char_text
units [] = []
units (c ∷ w) = char_text c ++ units w

pub units-append : (u v : List ℕ) → units (u ++ v) ≡ units u ++ units v
unfolding units
units-append [] v = refl
units-append (c ∷ u) v =
    ap (◌++◌ (char_text c)) (units-append u v)
    ∙ sym (append_assoc (char_text c) (units u) (units v))

pub starts_with-append : (p s : Text) → starts_with (p ++ s) p ≡ true
starts_with-append [] s = starts_with_nil s
  where
    starts_with_nil : (s : Text) → starts_with s [] ≡ true
    starts_with_nil [] = refl
    starts_with_nil (_ ∷ _) = refl
starts_with-append (c ∷ p) s = ground (arith, starts_with-append p s)

pub includes_inside : (a p b : Text) → includes (a ++ (p ++ b)) p ≡ true
unfolding includes
includes_inside [] [] [] = refl
includes_inside [] [] (c ∷ b) = ground (arith, starts_with-append [] (c ∷ b))
includes_inside [] (c ∷ p) b = ground (arith, starts_with-append (c ∷ p) b)
includes_inside (c ∷ a) p b = ground (arith, includes_inside a p b)

-- One of the literals has a property.
abbrev pub Holds : (Text → Type 0) → List Text → Type 0
Holds P [] = ⊥
Holds P (s ∷ texts) = P s ⊎ Holds P texts

pub Holds-append_left : (P : Text → Type 0) (xs ys : List Text) → Holds P xs → Holds P (xs ++ ys)
Holds-append_left P [] ys h = absurd h
Holds-append_left P (x ∷ xs) ys (inl h) = inl h
Holds-append_left P (x ∷ xs) ys (inr h) = inr (Holds-append_left P xs ys h)

pub Holds-append_right : (P : Text → Type 0) (xs ys : List Text) → Holds P ys → Holds P (xs ++ ys)
Holds-append_right P [] ys h = h
Holds-append_right P (x ∷ xs) ys h = inr (Holds-append_right P xs ys h)

pub Holds-map :
    (P Q : Text → Type 0) (xs : List Text) → ((s : Text) → P s → Q s) → Holds P xs → Holds Q xs
Holds-map P Q [] f h = h
Holds-map P Q (x ∷ xs) f (inl h) = inl (f x h)
Holds-map P Q (x ∷ xs) f (inr h) = inr (Holds-map P Q xs f h)

Holds-without :
    (P : Text → Type 0) (p : Text) (xs : List Text) → Holds P xs → P p ⊎ Holds P (without p xs)
unfolding without
Holds-without P p [] h = absurd h
Holds-without P p (x ∷ xs) (inl h) = elim (Bool-cases (text_eq x p)) [
  | inl e ↦ inl (subst P (text_eq-eq x p e) h)
  | inr e ↦ inr (rw e (inl h))
]
Holds-without P p (x ∷ xs) (inr h) = elim (Bool-cases (text_eq x p)) [
  | inl e ↦ rw e (Holds-without P p xs h)
  | inr e ↦ elim (Holds-without P p xs h) [ inl k ↦ inl k | inr k ↦ inr (rw e (inr k)) ]
]

pub Holds-unique : (P : Text → Type 0) (xs : List Text) → Holds P xs → Holds P (unique xs)
unfolding unique
Holds-unique P [] h = h
Holds-unique P (x ∷ xs) (inl h) = inl h
Holds-unique P (x ∷ xs) (inr h) = Holds-without P x (unique xs) (Holds-unique P xs h)

pub single_variant :
    (cp : ℕ) (variants : List ℕ)
    → any (items_match (range cp cp ∷ [])) variants ≡ true
    → marked variants cp ≡ true
unfolding items_match item_matches
single_variant cp [] h = cc
single_variant cp (v ∷ variants) h =
    elim (||-true (items_match (range cp cp ∷ []) v) (any (items_match (range cp cp ∷ [])) variants)
      h) [
        | inl e ↦
            let inside : ((leb cp v && leb v cp) || false) ≡ true = e in
            let same : (v == cp) ≡ true = ground arith in ground arith
        | inr e ↦ let rest = single_variant cp variants e in ground arith
      ]

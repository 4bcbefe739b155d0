-- ===== src/Vault/Links/Laws.antt =====
-- src/vault/note-parse.ts: what is a link starts like one.
use brainstem_mcp.Prelude.{
  Bool-cases, Text, [], arith, codes, false, inl, inr, refl, starts_with, true, ◌∷◌, ◌≡◌,
}
use brainstem_mcp.Storage.PathPolicy.{trim, trim_end, trim_start}
use brainstem_mcp.Vault.Links.{key_from, link_key, parse_whole_wikilink}
use brainstem_mcp.Vault.SafeRegex.Literals.{includes}

starts_with-trim_end : (s p : Text) → starts_with (trim_end s) p ≡ true → starts_with s p ≡ true
unfolding trim_end
starts_with-trim_end s [] h = starts_with_nil s
  where
    starts_with_nil : (s : Text) → starts_with s [] ≡ true
    starts_with_nil [] = refl
    starts_with_nil (_ ∷ _) = refl
starts_with-trim_end [] (d ∷ p) h = h
starts_with-trim_end (c ∷ s) (d ∷ p) h = ground (arith, starts_with-trim_end s p)

-- A text with the key of a link starts with two brackets, white space aside.
pub link_key-starts_with :
    (lower : Text → Text) (text : Text)
    → (link_key lower text).is_link ≡ true
    → starts_with (trim_start text) (codes "[[") ≡ true
unfolding link_key key_from parse_whole_wikilink trim
link_key-starts_with lower text h =
    elim (Bool-cases (starts_with (trim_end (trim_start text)) (codes "[["))) [
      | inl e ↦ starts_with-trim_end (trim_start text) (codes "[[") e
      | inr e ↦ elim (Bool-cases (includes text (codes "[["))) [
        | inl i ↦ let no : false ≡ true = rw (i, e) at h in cc
        | inr i ↦ let no : false ≡ true = rw i at h in cc
      ]
    ]

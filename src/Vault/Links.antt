-- ===== src/Vault/Links.antt =====
-- src/vault/note-parse.ts: a text that is one whole wikilink, and the keys by which links are compared.
pub mod Laws
use brainstem_mcp.Prelude.{
  Bool, Option, Text, [], codes, drop, false, has_char, if◌then◌else◌, is_empty, is_some, none,
  some, starts_with, text_eq, ℕ, ◌&&◌, ◌==◌, ◌||◌, ◌∷◌,
}
use brainstem_mcp.Storage.PathPolicy.{base_name, trim}
use brainstem_mcp.Vault.SafeRegex.Literals.{includes}

abbrev pub before_char : ℕ → Text → Text
before_char c [] = []
before_char c (a ∷ s) = let rest = before_char c s in if a == c then [] else a ∷ rest

abbrev pub after_char : ℕ → Text → Option Text
after_char c [] = none
after_char c (a ∷ s) = let rest = after_char c s in if a == c then some s else rest

pub record LinkParts : Type 0 where
  pub target : Text
  pub heading : Option Text
  pub block : Option Text
  pub alias : Option Text

abbrev pub with_anchor : Text → Option Text → Option Text → LinkParts
with_anchor target alias none = record {
  target = target;
  heading = none;
  block = none;
  alias = alias;
}
with_anchor target alias (some []) = record {
  target = target;
  heading = none;
  block = none;
  alias = alias;
}
with_anchor target alias (some (c ∷ s)) =
    if c == b'^'
    then record { target = target; heading = none; block = some s; alias = alias }
    else record { target = target; heading = some (c ∷ s); block = none; alias = alias }

unfoldable pub split_wiki_inner : Text → LinkParts
unfolding trim
split_wiki_inner inner =
    let ref = before_char b'|' inner in
    with_anchor (trim (before_char b'#' ref)) (after_char b'|' inner) (after_char b'#' ref)

-- What WHOLE_WIKILINK captures, after the opening brackets.
unfoldable pub inner_of : Text → Option Text
inner_of [] = none
inner_of (c ∷ s) =
    let rest = inner_of s in
    if c == b']' && starts_with s (codes "]")
    then (if is_empty (drop 1 s) then some [] else none)
    else if c == 10
    then none
    else elim rest [ some inner ↦ some (c ∷ inner) | none ↦ none ]

abbrev pub link_parts : Option Text → Option LinkParts
unfolding split_wiki_inner
link_parts none = none
link_parts (some []) = none
link_parts (some (c ∷ s)) =
    let parts = split_wiki_inner (c ∷ s) in if is_empty parts.target then none else some parts

unfoldable pub parse_whole_wikilink : Text → Option LinkParts
unfolding trim inner_of split_wiki_inner
parse_whole_wikilink s =
    let t = trim s in if starts_with t (codes "[[") then link_parts (inner_of (drop 2 t)) else none

pub record LinkKey : Type 0 where
  pub full : Text
  pub base : Text
  pub has_folder : Bool
  pub is_link : Bool

-- `replace(/\.md$/i, '')`
unfoldable pub without_md : Text → Text
without_md [] = []
without_md (c ∷ s) =
    let rest = c ∷ without_md s in
    elim s [
      | m ∷ d ∷ [] ↦
          if c == b'.' && (m == b'm' || m == b'M') && (d == b'd' || d == b'D') then [] else rest
      | _ ↦ rest
    ]

abbrev pub link_target : Text → Option LinkParts → Text
link_target text none = text
link_target text (some parts) = parts.target

module _ (lower : Text → Text) where
  unfoldable pub key_from : Text → Option LinkParts → LinkKey
  unfolding trim without_md base_name
  key_from text link =
      let target = lower (without_md (trim (link_target text link))) in
      record {
        full = target;
        base = base_name target;
        has_folder = has_char b'/' target;
        is_link = is_some link;
      }

  -- `linkKey` of a string; that of a number has no link.
  unfoldable pub link_key : Text → LinkKey
  unfolding key_from includes parse_whole_wikilink
  link_key text =
      key_from text (if includes text (codes "[[") then parse_whole_wikilink text else none)

unfoldable pub same_link_key : Option LinkKey → Option LinkKey → Bool
same_link_key none b = false
same_link_key (some a) none = false
same_link_key (some a) (some b) =
    (a.is_link || b.is_link)
    && (if a.has_folder && b.has_folder then text_eq a.full b.full else text_eq a.base b.base)

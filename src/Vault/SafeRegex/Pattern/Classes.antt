-- ===== src/Vault/SafeRegex/Pattern/Classes.antt =====
-- src/vault/safe-regex.ts: escapes and character classes.
use brainstem_mcp.Prelude.{
  Bool, List, Option, [], any, false, if◌then◌else◌, is_empty, length, ltb, none, not, some, suc,
  true, zero, ℕ, ◌&&◌, ◌++◌, ◌+◌, ◌==◌, ◌∷◌,
}
use brainstem_mcp.Vault.SafeRegex.{
  CharSet, ClassName, SetItem, class, digit, is_digit, non_digit, non_space, non_word, range, space,
  word,
}
use brainstem_mcp.Vault.SafeRegex.Pattern.{
  Parse, Source, backslash, invalid, out_of_fuel, parsed, rest_of, starts, ◌>>=◌,
}

pub data ClassAtom : Type 0 where
  char_atom : ℕ → ClassAtom
  class_atom : ClassName → ClassAtom

abbrev pub class_escape : ℕ → Option ClassName
class_escape e =
    if e == b'd'
    then some digit
    else if e == b'D'
    then some non_digit
    else if e == b'w'
    then some word
    else if e == b'W'
    then some non_word
    else if e == b's'
    then some space
    else if e == b'S'
    then some non_space
    else none

abbrev pub escapable_punctuation : List ℕ
escapable_punctuation =
    backslash ∷ b'.' ∷ b'*' ∷ b'+' ∷ b'?' ∷ b'(' ∷ b')' ∷ b'[' ∷ b']' ∷ b'{' ∷ b'}' ∷ b'|' ∷ b'^'
    ∷ b'$' ∷ b'-' ∷ b'/' ∷ []

abbrev pub control : ℕ → Option ℕ
control e =
    if e == b't' then some 9 else if e == b'n' then some 10 else if e == b'r' then some 13 else none

abbrev pub plain_escape : ℕ → Option ℕ
plain_escape e = if any (λ c. e == c) escapable_punctuation then some e else control e

abbrev pub escape_of : ℕ → Option ClassAtom
escape_of e = elim (class_escape e) [
  | some name ↦ some (class_atom name)
  | none ↦ elim (plain_escape e) [ some c ↦ some (char_atom c) | none ↦ none ]
]

unfoldable pub escaped_atom : Source → Parse (ClassAtom × Source)
escaped_atom [] = invalid
escaped_atom (e ∷ s) =
    if is_digit e
    then invalid
    else elim (escape_of e) [ some atom ↦ parsed (atom, s) | none ↦ invalid ]

-- `classAtom`
unfoldable pub parse_class_atom : Source → Parse (ClassAtom × Source)
unfolding escaped_atom
parse_class_atom [] = parsed (char_atom 0, [])
parse_class_atom (c ∷ s) = if c == backslash then escaped_atom s else parsed (char_atom c, s)

abbrev pub item_of : ClassAtom → SetItem
item_of (char_atom c) = range c c
item_of (class_atom name) = class name

abbrev pub range_of : ClassAtom → ClassAtom → Parse SetItem
range_of (char_atom from) (char_atom to) = if ltb to from then invalid else parsed (range from to)
range_of (char_atom from) (class_atom name) = invalid
range_of (class_atom name) second = invalid

-- A hyphen that is neither the last character nor before the closing bracket.
abbrev pub starts_range : Source → Bool
starts_range [] = false
starts_range (c ∷ []) = false
starts_range (c ∷ d ∷ s) = c == b'-' && not (d == b']')

-- The item that starts with an atom: a range, or the atom itself.
unfoldable pub class_item_from : ClassAtom × Source → Parse (SetItem × Source)
unfolding parse_class_atom
class_item_from (first, after) =
    let ranged = do
      (second, end) ← parse_class_atom (rest_of after)
      item ← range_of first second
      parsed (item, end)
    in if starts_range after then ranged else parsed (item_of first, after)

-- One round of the loop of `parseClass`.
unfoldable pub class_item : Source → Parse (SetItem × Source)
unfolding parse_class_atom class_item_from
class_item s = parse_class_atom s >>= class_item_from

unfoldable pub class_items : ℕ → List SetItem → Source → Parse (List SetItem × Source)
unfolding class_item
class_items zero items s = out_of_fuel
class_items (suc n) items [] = invalid
class_items (suc n) items (c ∷ s) = elim (c == b']') [
  | true ↦ parsed (items, s)
  | false ↦ class_item (c ∷ s) >>= λ (item, after). class_items n (items ++ item ∷ []) after
]

abbrev pub some_items : Bool → List SetItem × Source → Parse (CharSet × Source)
some_items negated (items, s) =
    if is_empty items then invalid else parsed (record { negated = negated; items = items }, s)

unfoldable pub parse_class : Source → Parse (CharSet × Source)
unfolding class_items
parse_class s =
    let negated = starts b'^' s in
    let body = if negated then rest_of s else s in
    if starts b'[' body && starts b':' (rest_of body)
    then invalid
    else class_items (length body + 1) [] body >>= some_items negated

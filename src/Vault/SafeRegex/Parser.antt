-- ===== src/Vault/SafeRegex/Parser.antt =====
-- src/vault/safe-regex.ts: the recursive-descent parser. The position is what is left of the
-- pattern; a function that starts by advancing gets what comes after the character.
pub mod Ends
pub mod Bounded
use brainstem_mcp.Prelude.{
  Bool, List, Option, [], any, false, if◌then◌else◌, is_empty, length, ltb, none, not, some, suc,
  true, zero, ℕ, ◌&&◌, ◌*◌, ◌++◌, ◌+◌, ◌-◌, ◌==◌, ◌||◌, ◌∷◌,
}
use brainstem_mcp.Storage.Types.{◌>>◌}
use brainstem_mcp.Vault.SafeRegex.{
  Ast, Asts, CharSet, ClassName, SetItem, alt, class, concat, digit, empty, is_digit, last,
  literal_set, max_repeat, more, non_digit, non_space, non_word, range, repeat, set, space, word,
}
use brainstem_mcp.Vault.SafeRegex.Pattern.{
  Parse, Source, backslash, invalid, out_of_fuel, parsed, rest_of, starts, starts_any, ◌>>=◌,
}
use brainstem_mcp.Vault.SafeRegex.Pattern.Classes.{ClassAtom, escaped_atom, item_of, parse_class}
use brainstem_mcp.Vault.SafeRegex.Pattern.Quantifiers.{Counts, quantifiers, read_quantifier}

abbrev pub Parser : Type 0
Parser = Source → Parse (Ast × Source)

-- What comes after "(" or "(?:".
abbrev pub group_body : Source → Parse Source
group_body s =
    if starts b'?' s
    then (if starts b':' (rest_of s) then parsed (rest_of (rest_of s)) else invalid)
    else parsed s

-- The parser of what is inside a group is an argument of the functions that it calls.
unfoldable pub parse_group : Parser → Parser
parse_group inner s = do
  body ← group_body s
  (ast, after) ← inner body
  if starts b')' after then parsed (ast, rest_of after) else invalid

abbrev pub refused_atoms : List ℕ
refused_atoms = b'*' ∷ b'+' ∷ b'?' ∷ b'{' ∷ b'^' ∷ b'$' ∷ b')' ∷ b']' ∷ []

abbrev pub set_of : CharSet × Source → Parse (Ast × Source)
set_of (chars, s) = parsed (set chars, s)

abbrev pub atom_set : ClassAtom × Source → Parse (Ast × Source)
atom_set (atom, s) = parsed (set (record { negated = false; items = item_of atom ∷ [] }), s)

unfoldable pub parse_atom : Parser → Parser
unfolding parse_group parse_class escaped_atom literal_set
parse_atom inner [] = invalid
parse_atom inner (c ∷ s) =
    if any (λ r. c == r) refused_atoms
    then invalid
    else if c == b'('
    then parse_group inner s
    else if c == b'['
    then parse_class s >>= set_of
    else if c == b'.'
    then parsed (set (record { negated = true; items = [] }), s)
    else if c == backslash
    then escaped_atom s >>= atom_set
    else parsed (set (literal_set c), s)

abbrev pub quantified : Ast → Option Counts × Source → Parse (Ast × Source)
quantified atom (none, s) = parsed (atom, s)
quantified atom (some (min, max), s) =
    if starts_any quantifiers s then invalid else parsed (repeat atom min max, s)

unfoldable pub parse_quantified : Parser → Parser
unfolding parse_atom read_quantifier
parse_quantified inner s = do
  (atom, after) ← parse_atom inner s
  quant ← read_quantifier after
  quantified atom quant

abbrev pub as_asts : Ast → List Ast → Asts
as_asts node [] = last node
as_asts node (next ∷ nodes) = more node (as_asts next nodes)

abbrev pub as_concat : List Ast → Ast
as_concat [] = empty
as_concat (part ∷ []) = part
as_concat (part ∷ next ∷ parts) = concat (as_asts part (next ∷ parts))

abbrev pub as_alt : Ast → List Ast → Ast
as_alt option [] = option
as_alt option (next ∷ options) = alt (as_asts option (next ∷ options))

abbrev pub ends_concat : Source → Bool
ends_concat [] = true
ends_concat (c ∷ s) = c == b'|' || c == b')'

-- The loop of `parseConcat`.
unfoldable pub concat_parts : Parser → ℕ → Source → Parse (List Ast × Source)
unfolding parse_quantified
concat_parts inner zero s = out_of_fuel
concat_parts inner (suc n) s = elim (ends_concat s) [
  | true ↦ parsed ([], s)
  | false ↦ do
    (part, after) ← parse_quantified inner s
    (parts, end) ← concat_parts inner n after
    parsed (part ∷ parts, end)
]

unfoldable pub parse_concat : Parser → Parser
unfolding concat_parts
parse_concat inner s = do
  (parts, after) ← concat_parts inner (length s + 1) s
  parsed (as_concat parts, after)

-- The loop of `parseAlternation`, over the options after the first.
unfoldable pub more_options : Parser → ℕ → Source → Parse (List Ast × Source)
unfolding parse_concat
more_options inner zero s = out_of_fuel
more_options inner (suc n) s = elim (starts b'|' s) [
  | false ↦ parsed ([], s)
  | true ↦ do
    (option, after) ← parse_concat inner (rest_of s)
    (options, end) ← more_options inner n after
    parsed (option ∷ options, end)
]

-- Groups in groups take fuel.
unfoldable pub parse_alternation : ℕ → Parser
unfolding parse_concat more_options
parse_alternation zero s = out_of_fuel
parse_alternation (suc depth) s = do
  (first, after) ← parse_concat (parse_alternation depth) s
  (options, end) ← more_options (parse_alternation depth) (length after + 1) after
  parsed (as_alt first options, end)

unfoldable pub parse_pattern : Source → Parse Ast
unfolding parse_alternation
parse_pattern src = do
  (ast, after) ← parse_alternation (length src + 1) src
  if is_empty after then parsed ast else invalid

-- ===== src/Vault/SafeRegex.antt =====
-- src/vault/safe-regex.ts: character sets and the syntax tree of the reduced regular expressions.
-- A character is a code point. The case variants of a character stand on `toLowerCase` and
-- `toUpperCase`, which are arguments: the code points of the result.
pub mod Nfa
pub mod Language
pub mod Matcher
pub mod Parser
pub mod Search
pub mod Literals
pub mod Compile
pub mod Pattern
use brainstem_mcp.Prelude.{
  Bool, List, Option, [], any, false, if◌then◌else◌, is_space, leb, not, ℕ, ◌&&◌, ◌++◌, ◌==◌, ◌||◌,
  ◌∷◌,
}
use brainstem_mcp.Prelude.Sort.{member}

abbrev pub max_pattern_chars : ℕ
max_pattern_chars = 200

abbrev pub max_repeat : ℕ
max_repeat = 100

abbrev pub max_nfa_states : ℕ
max_nfa_states = 5000

abbrev pub max_subject_chars : ℕ
max_subject_chars = 2048

-- \d \D \w \W \s \S
pub data ClassName : Type 0 where
  digit non_digit word non_word space non_space : ClassName

pub data SetItem : Type 0 where
  range : (from to : ℕ) → SetItem
  class : ClassName → SetItem

-- `.` is the negated set with no items.
pub record CharSet : Type 0 where
  pub negated : Bool
  pub items : List SetItem

abbrev pub is_digit : ℕ → Bool
is_digit c = leb b'0' c && leb c b'9'

abbrev pub is_word : ℕ → Bool
is_word c = (leb b'A' c && leb c b'Z') || (leb b'a' c && leb c b'z') || is_digit c || c == b'_'

unfoldable pub class_matches : ClassName → ℕ → Bool
class_matches digit c = is_digit c
class_matches non_digit c = not (is_digit c)
class_matches word c = is_word c
class_matches non_word c = not (is_word c)
class_matches space c = is_space c
class_matches non_space c = not (is_space c)

unfoldable pub item_matches : ℕ → SetItem → Bool
unfolding class_matches
item_matches c (range from to) = leb from c && leb c to
item_matches c (class name) = class_matches name c

unfoldable pub items_match : List SetItem → ℕ → Bool
unfolding item_matches
items_match items c = any (item_matches c) items

-- Negation comes after the variants.
unfoldable pub set_matches : CharSet → List ℕ → Bool
unfolding items_match
set_matches chars variants =
    let member = any (items_match chars.items) variants in
    if chars.negated then not member else member

-- A case variant counts if it is another text of one character.
unfoldable pub variant : ℕ → List ℕ → List ℕ
variant c [] = []
variant c (v ∷ []) = if v == c then [] else v ∷ []
variant c (v ∷ w ∷ s) = []

unfoldable pub variants_of : (ℕ → List ℕ) → (ℕ → List ℕ) → ℕ → List ℕ
unfolding variant
variants_of lower upper c = c ∷ (variant c (lower c) ++ variant c (upper c))

unfoldable pub literal_set : ℕ → CharSet
literal_set c = record { negated = false; items = range c c ∷ [] }

-- The parts of a `concat` and the options of an `alt` are never empty.
mutual
  pub data Ast : Type 0 where
    empty : Ast
    set : CharSet → Ast
    concat : Asts → Ast
    alt : Asts → Ast
    repeat : Ast → ℕ → Option ℕ → Ast

  pub data Asts : Type 0 where
    last : Ast → Asts
    more : Ast → Asts → Asts

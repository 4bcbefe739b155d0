-- ===== src/Vault/SafeRegex/Literals.antt =====
-- src/vault/safe-regex.ts: literals of which a match holds one, and the check that rules a text out.
pub mod Sound
pub mod Units
pub mod Held
pub mod Ruled
use brainstem_mcp.Prelude.{
  Bool, List, Option, Text, [], any, false, if◌then◌else◌, length, ltb, none, not, some,
  starts_with, ℕ, ◌%◌, ◌++◌, ◌+◌, ◌-◌, ◌/◌, ◌==◌, ◌||◌, ◌∷◌,
}
use brainstem_mcp.Prelude.Sort.{unique}
use brainstem_mcp.Vault.SafeRegex.{
  Ast, Asts, SetItem, alt, concat, empty, last, more, range, repeat, set,
}

-- `String.fromCodePoint`, in code units.
unfoldable pub char_text : ℕ → Text
char_text c =
    if ltb c 0x10000
    then c ∷ []
    else (0xd800 + (c - 0x10000) / 0x400) ∷ (0xdc00 + (c - 0x10000) % 0x400) ∷ []

pub record Requirement : Type 0 where
  pub literals : List Text
  pub score : ℕ

abbrev pub literal_of : Text → Requirement
literal_of run = record { literals = run ∷ []; score = length run }

abbrev pub single_item : Bool → List SetItem → Option Text
single_item false (range from to ∷ []) = if from == to then some (char_text from) else none
single_item negated items = none

unfoldable pub definite_char : Ast → Option Text
definite_char (set s) = single_item s.negated s.items
definite_char _ = none

unfoldable pub consider : Option Requirement → Option Requirement → Option Requirement
consider none best = best
consider (some candidate) none = some candidate
consider (some candidate) (some best) =
    if ltb best.score candidate.score then some candidate else some best

-- The run, if there is one.
unfoldable pub consider_run : Text → Option Requirement → Option Requirement
unfolding consider
consider_run [] best = best
consider_run (c ∷ run) best = consider (some (literal_of (c ∷ run))) best

-- One round of the loop over the parts: the best requirement and the run after it.
unfoldable pub part_best :
    Option Text → Option Requirement → Text → Option Requirement → Option Requirement
unfolding consider consider_run
part_best (some ch) req run best = best
part_best none req run best = consider req (consider_run run best)

unfoldable pub part_run : Option Text → Text → Text
part_run (some ch) run = run ++ ch
part_run none run = []

unfoldable pub least : ℕ → List Text → ℕ
least n [] = n
least n (s ∷ texts) = least (if ltb (length s) n then length s else n) texts

unfoldable pub alt_requirement : Option (List Text) → Option Requirement
unfolding least unique
alt_requirement none = none
alt_requirement (some []) = none
alt_requirement (some (s ∷ texts)) =
    some (record { literals = unique (s ∷ texts); score = least (length s) (unique (s ∷ texts)) })

abbrev pub both : Option (List Text) → Option (List Text) → Option (List Text)
both none b = none
both (some a) none = none
both (some a) (some b) = some (a ++ b)

abbrev pub literals_of : Option Requirement → Option (List Text)
literals_of none = none
literals_of (some r) = some r.literals

abbrev pub definite_requirement : Option Text → Option Requirement
definite_requirement none = none
definite_requirement (some ch) = some (literal_of ch)

unfoldable mutual
  unfolding definite_char consider_run part_best part_run alt_requirement

  pub requirement_of : Ast → Option Requirement
  requirement_of empty = none
  requirement_of (set s) = definite_requirement (definite_char (set s))
  requirement_of (repeat node min max) =
      let inner = requirement_of node in if min == 0 then none else inner
  requirement_of (alt options) = alt_requirement (option_literals options)
  requirement_of (concat parts) = parts_requirement parts [] none

  pub option_literals : Asts → Option (List Text)
  option_literals (last node) = literals_of (requirement_of node)
  option_literals (more node nodes) =
      both (literals_of (requirement_of node)) (option_literals nodes)

  pub parts_requirement : Asts → Text → Option Requirement → Option Requirement
  parts_requirement (last node) run best =
      consider_run (part_run (definite_char node) run)
        (part_best (definite_char node) (requirement_of node) run best)
  parts_requirement (more node nodes) run best =
      parts_requirement nodes (part_run (definite_char node) run)
        (part_best (definite_char node) (requirement_of node) run best)

unfoldable pub derive_required_literals : Ast → Option (List Text)
unfolding requirement_of
derive_required_literals ast = literals_of (requirement_of ast)

-- `includes`
unfoldable pub includes : Text → Text → Bool
includes [] needle = starts_with [] needle
includes (c ∷ s) needle = starts_with (c ∷ s) needle || includes s needle

-- `fold` is `toLowerCase`, or nothing where case counts.
unfoldable pub cannot_match : (Text → Text) → Option (List Text) → Text → Bool
unfolding includes
cannot_match fold none text = false
cannot_match fold (some literals) text =
    not (any (λ needle. includes (fold text) (fold needle)) literals)

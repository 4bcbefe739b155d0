-- ===== src/Vault/Budget.antt =====
-- src/vault/budget.ts: results bounded by the length of their JSON.
pub mod Laws
pub mod Prefix
mod Tests
use brainstem_mcp.Prelude.{
  Bool, List, Option, Text, [], false, get_elem?, if◌then◌else◌, leb, length, ltb, map, none, some,
  suc, take, true, zero, ℕ, ◌&&◌, ◌+◌, ◌-◌, ◌/◌, ◌==◌, ◌||◌, ◌∷◌,
}
use brainstem_mcp.Prelude.Sort.{sort_by}

-- The length of the JSON of a code unit that is not half of a pair.
unfoldable pub unit_length : ℕ → ℕ
unit_length c =
    if c == 34 || c == 92 || leb 8 c && leb c 10 || c == 12 || c == 13
    then 2
    else if ltb c 32 || leb 0xd800 c && ltb c 0xe000
    then 6
    else 1

unfoldable pub is_high : ℕ → Bool
is_high c = leb 0xd800 c && leb c 0xdbff

unfoldable pub is_low : ℕ → Bool
is_low c = leb 0xdc00 c && leb c 0xdfff

unfoldable pub body_length : Text → ℕ
unfolding unit_length is_high is_low
body_length [] = 0
body_length (c ∷ []) = unit_length c
body_length (c ∷ d ∷ s) =
    let paired = 2 + body_length s in
    let single = unit_length c + body_length (d ∷ s) in
    if is_high c && is_low d then paired else single

-- `JSON.stringify(text).length` for a string.
unfoldable pub json_length : Text → ℕ
unfolding body_length
json_length s = 2 + body_length s

-- The binary search of `prefixWithinSerialized`; one round for each unit of fuel.
unfoldable pub search_cut : ℕ → Text → ℕ → ℕ → ℕ → Option ℕ
unfolding json_length
search_cut zero text max low high = if ltb low high then none else some low
search_cut (suc fuel) text max low high = elim (ltb low high) [
  | false ↦ some low
  | true ↦
      let mid = (low + high + 1) / 2 in
      elim (leb (json_length (take mid text)) max) [
        | true ↦ search_cut fuel text max mid high
        | false ↦ search_cut fuel text max low (mid - 1)
      ]
]

-- A cut right after the first half of a pair goes back by one.
unfoldable pub whole_pairs : Text → ℕ → ℕ
unfolding is_high
whole_pairs text zero = 0
whole_pairs text (suc low) = elim (get_elem? text low) [
  | none ↦ suc low
  | some c ↦ if is_high c then low else suc low
]

unfoldable pub prefix_within_serialized : Text → ℕ → Option Text
unfolding search_cut whole_pairs
prefix_within_serialized text max =
    if leb (json_length text) max
    then some text
    else elim (search_cut (length text) text max 0 (length text)) [
      | none ↦ none
      | some low ↦ some (take (whole_pairs text low) text)
    ]

module _ {A : Type 0} (size : A → ℕ) where
  -- The length of the JSON of an array whose items have these lengths.
  unfoldable pub array_length : List A → ℕ
  array_length [] = 2
  array_length (x ∷ []) = 2 + size x
  array_length (x ∷ y ∷ xs) = size x + 1 + array_length (y ∷ xs)

  -- The loop of `fitWithinBudget`, from an item on: what it keeps, and `cut`.
  unfoldable pub fit_from : ℕ → ℕ → Bool → Bool → List A → List A × Bool
  fit_from budget used any_kept cut [] = ([], cut)
  fit_from budget used any_kept cut (item ∷ items) =
      let addition = size item + (if any_kept then 1 else 0) in
      elim (ltb budget (size item + 2)) [
        | true ↦ fit_from budget used any_kept true items
        | false ↦ elim (ltb budget (used + addition)) [
          | true ↦ ([], true)
          | false ↦
              let rest = fit_from budget (used + addition) true cut items in (item ∷ rest.0, rest.1)
        ]
      ]

  unfoldable pub fit_within_budget : List A → ℕ → List A × Bool
  unfolding fit_from
  fit_within_budget items budget = fit_from budget 2 false false items

  -- The loop over `order`: what is left is shared equally by the lists from this one on. A negative
  -- rest is 0 here; nothing fits either.
  unfoldable pub fit_in_order : List (ℕ × List A) → ℕ → List (ℕ × List A × Bool)
  unfolding fit_within_budget array_length
  fit_in_order [] remaining = []
  fit_in_order ((index, list) ∷ lists) remaining =
      let fitted = fit_within_budget list (remaining / (1 + length lists)) in
      (index, fitted.0, fitted.1) ∷ fit_in_order lists (remaining - array_length fitted.0)

  abbrev pub enumerate : ℕ → List (List A) → List (ℕ × List A)
  enumerate n [] = []
  enumerate n (list ∷ lists) = (n, list) ∷ enumerate (n + 1) lists

  -- `kept[i]` and `cut[i]`
  unfoldable pub result_at : ℕ → List (ℕ × List A × Bool) → List A × Bool
  result_at i [] = ([], false)
  result_at i ((index, kept, cut) ∷ results) =
      if index == i then (kept, cut) else result_at i results

  unfoldable pub fit_lists_within_budget : List (List A) → ℕ → List (List A × Bool)
  unfolding fit_in_order result_at
  fit_lists_within_budget lists budget =
      let results = fit_in_order (sort_by (λ p. array_length p.1) (enumerate 0 lists)) budget in
      map (λ p. result_at p.0 results) (enumerate 0 lists)

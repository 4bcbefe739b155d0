-- ===== src/Vault/Query/Filter.antt =====
-- src/vault/query.ts: the value of a field, and the notes that a query matches. F is the type of
-- frontmatter, whose `getPath` is an argument.
use brainstem_mcp.Prelude.{
  Bool, List, Option, Text, [], all, any, codes, filter, if◌then◌else◌, length, map, none, not,
  some, starts_with, tests, text_eq, true, ℕ, ◌&&◌, ◌++◌, ◌||◌, ◌∷◌,
}
use brainstem_mcp.Prelude.Sort.{sort_texts, unique}
use brainstem_mcp.Storage.PathPolicy.{base_name, ends_with, parent_dir}
use brainstem_mcp.Storage.Types.{Result, ok, ◌>>=◌}
use brainstem_mcp.Vault.Links.{without_md}
use brainstem_mcp.Vault.Query.{
  Runtime, Sign, Value, array, greater, is_greater, is_missing, is_same, less, number, one, same,
  text, typed_compare,
}
use brainstem_mcp.Vault.Query.Conditions.{Cond, compile_cond}

pub record Entry (F : Type 0) : Type 0 where
  pub path : Text
  pub frontmatter : F
  pub size : ℕ
  pub modified_at : Text
  pub hash : Text
  pub tags : List Text
  pub word_count : ℕ

-- The notes that link to a path, once for each link, and what the links of a note resolve to.
pub record VaultGraph : Type 0 where
  pub backlinks : Text → List Text
  pub outgoing : Text → List (Option Text)

abbrev pub resolved : List (Option Text) → List Text
resolved [] = []
resolved (none ∷ links) = resolved links
resolved (some path ∷ links) = path ∷ resolved links

unfoldable pub resolved_outgoing_paths : {F : Type 0} → Entry F → VaultGraph → List Text
unfolding unique sort_texts
resolved_outgoing_paths entry graph = sort_texts (unique (resolved (graph.outgoing entry.path)))

module _ {N O F : Type 0} (r : Runtime N O) (get_path : F → Text → Value N O) where
  abbrev pub texts : List Text → Value N O
  texts list = array (map text list)

  abbrev pub count_of : ℕ → Value N O
  count_of n = one (number (r.number_of n))

  unfoldable pub field_value : Entry F → VaultGraph → Text → Value N O
  unfolding resolved_outgoing_paths base_name parent_dir without_md unique sort_texts
  field_value entry graph field =
      if text_eq field (codes "path")
      then one (text entry.path)
      else if text_eq field (codes "basename")
      then one (text (without_md (base_name entry.path)))
      else if text_eq field (codes "folder")
      then one (text (parent_dir entry.path))
      else if text_eq field (codes "modifiedAt")
      then one (text entry.modified_at)
      else if text_eq field (codes "size")
      then count_of entry.size
      else if text_eq field (codes "wordCount")
      then count_of entry.word_count
      else if text_eq field (codes "hash")
      then one (text entry.hash)
      else if text_eq field (codes "tags")
      then texts entry.tags
      else if text_eq field (codes "backlinks")
      then count_of (length (graph.backlinks entry.path))
      else if text_eq field (codes "outgoing")
      then count_of (length (resolved (graph.outgoing entry.path)))
      else if text_eq field (codes "backlinkPaths")
      then texts (sort_texts (unique (graph.backlinks entry.path)))
      else if text_eq field (codes "outgoingPaths")
      then texts (resolved_outgoing_paths entry graph)
      else get_path entry.frontmatter field

unfoldable pub matches_path_prefix : Text → Option Text → Bool
unfolding ends_with
matches_path_prefix path none = true
matches_path_prefix path (some []) = true
matches_path_prefix path (some (c ∷ prefix)) =
    starts_with path
      (if ends_with (c ∷ prefix) (codes "/") then c ∷ prefix else (c ∷ prefix) ++ codes "/")

-- src/vault/tags.ts
unfoldable pub is_tag_or_descendant : Text → Text → Bool
is_tag_or_descendant key parent = text_eq key parent || starts_with key (parent ++ codes "/")

pub record TagFilters : Type 0 where
  pub any_of : Option (List Text)
  pub all_of : Option (List Text)
  pub none_of : Option (List Text)

module _ (lower : Text → Text) where
  unfoldable pub tag_filter_matches : List Text → Text → Bool
  unfolding is_tag_or_descendant
  tag_filter_matches entry_tags filter =
      any (λ t. is_tag_or_descendant (lower t) (lower filter)) entry_tags

  abbrev pub passes_if : (List Text → Bool) → Option (List Text) → Bool
  passes_if test none = true
  passes_if test (some tags) = test tags

  unfoldable pub passes_tag_filters : List Text → Option TagFilters → Bool
  unfolding tag_filter_matches
  passes_tag_filters entry_tags none = true
  passes_tag_filters entry_tags (some tags) =
      passes_if (any (tag_filter_matches entry_tags)) tags.any_of
      && passes_if (all (tag_filter_matches entry_tags)) tags.all_of
      && passes_if (λ ts. not (any (tag_filter_matches entry_tags) ts)) tags.none_of

pub record SortKey : Type 0 where
  pub field : Text
  pub descending : Bool

-- The part of a query that `matchEntries` reads. No `sort` is the empty list.
pub record Query (N O : Type 0) : Type 0 where
  pub conds : List (Cond N O)
  pub tags : Option TagFilters
  pub path_prefix : Option Text
  pub sort : List SortKey

abbrev pub opposite : Sign → Sign
opposite less = greater
opposite same = same
opposite greater = less

-- The stable sort by a comparison, for those that order the elements.
unfoldable pub insert_with : {A : Type 0} → (A → A → Sign) → A → List A → List A
insert_with compare x [] = x ∷ []
insert_with compare x (y ∷ ys) =
    if is_greater (compare x y) then y ∷ insert_with compare x ys else x ∷ y ∷ ys

unfoldable pub sort_with : {A : Type 0} → (A → A → Sign) → List A → List A
unfolding insert_with
sort_with compare [] = []
sort_with compare (x ∷ xs) = insert_with compare x (sort_with compare xs)

module _ {N O F : Type 0} (r : Runtime N O) (get_path : F → Text → Value N O)
    (graph : VaultGraph) where
  -- A compiled condition.
  abbrev pub Test : Type 0
  Test = Entry F → Bool

  unfoldable pub compile_all : List (Cond N O) → Result (List Test)
  unfolding compile_cond field_value
  compile_all [] = ok []
  compile_all (cond ∷ conds) = do
    test ← compile_cond r cond.op cond.value
    tests ← compile_all conds
    ok ((λ entry. test (field_value r get_path entry graph cond.field)) ∷ tests)

  abbrev pub compare_values : Value N O → Value N O → Bool → Sign
  unfolding typed_compare
  compare_values av bv descending =
      if is_missing av
      then (if is_missing bv then same else less)
      else if is_missing bv
      then greater
      else if descending
      then opposite (typed_compare r av bv)
      else typed_compare r av bv

  unfoldable pub compare_by_sort_key : SortKey → Entry F → Entry F → Sign
  unfolding field_value
  compare_by_sort_key key a b =
      compare_values (field_value r get_path a graph key.field)
        (field_value r get_path b graph key.field) key.descending

  unfoldable pub compare_by_sort_keys : List SortKey → Entry F → Entry F → Sign
  unfolding compare_by_sort_key
  compare_by_sort_keys [] a b = same
  compare_by_sort_keys (key ∷ sort_keys) a b =
      let rest = compare_by_sort_keys sort_keys a b in
      let first = compare_by_sort_key key a b in if is_same first then rest else first

  unfoldable pub passes : Query N O → List Test → Entry F → Bool
  unfolding matches_path_prefix passes_tag_filters
  passes q compiled_where entry =
      matches_path_prefix entry.path q.path_prefix
      && passes_tag_filters r.lower entry.tags q.tags
      && all (λ test. test entry) compiled_where

  unfoldable pub match_entries : List (Entry F) → Query N O → Result (List (Entry F))
  unfolding compile_all passes sort_with compare_by_sort_keys
  match_entries entries q = do
    compiled_where ← compile_all q.conds
    ok (sort_with (compare_by_sort_keys q.sort) (filter (passes q compiled_where) entries))

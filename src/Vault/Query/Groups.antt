-- ===== src/Vault/Query/Groups.antt =====
-- src/vault/query.ts: the groups of the notes that a query matches. The sums of a group are left out.
pub mod Counts
use brainstem_mcp.Prelude.{
  List, Option, Text, [], codes, filter, if◌then◌else◌, length, ltb, map, none, some, starts_with,
  ℕ, ◌++◌, ◌+◌, ◌∷◌,
}
use brainstem_mcp.Prelude.Dict.{get, keys, put}
use brainstem_mcp.Prelude.Sort.{text_lt, unique}
use brainstem_mcp.Vault.Query.{Runtime, Value, array, missing, one, string_of}
use brainstem_mcp.Vault.Query.Filter.{Entry, VaultGraph, field_value}

abbrev pub max_group_paths : ℕ
max_group_paths = 20

abbrev pub none_group_key : Text
none_group_key = codes "(none)"

pub record Group : Type 0 where
  pub count : ℕ
  pub paths : List Text

abbrev pub Groups : Type 0
Groups = List (Text × Group)

module _ {N O F : Type 0} (r : Runtime N O) (get_path : F → Text → Value N O)
    (graph : VaultGraph) where
  abbrev pub group_key_for_value : Value N O → Text
  group_key_for_value (one missing) = none_group_key
  group_key_for_value v = string_of r v

  -- The keys of the groups that a value lands in.
  unfoldable pub group_keys : Value N O → List Text
  unfolding unique
  group_keys (one el) = group_key_for_value (one el) ∷ []
  group_keys (array []) = none_group_key ∷ []
  group_keys (array (el ∷ els)) = unique (map (λ e. group_key_for_value (one e)) (el ∷ els))

  abbrev pub grown : Text → Option Group → Group
  grown path none = record { count = 1; paths = path ∷ [] }
  grown path (some g) = record {
    count = g.count + 1;
    paths = if ltb (length g.paths) max_group_paths then g.paths ++ path ∷ [] else g.paths;
  }

  unfoldable pub add_to_groups : Text → List Text → Groups → Groups
  unfolding get put
  add_to_groups path [] groups = groups
  add_to_groups path (key ∷ keys) groups =
      add_to_groups path keys (put key (grown path (get key groups)) groups)

  unfoldable pub collect_groups : Text → List (Entry F) → Groups → Groups
  unfolding add_to_groups group_keys field_value
  collect_groups field [] groups = groups
  collect_groups field (entry ∷ entries) groups =
      collect_groups field entries
        (add_to_groups entry.path (group_keys (field_value r get_path entry graph field)) groups)

-- The order of the keys.
unfoldable pub insert_group : Text × Group → Groups → Groups
unfolding text_lt
insert_group g [] = g ∷ []
insert_group g (h ∷ groups) = if text_lt h.0 g.0 then h ∷ insert_group g groups else g ∷ h ∷ groups

unfoldable pub sort_groups : Groups → Groups
unfolding insert_group
sort_groups [] = []
sort_groups (g ∷ groups) = insert_group g (sort_groups groups)

module _ {N O F : Type 0} (r : Runtime N O) (get_path : F → Text → Value N O)
    (graph : VaultGraph) where
  unfoldable pub build_groups : List (Entry F) → Text → Groups
  unfolding collect_groups sort_groups
  build_groups entries field = sort_groups (collect_groups r get_path graph field entries [])

unfoldable pub apply_group_prefix : Groups → Option Text → Groups
apply_group_prefix groups none = groups
apply_group_prefix groups (some prefix) = filter (λ g. starts_with g.0 prefix) groups

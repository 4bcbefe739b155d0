-- ===== src/Vault/Query/Tests.antt =====
-- src/vault/query.ts on concrete notes.
use brainstem_mcp.Prelude.{
  Bool, List, Text, [], any, codes, false, filter, if◌then◌else◌, length, ltb, map, none, not, refl,
  some, text_eq, true, ℕ, ◌%◌, ◌+◌, ◌/◌, ◌==◌, ◌↔◌, ◌∷◌, ◌≡◌,
}
use brainstem_mcp.Storage.Types.{Result, err, ok}
use brainstem_mcp.Vault.Query.{
  Element, Runtime, Value, Wanted, array, is_link_key, less, matches_eq, matches_in, missing, null,
  number, one, text, typed_compare, wanted,
}
use brainstem_mcp.Vault.Query.Conditions.{compile_cond, compile_in, eq_op, neq_op}
use brainstem_mcp.Vault.Query.Filter.{Entry, Query, VaultGraph, compare_by_sort_keys, match_entries}
use brainstem_mcp.Vault.Query.Groups.{build_groups}
use brainstem_mcp.Vault.Query.Groups.Counts.{build_groups-counts, group_count, lands}
use brainstem_mcp.Vault.Query.Matched.{InOrder, IsConsistent, match_entries-Perm}
use brainstem_mcp.Vault.Query.Meaning.{Fits}
use brainstem_mcp.Vault.Query.Membership.{compile_in-any_eq}
use brainstem_mcp.Vault.Query.Missing.{compile_cond-missing}
use mathlib.Core.List.{Perm}

-- Numbers of one digit and of two, with their text.
abbrev digits_of_number : ℕ → Text
digits_of_number n = if ltb n 10 then (b'0' + n) ∷ [] else (b'0' + n / 10) ∷ (b'0' + n % 10) ∷ []

abbrev shown : Value ℕ Unit → Text
shown (one (number n)) = digits_of_number n
shown (one null) = codes "null"
shown _ = codes "x"

abbrev runtime : Runtime ℕ Unit
runtime = record {
  num_eq = ◌==◌;
  num_lt = ltb;
  shown = shown;
  date_parse = length;
  lower = λ s. s;
  upper = λ s. s;
  number_of = λ n. n;
}

abbrev note : Text → Text → List Text → Entry Text
note path kind tags = record {
  path = path;
  frontmatter = kind;
  size = length path;
  modified_at = codes "2024-01-02";
  hash = [];
  tags = tags;
  word_count = 0;
}

-- Frontmatter with one field, whatever its name is.
abbrev get_path : Text → Text → Value ℕ Unit
get_path kind field = if text_eq field (codes "kind") then one (text kind) else one missing

abbrev graph : VaultGraph
graph = record { backlinks = λ path. []; outgoing = λ path. [] }

abbrev notes : List (Entry Text)
notes =
    note (codes "b.md") (codes "log") (codes "day" ∷ codes "old" ∷ [])
    ∷ note (codes "a.md") (codes "log") (codes "day" ∷ [])
    ∷ note (codes "c.md") (codes "list") []
    ∷ []

abbrev logs : Query ℕ Unit
logs = record {
  conds = record { field = codes "kind"; op = eq_op; value = one (text (codes "log")) } ∷ [];
  tags = some (record {
    any_of = some (codes "day" ∷ []);
    all_of = none;
    none_of = some (codes "new" ∷ []);
  });
  path_prefix = none;
  sort = record { field = codes "path"; descending = false } ∷ [];
}

abbrev paths_of : Result (List (Entry Text)) → List Text
paths_of (ok entries) = map (λ (e : Entry Text). e.path) entries
paths_of (err code) = []

sorted_logs :
    paths_of (match_entries runtime get_path graph notes logs) ≡ codes "a.md" ∷ codes "b.md" ∷ []
unfolding match_entries
sorted_logs = refl

-- Comparisons of numbers and of texts do not fit together: a cycle.
two_below_ten : typed_compare runtime (one (number 2)) (one (number 10)) ≡ less
unfolding typed_compare
two_below_ten = refl

ten_below_text : typed_compare runtime (one (number 10)) (one (text (codes "1a"))) ≡ less
unfolding typed_compare
ten_below_text = refl

text_below_two : typed_compare runtime (one (text (codes "1a"))) (one (number 2)) ≡ less
unfolding typed_compare
text_below_two = refl

-- The text "null" is not equal to null, and is in a list of null.
eq_null : matches_eq runtime (one (text (codes "null"))) (wanted runtime (one null)) ≡ false
unfolding matches_eq wanted
eq_null = refl

in_null :
    matches_in runtime (one (text (codes "null"))) (wanted runtime (one null) ∷ []) false ≡ true
unfolding matches_in wanted
in_null = refl

-- A link equals the name of its note.
eq_link :
    matches_eq runtime
      (one (text (codes "[[p/Ann|A]]")))
      (wanted runtime (one (text (codes "Ann"))))
    ≡ true
unfolding matches_eq wanted
eq_link = refl

abbrev wanted_kinds : List (Element ℕ Unit)
wanted_kinds = text (codes "log") ∷ text (codes "list") ∷ []

abbrev in_kinds : Value ℕ Unit → Bool
in_kinds field = matches_in runtime field (map (λ el. wanted runtime (one el)) wanted_kinds) (
    any (λ (w : Wanted runtime). is_link_key runtime w.key)
      (map (λ el. wanted runtime (one el)) wanted_kinds))

in_kinds_compiles : compile_in runtime (array wanted_kinds) ≡ ok in_kinds
unfolding compile_in
in_kinds_compiles = refl

compile_in-any_eq_example :
    in_kinds (one (text (codes "log")))
    ≡ any
        (λ el. matches_eq runtime (one (text (codes "log"))) (wanted runtime (one el)))
        wanted_kinds
compile_in-any_eq_example =
    compile_in-any_eq runtime wanted_kinds (one (text (codes "log"))) in_kinds (refl, (refl, tt))
      in_kinds_compiles

not_log_compiles :
    compile_cond runtime neq_op (one (text (codes "log")))
    ≡ ok (λ field. not (matches_eq runtime field (wanted runtime (one (text (codes "log"))))))
unfolding compile_cond
not_log_compiles = refl

compile_cond-missing_example :
    not (matches_eq runtime (one missing) (wanted runtime (one (text (codes "log"))))) ≡ true
compile_cond-missing_example =
    compile_cond-missing runtime neq_op (one (text (codes "log")))
      (λ field. not (matches_eq runtime field (wanted runtime (one (text (codes "log"))))))
      not_log_compiles

abbrev found_logs : List (Entry Text)
found_logs =
    note (codes "a.md") (codes "log") (codes "day" ∷ [])
    ∷ note (codes "b.md") (codes "log") (codes "day" ∷ codes "old" ∷ [])
    ∷ []

logs_match : match_entries runtime get_path graph notes logs ≡ ok found_logs
unfolding match_entries
logs_match = refl

match_entries-Perm_example :
    (keep : Entry Text → Bool) × ((entry : Entry Text)
      → (keep entry ≡ true) ↔ Fits runtime get_path graph logs entry)
    × Perm found_logs (filter keep notes)
    × (IsConsistent (compare_by_sort_keys runtime get_path graph logs.sort)
        → InOrder (compare_by_sort_keys runtime get_path graph logs.sort) found_logs)
match_entries-Perm_example =
    match_entries-Perm runtime get_path graph notes found_logs logs logs_match

build_groups-counts_example :
    group_count (codes "day") (build_groups runtime get_path graph notes (codes "tags"))
    ≡ length (filter (lands runtime get_path graph (codes "tags") (codes "day")) notes)
build_groups-counts_example =
    build_groups-counts runtime get_path graph notes (codes "tags") (codes "day")

two_days : group_count (codes "day") (build_groups runtime get_path graph notes (codes "tags")) ≡ 2
unfolding build_groups
two_days = refl

untagged :
    group_count (codes "(none)") (build_groups runtime get_path graph notes (codes "tags")) ≡ 1
unfolding build_groups
untagged = refl

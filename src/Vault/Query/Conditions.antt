-- ===== src/Vault/Query/Conditions.antt =====
-- src/vault/query.ts: the conditions of a query, compiled to tests.
use brainstem_mcp.Prelude.{
  Bool, List, Text, [], all, any, false, if◌then◌else◌, is_empty, length, ltb, map, not, true, ℕ,
  ◌||◌,
}
use brainstem_mcp.Storage.Types.{Result, err, invalid_input, ok, reject_if, ◌>>◌}
use brainstem_mcp.Vault.Query.{
  Element, Runtime, Sign, Value, Wanted, array, is_greater, is_less, is_link_key, is_missing,
  is_null, matches_contains, matches_eq, matches_exists, matches_in, matches_non_empty,
  matches_starts_with, missing, null, number, one, string_of, text, typed_compare, wanted,
}
use brainstem_mcp.Vault.SafeRegex.Compile.{SafeMatcher, compile_safe_pattern}
use brainstem_mcp.Vault.SafeRegex.Pattern.{Parse, parsed}

-- 'eq', 'neq', 'contains', 'startsWith', 'exists', 'nonEmpty', 'gt', 'gte', 'lt', 'lte', 'in', 'regex'
pub data Op : Type 0 where
  eq_op neq_op contains_op starts_with_op exists_op non_empty_op : Op
  gt_op gte_op lt_op lte_op in_op regex_op : Op

-- A condition without a value has the value `missing`.
pub record Cond (N O : Type 0) : Type 0 where
  pub field : Text
  pub op : Op
  pub value : Value N O

abbrev pub max_contains_needles : ℕ
max_contains_needles = 50

module _ {N O : Type 0} where
  abbrev pub good_needle : Element N O → Bool
  good_needle (text s) = not (is_empty s)
  good_needle (number x) = true
  good_needle _ = false

  unfoldable pub validate_needle_array : List (Element N O) → Result {0} Unit
  validate_needle_array els = do
    reject_if (is_empty els || ltb max_contains_needles (length els)) invalid_input
    reject_if (not (all good_needle els)) invalid_input

  unfoldable pub validate_needles : Value N O → Result {0} Unit
  unfolding validate_needle_array
  validate_needles (array els) = validate_needle_array els
  validate_needles (one missing) = err invalid_input
  validate_needles (one null) = err invalid_input
  validate_needles (one (text [])) = err invalid_input
  validate_needles (one el) = ok tt

  module _ (r : Runtime N O) where
    -- The condition on the value of the field.
    unfoldable pub compile_in : Value N O → Result (Value N O → Bool)
    unfolding matches_in wanted
    compile_in (one el) = err invalid_input
    compile_in (array els) =
        let many = map (λ el. wanted r (one el)) els in
        ok (λ field. matches_in r field many (any (λ (w : Wanted r). is_link_key r w.key) many))

    abbrev pub tests_present : (Text → Bool) → Value N O → Bool
    tests_present test field =
        if is_missing field
        then false
        else if is_null field
        then false
        else test (string_of r field)

    abbrev pub regex_test : Parse SafeMatcher → Result (Value N O → Bool)
    regex_test (parsed m) = ok (tests_present m.test)
    regex_test _ = err invalid_input

    unfoldable pub compile_regex : Value N O → Result (Value N O → Bool)
    unfolding compile_safe_pattern
    compile_regex value = regex_test (compile_safe_pattern r.lower r.upper (string_of r value))

    -- `matchesOrder`
    abbrev pub ordered : (Sign → Bool) → Value N O → Value N O → Bool
    unfolding typed_compare
    ordered test value field =
        if is_missing field then false else test (typed_compare r field value)

    unfoldable pub compile_cond : Op → Value N O → Result (Value N O → Bool)
    unfolding compile_regex compile_in validate_needles matches_eq matches_contains
        matches_starts_with matches_exists matches_non_empty wanted
    compile_cond regex_op value = compile_regex value
    compile_cond in_op value = compile_in value
    compile_cond contains_op value = do
      validate_needles value
      ok (λ field. matches_contains r field value)
    compile_cond starts_with_op value = do
      validate_needles value
      ok (λ field. matches_starts_with r field value)
    compile_cond eq_op value = ok (λ field. matches_eq r field (wanted r value))
    compile_cond neq_op value = ok (λ field. not (matches_eq r field (wanted r value)))
    compile_cond exists_op value = ok (λ field. matches_exists r field value)
    compile_cond non_empty_op value = ok (λ field. matches_non_empty r field)
    compile_cond gt_op value = ok (ordered is_greater value)
    compile_cond gte_op value = ok (ordered (λ s. not (is_less s)) value)
    compile_cond lt_op value = ok (ordered is_less value)
    compile_cond lte_op value = ok (ordered (λ s. not (is_greater s)) value)

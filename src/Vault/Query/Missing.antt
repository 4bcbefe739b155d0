-- ===== src/Vault/Query/Missing.antt =====
-- src/vault/query.ts: conditions on a field that the note does not have.
use brainstem_mcp.Prelude.{Bool, List, [], any, ap, arith, false, refl, sym, true, ◌∙◌, ◌∷◌, ◌≡◌}
use brainstem_mcp.Storage.Types.{Result, err, ok, ◌>>◌}
use brainstem_mcp.Vault.Query.{
  Element, Runtime, Value, any_needle, array, is_false, matches_contains, matches_eq,
  matches_exists, matches_in, matches_non_empty, matches_starts_with, missing, one, string_of,
}
use brainstem_mcp.Vault.Query.Conditions.{
  Op, compile_cond, compile_in, compile_regex, contains_op, eq_op, exists_op, gt_op, gte_op, in_op,
  lt_op, lte_op, neq_op, non_empty_op, regex_op, regex_test, starts_with_op, tests_present,
  validate_needles,
}
use brainstem_mcp.Vault.SafeRegex.Compile.{SafeMatcher, compile_safe_pattern}
use brainstem_mcp.Vault.SafeRegex.Pattern.{Parse, invalid, out_of_fuel, parsed}

-- The conditions that a missing field passes.
abbrev pub accepts_missing : {N O : Type 0} → Op → Value N O → Bool
accepts_missing neq_op value = true
accepts_missing exists_op value = is_false value
accepts_missing op value = false

module _ {N O : Type 0} (r : Runtime N O) where
  tested :
      (a : Result (Value N O → Bool)) (f test : Value N O → Bool)
      → a ≡ ok f
      → a ≡ ok test
      → test (one missing) ≡ f (one missing)
  tested a f test e k = let same : f ≡ test = cc in ap (λ g. g (one missing)) (sym same)

  any_needle-false : (value : Value N O) → any_needle r (λ v. false) value ≡ false
  any_needle-false (one el) = refl
  any_needle-false (array els) = any_none els
    where
      any_none : (els : List (Element N O)) → any (λ el. false) els ≡ false
      any_none [] = refl
      any_none (el ∷ els) = any_none els

  needles :
      (value : Value N O) (f test : Value N O → Bool)
      → (do validate_needles value; ok f) ≡ ok test
      → test (one missing) ≡ f (one missing)
  needles value f test e = past (validate_needles value) e
    where
      past : (v : Result {0} Unit) → (v >> ok f) ≡ ok test → test (one missing) ≡ f (one missing)
      past (ok u) e = tested (ok f) f test refl e
      past (err code) e = cc

  regex_missing :
      (p : Parse SafeMatcher) (test : Value N O → Bool)
      → regex_test r p ≡ ok test
      → test (one missing) ≡ false
  regex_missing (parsed m) test e =
      tested (ok (tests_present r m.test)) (tests_present r m.test) test refl e
  regex_missing invalid test e = cc
  regex_missing out_of_fuel test e = cc

  -- A condition on a field that the note does not have is passed for "neq" and for "exists" with
  -- the value false, and for no other operator, whatever the value is.
  pub compile_cond-missing :
      (op : Op) (value : Value N O) (test : Value N O → Bool)
      → compile_cond r op value ≡ ok test
      → test (one missing) ≡ accepts_missing op value
  unfolding compile_cond compile_regex compile_in matches_in matches_eq matches_contains
      matches_starts_with matches_exists matches_non_empty
  compile_cond-missing eq_op value test e = tested (ok _) _ test refl e
  compile_cond-missing neq_op value test e = tested (ok _) _ test refl e
  compile_cond-missing contains_op value test e = needles value _ test e ∙ any_needle-false value
  compile_cond-missing starts_with_op value test e = needles value _ test e ∙ any_needle-false value
  compile_cond-missing exists_op value test e = tested (ok _) _ test refl e ∙ ground arith
  compile_cond-missing non_empty_op value test e = tested (ok _) _ test refl e
  compile_cond-missing gt_op value test e = tested (ok _) _ test refl e
  compile_cond-missing gte_op value test e = tested (ok _) _ test refl e
  compile_cond-missing lt_op value test e = tested (ok _) _ test refl e
  compile_cond-missing lte_op value test e = tested (ok _) _ test refl e
  compile_cond-missing in_op (one el) test e = cc
  compile_cond-missing in_op (array els) test e = tested (ok _) _ test refl e
  compile_cond-missing regex_op value test e =
      regex_missing (compile_safe_pattern r.lower r.upper (string_of r value)) test e

-- ===== src/Vault/Query.antt =====
-- src/vault/query.ts: values and how vault_query compares them. N is the type of numbers and O that of objects
-- and nested arrays, of which only their text counts. What the language does with numbers, dates
-- and case is an argument.
pub mod Filter
pub mod Groups
pub mod Membership
pub mod Missing
pub mod Meaning
pub mod Passing
pub mod Matched
mod Tests
pub mod Conditions
use brainstem_mcp.Prelude.{
  Bool, List, Option, Text, [], all, any, codes, false, if◌then◌else◌, is_empty, length, ltb, map,
  none, not, some, starts_with, suc, text_eq, true, zero, ℕ, ◌&&◌, ◌==◌, ◌||◌, ◌∷◌,
}
use brainstem_mcp.Prelude.Sort.{text_lt}
use brainstem_mcp.Storage.PathPolicy.{trim_start}
use brainstem_mcp.Storage.Types.{Result, err, invalid_input, ok, reject_if, ◌>>=◌, ◌>>◌}
use brainstem_mcp.Vault.Links.{LinkKey, key_from, link_key, same_link_key}
use brainstem_mcp.Vault.SafeRegex.{is_digit}
use brainstem_mcp.Vault.SafeRegex.Compile.{SafeMatcher, compile_safe_pattern}
use brainstem_mcp.Vault.SafeRegex.Literals.{includes}
use brainstem_mcp.Vault.SafeRegex.Pattern.{Parse, parsed}

-- An array holds values that are no arrays, which is what is compared one by one.
pub data Element (N O : Type 0) : Type 0 where
  missing null : Element N O
  boolean : Bool → Element N O
  number : N → Element N O
  text : Text → Element N O
  object : O → Element N O

pub data Value (N O : Type 0) : Type 0 where
  one : Element N O → Value N O
  array : List (Element N O) → Value N O

-- `===` and `<` on numbers, `String`, `Date.parse`, and the two cases.
pub record Runtime (N O : Type 0) : Type 0 where
  pub num_eq : N → N → Bool
  pub num_lt : N → N → Bool
  pub shown : Value N O → Text
  pub date_parse : Text → N
  pub lower : Text → Text
  pub upper : Text → Text
  pub number_of : ℕ → N

-- A result below, at or above zero.
pub data Sign : Type 0 where
  less same greater : Sign

abbrev pub is_same : Sign → Bool
is_same same = true
is_same _ = false

abbrev pub is_less : Sign → Bool
is_less less = true
is_less _ = false

abbrev pub is_greater : Sign → Bool
is_greater greater = true
is_greater _ = false

abbrev pub is_digits : ℕ → Text → Option Text
is_digits zero s = some s
is_digits (suc n) [] = none
is_digits (suc n) (c ∷ s) = if is_digit c then is_digits n s else none

abbrev pub hyphen : Option Text → Option Text
hyphen (some (c ∷ s)) = if c == b'-' then some s else none
hyphen _ = none

abbrev pub digits_of : ℕ → Option Text → Option Text
digits_of n none = none
digits_of n (some s) = is_digits n s

abbrev pub is_time_char : ℕ → Bool
is_time_char c = is_digit c || c == b':' || c == b'.'

abbrev pub time_tail : Text → Bool
time_tail [] = true
time_tail (c ∷ []) = is_time_char c || c == b'Z'
time_tail (c ∷ d ∷ s) = is_time_char c && time_tail (d ∷ s)

abbrev pub date_end : Option Text → Bool
date_end (some []) = true
date_end (some (c ∷ d ∷ s)) = c == b'T' && is_time_char d && time_tail s
date_end _ = false

-- ISO_DATE_RE
unfoldable pub is_iso_date : Text → Bool
is_iso_date s = date_end (digits_of 2 (hyphen (digits_of 2 (hyphen (is_digits 4 s)))))

unfoldable pub compare_texts : Text → Text → Sign
unfolding text_lt
compare_texts s t = if text_eq s t then same else if text_lt s t then less else greater

module _ {N O : Type 0} where
  abbrev pub is_missing : Value N O → Bool
  is_missing (one missing) = true
  is_missing _ = false

  abbrev pub is_null : Value N O → Bool
  is_null (one null) = true
  is_null _ = false

  abbrev pub is_false : Value N O → Bool
  is_false (one (boolean false)) = true
  is_false _ = false

  module _ (r : Runtime N O) where
    -- `String(v)`
    abbrev pub string_of : Value N O → Text
    string_of (one (text s)) = s
    string_of v = r.shown v

    unfoldable pub compare_numbers : N → N → Sign
    compare_numbers x y = if r.num_eq x y then same else if r.num_lt x y then less else greater

    unfoldable pub typed_compare : Value N O → Value N O → Sign
    unfolding compare_numbers compare_texts is_iso_date
    typed_compare (one (number x)) (one (number y)) = compare_numbers x y
    typed_compare (one (text s)) (one (text t)) =
        if is_iso_date s && is_iso_date t
        then compare_numbers (r.date_parse s) (r.date_parse t)
        else compare_texts (r.lower s) (r.lower t)
    typed_compare a b = compare_texts (r.lower (string_of a)) (r.lower (string_of b))

    -- `linkKey`
    unfoldable pub key_of : Value N O → Option LinkKey
    unfolding link_key key_from
    key_of (one (text s)) = some (link_key r.lower s)
    key_of (one (number x)) = some (key_from r.lower (r.shown (one (number x))) none)
    key_of v = none

    pub record Wanted : Type 0 where
      pub value : Value N O
      pub key : Option LinkKey

    unfoldable pub wanted : Value N O → Wanted
    unfolding key_of
    wanted v = record { value = v; key = key_of v }

    abbrev pub is_link_key : Option LinkKey → Bool
    is_link_key none = false
    is_link_key (some k) = k.is_link

    abbrev pub may_be_link : Value N O → Bool
    unfolding trim_start
    may_be_link (one (text s)) = starts_with (trim_start s) (codes "[[")
    may_be_link _ = false

    unfoldable pub element_matches : Element N O → List Wanted → Bool → Bool
    unfolding typed_compare same_link_key key_of
    element_matches el ws any_link_wanted =
        if any (λ (w : Wanted). is_same (typed_compare (one el) w.value)) ws
        then true
        else if not (may_be_link (one el)) && not any_link_wanted
        then false
        else any (λ (w : Wanted). same_link_key (key_of (one el)) w.key) ws

    unfoldable pub matches_eq : Value N O → Wanted → Bool
    unfolding element_matches
    matches_eq (one missing) w = false
    matches_eq (one null) w = is_null w.value
    matches_eq (array els) w =
        if is_null w.value
        then false
        else any (λ el. element_matches el (w ∷ []) (is_link_key w.key)) els
    matches_eq (one el) w =
        if is_null w.value then false else element_matches el (w ∷ []) (is_link_key w.key)

    unfoldable pub matches_in : Value N O → List Wanted → Bool → Bool
    unfolding element_matches
    matches_in (one missing) ws any_link = false
    matches_in (one null) ws any_link = any (λ (w : Wanted). is_null w.value) ws
    matches_in (array els) ws any_link = any (λ el. element_matches el ws any_link) els
    matches_in (one el) ws any_link = element_matches el ws any_link

    -- A test of the lower-case text of a value, or of any of an array's.
    abbrev pub text_matches : (Text → Text → Bool) → Value N O → Value N O → Bool
    text_matches test (one missing) needle = false
    text_matches test (one null) needle = false
    text_matches test (array els) needle =
        any (λ el. test (r.lower (string_of (one el))) (r.lower (string_of needle))) els
    text_matches test (one el) needle =
        test (r.lower (string_of (one el))) (r.lower (string_of needle))

    abbrev pub any_needle : (Value N O → Bool) → Value N O → Bool
    any_needle test (array els) = any (λ el. test (one el)) els
    any_needle test (one el) = test (one el)

    unfoldable pub matches_contains : Value N O → Value N O → Bool
    unfolding includes
    matches_contains field value = any_needle (text_matches includes field) value

    unfoldable pub matches_starts_with : Value N O → Value N O → Bool
    matches_starts_with field value = any_needle (text_matches starts_with field) value

    unfoldable pub matches_exists : Value N O → Value N O → Bool
    matches_exists field value = if is_false value then is_missing field else not (is_missing field)

    unfoldable pub matches_non_empty : Value N O → Bool
    matches_non_empty (one missing) = false
    matches_non_empty (one null) = false
    matches_non_empty (one (text s)) = not (is_empty s)
    matches_non_empty (array els) = not (is_empty els)
    matches_non_empty (one el) = true

-- ===== src/Vault/SafeRegex/Pattern/Quantifiers.antt =====
-- src/vault/safe-regex.ts: quantifiers.
use brainstem_mcp.Prelude.{
  Bool, List, Option, [], if◌then◌else◌, is_empty, ltb, none, not, some, ℕ, ◌*◌, ◌+◌, ◌-◌, ◌==◌,
  ◌||◌, ◌∷◌,
}
use brainstem_mcp.Vault.SafeRegex.{is_digit, max_repeat}
use brainstem_mcp.Vault.SafeRegex.Pattern.{Parse, Source, invalid, parsed, rest_of, starts, ◌>>=◌}

-- The digits at the start, and what comes after them.
unfoldable pub take_digits : Source → List ℕ × Source
take_digits [] = ([], [])
take_digits (c ∷ s) =
    let (digits, after) = take_digits s in if is_digit c then (c ∷ digits, after) else ([], c ∷ s)

-- `Number(digits)`
unfoldable pub number : ℕ → List ℕ → ℕ
number value [] = value
number value (d ∷ digits) = number (value * 10 + (d - b'0')) digits

abbrev pub Counts : Type 0
Counts = ℕ × Option ℕ

abbrev pub upper_count : List ℕ → Option ℕ
unfolding number
upper_count [] = none
upper_count (d ∷ digits) = some (number 0 (d ∷ digits))

-- The largest count, and what comes after it.
unfoldable pub upper_part : ℕ → Source → Option ℕ × Source
unfolding take_digits
upper_part min s =
    let (digits, after) = take_digits (rest_of s) in
    if starts b',' s then (upper_count digits, after) else (some min, s)

abbrev pub counts_refused : ℕ → Option ℕ → Bool
counts_refused min none = ltb max_repeat min
counts_refused min (some max) = ltb max_repeat min || ltb max_repeat max || ltb max min

unfoldable pub parse_braces : Source → Parse (Counts × Source)
unfolding take_digits number upper_part
parse_braces s =
    let (digits, after) = take_digits s in
    let min = number 0 digits in
    let (max, end) = upper_part min after in
    if is_empty digits
    then invalid
    else if not (starts b'}' end)
    then invalid
    else if counts_refused min max
    then invalid
    else parsed ((min, max), rest_of end)

abbrev pub with_some : Counts × Source → Parse (Option Counts × Source)
with_some (counts, s) = parsed (some counts, s)

unfoldable pub read_quantifier : Source → Parse (Option Counts × Source)
unfolding parse_braces
read_quantifier [] = parsed (none, [])
read_quantifier (c ∷ s) =
    if c == b'*'
    then parsed (some (0, none), s)
    else if c == b'+'
    then parsed (some (1, none), s)
    else if c == b'?'
    then parsed (some (0, some 1), s)
    else if c == b'{'
    then parse_braces s >>= with_some
    else parsed (none, c ∷ s)

abbrev pub quantifiers : List ℕ
quantifiers = b'*' ∷ b'+' ∷ b'?' ∷ b'{' ∷ []

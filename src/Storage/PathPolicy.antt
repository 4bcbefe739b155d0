-- ===== src/Storage/PathPolicy.antt =====
-- src/storage/path-policy.ts. `nfc` stands for `String.prototype.normalize('NFC')`.
pub mod Safe
mod Tests
use brainstem_mcp.Prelude.{
  Bool, List, Option, Text, [], any, codes, drop, false, has_char, if◌then◌else◌, is_empty,
  is_space, join, leb, length, ltb, map, none, not, some, split, starts_with, take, text_eq, true,
  ℕ, ◌&&◌, ◌++◌, ◌+◌, ◌-◌, ◌==◌, ◌||◌, ◌∷◌,
}
use brainstem_mcp.Storage.Types.{ErrorCode, Result, err, invalid_path, ok, reject_if, ◌>>=◌, ◌>>◌}

abbrev pub trash_dir : Text
trash_dir = codes ".trash"

abbrev pub reserved_dir : Text
reserved_dir = codes "_brainstem"

unfoldable pub is_reserved_path : Text → Bool
is_reserved_path p = text_eq p reserved_dir || starts_with p (reserved_dir ++ codes "/")

abbrev pub max_path_chars : ℕ
max_path_chars = 1024

abbrev pub is_control : ℕ → Bool
is_control c = leb c 31 || c == 127

abbrev pub is_forbidden : ℕ → Bool
is_forbidden c =
    c == b':' || c == b'*' || c == b'?' || c == 34 || c == b'<' || c == b'>' || c == b'|'

abbrev is_letter : ℕ → Bool
is_letter c = (leb b'a' c && leb c b'z') || (leb b'A' c && leb c b'Z')

abbrev is_scheme_char : ℕ → Bool
is_scheme_char c = is_letter c || (leb b'0' c && leb c b'9') || c == b'+' || c == b'.' || c == b'-'

-- `/^[a-zA-Z]:/`
windows_drive : Text → Bool
windows_drive (a ∷ b ∷ _) = is_letter a && b == b':'
windows_drive _ = false

-- The part of `/^[a-zA-Z][a-zA-Z0-9+.-]*:\/\//` after its first letter.
scheme_rest : Text → Bool
scheme_rest [] = false
scheme_rest (c ∷ s) =
    if c == b':' then starts_with s (codes "//") else is_scheme_char c && scheme_rest s

uri_scheme : Text → Bool
unfolding scheme_rest
uri_scheme [] = false
uri_scheme (c ∷ s) = is_letter c && scheme_rest s

-- `trim`.
unfoldable pub trim_start : Text → Text
trim_start [] = []
trim_start (c ∷ s) = let rest = trim_start s in if is_space c then rest else c ∷ s

abbrev keep_end : ℕ → Text → Text
keep_end c [] = if is_space c then [] else c ∷ []
keep_end c (d ∷ s) = c ∷ d ∷ s

unfoldable pub trim_end : Text → Text
trim_end [] = []
trim_end (c ∷ s) = keep_end c (trim_end s)

unfoldable pub trim : Text → Text
unfolding trim_start trim_end
trim s = trim_end (trim_start s)

-- `replace(/\\/g, '/')`
unfoldable pub slashes : Text → Text
slashes = map (λ c. if c == 92 then b'/' else c)

-- The tests on one segment of the loop that are not `continue`, over the segments kept so far.
unfoldable pub refuses : Bool → Bool → Text → Bool
refuses allow_internal first raw =
    text_eq raw (codes "..")
    || any is_forbidden raw
    || (starts_with raw (codes ".") && not (allow_internal && first && text_eq raw trash_dir))
    || (first && text_eq raw reserved_dir && not allow_internal)

-- The loop over `slashed.split('/')`; `first` is `segments.length === 0`.
unfoldable pub collect : Bool → Bool → List Text → Result (List Text)
unfolding refuses
collect allow_internal first [] = ok []
collect allow_internal first (raw ∷ more) =
    let rest = collect allow_internal first more in
    let kept = (do segments ← collect allow_internal false more; ok (raw ∷ segments)) in
    if is_empty raw || text_eq raw (codes ".")
    then rest
    else if refuses allow_internal first raw
    then err invalid_path
    else kept

-- `slashed.startsWith('/') && slashed.length > 1`
abbrev pub absolute : Text → Bool
absolute s = starts_with s (codes "/") && ltb 1 (length s)

module _ (nfc : Text → Text) where
  -- `none` is an input that is no string.
  unfoldable pub normalize_vault_path : Bool → Option Text → Result Text
  unfolding collect trim slashes uri_scheme windows_drive
  normalize_vault_path allow_internal none = err invalid_path
  normalize_vault_path allow_internal (some input) = do
    let normalized = nfc (trim input)
    reject_if (ltb max_path_chars (length normalized)) invalid_path
    reject_if (any is_control normalized) invalid_path
    reject_if (uri_scheme normalized) invalid_path
    let slashed = slashes normalized
    reject_if (absolute slashed) invalid_path
    reject_if (windows_drive slashed) invalid_path
    segments ← collect allow_internal true (split b'/' slashed)
    ok (join b'/' segments)

  -- `String(input)` of an input that is no string is the argument `shown`.
  pub normalized_or_raw : Text → Option Text → Text
  unfolding normalize_vault_path
  normalized_or_raw shown input = elim (normalize_vault_path false input) [
    | ok p ↦ p
    | err _ ↦ elim input [ some s ↦ s | none ↦ shown ]
  ]

-- What stands after the last "/", and what stands before it: the pieces of `lastIndexOf('/')`.
unfoldable pub base_name : Text → Text
base_name [] = []
base_name (c ∷ s) =
    let rest = base_name s in if has_char b'/' s then rest else if c == b'/' then s else c ∷ s

unfoldable pub parent_dir : Text → Text
parent_dir [] = []
parent_dir (c ∷ s) = let rest = c ∷ parent_dir s in if has_char b'/' s then rest else []

-- The test of `isMarkdownPath` on a path that `toLowerCase` has been applied to.
unfoldable pub ends_with : Text → Text → Bool
ends_with s suffix = text_eq (drop (length s - length suffix) s) suffix

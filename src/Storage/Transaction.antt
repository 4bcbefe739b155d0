-- ===== src/Storage/Transaction.antt =====
-- src/storage/transaction.ts: the operations of a transaction, and the parts of the server that
-- it calls. A vault is what stands at each path; that a folder has to be there for what is
-- below it is not asked.
pub mod Simulate
pub mod Adapter
pub mod Run
pub mod Frames
pub mod Atomic
pub mod Rollback
pub mod Restores
pub mod Outcome
pub mod Journal
mod Tests
use brainstem_mcp.Prelude.{
  Bool, List, Option, Text, [], false, if◌then◌else◌, leb, ltb, none, not, some, text_eq, ℕ, ◌&&◌,
  ◌+◌, ◌∷◌,
}
use brainstem_mcp.Storage.TextDiff.{TextPatch}
use brainstem_mcp.Storage.Types.{Result, conflict, ok, reject_if, too_large}

abbrev pub max_tx_ops : ℕ
max_tx_ops = 20

abbrev pub max_tx_files : ℕ
max_tx_files = 20

abbrev pub max_file_bytes : ℕ
max_file_bytes = 1048576

-- What is at a path: a text file, a file that is not UTF-8 text (with its bytes), a folder, or
-- something whose `stat` fails.
pub data Node : Type 0 where
  text : Text → Node
  attachment : List ℕ → Node
  folder : Node
  unreadable : Node

abbrev pub Vault : Type 0
Vault = Text → Option Node

pub data Position : Type 0 where
  at_start at_end : Position

-- `unique`: absent or false, true, or 'line'.
pub data Unique : Type 0 where
  not_unique by_link by_line : Unique

-- Frontmatter is read and written by src/storage/frontmatter.ts, sections by
-- src/vault/sections.ts, hashes and diffs by packages: each enters by its functions.
pub record Services : Type 1 where
  pub Fm : Type 0
  pub FmSet : Type 0
  pub no_fm : Fm
  pub split : Text → Result (Fm × Text)
  pub join : Fm → Text → Text
  pub merge : Fm → Fm → Fm
  pub update : Fm → FmSet → List Text → Result Fm
  pub frontmatter_problem : Text → Bool
  pub Range : Type 0
  pub find_section : Text → Text → Option Range
  pub slice_section : Text → Range → Text
  pub insert_into_section : Text → Range → Text → Position → Text
  pub has_equivalent_line : Text → Text → Text → Bool
  pub has_identical_line : Text → Text → Bool
  pub sha256hex : Text → Text
  pub hash_bytes : List ℕ → Text
  pub unified_diff : Text → Text → Text → Text
  pub is_markdown : Text → Bool
  pub nfc : Text → Text

-- The bytes of a text in UTF-8: a pair of surrogates takes four, a lone one becomes U+FFFD.
unfoldable pub byte_len : Text → ℕ
byte_len [] = 0
byte_len (c ∷ []) = if ltb c 0x80 then 1 else if ltb c 0x800 then 2 else 3
byte_len (c ∷ d ∷ s) =
    let paired = 4 + byte_len s in
    let single = (if ltb c 0x80 then 1 else if ltb c 0x800 then 2 else 3) + byte_len (d ∷ s) in
    if leb 0xd800 c && ltb c 0xdc00 && leb 0xdc00 d && ltb d 0xe000 then paired else single

-- `assertWithinSize` with its default limit.
unfoldable pub assert_within_size : ℕ → Result (Unit {0})
assert_within_size bytes = reject_if (ltb max_file_bytes bytes) too_large

-- `===` on hashes, where `null` is `none`.
unfoldable pub hash_eq : Option Text → Text → Bool
hash_eq none e = false
hash_eq (some c) e = text_eq c e

-- src/storage/write-gate.ts
unfoldable pub assert_expected_hash : Option Text → Option Text → Result (Unit {0})
unfolding hash_eq
assert_expected_hash current none = ok tt
assert_expected_hash current (some expected) = reject_if (not (hash_eq current expected)) conflict

-- The `set` of a frontmatter update is a value of the frontmatter component.
pub data TxOp (FmSet : Type 0) : Type 0 where
  write : Text → Text → Bool → Option Text → TxOp FmSet
  edit : Text → List TextPatch → Option Text → TxOp FmSet
  append : Text → Text → Option Text → Option Position → Unique → Option Text → TxOp FmSet
  frontmatter_update : Text → FmSet → List Text → Option Text → TxOp FmSet
  move : Text → Text → Option Text → TxOp FmSet
  delete : Text → Bool → Option Text → TxOp FmSet

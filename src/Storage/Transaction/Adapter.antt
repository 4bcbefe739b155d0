-- ===== src/Storage/Transaction/Adapter.antt =====
-- src/storage/transaction.ts: the adapter, the results, and the paths that a transaction touches.
use brainstem_mcp.Prelude.{
  Bool, List, Option, Text, [], false, if◌then◌else◌, none, some, true, ℕ, ◌++◌, ◌∷◌,
}
use brainstem_mcp.Prelude.Sort.{sort_texts, unique}
use brainstem_mcp.Storage.PathPolicy.{normalize_vault_path}
use brainstem_mcp.Storage.TextDiff.{TextPatch}
use brainstem_mcp.Storage.Transaction.{
  TxOp, Vault, append, delete, edit, frontmatter_update, move, write,
}
use brainstem_mcp.Storage.Transaction.Simulate.{Plan, Sim}
use brainstem_mcp.Storage.Types.{ErrorCode, Result, ok, ◌>>=◌}

-- The storage adapter is an interface: each call may change the vault and may throw.
abbrev pub Call : Type 0
Call = Vault → Vault × Option ErrorCode

pub record Adapter (FmSet : Type 0) : Type 0 where
  pub write : Text → Text → Bool → Call
  pub edit : Text → List TextPatch → Call
  pub append : Text → Text → Call
  pub batch_frontmatter_update : Text → FmSet → List Text → Call
  pub move : Text → Text → Call
  pub soft_delete : Text → Bool → Call
  pub hard_delete : Text → Call

-- Whether each call of `fs` on the journal succeeds.
pub record Disk : Type 0 where
  pub journal_written : Bool
  pub restored : Text → Bool
  pub dropped : Bool

-- What an entry of `results` says went wrong.
pub data OpError : Type 0 where
  failed : ErrorCode → OpError
  not_attempted : ℕ → OpError
  rollback_failed : ErrorCode → ErrorCode → OpError

pub record TxOpResult : Type 0 where
  pub ok : Bool
  pub error : Option OpError
  pub diff : Option Text
  pub hash : Option Text
  pub skipped : Bool

-- `journal` says whether the journal directory is left and named in the result.
pub record TxResult : Type 0 where
  pub applied : Bool
  pub dry_run : Bool
  pub rolled_back : Bool
  pub results : List TxOpResult
  pub touched : List Text
  pub journal : Bool

abbrev pub blank : TxOpResult
blank = record { ok = false; error = none; diff = none; hash = none; skipped = false }

abbrev pub with_error : OpError → TxOpResult → TxOpResult
with_error e r = record r { ok = false; error = some e }

abbrev pub skipped_after : ℕ → TxOpResult → TxOpResult
skipped_after n = with_error (not_attempted n)

-- The entry of an operation that passed its pre-flight.
abbrev pub planned : Bool → Plan → TxOpResult
planned dry plan = record {
  ok = true;
  error = none;
  diff = if dry then some plan.diff else none;
  hash = none;
  skipped = plan.skipped;
}

-- The paths of an operation, as `pathsOf` gives them.
unfoldable pub paths_of : {F : Type 0} → (Text → Text) → TxOp F → Result (List Text)
paths_of nfc (move from to _) = do
  a ← normalize_vault_path nfc false (some from)
  b ← normalize_vault_path nfc false (some to)
  ok (a ∷ b ∷ [])
paths_of nfc (write p _ _ _) = do a ← normalize_vault_path nfc false (some p); ok (a ∷ [])
paths_of nfc (edit p _ _) = do a ← normalize_vault_path nfc false (some p); ok (a ∷ [])
paths_of nfc (append p _ _ _ _ _) = do a ← normalize_vault_path nfc false (some p); ok (a ∷ [])
paths_of nfc (frontmatter_update p _ _ _) = do
  a ← normalize_vault_path nfc false (some p)
  ok (a ∷ [])
paths_of nfc (delete p _ _) = do a ← normalize_vault_path nfc false (some p); ok (a ∷ [])

unfoldable pub gather : {F : Type 0} → (Text → Text) → List (TxOp F) → Result (List Text)
unfolding paths_of
gather nfc [] = ok []
gather nfc (op ∷ ops) = do ps ← paths_of nfc op; rest ← gather nfc ops; ok (ps ++ rest)

-- `[...new Set(ops.flatMap(pathsOf))].sort()`
unfoldable pub touched_paths : {F : Type 0} → (Text → Text) → List (TxOp F) → Result (List Text)
unfolding gather
touched_paths nfc ops = do ps ← gather nfc ops; ok (sort_texts (unique ps))

-- The loop over `ops.entries()` of the pre-flight: the plans, or the first failure behind them.
pub data Flight : Type 0 where
  cleared : List Plan → Sim → Flight
  stopped : List Plan → ErrorCode → Flight

unfoldable pub before : Plan → Flight → Flight
before plan (cleared plans σ) = cleared (plan ∷ plans) σ
before plan (stopped plans e) = stopped (plan ∷ plans) e

-- ===== src/Storage/Transaction/Run.antt =====
-- src/storage/transaction.ts: `apply`, the pre-flight, the journal, the rollback and the whole of
-- `runTransaction`. The lock of the write gate makes the run one step: nothing else changes the
-- vault meanwhile. What `fs` does to the journal enters by `Disk`.
use brainstem_mcp.Prelude.{
  Bool, List, Option, Text, [], drop, false, if◌then◌else◌, is_empty, is_some, length, ltb, map,
  none, not, some, take, text_eq, true, ℕ, ◌++◌, ◌+◌, ◌||◌, ◌∷◌,
}
use brainstem_mcp.Prelude.Dict.{get}
use brainstem_mcp.Prelude.Sort.{unique}
use brainstem_mcp.Storage.PathPolicy.{normalize_vault_path}
use brainstem_mcp.Storage.Transaction.{
  Node, Position, Services, TxOp, Unique, Vault, append, attachment, delete, edit, folder,
  frontmatter_update, max_tx_files, max_tx_ops, move, not_unique, text, unreadable, write,
}
use brainstem_mcp.Storage.Transaction.Adapter.{
  Adapter, Call, Disk, Flight, OpError, TxOpResult, TxResult, before, blank, cleared, failed,
  planned, rollback_failed, skipped_after, stopped, touched_paths, with_error,
}
use brainstem_mcp.Storage.Transaction.Simulate.{Plan, Sim, empty_sim, plan_append, simulate}
use brainstem_mcp.Storage.Types.{ErrorCode, Result, encoding, err, invalid_input, io, not_found, ok}

module _ (s : Services) (a : Adapter s.FmSet) where
  open s use {FmSet}

  -- The result of a call that is expected not to throw.
  abbrev pub unless_skipped : Vault → Result (Text × Bool) → Text → Vault × Option ErrorCode
  unless_skipped v (err e) p = (v, some e)
  unless_skipped v (ok (next, true)) p = (v, none)
  unless_skipped v (ok (next, false)) p = a.write p next false v

  -- `adapter.read` in the case `append` of `apply`: a missing file is `null`.
  unfoldable pub read_existing : Vault → Text → Result (Option Text)
  read_existing v p = elim (v p) [
    | none ↦ ok none
    | some (text t) ↦ ok (some t)
    | some (attachment _) ↦ err encoding
    | some folder ↦ err invalid_input
    | some unreadable ↦ err io
  ]

  unfoldable pub append_read :
      Result (Option Text) → Text → Text → Option Text → Option Position → Unique → Call
  unfolding plan_append
  append_read (err e) p content heading position unique v = (v, some e)
  append_read (ok existing) p content heading position unique v =
      unless_skipped v (plan_append s v p existing content heading position unique) p

  unfoldable pub apply_append : Text → Text → Option Text → Option Position → Unique → Call
  unfolding read_existing append_read
  apply_append p content none position not_unique v = a.append p content v
  apply_append p content heading position unique v =
      append_read (read_existing v p) p content heading position unique v

  -- A call on a path that has been normalised again.
  abbrev pub at_path : Text → (Text → Call) → Call
  at_path p call v = elim (normalize_vault_path s.nfc false (some p)) [
    | err e ↦ (v, some e)
    | ok q ↦ call q v
  ]

  unfoldable pub apply : TxOp FmSet → Call
  unfolding apply_append
  apply (write p content merging _) = at_path p λ q. a.write q content merging
  apply (edit p patches _) = at_path p λ q. a.edit q patches
  apply (append p content heading position unique _) =
      at_path p λ q. apply_append q content heading position unique
  apply (frontmatter_update p set unset _) = at_path p λ q. a.batch_frontmatter_update q set unset
  apply (move from to _) = at_path from λ f. at_path to λ t. a.move f t
  apply (delete p confirm _) = at_path p λ q. a.soft_delete q confirm

  unfoldable pub preflight : Vault → List (TxOp FmSet) → Sim → Flight
  unfolding simulate before
  preflight v [] σ = cleared [] σ
  preflight v (op ∷ ops) σ = elim (simulate s v op σ) [
    | err e ↦ stopped [] e
    | ok (plan, σ') ↦ before plan (preflight v ops σ')
  ]

-- What the journal holds: the files to restore with their bytes, and the paths that were free.
pub record JournalEntry : Type 0 where
  pub path : Text
  pub image : Option Node

pub record JournalDir : Type 0 where
  pub pre_images : List JournalEntry
  pub created : List Text

abbrev pub existed : Sim → Vault → Text → Bool
existed σ v p = elim (get p σ.on_disk) [ none ↦ is_some (v p) | some hash ↦ is_some hash ]

unfoldable pub write_journal : Sim → Vault → List Text → JournalDir
write_journal σ v [] = record { pre_images = []; created = [] }
write_journal σ v (p ∷ ps) =
    let rest = write_journal σ v ps in
    if existed σ v p
    then record {
      pre_images = record { path = p; image = v p } ∷ rest.pre_images;
      created = rest.created;
    }
    else record { pre_images = rest.pre_images; created = p ∷ rest.created }

unfoldable pub set_node : Text → Option Node → Vault → Vault
set_node p node v q = if text_eq p q then node else v q

unfoldable pub restore : Disk → List JournalEntry → Call
unfolding set_node
restore disk [] v = (v, none)
restore disk (e ∷ es) v =
    let rest = restore disk es (set_node e.path e.image v) in
    if disk.restored e.path then rest else (v, some io)

-- A file that was never created after all is passed over.
unfoldable pub is_not_found : ErrorCode → Bool
is_not_found not_found = true
is_not_found _ = false

-- What `catch` does with an outcome of a deletion, before the loop goes on.
abbrev pub tolerated : Option ErrorCode → Bool
tolerated none = true
tolerated (some e) = is_not_found e

unfoldable pub remove_created : {F : Type 0} → Adapter F → List Text → Call
unfolding is_not_found
remove_created a [] v = (v, none)
remove_created a (p ∷ ps) v =
    let done = a.hard_delete p v in
    elim (tolerated done.1) [ true ↦ remove_created a ps done.0 | false ↦ done ]

unfoldable pub rollback : {F : Type 0} → Adapter F → Disk → JournalDir → Call
unfolding restore remove_created
rollback a disk j v =
    let back = restore disk j.pre_images v in
    elim back.1 [ some e ↦ back | none ↦ remove_created a j.created back.0 ]

-- `results.slice(index + 1)` of operations that were not run.
unfoldable pub not_run : {F : Type 0} → ℕ → List (TxOp F) → List TxOpResult
not_run n [] = []
not_run n (_ ∷ ops) = skipped_after n blank ∷ not_run n ops

-- The results of a pre-flight that failed: those that passed, the one that failed and the rest.
unfoldable pub stopped_results :
    {F : Type 0} → Bool → List Plan → ErrorCode → List (TxOp F) → List TxOpResult
unfolding not_run
stopped_results dry plans e ops =
    map (planned dry) plans
    ++ (with_error (failed e) blank ∷ not_run (length plans + 1) (drop (length plans + 1) ops))

-- The results when operation `n`, from 0, failed while the plans were applied.
unfoldable pub marked : OpError → ℕ → List Plan → List TxOpResult
marked e n [] = []
marked e n (plan ∷ rest) =
    with_error e (planned false plan) ∷ map (λ q. skipped_after (n + 1) (planned false q)) rest

unfoldable pub failed_results : OpError → ℕ → List Plan → List TxOpResult
unfolding marked
failed_results e n plans = map (planned false) (take n plans) ++ marked e n (drop n plans)

abbrev pub hashed : Plan → TxOpResult
hashed plan = record {
  ok = true;
  error = none;
  diff = none;
  hash = plan.hash;
  skipped = plan.skipped;
}

-- The call returns a result or throws.
pub data Return : Type 0 where
  returned : TxResult → Return
  thrown : ErrorCode → Return

module _ (s : Services) (a : Adapter s.FmSet) (disk : Disk) where
  open s use {FmSet}

  -- The loop over `ops.entries()` that applies: the vault, and the operation that failed.
  unfoldable pub apply_all : ℕ → List (TxOp FmSet) → Vault → Vault × Option (ℕ × ErrorCode)
  apply_all n [] v = (v, none)
  apply_all n (op ∷ ops) v =
      let done = apply s a op v in
      elim done.1 [ none ↦ apply_all (n + 1) ops done.0 | some e ↦ (done.0, some (n, e)) ]

  abbrev result : Bool → Bool → Bool → List TxOpResult → List Text → Bool → Return
  result applied dry rolled_back results touched journal = returned (record {
    applied = applied;
    dry_run = dry;
    rolled_back = rolled_back;
    results = results;
    touched = touched;
    journal = journal;
  })

  -- After a failure at operation `n`: roll back, and keep the journal if that does not finish.
  unfoldable pub undo : List Plan → List Text → JournalDir → ℕ → ErrorCode → Vault → Vault × Return
  unfolding rollback failed_results
  undo plans touched j n e v =
      let back = rollback a disk j v in
      elim back.1 [
        | none ↦ (
          back.0,
          result false false true (failed_results (failed e) n plans) touched (not disk.dropped),
        )
        | some e' ↦ (
          back.0,
          result false false false (failed_results (rollback_failed e e') n plans) touched true,
        )
      ]

  unfoldable pub commit :
      List (TxOp FmSet) → List Plan → List Text → JournalDir → Vault → Vault × Return
  unfolding apply_all undo
  commit ops plans touched j v =
      let done = apply_all 0 ops v in
      elim done.1 [
        | none ↦ (done.0, result true false false (map hashed plans) touched (not disk.dropped))
        | some (n, e) ↦ undo plans touched j n e done.0
      ]

  -- From the lock on, once the pre-flight has passed or stopped.
  unfoldable pub after_preflight :
      Bool → List (TxOp FmSet) → List Text → Vault → Flight → Vault × Return
  unfolding write_journal commit stopped_results
  after_preflight dry ops touched v (stopped plans e) =
      (v, result false dry false (stopped_results dry plans e ops) touched false)
  after_preflight dry ops touched v (cleared plans σ) =
      if dry
      then (v, result false true false (map (planned true) plans) touched false)
      else if disk.journal_written
      then commit ops plans touched (write_journal σ v touched) v
      else (v, thrown io)

  unfoldable pub locked_run : Bool → List (TxOp FmSet) → List Text → Vault → Vault × Return
  unfolding preflight after_preflight
  locked_run dry ops touched v = after_preflight dry ops touched v (preflight s a v ops empty_sim)

  -- Once the paths that the transaction touches are known.
  unfoldable pub with_touched :
      Bool → List (TxOp FmSet) → Vault → Result (List Text) → Vault × Return
  unfolding locked_run
  with_touched dry ops v (err e) = (v, thrown e)
  with_touched dry ops v (ok touched) =
      if ltb max_tx_files (length touched)
      then (v, thrown invalid_input)
      else locked_run dry ops touched v

  unfoldable pub run_transaction : Bool → List (TxOp FmSet) → Vault → Vault × Return
  unfolding with_touched touched_paths
  run_transaction dry ops v =
      if is_empty ops || ltb max_tx_ops (length ops)
      then (v, thrown invalid_input)
      else with_touched dry ops v (touched_paths s.nfc ops)

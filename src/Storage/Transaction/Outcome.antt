-- ===== src/Storage/Transaction/Outcome.antt =====
-- src/storage/transaction.ts: what the result of a run says.
use brainstem_mcp.Prelude.{
  Bool, Bool-cases, List, Option, Option-cases, Text, [], all, ap, arith, drop, false, inl, inr,
  is_empty, length, length-append, length-drop, ltb, map, refl, some, subst, sym, take,
  take-append-drop, true, ℕ, ◌&&◌, ◌++◌, ◌+◌, ◌<◌, ◌||◌, ◌∙◌, ◌∷◌, ◌≡◌, ◌⊎◌,
}
use brainstem_mcp.Storage.Transaction.{Services, TxOp, Vault, max_tx_files, max_tx_ops}
use brainstem_mcp.Storage.Transaction.Adapter.{
  Adapter, Disk, Flight, OpError, TxOpResult, TxResult, blank, cleared, failed, planned,
  rollback_failed, skipped_after, stopped, touched_paths, with_error,
}
use brainstem_mcp.Storage.Transaction.Frames.{FlightKept, empty-IsFaithful, preflight-kept}
use brainstem_mcp.Storage.Transaction.Run.{
  JournalDir, Return, after_preflight, apply, apply_all, commit, failed_results, hashed, locked_run,
  marked, not_run, preflight, returned, rollback, run_transaction, stopped_results, thrown, undo,
  with_touched, write_journal,
}
use brainstem_mcp.Storage.Transaction.Simulate.{Plan, empty_sim}
use brainstem_mcp.Storage.Types.{ErrorCode, Result, err, ok}

-- What a result says of the run: `v` is the vault before it and `w` the one after it.
pub record IsCoherent {F : Type 0} (dry : Bool) (ops : List (TxOp F)) (v : Vault) (w : Vault)
    (r : TxResult) : Type 0 where
  pub says_dry : r.dry_run ≡ dry
  pub dry_kept : (dry ≡ false) ⊎ (w ≡ v)
  pub one_end : ((r.applied && r.rolled_back) || (r.applied && r.dry_run)) ≡ false
  pub complete : length r.results ≡ length ops
  pub shown : (dry ≡ true) ⊎ (all (λ (x : TxOpResult). x.ok) r.results ≡ r.applied)
  pub journal_kept : ((r.applied || r.rolled_back || r.journal) ≡ true) ⊎ (w ≡ v)

-- A thrown error has changed nothing.
abbrev pub RunCoherent : {F : Type 0} → Bool → List (TxOp F) → Vault → Vault × Return → Type 0
RunCoherent dry ops v (w, returned r) = IsCoherent dry ops v w r
RunCoherent dry ops v (w, thrown e) = w ≡ v

length-not_run : {F : Type 0} (n : ℕ) (ops : List (TxOp F)) → length (not_run n ops) ≡ length ops
unfolding not_run
length-not_run n [] = refl
length-not_run n (op ∷ ops) = ground (arith, length-not_run n ops)

length-map : {A B : Type 0} (f : A → B) (xs : List A) → length (map f xs) ≡ length xs
length-map f [] = refl
length-map f (x ∷ xs) = ground (arith, length-map f xs)

all-ok-map :
    {A : Type 0} (f : A → TxOpResult) (xs : List A)
    → ((x : A) → (f x).ok ≡ true)
    → all (λ (x : TxOpResult). x.ok) (map f xs) ≡ true
all-ok-map f [] h = refl
all-ok-map f (x ∷ xs) h = ground (arith, h x, all-ok-map f xs h)

-- A failure in the list shows.
all-ok-middle :
    (xs ys : List TxOpResult) (r : TxOpResult)
    → r.ok ≡ false
    → all (λ (x : TxOpResult). x.ok) (xs ++ (r ∷ ys)) ≡ false
all-ok-middle [] ys r h = rw h refl
all-ok-middle (x ∷ xs) ys r h = ground (arith, all-ok-middle xs ys r h)

length-stopped_results :
    {F : Type 0} (dry : Bool) (plans : List Plan) (e : ErrorCode) (ops : List (TxOp F))
    → length plans < length ops
    → length (stopped_results dry plans e ops) ≡ length ops
unfolding stopped_results
length-stopped_results dry plans e ops h = omega (
  arith,
  length-append (map (planned dry) plans)
      (with_error (failed e) blank ∷ not_run (length plans + 1) (drop (length plans + 1) ops)),
  length-map (planned dry) plans,
  length-not_run (length plans + 1) (drop (length plans + 1) ops),
  length-drop (length plans + 1) ops,
)

length-marked : (e : OpError) (n : ℕ) (plans : List Plan) → length (marked e n plans) ≡ length plans
unfolding marked
length-marked e n [] = refl
length-marked e n (p ∷ ps) =
    omega (arith, length-map (λ q. skipped_after (n + 1) (planned false q)) ps)

length-failed_results :
    (e : OpError) (n : ℕ) (plans : List Plan) → length (failed_results e n plans) ≡ length plans
unfolding failed_results
length-failed_results e n plans = omega (
  arith,
  length-append (map (planned false) (take n plans)) (marked e n (drop n plans)),
  length-map (planned false) (take n plans),
  length-marked e n (drop n plans),
  length-append (take n plans) (drop n plans),
  ap length (take-append-drop n plans),
)

all-ok-failed_results :
    (e : OpError) (n : ℕ) (plans : List Plan)
    → n < length plans
    → all (λ (x : TxOpResult). x.ok) (failed_results e n plans) ≡ false
unfolding failed_results marked
all-ok-failed_results e n plans h = after (drop n plans) (omega (arith, length-drop n plans))
  where
    after :
        (rest : List Plan)
        → 0 < length rest
        → all (λ (x : TxOpResult). x.ok) (map (planned false) (take n plans) ++ marked e n rest)
          ≡ false
    after [] h = ground arith
    after (p ∷ ps) h =
        (all-ok-middle (map (planned false) (take n plans))
          (map (λ q. skipped_after (n + 1) (planned false q)) ps) (with_error e (planned false p))
          refl)

all-ok-stopped_results :
    {F : Type 0} (dry : Bool) (plans : List Plan) (e : ErrorCode) (ops : List (TxOp F))
    → all (λ (x : TxOpResult). x.ok) (stopped_results dry plans e ops) ≡ false
unfolding stopped_results
all-ok-stopped_results dry plans e ops =
    all-ok-middle (map (planned dry) plans)
      (not_run (length plans + 1) (drop (length plans + 1) ops)) (with_error (failed e) blank) refl

module _ (s : Services) (a : Adapter s.FmSet) (disk : Disk) where
  -- The operation that failed is one of them.
  apply_all-index :
      (n : ℕ) (ops : List (TxOp s.FmSet)) (v : Vault) (k : ℕ) (e : ErrorCode)
      → (apply_all s a disk n ops v).1 ≡ some (k, e)
      → k < n + length ops
  unfolding apply_all
  apply_all-index n [] v k e h = cc
  apply_all-index n (op ∷ ops) v k e h = elim (Option-cases (apply s a op v).1) [
    | inl fine ↦
        omega
          (arith, apply_all-index (n + 1) ops (apply s a op v).0 k e (rw (fine, apply_all) at h))
    | inr (x, bad) ↦
        (let q : ◌≡◌ {A = Option (ℕ × ErrorCode)} (some (n, x)) (some (k, e)) =
            rw (bad, apply_all) at h in
          let same : n ≡ k = cc in omega arith)
  ]

  undo-IsCoherent :
      (ops : List (TxOp s.FmSet)) (plans : List Plan) (ps : List Text) (j : JournalDir) (n : ℕ)
      (e : ErrorCode) (v w : Vault)
      → length plans ≡ length ops
      → n < length plans
      → RunCoherent false ops v (undo s a disk plans ps j n e w)
  unfolding undo
  undo-IsCoherent ops plans ps j n e v w same h = elim (Option-cases (rollback a disk j w).1) [
    | inl fine ↦
        rw (fine, RunCoherent)
          (record {
            says_dry = refl;
            dry_kept = inl refl;
            one_end = refl;
            complete = length-failed_results (failed e) n plans ∙ same;
            shown = inr (all-ok-failed_results (failed e) n plans h);
            journal_kept = inl refl;
          })
    | inr (x, bad) ↦
        rw (bad, RunCoherent)
          (record {
            says_dry = refl;
            dry_kept = inl refl;
            one_end = refl;
            complete = length-failed_results (rollback_failed e x) n plans ∙ same;
            shown = inr (all-ok-failed_results (rollback_failed e x) n plans h);
            journal_kept = inl refl;
          })
  ]

  commit-fails :
      (ops : List (TxOp s.FmSet)) (plans : List Plan) (ps : List Text) (j : JournalDir) (v : Vault)
      (n : ℕ) (e : ErrorCode)
      → (apply_all s a disk 0 ops v).1 ≡ some (n, e)
      → commit s a disk ops plans ps j v
        ≡ undo s a disk plans ps j n e (apply_all s a disk 0 ops v).0
  unfolding commit
  commit-fails ops plans ps j v n e bad = rw (bad, commit) refl

  commit-IsCoherent :
      (ops : List (TxOp s.FmSet)) (plans : List Plan) (ps : List Text) (j : JournalDir) (v : Vault)
      → length plans ≡ length ops
      → RunCoherent false ops v (commit s a disk ops plans ps j v)
  unfolding commit
  commit-IsCoherent ops plans ps j v same = elim (Option-cases (apply_all s a disk 0 ops v).1) [
    | inl fine ↦
        rw (fine, RunCoherent)
          (record {
            says_dry = refl;
            dry_kept = inl refl;
            one_end = refl;
            complete = length-map hashed plans ∙ same;
            shown = inr (all-ok-map hashed plans λ p. refl);
            journal_kept = inl refl;
          })
    | inr ((n, e), bad) ↦
        subst (RunCoherent false ops v) (sym (commit-fails ops plans ps j v n e bad)) (
          undo-IsCoherent ops plans ps j n e v (apply_all s a disk 0 ops v).0 same
            (omega (arith, apply_all-index 0 ops v n e bad)))
  ]

  after_preflight-IsCoherent :
      (dry : Bool) (ops : List (TxOp s.FmSet)) (ps : List Text) (v : Vault) (f : Flight)
      → FlightKept v ops f
      → RunCoherent dry ops v (after_preflight s a disk dry ops ps v f)
  unfolding after_preflight
  after_preflight-IsCoherent dry ops ps v (stopped plans e) k = record {
    says_dry = refl;
    dry_kept = inr refl;
    one_end = refl;
    complete = length-stopped_results dry plans e ops k;
    shown = inr (all-ok-stopped_results dry plans e ops);
    journal_kept = inr refl;
  }
  after_preflight-IsCoherent true ops ps v (cleared plans σ) k = record {
    says_dry = refl;
    dry_kept = inr refl;
    one_end = refl;
    complete = length-map (planned true) plans ∙ k.1;
    shown = inl refl;
    journal_kept = inr refl;
  }
  after_preflight-IsCoherent false ops ps v (cleared plans σ) k =
      elim (Bool-cases disk.journal_written) [
        | inl e ↦ rw e (commit-IsCoherent ops plans ps (write_journal σ v ps) v k.1)
        | inr e ↦ rw e refl
      ]

  with_touched-IsCoherent :
      (dry : Bool) (ops : List (TxOp s.FmSet)) (v : Vault) (r : Result (List Text))
      → RunCoherent dry ops v (with_touched s a disk dry ops v r)
  unfolding with_touched locked_run
  with_touched-IsCoherent dry ops v (err e) = refl
  with_touched-IsCoherent dry ops v (ok touched) =
      elim (Bool-cases (ltb max_tx_files (length touched))) [
        | inl e ↦ rw e refl
        | inr e ↦ rw e (
            after_preflight-IsCoherent dry ops touched v (preflight s a v ops empty_sim)
              (preflight-kept s a v ops empty_sim (empty-IsFaithful v)))
      ]

  -- Whatever a run returns is coherent: the result says `dry_run` exactly if the run was asked to
  -- be dry, and a run asked to be dry leaves the vault as it is; a run is not both applied and
  -- rolled back, nor applied and dry; there is one result for each operation; unless the run is
  -- dry, all of them are good exactly if it was applied; and a run that was neither applied nor
  -- rolled back leaves its journal or has changed nothing. A run that throws has changed nothing.
  pub run_transaction-IsCoherent :
      (dry : Bool) (ops : List (TxOp s.FmSet)) (v : Vault)
      → RunCoherent dry ops v (run_transaction s a disk dry ops v)
  unfolding run_transaction
  run_transaction-IsCoherent dry ops v =
      elim (Bool-cases (is_empty ops || ltb max_tx_ops (length ops))) [
        | inl e ↦ rw e refl
        | inr e ↦ rw e (with_touched-IsCoherent dry ops v (touched_paths s.nfc ops))
      ]

-- ===== src/Storage/Transaction/Restores.antt =====
-- src/storage/transaction.ts: a transaction that is rolled back leaves everything as it was.
use brainstem_mcp.Prelude.{
  All, All-append_left, All-append_right, Bool, Bool-cases, List, Option-cases, Text, [], false,
  inl, inr, is_empty, length, ltb, refl, subst, sym, true, ℕ, ◌++◌, ◌+◌, ◌||◌, ◌∙◌, ◌∷◌, ◌≡◌,
}
use brainstem_mcp.Prelude.Sort.{
  All-from, All-member, member, member-sort_texts, member-unique, sort_texts, unique,
}
use brainstem_mcp.Storage.Transaction.{Services, TxOp, Vault, max_tx_files, max_tx_ops}
use brainstem_mcp.Storage.Transaction.Adapter.{
  Adapter, Disk, Flight, cleared, gather, paths_of, stopped, touched_paths,
}
use brainstem_mcp.Storage.Transaction.Atomic.{
  AdapterLaws, IsStable, NotBelow, Same, Same-left, Same-refl, Same-right, Same-trans, apply-Same,
  in_trash, is_below,
}
use brainstem_mcp.Storage.Transaction.Frames.{
  FlightKept, IsFaithful, empty-IsFaithful, preflight-kept,
}
use brainstem_mcp.Storage.Transaction.Rollback.{Restored, rollback-restores}
use brainstem_mcp.Storage.Transaction.Run.{
  Return, after_preflight, apply, apply_all, commit, locked_run, preflight, returned, rollback,
  run_transaction, thrown, undo, with_touched, write_journal,
}
use brainstem_mcp.Storage.Transaction.Simulate.{Plan, Sim, empty_sim}
use brainstem_mcp.Storage.Types.{>>=-eq-ok, ErrorCode, ok, ◌>>=◌}

-- A result that says the transaction was rolled back.
unfoldable pub is_rolled_back : Return → Bool
is_rolled_back (returned r) = r.rolled_back
is_rolled_back (thrown e) = false

module _ (s : Services) (a : Adapter s.FmSet) (disk : Disk) (laws : AdapterLaws s.nfc a) where
  gather-cons :
      (op : TxOp s.FmSet) (ops : List (TxOp s.FmSet)) (ps : List Text)
      → gather s.nfc (op ∷ ops) ≡ ok ps
      → (p q : List Text) × (paths_of s.nfc op ≡ ok p) × (gather s.nfc ops ≡ ok q) × (p ++ q ≡ ps)
  unfolding gather
  gather-cons op ops ps g =
      let (p, e1, g1) =
        >>=-eq-ok (paths_of s.nfc op) (λ p. gather s.nfc ops >>= λ q. ok (p ++ q)) g in
      let (q, e2, g2) = >>=-eq-ok (gather s.nfc ops) (λ q. ok (p ++ q)) g1 in (p, q, e1, e2, cc)

  apply_all-Same :
      (n : ℕ) (ops : List (TxOp s.FmSet)) (ps : List Text) (v : Vault)
      → gather s.nfc ops ≡ ok ps
      → All (IsStable s.nfc) ps
      → Same ps v (apply_all s a disk n ops v).0
  unfolding apply_all
  apply_all-Same n [] ps v g st = Same-refl ps v
  apply_all-Same n (op ∷ ops) ps v g st =
      let (p, q, e1, e2, e3) = gather-cons op ops ps g in
      let st : All (IsStable s.nfc) (p ++ q) = subst (All (IsStable s.nfc)) (sym e3) st in
      let done = (apply s a op v).0 in
      let one =
        Same-left p q v done
          (apply-Same s a laws op p v e1 (All-append_left (IsStable s.nfc) p q st)) in
      let rest =
        Same-right p q done (apply_all s a disk (n + 1) ops done).0
          (apply_all-Same (n + 1) ops q done e2 (All-append_right (IsStable s.nfc) p q st)) in
      subst (λ ps. Same ps v (apply_all s a disk n (op ∷ ops) v).0) e3
        (elim (Option-cases (apply s a op v).1) [
          | inl e ↦ rw (e, apply_all) (Same-trans (p ++ q) v done _ one rest)
          | inr (x, e) ↦ rw (e, apply_all) one
        ])

  touched-Same :
      (ops : List (TxOp s.FmSet)) (ps touched : List Text) (v : Vault)
      → gather s.nfc ops ≡ ok ps
      → sort_texts (unique ps) ≡ touched
      → All (IsStable s.nfc) touched
      → Same touched v (apply_all s a disk 0 ops v).0
  touched-Same ops ps touched v g e st =
      let mem : (q : Text) → member q touched ≡ member q ps =
        λ q. rw (← e) (member-sort_texts q (unique ps) ∙ member-unique q ps) in
      let same : Same ps v (apply_all s a disk 0 ops v).0 = apply_all-Same 0 ops ps v g (
        All-from (IsStable s.nfc) ps λ q m. All-member (IsStable s.nfc) touched st q (mem q ∙ m)) in
      record {
        at = λ q out m n. same.at q out (sym (mem q) ∙ m) (
            All-from (λ p. is_below q p ≡ false) ps
              λ p k. All-member (λ p. is_below q p ≡ false) touched n p (mem p ∙ k));
      }

  module _ (v : Vault) (q : Text) (out : in_trash q ≡ false) where
    undo-restores :
        (σ : Sim) (ps : List Text) (plans : List Plan) (n : ℕ) (e : ErrorCode) (w : Vault)
        → IsFaithful v σ
        → All (IsStable s.nfc) ps
        → NotBelow q ps
        → Same ps v w
        → is_rolled_back (undo s a disk plans ps (write_journal σ v ps) n e w).1 ≡ true
        → Restored ps v (undo s a disk plans ps (write_journal σ v ps) n e w).0 q
    unfolding is_rolled_back undo
    undo-restores σ ps plans n e w f st apart same h =
        elim (Option-cases (rollback a disk (write_journal σ v ps) w).1) [
          | inl fine ↦
              rw (fine, undo) (rollback-restores s a laws σ v f disk ps w st same fine q out apart)
          | inr (x, stop) ↦ let no : false ≡ true = rw (stop, undo) at h in cc
        ]

    commit-restores :
        (σ : Sim) (ps : List Text) (ops : List (TxOp s.FmSet)) (plans : List Plan)
        → IsFaithful v σ
        → All (IsStable s.nfc) ps
        → NotBelow q ps
        → Same ps v (apply_all s a disk 0 ops v).0
        → is_rolled_back (commit s a disk ops plans ps (write_journal σ v ps) v).1 ≡ true
        → Restored ps v (commit s a disk ops plans ps (write_journal σ v ps) v).0 q
    unfolding is_rolled_back commit
    commit-restores σ ps ops plans f st apart same h =
        elim (Option-cases (apply_all s a disk 0 ops v).1) [
          | inl fine ↦ let no : false ≡ true = rw (fine, commit) at h in cc
          | inr ((n, x), e) ↦
              rw (e, commit) (undo-restores σ ps plans n x _ f st apart same (rw (e, commit) at h))
        ]

    -- `elim` on the pre-flight, with its outcome as an argument.
    flight-restores :
        (dry : Bool) (ps : List Text) (ops : List (TxOp s.FmSet)) (f : Flight)
        → FlightKept v ops f
        → All (IsStable s.nfc) ps
        → NotBelow q ps
        → Same ps v (apply_all s a disk 0 ops v).0
        → is_rolled_back (after_preflight s a disk dry ops ps v f).1 ≡ true
        → Restored ps v (after_preflight s a disk dry ops ps v f).0 q
    unfolding after_preflight is_rolled_back
    flight-restores dry ps ops (stopped plans e) k st apart same h = inl refl
    flight-restores true ps ops (cleared plans σ) k st apart same h = inl refl
    flight-restores false ps ops (cleared plans σ) k st apart same h =
        elim (Bool-cases disk.journal_written) [
          | inl e ↦ rw e (commit-restores σ ps ops plans k.0 st apart same (rw e at h))
          | inr e ↦ rw e (inl refl)
        ]

    touched-restores :
        (dry : Bool) (ops : List (TxOp s.FmSet)) (touched : List Text)
        → All (IsStable s.nfc) touched
        → NotBelow q touched
        → Same touched v (apply_all s a disk 0 ops v).0
        → is_rolled_back (with_touched s a disk dry ops v (ok touched)).1 ≡ true
        → Restored touched v (with_touched s a disk dry ops v (ok touched)).0 q
    unfolding with_touched locked_run is_rolled_back
    touched-restores dry ops touched st apart same h =
        elim (Bool-cases (ltb max_tx_files (length touched))) [
          | inl e ↦ rw e (inl refl)
          | inr e ↦ rw e (
              flight-restores dry touched ops (preflight s a v ops empty_sim)
                (preflight-kept s a v ops empty_sim (empty-IsFaithful v)) st apart same (rw e at h))
        ]

    -- If the run reports that it rolled back, then at every path outside the trash folder stands
    -- what stood there before the run, so each file is as it was. One difference is left: at a path
    -- that the run does not name, and where nothing was, there may be a folder, the parent that an
    -- operation made. The path is assumed not to be below one of the transaction; the adapter to
    -- change only the paths of a call, what is below them, the trash and missing parent folders;
    -- and the paths of the transaction to stay as they are when normalised again.
    pub run_transaction-restores :
        (dry : Bool) (ops : List (TxOp s.FmSet)) (touched : List Text)
        → touched_paths s.nfc ops ≡ ok touched
        → All (IsStable s.nfc) touched
        → NotBelow q touched
        → is_rolled_back (run_transaction s a disk dry ops v).1 ≡ true
        → Restored touched v (run_transaction s a disk dry ops v).0 q
    unfolding run_transaction is_rolled_back
    run_transaction-restores dry ops touched t st apart h =
        let (ps, g, e) = >>=-eq-ok (gather s.nfc ops) (λ ps. ok (sort_texts (unique ps))) t in
        let sorted : sort_texts (unique ps) ≡ touched = cc in
        let same : Same touched v (apply_all s a disk 0 ops v).0 =
          touched-Same ops ps touched v g sorted st in
        elim (Bool-cases (is_empty ops || ltb max_tx_ops (length ops))) [
          | inl e ↦ rw e (inl refl)
          | inr e ↦ rw (e, t) (touched-restores dry ops touched st apart same (rw (e, t) at h))
        ]

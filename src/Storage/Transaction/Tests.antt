-- ===== src/Storage/Transaction/Tests.antt =====
-- src/storage/transaction.ts on a vault of two notes, with an adapter whose edits fail.
use brainstem_mcp.Prelude.{
  Bool-cases, List, Option, Text, [], arith, codes, false, if◌then◌else◌, inl, inr, is_some, map,
  none, not, refl, some, text_eq, text_eq_refl, true, ◌&&◌, ◌∷◌, ◌≡◌,
}
use brainstem_mcp.Prelude.Dict.{get, put}
use brainstem_mcp.Prelude.Sort.{member, sort_texts, text_lt, unique}
use brainstem_mcp.Storage.PathPolicy.{normalize_vault_path, parent_dir}
use brainstem_mcp.Storage.TextDiff.{apply_text_patches}
use brainstem_mcp.Storage.Transaction.{
  Node, Services, TxOp, Vault, assert_expected_hash, assert_within_size, byte_len, edit, folder,
  hash_eq, text, write,
}
use brainstem_mcp.Storage.Transaction.Adapter.{Adapter, Disk, before, touched_paths}
use brainstem_mcp.Storage.Transaction.Atomic.{
  AdapterLaws, Same, Same-left, Same-refl, Same-right, Same-trans, in_trash, is_below,
}
use brainstem_mcp.Storage.Transaction.Journal.{
  Entry, LeftoverJournal, scan-restores, scan_leftover_journals,
}
use brainstem_mcp.Storage.Transaction.Outcome.{RunCoherent, run_transaction-IsCoherent}
use brainstem_mcp.Storage.Transaction.Restores.{is_rolled_back, run_transaction-restores}
use brainstem_mcp.Storage.Transaction.Rollback.{Restored}
use brainstem_mcp.Storage.Transaction.Run.{apply, preflight, run_transaction, set_node}
use brainstem_mcp.Storage.Transaction.Simulate.{
  lift, load, merged, produce, pure, require_text, set_state, simulate, state_of, throw_if, ◌>>=◌,
  ◌>>◌,
}
use brainstem_mcp.Storage.Types.{io, ok}

abbrev services : Services
services = record {
  Fm = Unit;
  FmSet = Unit;
  no_fm = tt;
  split = λ t. ok (tt, t);
  join = λ _ t. t;
  merge = λ _ _. tt;
  update = λ _ _ _. ok tt;
  frontmatter_problem = λ _. false;
  Range = Unit;
  find_section = λ _ _. none;
  slice_section = λ t _. t;
  insert_into_section = λ t _ _ _. t;
  has_equivalent_line = λ _ _ _. false;
  has_identical_line = λ _ _. false;
  sha256hex = λ t. t;
  hash_bytes = λ t. t;
  unified_diff = λ _ _ t. t;
  is_markdown = λ _. false;
  nfc = λ t. t;
}

-- The folder of the path, if nothing is there.
made_parent : Text → Vault → Vault
unfolding parent_dir
made_parent p v q = if text_eq (parent_dir p) q && not (is_some (v q)) then some folder else v q

abbrev put_file : Text → Option Node → Vault → Vault
put_file p n v = set_node p n (made_parent p v)

abbrev adapter : Adapter Unit
adapter = record {
  write = λ p c _ v. (put_file p (some (text c)) v, none);
  edit = λ _ _ v. (v, some io);
  append = λ p c v. (put_file p (some (text c)) v, none);
  batch_frontmatter_update = λ _ _ _ v. (v, none);
  move = λ p q v. (put_file q (v p) (set_node p none v), none);
  soft_delete = λ p _ v. (set_node p none v, none);
  hard_delete = λ p v. (set_node p none v, none);
}

set_node-Same : (p : Text) (n : Option Node) (v : Vault) → Same (p ∷ []) v (set_node p n v)
unfolding set_node member
set_node-Same p n v = record { at = λ q out m apart. inl (ground (arith, m)) }

made_parent-Same : (p : Text) (ps : List Text) (v : Vault) → Same ps v (made_parent p v)
unfolding made_parent
made_parent-Same p ps v = record {
  at = λ q out m apart. elim (Bool-cases (text_eq (parent_dir p) q && not (is_some (v q)))) [
    | inl e ↦ rw e (inr (is_none (v q) (ground (arith, e)), refl))
    | inr e ↦ rw e (inl refl)
  ];
}
  where
    is_none : (o : Option Node) → is_some o ≡ false → o ≡ none
    is_none none e = refl
    is_none (some n) e = cc

put_file-Same : (p : Text) (n : Option Node) (v : Vault) → Same (p ∷ []) v (put_file p n v)
put_file-Same p n v =
    Same-trans (p ∷ []) v (made_parent p v) (put_file p n v) (made_parent-Same p (p ∷ []) v)
      (set_node-Same p n (made_parent p v))

adapter-AdapterLaws : AdapterLaws (λ t. t) adapter
unfolding set_node
adapter-AdapterLaws = record {
  write = λ p c _ v _. put_file-Same p (some (text c)) v;
  edit = λ p _ v _. Same-refl (p ∷ []) v;
  append = λ p c v _. put_file-Same p (some (text c)) v;
  batch_frontmatter_update = λ p _ _ v _. Same-refl (p ∷ []) v;
  move = λ p q v _ _.
      Same-trans (p ∷ q ∷ []) v (set_node p none v) (put_file q (v p) (set_node p none v))
        (Same-left (p ∷ []) (q ∷ []) v _ (set_node-Same p none v))
        (Same-right (p ∷ []) (q ∷ []) _ _ (put_file-Same q (v p) (set_node p none v)));
  soft_delete = λ p _ v _. set_node-Same p none v;
  hard_delete = λ p v _ q other. rw other refl;
  deleted = λ p v _ _. rw (text_eq_refl p) refl;
}

abbrev disk : Disk
disk = record { journal_written = true; restored = λ _. true; dropped = true }

abbrev vault : Vault
vault q = if text_eq q (codes "b.md") then some (text (codes "hello")) else none

abbrev ops : List (TxOp Unit)
ops =
    write (codes "b.md") (codes "bye") false none
    ∷ write (codes "n/a.md") (codes "x") false none
    ∷ edit (codes "b.md") (record { find = codes "ye"; replace = codes "!" } ∷ []) none
    ∷ []

abbrev touched : List Text
touched = codes "b.md" ∷ codes "n/a.md" ∷ []

run_transaction-restores_example :
    Restored touched vault (run_transaction services adapter disk false ops vault).0 (codes "n")
unfolding run_transaction is_below touched_paths normalize_vault_path is_rolled_back in_trash
    sort_texts unique text_lt get put lift load assert_expected_hash assert_within_size byte_len
    merged produce set_state pure require_text throw_if hash_eq simulate state_of apply_text_patches
    set_node ◌>>=◌ ◌>>◌ preflight before apply
run_transaction-restores_example =
    run_transaction-restores services adapter disk adapter-AdapterLaws vault (codes "n") refl false
      ops touched refl (refl, (refl, tt)) (refl, (refl, tt)) refl

-- The created file goes again, its folder stays.
folder_stays :
    ((run_transaction services adapter disk false ops vault).0 (codes "n") ≡ some folder)
    × ((run_transaction services adapter disk false ops vault).0 (codes "n/a.md") ≡ none)
unfolding made_parent run_transaction touched_paths normalize_vault_path is_rolled_back in_trash
    sort_texts unique text_lt get put lift load assert_expected_hash assert_within_size byte_len
    merged produce set_state pure require_text throw_if hash_eq simulate state_of apply_text_patches
    set_node ◌>>=◌ ◌>>◌ preflight before apply
folder_stays = (refl, refl)

run_transaction-IsCoherent_example :
    RunCoherent false ops vault (run_transaction services adapter disk false ops vault)
run_transaction-IsCoherent_example =
    run_transaction-IsCoherent services adapter disk false ops vault

abbrev entries : List Entry
entries =
    record { name = codes "t1"; is_directory = true; manifest = none }
    ∷ record {
      name = codes "t2";
      is_directory = true;
      manifest =
          some
            (record { id = some (codes "x"); started_at = none; state = some (codes "applied") });
    }
    ∷ []

scan-restores_example :
    map (λ (j : LeftoverJournal). j.needs_restore) (scan_leftover_journals (some entries))
    ≡ true ∷ false ∷ []
scan-restores_example = scan-restores entries

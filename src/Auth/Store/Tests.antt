-- ===== src/Auth/Store/Tests.antt =====
-- src/auth/store/file-store.ts on concrete documents.
use brainstem_mcp.Auth.Store.{
  CodeRecord, Doc, Kind, TokenRecord, assign, code_usable, consume_code, empty_doc, revoke_family,
  sweep_expired, update_token,
}
use brainstem_mcp.Auth.Store.Codes.{
  Op, consumed_once, op_put_code, op_revoke_all, op_sweep_expired, op_update_token, run, step,
  used_at_time,
}
use brainstem_mcp.Auth.Store.Families.{revoke_family_lasting}
use brainstem_mcp.Auth.Store.File.{
  Change, FileStore, Stamp, doc_of, failed, mutate, no_file, other_error, put_cell,
  reload_if_changed,
}
use brainstem_mcp.Auth.Store.File.Laws.{
  IsDone, IsPlaced, IsUndone, IsUnreadable, StartsFrom, mutate-all_or_nothing,
}
use brainstem_mcp.Prelude.{
  List, [], arith, codes, is_some, length, none, refl, some, true, ℕ, ◌∷◌, ◌≡◌, ◌⊎◌,
}
use brainstem_mcp.Prelude.Dict.{delete, drop_loop, drop_values, get, keys, map_values, put}

abbrev code : CodeRecord
code = record {
  pending_id = codes "p";
  client_id = codes "c";
  client_name = codes "C";
  redirect_uri = codes "r";
  code_challenge = codes "x";
  resource = codes "u";
  scope = codes "s";
  expires_at = 100;
  used_at = none;
}

abbrev live : TokenRecord
live = record {
  kind = Kind.refresh;
  family_id = codes "f";
  client_id = codes "c";
  client_name = codes "C";
  resource = codes "u";
  scope = codes "s";
  expires_at = 100;
  rotated_at = none;
  revoked_at = none;
  last_used_at = none;
}

abbrev doc : Doc
doc = record {
  clients = [];
  pending = [];
  codes = (codes "h", code) ∷ [];
  tokens = (codes "t", live) ∷ (codes "o", record live { family_id = codes "g" }) ∷ [];
}

abbrev later_calls : List Op
later_calls = op_sweep_expired 20 ∷ op_put_code (codes "k") code ∷ op_revoke_all 30 ∷ []

consumed_once_example :
    (consume_code (codes "h") 50 (run later_calls (consume_code (codes "h") 10 doc).0)).1 ≡ none
unfolding consume_code get code_usable
consumed_once_example =
    consumed_once (codes "h") 10 50 doc (used_at_time 10 code) later_calls refl
      (tt, (refl, (tt, tt)))

abbrev token_calls : List Op
token_calls =
    op_update_token (codes "t") (record { rotated_at = some 12; last_used_at = none })
    ∷ op_sweep_expired 20
    ∷ []

abbrev revoked : TokenRecord
revoked = record live { rotated_at = some 12; revoked_at = some 10 }

revoke_family_lasting_example : is_some revoked.revoked_at ≡ true
unfolding revoke_family run step update_token sweep_expired get put delete map_values drop_values
    drop_loop assign
revoke_family_lasting_example =
    revoke_family_lasting (codes "f") (codes "t") 10 doc live revoked token_calls refl refl
      (tt, (tt, tt)) refl

-- A change that empties the document and then throws.
abbrev half_done : Change ℕ
half_done d = (empty_doc, none)

abbrev blank_store : FileStore
blank_store = record { cells = λ _. doc; next = 1; doc = 0; stamp = no_file }

mutate-all_or_nothing_example :
    IsPlaced (mutate other_error none failed half_done blank_store).store
    × ((IsUnreadable other_error none blank_store
          × (mutate other_error none failed half_done blank_store
              ≡ record { store = blank_store; file = none; result = none }))
        ⊎ ((d : Doc) × (stamp : Stamp) × StartsFrom other_error none blank_store d stamp
            × (IsUndone failed
                  (half_done d)
                  d
                  stamp
                  (mutate other_error none failed half_done blank_store)
                ⊎ IsDone failed
                    (half_done d)
                    (mutate other_error none failed half_done blank_store))))
mutate-all_or_nothing_example =
    mutate-all_or_nothing other_error none failed half_done blank_store (omega arith)

-- The object that the change has emptied is another one than the store has now.
half_done_undone :
    (doc_of (mutate other_error none failed half_done blank_store).store ≡ doc)
    × ((mutate other_error none failed half_done blank_store).store.cells 0 ≡ empty_doc)
unfolding mutate put_cell reload_if_changed
half_done_undone = (refl, refl)

-- The sweep drops what has expired, and at most `max_pending` requests are kept.
sweeps : (sweep_expired 100 doc ≡ empty_doc) × (length (keys (sweep_expired 99 doc).tokens) ≡ 2)
unfolding sweep_expired keys drop_values drop_loop delete
sweeps = (refl, refl)

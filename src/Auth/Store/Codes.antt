-- ===== src/Auth/Store/Codes.antt =====
-- src/auth/store/file-store.ts: an authorization code is good once.
use brainstem_mcp.Auth.Store.{
  ClientRecord, CodeRecord, Doc, PendingRecord, TokenPatch, TokenRecord, code_usable, consume_code,
  delete_pending, put_client, put_code, put_pending, put_token, revoke_all, revoke_family,
  sweep_expired, update_token,
}
use brainstem_mcp.Prelude.{
  All, Bool-cases, List, Option-cases, Text, [], ap, arith, false, inl, inr, is_some, none, refl,
  some, sym, text_eq, true, ℕ, ◌∙◌, ◌∷◌, ◌≡◌, ◌⊎◌,
}
use brainstem_mcp.Prelude.Dict.{get, get-put, get-put_self, get_of_get-drop_values, put}

-- One call of the store that changes the document.
pub data Op : Type 0 where
  op_put_client : ClientRecord → Op
  op_put_pending : PendingRecord → Op
  op_delete_pending : Text → Op
  op_put_code : Text → CodeRecord → Op
  op_consume_code : Text → ℕ → Op
  op_put_token : Text → TokenRecord → Op
  op_update_token : Text → TokenPatch → Op
  op_revoke_family : Text → ℕ → Op
  op_revoke_all : ℕ → Op
  op_sweep_expired : ℕ → Op

unfoldable pub step : Op → Doc → Doc
step (op_put_client r) d = put_client r d
step (op_put_pending r) d = put_pending r d
step (op_delete_pending i) d = delete_pending i d
step (op_put_code h r) d = put_code h r d
step (op_consume_code h t) d = (consume_code h t d).0
step (op_put_token h r) d = put_token h r d
step (op_update_token h p) d = update_token h p d
step (op_revoke_family f t) d = (revoke_family f t d).0
step (op_revoke_all t) d = (revoke_all t d).0
step (op_sweep_expired t) d = sweep_expired t d

unfoldable pub run : List Op → Doc → Doc
run [] d = d
run (o ∷ os) d = run os (step o d)

-- The operation mints no code under this hash.
abbrev pub MintsNot : Text → Op → Type 0
MintsNot h (op_put_code g r) = text_eq g h ≡ false
MintsNot h _ = Unit

-- No usable code is stored under the hash.
abbrev pub IsSpent : Text → Doc → Type 0
IsSpent h d = (r : CodeRecord) → get h d.codes ≡ some r → is_some r.used_at ≡ true

abbrev pub used_at_time : ℕ → CodeRecord → CodeRecord
used_at_time now r = record r { used_at = some now }

-- The two outcomes of `consumeCode`.
pub consume-cases :
    (h : Text) (now : ℕ) (d : Doc)
    → (((consume_code h now d).1 ≡ none) × ((consume_code h now d).0.codes ≡ d.codes))
      ⊎ ((r : CodeRecord) × (get h d.codes ≡ some r)
          × (code_usable now r ≡ true)
          × ((consume_code h now d).1 ≡ some (used_at_time now r))
          × ((consume_code h now d).0.codes ≡ put h (used_at_time now r) d.codes))
unfolding consume_code
consume-cases h now d = elim (Option-cases (get h d.codes)) [
  | inl missing ↦ inl (rw (missing, consume_code) refl, rw (missing, consume_code) refl)
  | inr (r, found) ↦ elim (Bool-cases (code_usable now r)) [
    | inl good ↦ inr (r, found, good, ground arith, ground arith)
    | inr bad ↦ inl (ground arith, ground arith)
  ]
]

pub consume-IsSpent :
    (h : Text) (now : ℕ) (d : Doc) (r : CodeRecord)
    → (consume_code h now d).1 ≡ some r
    → IsSpent h (consume_code h now d).0
consume-IsSpent h now d r e r' e' = elim (consume-cases h now d) [
  | inl (missed, _) ↦ cc
  | inr (q, _, _, _, codes') ↦
      let same : some (used_at_time now q) ≡ some r' =
        sym (get-put_self h (used_at_time now q) d.codes) ∙ ap (get h) (sym codes') ∙ e' in
      ground arith
]

pub consume_of_IsSpent :
    (h : Text) (now : ℕ) (d : Doc) → IsSpent h d → (consume_code h now d).1 ≡ none
consume_of_IsSpent h now d s = elim (consume-cases h now d) [
  | inl (missed, _) ↦ missed
  | inr (r, found, usable, _, _) ↦ unfold code_usable in ground (arith, s r found)
]

-- What an operation that mints no such code leaves under the hash was spent before.
consume-keeps : (h g : Text) (now : ℕ) (d : Doc) → IsSpent h d → IsSpent h (consume_code g now d).0
consume-keeps h g now d s r e = elim (consume-cases g now d) [
  | inl (_, codes') ↦ s r (rw codes' at e)
  | inr (q, found, _, _, codes') ↦
      let e' : get h (put g (used_at_time now q) d.codes) ≡ some r = rw codes' at e in
      ground (arith, s r, get-put g h (used_at_time now q) d.codes)
]

step-IsSpent : (h : Text) (o : Op) (d : Doc) → MintsNot h o → IsSpent h d → IsSpent h (step o d)
unfolding step put_client put_pending delete_pending put_code put_token update_token revoke_family
    revoke_all sweep_expired get
step-IsSpent h (op_put_client r) d m s = s
step-IsSpent h (op_put_pending q) d m s = λ r e. s r (ground arith)
step-IsSpent h (op_delete_pending i) d m s = s
step-IsSpent h (op_put_code g q) d m s = λ r e. ground (arith, s r, get-put g h q d.codes)
step-IsSpent h (op_consume_code g now) d m s = consume-keeps h g now d s
step-IsSpent h (op_put_token g q) d m s = s
step-IsSpent h (op_update_token g p) d m s = λ r e. s r (ground arith)
step-IsSpent h (op_revoke_family f now) d m s = s
step-IsSpent h (op_revoke_all now) d m s = λ r e. cc
step-IsSpent h (op_sweep_expired now) d m s = λ r e. s r (get_of_get-drop_values _ h r d.codes e)

run-IsSpent :
    (h : Text) (os : List Op) (d : Doc) → All (MintsNot h) os → IsSpent h d → IsSpent h (run os d)
unfolding run
run-IsSpent h [] d m s = s
run-IsSpent h (o ∷ os) d m s = run-IsSpent h os (step o d) m.1 (step-IsSpent h o d m.0 s)

-- Once `consumeCode` has returned a code, every later `consumeCode` of the same hash returns
-- undefined, at whatever times and after whatever other calls of the store, as long as none of
-- them mints a code under the same hash.
pub consumed_once :
    (h : Text) (now later : ℕ) (d : Doc) (r : CodeRecord) (os : List Op)
    → (consume_code h now d).1 ≡ some r
    → All (MintsNot h) os
    → (consume_code h later (run os (consume_code h now d).0)).1 ≡ none
consumed_once h now later d r os e m =
    consume_of_IsSpent h later _ (run-IsSpent h os _ m (consume-IsSpent h now d r e))

-- ===== src/Auth/Store/Families.antt =====
-- src/auth/store/file-store.ts: revoking a token family, and revoking everything.
use brainstem_mcp.Auth.Store.{
  Doc, TokenPatch, TokenRecord, assign, consume_code, delete_pending, put_client, put_code,
  put_pending, put_token, revocable, revoke, revoke_all, revoke_family, revoke_in, sweep_expired,
  update_token,
}
use brainstem_mcp.Auth.Store.Codes.{
  Op, op_consume_code, op_delete_pending, op_put_client, op_put_code, op_put_pending, op_put_token,
  op_revoke_all, op_revoke_family, op_sweep_expired, op_update_token, run, step,
}
use brainstem_mcp.Prelude.{
  All, List, Option, Option-cases, Text, [], ap, arith, false, inl, inr, is_some, none, refl, some,
  text_eq, text_eq_iff, text_eq_refl, true, ℕ, ◌+◌, ◌∙◌, ◌∷◌, ◌≡◌, ◌≢◌,
}
use brainstem_mcp.Prelude.Dict.{
  count_values, get, get-map_values, get-put, get_of_get-drop_values, map_values, put,
}
use mathlib.Core.Path.{fun_ext}

-- No live token is stored under the hash.
abbrev pub IsRevoked : Text → Doc → Type 0
IsRevoked h d = (r : TokenRecord) → get h d.tokens ≡ some r → is_some r.revoked_at ≡ true

-- The operation mints no such token.
abbrev pub MintsNoToken : Text → Op → Type 0
MintsNoToken h (op_put_token g r) = text_eq g h ≡ false
MintsNoToken h _ = Unit

get-mapped :
    (f : TokenRecord → TokenRecord) (h : Text) (r : TokenRecord) (ts : List (Text × TokenRecord))
    → get h (map_values f ts) ≡ some r
    → (q : TokenRecord) × (get h ts ≡ some q) × (r ≡ f q)
get-mapped f h r ts e = elim (Option-cases (get h ts)) [
  | inl missing ↦ absurd (none-ne (rw (get-map_values f h ts, missing) at e))
  | inr (q, found) ↦ (q, found, same q found)
]
  where
    none-ne : none ≡ some r → ⊥
    none-ne p = cc

    same : (q : TokenRecord) → get h ts ≡ some q → r ≡ f q
    same q found =
        let e' : some (f q) ≡ some r = rw (get-map_values f h ts, found) at e in ground arith

revoke_in-keeps :
    (family : Text) (now : ℕ) (q : TokenRecord)
    → is_some q.revoked_at ≡ true
    → is_some (revoke_in family now q).revoked_at ≡ true
unfolding revoke_in
revoke_in-keeps family now q h = ground arith

revoke-revoked : (now : ℕ) (q : TokenRecord) → is_some (revoke now q).revoked_at ≡ true
unfolding revoke
revoke-revoked now q = ground arith

tokens-update :
    (g : Text) (p : TokenPatch) (d : Doc) (q : TokenRecord)
    → get g d.tokens ≡ some q
    → (update_token g p d).tokens ≡ put g (assign p q) d.tokens
unfolding update_token
tokens-update g p d q found = rw (found, update_token) refl

update-keeps :
    (h g : Text) (p : TokenPatch) (d : Doc) → IsRevoked h d → IsRevoked h (update_token g p d)
update-keeps h g p d s r e = elim (Option-cases (get g d.tokens)) [
  | inl missing ↦ s r (unfold update_token in (rw (missing, update_token) at e))
  | inr (q, found) ↦
      let e' : get h (put g (assign p q) d.tokens) ≡ some r =
        rw (tokens-update g p d q found) at e in
      unfold assign in ground (arith, get-put g h (assign p q) d.tokens, text_eq_iff g h, s r, s q)
]

pub step-IsRevoked :
    (h : Text) (o : Op) (d : Doc) → MintsNoToken h o → IsRevoked h d → IsRevoked h (step o d)
unfolding step put_client put_pending delete_pending put_code consume_code put_token revoke_family
    revoke_all sweep_expired
step-IsRevoked h (op_put_client r) d m s = s
step-IsRevoked h (op_put_pending q) d m s = λ r e. s r (ground arith)
step-IsRevoked h (op_delete_pending i) d m s = s
step-IsRevoked h (op_put_code g q) d m s = s
step-IsRevoked h (op_consume_code g now) d m s = λ r e. s r (ground arith)
step-IsRevoked h (op_put_token g q) d m s = λ r e. ground (arith, s r, get-put g h q d.tokens)
step-IsRevoked h (op_update_token g p) d m s = update-keeps h g p d s
step-IsRevoked h (op_revoke_family f now) d m s = λ r e.
    let (q, found, same) = get-mapped (revoke_in f now) h r d.tokens e in
    rw same (revoke_in-keeps f now q (s q found))
step-IsRevoked h (op_revoke_all now) d m s = λ r e.
    let (q, found, same) = get-mapped (revoke now) h r d.tokens e in rw same (revoke-revoked now q)
step-IsRevoked h (op_sweep_expired now) d m s = λ r e. s r (get_of_get-drop_values _ h r d.tokens e)

pub run-IsRevoked :
    (h : Text) (os : List Op) (d : Doc)
    → All (MintsNoToken h) os
    → IsRevoked h d
    → IsRevoked h (run os d)
unfolding run
run-IsRevoked h [] d m s = s
run-IsRevoked h (o ∷ os) d m s = run-IsRevoked h os (step o d) m.1 (step-IsRevoked h o d m.0 s)

revoke_in-member :
    (family : Text) (now : ℕ) (q : TokenRecord)
    → q.family_id ≡ family
    → is_some (revoke_in family now q).revoked_at ≡ true
unfolding revoke_in revocable
revoke_in-member family now q e = ground (arith, text_eq_refl family)

member-IsRevoked :
    (family h : Text) (now : ℕ) (d : Doc) (q : TokenRecord)
    → get h d.tokens ≡ some q
    → q.family_id ≡ family
    → IsRevoked h (revoke_family family now d).0
unfolding revoke_family
member-IsRevoked family h now d q found member r e =
    let (q', found', same) = get-mapped (revoke_in family now) h r d.tokens e in
    let one : q' ≡ q = ground arith in
    rw same (revoke_in-member family now q' (ap (λ (t : TokenRecord). t.family_id) one ∙ member))

-- Every token of the family, whatever its kind, is revoked after `revokeFamily`, and stays so
-- after any later calls of the store that mint no token under its hash.
pub revoke_family_lasting :
    (family h : Text) (now : ℕ) (d : Doc) (q r : TokenRecord) (os : List Op)
    → get h d.tokens ≡ some q
    → q.family_id ≡ family
    → All (MintsNoToken h) os
    → get h (run os (revoke_family family now d).0).tokens ≡ some r
    → is_some r.revoked_at ≡ true
revoke_family_lasting family h now d q r os found member m e =
    run-IsRevoked h os _ m (member-IsRevoked family h now d q found member) r e

revoke_in_other :
    (family : Text) (now : ℕ) (q : TokenRecord)
    → text_eq q.family_id family ≡ false
    → revoke_in family now q ≡ q
unfolding revoke_in revocable
revoke_in_other family now q n = ground arith

-- A token of another family is left as it is, and codes, pending requests and clients too.
revoke_family_frame :
    (family h : Text) (now : ℕ) (d : Doc) (q : TokenRecord)
    → get h d.tokens ≡ some q
    → q.family_id ≢ family
    → (get h (revoke_family family now d).0.tokens ≡ some q)
      × ((revoke_family family now d).0.codes ≡ d.codes)
      × ((revoke_family family now d).0.pending ≡ d.pending)
      × ((revoke_family family now d).0.clients ≡ d.clients)
unfolding revoke_family
revoke_family_frame family h now d q found other = (
  rw (get-map_values (revoke_in family now) h d.tokens, found)
      (ap some (revoke_in_other family now q (ground (arith, text_eq_iff q.family_id family)))),
  refl,
  refl,
  refl,
)

-- How many tokens of the document are revoked.
pub revoked_count : Doc → ℕ
revoked_count d = count_values (λ r. is_some r.revoked_at) d.tokens

counted :
    (family : Text) (now : ℕ) (ts : List (Text × TokenRecord))
    → count_values (λ r. is_some r.revoked_at) (map_values (revoke_in family now) ts)
      ≡ count_values (λ r. is_some r.revoked_at) ts + count_values (revocable family) ts
unfolding count_values map_values revoke_in revocable
counted family now [] = omega arith
counted family now ((h, r) ∷ ts) = ground (arith, counted family now ts)

-- The number that `revokeFamily` returns is the number of tokens that it newly revoked.
revoke_family-count :
    (family : Text) (now : ℕ) (d : Doc)
    → revoked_count (revoke_family family now d).0
      ≡ revoked_count d + (revoke_family family now d).1
unfolding revoke_family revoked_count
revoke_family-count family now d = counted family now d.tokens

all_counted :
    (now : ℕ) (ts : List (Text × TokenRecord))
    → count_values (λ r. is_some r.revoked_at) (map_values (revoke now) ts)
      ≡ count_values (λ _. true) ts
unfolding count_values map_values revoke
all_counted now [] = refl
all_counted now ((h, r) ∷ ts) = ground (arith, all_counted now ts)

-- `o ?? t`
abbrev pub or_else : Option ℕ → ℕ → ℕ
or_else none t = t
or_else (some s) t = s

revoke-eq :
    (now : ℕ) (r : TokenRecord)
    → revoke now r ≡ record r { revoked_at = some (or_else r.revoked_at now) }
unfolding revoke
revoke-eq now r = ground arith

-- `revokeAll` leaves no code and no pending request, revokes every token without moving an
-- earlier `revokedAt`, and returns the number of tokens that are revoked after it.
revoke_all_lem :
    (now : ℕ) (d : Doc)
    → ((revoke_all now d).0.codes ≡ [])
      × ((revoke_all now d).0.pending ≡ [])
      × ((revoke_all now d).0.tokens
          ≡ map_values (λ r. record r { revoked_at = some (or_else r.revoked_at now) }) d.tokens)
      × (revoked_count (revoke_all now d).0 ≡ (revoke_all now d).1)
unfolding revoke_all revoked_count
revoke_all_lem now d = (
  refl,
  refl,
  ap (λ f. map_values f d.tokens) (fun_ext (revoke-eq now)),
  all_counted now d.tokens,
)

-- ===== src/Auth/Verifier/Laws.antt =====
-- src/auth/rs/verifier.ts: which access tokens pass.
use brainstem_mcp.Auth.Store.{Doc, Kind, TokenPatch, TokenRecord, get_token, revoke_family}
use brainstem_mcp.Auth.Store.Codes.{Op, run}
use brainstem_mcp.Auth.Store.Families.{MintsNoToken, revoke_family_lasting}
use brainstem_mcp.Auth.Verifier.{
  AuthInfo, Lookup, accepted, info_of, invalid_token, is_good, is_stale,
  last_used_write_interval_ms, looked_up, unavailable, verify_access_token,
}
use brainstem_mcp.Prelude.{
  All, List, Option, Text, arith, filter, is_empty, is_some, none, not, refl, some, split, subst,
  text_eq-eq, text_eq_refl, true, ℕ, ◌+◌, ◌/◌, ◌<◌, ◌↔◌, ◌≡◌, ◌≤◌,
}
use brainstem_mcp.Prelude.Dict.{get}
use brainstem_mcp.Prelude.Sort.{member}

-- What the answer for a token says of its record: the token itself, the client, the words of the
-- scope, the expiry in seconds, the resource.
pub record Describes (token : Text) (rec : TokenRecord) (info : AuthInfo) : Type 0 where
  pub token_same : info.token ≡ token
  pub client : info.client_id ≡ rec.client_id
  pub name : info.client_name ≡ rec.client_name
  pub words : info.scopes ≡ filter (λ s. not (is_empty s)) (split 32 rec.scope)
  pub seconds : info.expires_at ≡ rec.expires_at / 1000
  pub url : info.resource ≡ rec.resource

Describes-info_of :
    (token : Text) (rec : TokenRecord) (info : AuthInfo)
    → Describes token rec info
    → info_of token rec ≡ info
unfolding info_of
Describes-info_of token rec info d = cc

info_of-Describes : (token : Text) (rec : TokenRecord) → Describes token rec (info_of token rec)
unfolding info_of
info_of-Describes token rec = record {
  token_same = refl;
  client = refl;
  name = refl;
  words = refl;
  seconds = refl;
  url = refl;
}

accepted-info :
    (url token : Text) (t : ℕ) (rec : TokenRecord) (info : AuthInfo)
    → (verify_access_token url token t (looked_up (some rec))).0 ≡ accepted info
    → (rec.kind ≡ Kind.access)
      × (rec.revoked_at ≡ none)
      × (t < rec.expires_at)
      × (rec.resource ≡ url)
      × (info_of token rec ≡ info)
unfolding verify_access_token is_good
accepted-info url token t rec info e =
    (ground arith, ground arith, ground arith, text_eq-eq _ _ (ground arith), ground arith)

-- A token is accepted with an answer exactly when the lookup found a record under its hash that is
-- of an access token, not revoked, not expired and for this server's URL, and the answer has the
-- token, the record's client, its resource, the words of its scope and its expiry in seconds.
pub accepted_iff :
    (url token : Text) (t : ℕ) (found : Lookup) (info : AuthInfo)
    → ((verify_access_token url token t found).0 ≡ accepted info) ↔ (
        (rec : TokenRecord) × (found ≡ looked_up (some rec))
        × (rec.kind ≡ Kind.access)
        × (rec.revoked_at ≡ none)
        × (t < rec.expires_at)
        × (rec.resource ≡ url)
        × Describes token rec info)
unfolding verify_access_token is_good
accepted_iff url token t found info = (to found, from)
  where
    to :
        (l : Lookup)
        → (verify_access_token url token t l).0 ≡ accepted info
        → (rec : TokenRecord) × (l ≡ looked_up (some rec))
          × (rec.kind ≡ Kind.access)
          × (rec.revoked_at ≡ none)
          × (t < rec.expires_at)
          × (rec.resource ≡ url)
          × Describes token rec info
    to unavailable e = cc
    to (looked_up none) e = cc
    to (looked_up (some rec)) e =
        let (k, v, x, u, i) = accepted-info url token t rec info e in
        (rec, refl, k, v, x, u, subst (Describes token rec) i (info_of-Describes token rec))

    from :
        ((rec : TokenRecord) × (found ≡ looked_up (some rec))
          × (rec.kind ≡ Kind.access)
          × (rec.revoked_at ≡ none)
          × (t < rec.expires_at)
          × (rec.resource ≡ url)
          × Describes token rec info)
        → (verify_access_token url token t found).0 ≡ accepted info
    from (rec, e, k, v, x, u, d) =
        rw (e, ← Describes-info_of token rec info d) (ground (arith, text_eq_refl url))

revoked_rejected :
    (url token : Text) (t : ℕ) (o : Option TokenRecord)
    → ((r : TokenRecord) → o ≡ some r → is_some r.revoked_at ≡ true)
    → (verify_access_token url token t (looked_up o)).0 ≡ invalid_token
unfolding verify_access_token is_good
revoked_rejected url token t none h = refl
revoked_rejected url token t (some r) h = ground (arith, h r refl)

-- After `revokeFamily` no access token of the family passes the check again, whatever other calls
-- of the store follow that mint no token under its hash, at any time and for any URL.
pub revoked_family_rejected :
    (url token family h : Text) (now t : ℕ) (d : Doc) (q : TokenRecord) (os : List Op)
    → get h d.tokens ≡ some q
    → q.family_id ≡ family
    → All (MintsNoToken h) os
    → (verify_access_token url token t
        (looked_up (get_token h (run os (revoke_family family now d).0)))).0
      ≡ invalid_token
unfolding get_token
revoked_family_rejected url token family h now t d q os stored member m =
    revoked_rejected url token t _
      (λ r e. revoke_family_lasting family h now d q r os stored member m e)

-- The write of `lastUsedAt` is started only for an accepted token, sets the time of this check,
-- and is not repeated before the interval is over.
touch_bounded :
    (url token : Text) (t : ℕ) (rec : TokenRecord) (p : TokenPatch) (u : ℕ)
    → (verify_access_token url token t (looked_up (some rec))).1 ≡ some p
    → rec.last_used_at ≡ some u
    → (p.last_used_at ≡ some t) × (p.rotated_at ≡ none) × (u + last_used_write_interval_ms ≤ t)
unfolding verify_access_token is_stale
touch_bounded url token t rec p u e last = ground arith

-- ===== src/Auth/Verifier.antt =====
-- src/auth/rs/verifier.ts: the check of an access token.
pub mod Laws
mod Tests
use brainstem_mcp.Auth.Store.{Kind, TokenPatch, TokenRecord}
use brainstem_mcp.Prelude.{
  Bool, List, Option, Text, false, filter, if◌then◌else◌, is_empty, is_some, leb, none, not, some,
  split, text_eq, true, ℕ, ◌&&◌, ◌+◌, ◌/◌,
}

abbrev pub last_used_write_interval_ms : ℕ
last_used_write_interval_ms = 300000

pub record AuthInfo : Type 0 where
  pub token : Text
  pub client_id : Text
  pub scopes : List Text
  pub expires_at : ℕ
  pub resource : Text
  pub client_name : Text

-- What `store.getToken` gives: a record, nothing, or a throw.
pub data Lookup : Type 0 where
  unavailable : Lookup
  looked_up : Option TokenRecord → Lookup

pub data Outcome : Type 0 where
  server_error invalid_token : Outcome
  accepted : AuthInfo → Outcome

abbrev is_access : Kind → Bool
is_access Kind.access = true
is_access Kind.refresh = false

-- The negation of the four tests that throw.
unfoldable pub is_good : Text → ℕ → TokenRecord → Bool
is_good url t rec =
    is_access rec.kind
    && not (is_some rec.revoked_at)
    && not (leb rec.expires_at t)
    && text_eq rec.resource url

-- `rec.lastUsedAt === undefined || t - rec.lastUsedAt >= LAST_USED_WRITE_INTERVAL_MS`
unfoldable pub is_stale : ℕ → TokenRecord → Bool
is_stale t rec = elim rec.last_used_at [
  | none ↦ true
  | some u ↦ leb (u + last_used_write_interval_ms) t
]

unfoldable pub info_of : Text → TokenRecord → AuthInfo
info_of token rec = record {
  token = token;
  client_id = rec.client_id;
  scopes = filter (λ s. not (is_empty s)) (split 32 rec.scope);
  expires_at = rec.expires_at / 1000;
  resource = rec.resource;
  client_name = rec.client_name;
}

-- The outcome, and the patch of the write that is started and not waited for.
unfoldable pub verify_access_token : Text → Text → ℕ → Lookup → Outcome × Option TokenPatch
unfolding is_good is_stale info_of
verify_access_token url token t unavailable = (server_error, none)
verify_access_token url token t (looked_up none) = (invalid_token, none)
verify_access_token url token t (looked_up (some rec)) =
    if is_good url t rec
    then (
      accepted (info_of token rec),
      if is_stale t rec then some (record { rotated_at = none; last_used_at = some t }) else none,
    )
    else (invalid_token, none)

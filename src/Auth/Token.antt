-- ===== src/Auth/Token.antt =====
-- src/auth/as/token.ts: the token and the revocation endpoint, over the document of Auth.Store.
-- `strParam` has been applied: a parameter that is no string is the empty text. `sha256hex` is a
-- parameter, as is the base64url digest of PKCE; the random tokens are arguments,
-- as is what other requests do while a refresh awaits the store; the exchange of a code is one step.
pub mod Exchange
pub mod Rotation
mod Tests
use brainstem_mcp.Auth.Store.{
  CodeRecord, Doc, Kind, TokenRecord, access, consume_code, get_token, put_token, refresh,
  revoke_family, update_token,
}
use brainstem_mcp.Prelude.{
  Bool, Option, Text, all, false, if◌then◌else◌, is_empty, is_some, leb, length, ltb, none, not,
  some, text_eq, true, ℕ, ◌&&◌, ◌*◌, ◌+◌, ◌==◌, ◌||◌,
}

abbrev pub rotation_grace_ms : ℕ
rotation_grace_ms = 60000

-- What stands outside the repository: the two digests.
pub record Crypto : Type 0 where
  pub sha256hex : Text → Text
  pub challenge_of : Text → Text

pub record Config : Type 0 where
  pub access_token_ttl_s : ℕ
  pub refresh_token_ttl_s : ℕ

-- The tokens that `randomToken` gives to one request.
pub record Random : Type 0 where
  pub access : Text
  pub refresh : Text
  pub family : Text

pub record TokenPair : Type 0 where
  pub access_token : Text
  pub refresh_token : Text
  pub expires_in : ℕ
  pub scope : Text

pub data Response : Type 0 where
  issued : TokenPair → Response
  invalid_request invalid_grant unsupported_grant_type wrong_content_type done : Response

-- `/^[A-Za-z0-9._~-]{43,128}$/`
abbrev is_verifier_char : ℕ → Bool
is_verifier_char c =
    (leb b'A' c && leb c b'Z')
    || (leb b'a' c && leb c b'z')
    || (leb b'0' c && leb c b'9')
    || c == b'.'
    || c == b'_'
    || c == b'~'
    || c == b'-'

unfoldable pub is_code_verifier : Text → Bool
is_code_verifier s = all is_verifier_char s && leb 43 (length s) && leb (length s) 128

unfoldable pub verify_pkce_s256 : Crypto → Text → Text → Bool
unfolding is_code_verifier
verify_pkce_s256 c code_verifier code_challenge =
    is_code_verifier code_verifier && text_eq (c.challenge_of code_verifier) code_challenge

-- `IssueBase`, and the record that it makes.
pub record IssueBase : Type 0 where
  pub family_id : Text
  pub client_id : Text
  pub client_name : Text
  pub resource : Text
  pub scope : Text

unfoldable pub token_of : IssueBase → Kind → ℕ → TokenRecord
token_of base kind expires_at = record {
  kind = kind;
  family_id = base.family_id;
  client_id = base.client_id;
  client_name = base.client_name;
  resource = base.resource;
  scope = base.scope;
  expires_at = expires_at;
  rotated_at = none;
  revoked_at = none;
  last_used_at = none;
}

pub record CodeForm : Type 0 where
  pub code : Text
  pub client_id : Text
  pub redirect_uri : Text
  pub code_verifier : Text
  pub resource : Text

abbrev pub base_of_code : Text → CodeRecord → IssueBase
base_of_code family rec = record {
  family_id = family;
  client_id = rec.client_id;
  client_name = rec.client_name;
  resource = rec.resource;
  scope = rec.scope;
}

abbrev answer : Doc × TokenPair → Doc × Response
answer (doc, pair) = (doc, issued pair)

-- `rec.kind !== 'refresh' || rec.revokedAt !== undefined || rec.expiresAt <= now || rec.clientId !== clientId`
abbrev is_refresh : Kind → Bool
is_refresh Kind.access = false
is_refresh Kind.refresh = true

unfoldable pub refused : ℕ → Text → TokenRecord → Bool
refused now client_id rec =
    not (is_refresh rec.kind)
    || is_some rec.revoked_at
    || leb rec.expires_at now
    || not (text_eq rec.client_id client_id)

-- `rec.rotatedAt !== undefined && now - rec.rotatedAt > ROTATION_GRACE_MS`
unfoldable pub reused : ℕ → TokenRecord → Bool
reused now rec = elim rec.rotated_at [ none ↦ false | some t ↦ ltb (t + rotation_grace_ms) now ]

abbrev pub base_of_token : TokenRecord → IssueBase
base_of_token rec = record {
  family_id = rec.family_id;
  client_id = rec.client_id;
  client_name = rec.client_name;
  resource = rec.resource;
  scope = rec.scope;
}

-- First rotation wins.
unfoldable pub mark_rotated : Text → ℕ → TokenRecord → Doc → Doc
mark_rotated hash now rec doc =
    if is_some rec.rotated_at
    then doc
    else update_token hash (record { rotated_at = some now; last_used_at = none }) doc

pub data Grant : Type 0 where
  code_grant : CodeForm → Grant
  refresh_grant : Text → Text → Grant
  other_grant : Grant

-- What other requests make of the document while the refresh awaits: from `getToken` to
-- `updateToken` or `revokeFamily`, and from there to `issuePair`.
pub record Meanwhile : Type 0 where
  pub after_read : Doc → Doc
  pub after_update : Doc → Doc

module _ (c : Crypto) (config : Config) where
  unfoldable pub issue_pair : Random → ℕ → IssueBase → Doc → Doc × TokenPair
  unfolding token_of
  issue_pair r now base doc =
      let with_access =
        put_token (c.sha256hex r.access)
          (token_of base Kind.access (now + config.access_token_ttl_s * 1000)) doc in
      let with_both =
        put_token (c.sha256hex r.refresh)
          (token_of base Kind.refresh (now + config.refresh_token_ttl_s * 1000)) with_access in
      (
        with_both,
        record {
          access_token = r.access;
          refresh_token = r.refresh;
          expires_in = config.access_token_ttl_s;
          scope = base.scope;
        },
      )

  -- The tests on the consumed code, after `!rec`.
  unfoldable pub code_matches : CodeForm → CodeRecord → Bool
  unfolding verify_pkce_s256
  code_matches f rec =
      text_eq rec.client_id f.client_id
      && text_eq rec.redirect_uri f.redirect_uri
      && verify_pkce_s256 c f.code_verifier rec.code_challenge
      && (is_empty f.resource || text_eq f.resource rec.resource)

  unfoldable pub code_outcome : Random → ℕ → CodeForm → Doc × Option CodeRecord → Doc × Response
  unfolding issue_pair code_matches
  code_outcome r now f (doc, none) = (doc, invalid_grant)
  code_outcome r now f (doc, some rec) =
      if code_matches f rec
      then answer (issue_pair r now (base_of_code r.family rec) doc)
      else (doc, invalid_grant)

  unfoldable pub handle_authorization_code : Random → ℕ → CodeForm → Doc → Doc × Response
  unfolding code_outcome consume_code
  handle_authorization_code r now f doc =
      if is_empty f.code
        || is_empty f.client_id
        || is_empty f.redirect_uri
        || is_empty f.code_verifier
      then (doc, invalid_request)
      else code_outcome r now f (consume_code (c.sha256hex f.code) now doc)

  unfoldable pub refresh_outcome :
      Random → Meanwhile → ℕ → Text → Text → TokenRecord → Doc → Doc × Response
  unfolding issue_pair refused reused mark_rotated
  refresh_outcome r w now hash client_id rec doc =
      if refused now client_id rec || reused now rec
      then ((revoke_family rec.family_id now (w.after_read doc)).0, invalid_grant)
      else answer (
          issue_pair r now (base_of_token rec)
            (w.after_update (mark_rotated hash now rec (w.after_read doc))))

  unfoldable pub handle_refresh_token : Random → Meanwhile → ℕ → Text → Text → Doc → Doc × Response
  unfolding refresh_outcome
  handle_refresh_token r w now refresh_token client_id doc =
      if is_empty refresh_token || is_empty client_id
      then (doc, invalid_request)
      else elim (get_token (c.sha256hex refresh_token) doc) [
        | none ↦ (doc, invalid_grant)
        | some rec ↦ refresh_outcome r w now (c.sha256hex refresh_token) client_id rec doc
      ]

  -- The route `/oauth/token`; `form` is the test of `requireFormEncoded`.
  unfoldable pub token_route : Bool → Random → Meanwhile → ℕ → Grant → Doc → Doc × Response
  unfolding handle_authorization_code handle_refresh_token
  token_route false r w now g doc = (doc, wrong_content_type)
  token_route true r w now (code_grant f) doc = handle_authorization_code r now f doc
  token_route true r w now (refresh_grant t i) doc = handle_refresh_token r w now t i doc
  token_route true r w now other_grant doc = (doc, unsupported_grant_type)

  -- The route `/oauth/revoke`.
  unfoldable pub revoke_route : Bool → ℕ → Text → Doc → Doc × Response
  revoke_route false now token doc = (doc, wrong_content_type)
  revoke_route true now token doc =
      if is_empty token then (doc, done) else elim (get_token (c.sha256hex token) doc) [
        | none ↦ (doc, done)
        | some rec ↦ ((revoke_family rec.family_id now doc).0, done)
      ]

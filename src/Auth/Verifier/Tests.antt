-- ===== src/Auth/Verifier/Tests.antt =====
-- src/auth/rs/verifier.ts on concrete tokens.
use brainstem_mcp.Auth.Store.{Doc, Kind, TokenPatch, TokenRecord, get_token, revoke_family}
use brainstem_mcp.Auth.Store.Codes.{op_sweep_expired, run}
use brainstem_mcp.Auth.Verifier.{AuthInfo, accepted, invalid_token, looked_up, verify_access_token}
use brainstem_mcp.Auth.Verifier.Laws.{Describes, accepted_iff, revoked_family_rejected}
use brainstem_mcp.Prelude.{[], codes, none, refl, some, ◌<◌, ◌↔◌, ◌∷◌, ◌≡◌}
use brainstem_mcp.Prelude.Dict.{get}

abbrev stored : TokenRecord
stored = record {
  kind = Kind.access;
  family_id = codes "f";
  client_id = codes "c";
  client_name = codes "C";
  resource = codes "u";
  scope = codes "s t";
  expires_at = 900000;
  rotated_at = none;
  revoked_at = none;
  last_used_at = some 5;
}

abbrev held : Doc
held = record { clients = []; pending = []; codes = []; tokens = (codes "h", stored) ∷ [] }

abbrev answer : AuthInfo
answer = record {
  token = codes "t";
  client_id = codes "c";
  scopes = codes "s" ∷ codes "t" ∷ [];
  expires_at = 900;
  resource = codes "u";
  client_name = codes "C";
}

accepted_iff_example :
    ((verify_access_token (codes "u") (codes "t") 9 (looked_up (some stored))).0 ≡ accepted answer)
    ↔ ((rec : TokenRecord) × (looked_up (some stored) ≡ looked_up (some rec))
        × (rec.kind ≡ Kind.access)
        × (rec.revoked_at ≡ none)
        × (9 < rec.expires_at)
        × (rec.resource ≡ codes "u")
        × Describes (codes "t") rec answer)
accepted_iff_example = accepted_iff (codes "u") (codes "t") 9 (looked_up (some stored)) answer

accepted_stored :
    (verify_access_token (codes "u") (codes "t") 9 (looked_up (some stored))).0 ≡ accepted answer
unfolding verify_access_token
accepted_stored = refl

revoked_family_rejected_example :
    (verify_access_token (codes "u") (codes "t") 20 (
      looked_up (
        get_token
          (codes "h")
          (run (op_sweep_expired 12 ∷ []) (revoke_family (codes "f") 10 held).0)))).0
    ≡ invalid_token
unfolding get
revoked_family_rejected_example =
    revoked_family_rejected (codes "u") (codes "t") (codes "f") (codes "h") 10 20 held stored
      (op_sweep_expired 12 ∷ []) refl refl (tt, tt)

abbrev touch : TokenPatch
touch = record { rotated_at = none; last_used_at = some 400000 }

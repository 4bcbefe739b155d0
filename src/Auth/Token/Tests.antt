-- ===== src/Auth/Token/Tests.antt =====
-- src/auth/as/token.ts on concrete requests.
use brainstem_mcp.Auth.Store.{
  CodeRecord, Doc, Kind, TokenRecord, assign, code_usable, consume_code, get_token, put_token,
  update_token,
}
use brainstem_mcp.Auth.Store.Families.{or_else}
use brainstem_mcp.Auth.Token.{
  CodeForm, Config, Crypto, Meanwhile, Random, TokenPair, handle_authorization_code,
  handle_refresh_token, invalid_grant, mark_rotated,
}
use brainstem_mcp.Auth.Token.Exchange.{WasGranted, code_used_once, exchange-WasGranted}
use brainstem_mcp.Auth.Token.Rotation.{WasLive, first_rotation_wins, refresh-WasLive}
use brainstem_mcp.Prelude.{Text, [], codes, none, refl, some, ℕ, ◌∷◌, ◌≡◌}
use brainstem_mcp.Prelude.Dict.{get, put}

-- Digests that are their own text.
abbrev plain : Crypto
plain = record { sha256hex = λ s. s; challenge_of = λ s. s }

abbrev limits : Config
limits = record { access_token_ttl_s = 3600; refresh_token_ttl_s = 86400 }

abbrev random : Random
random = record { access = codes "a"; refresh = codes "r"; family = codes "f" }

abbrev verifier : Text
verifier = codes "0123456789012345678901234567890123456789012"

abbrev form : CodeForm
form = record {
  code = codes "h";
  client_id = codes "c";
  redirect_uri = codes "u";
  code_verifier = verifier;
  resource = [];
}

abbrev stored_code : CodeRecord
stored_code = record {
  pending_id = codes "p";
  client_id = codes "c";
  client_name = codes "C";
  redirect_uri = codes "u";
  code_challenge = verifier;
  resource = codes "m";
  scope = codes "s";
  expires_at = 100;
  used_at = none;
}

abbrev with_code : Doc
with_code = record {
  clients = [];
  pending = [];
  codes = (codes "h", stored_code) ∷ [];
  tokens = [];
}

abbrev pair : TokenPair
pair = record {
  access_token = codes "a";
  refresh_token = codes "r";
  expires_in = 3600;
  scope = codes "s";
}

exchange-WasGranted_example : WasGranted plain limits 10 form with_code
unfolding handle_authorization_code consume_code get code_usable
exchange-WasGranted_example = exchange-WasGranted plain limits random 10 form with_code pair refl

code_used_once_example :
    (handle_authorization_code plain limits random 20 form
      (handle_authorization_code plain limits random 10 form with_code).0).1
    ≡ invalid_grant
unfolding handle_authorization_code consume_code get code_usable
code_used_once_example =
    code_used_once plain limits random random 10 20 form form with_code pair refl refl refl

abbrev alone : Meanwhile
alone = record { after_read = λ d. d; after_update = λ d. d }

abbrev old_token : TokenRecord
old_token = record {
  kind = Kind.refresh;
  family_id = codes "f";
  client_id = codes "c";
  client_name = codes "C";
  resource = codes "m";
  scope = codes "s";
  expires_at = 900000;
  rotated_at = some 5;
  revoked_at = none;
  last_used_at = none;
}

abbrev with_token : Doc
with_token = record { clients = []; pending = []; codes = []; tokens = (codes "t", old_token) ∷ [] }

refresh-WasLive_example : WasLive plain limits 1000 (codes "t") (codes "c") with_token
unfolding handle_refresh_token get_token get
refresh-WasLive_example =
    refresh-WasLive plain limits random alone 1000 (codes "t") (codes "c") with_token pair refl

first_rotation_wins_example :
    get
      (codes "t")
      (handle_refresh_token plain limits random alone 1000
        (codes "t")
        (codes "c")
        with_token).0.tokens
    ≡ some (record old_token { rotated_at = some (or_else (some 5) 1000) })
unfolding handle_refresh_token get_token get
first_rotation_wins_example =
    first_rotation_wins plain limits random alone 1000 (codes "t") (codes "c") with_token old_token
      pair refl refl refl refl (λ d. refl) (λ d. refl)

abbrev fresh_token : TokenRecord
fresh_token = record old_token { rotated_at = none }

abbrev with_fresh : Doc
with_fresh = record {
  clients = [];
  pending = [];
  codes = [];
  tokens = (codes "t", fresh_token) ∷ [];
}

abbrev is_at : ℕ → TokenRecord
is_at t = record fresh_token { rotated_at = some t }

-- Another request rotates the token right after this one has read it: the later write stays.
abbrev rival : Meanwhile
rival = record { after_read = mark_rotated (codes "t") 10 fresh_token; after_update = λ d. d }

later_stays :
    get
      (codes "t")
      (handle_refresh_token plain limits random rival 20
        (codes "t")
        (codes "c")
        with_fresh).0.tokens
    ≡ some (is_at 20)
unfolding mark_rotated get update_token put assign handle_refresh_token get_token put_token
later_stays = refl

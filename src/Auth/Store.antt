-- ===== src/Auth/Store.antt =====
-- src/auth/store: the records of types.ts and the document of file-store.ts with its operations.
-- Numbers are milliseconds. The zod schemas say the same shapes as the records.
pub mod Codes
pub mod Families
pub mod File
mod Tests
use brainstem_mcp.Prelude.{
  Bool, List, Option, Text, [], if◌then◌else◌, is_some, leb, length, none, not, some, take, text_eq,
  true, ℕ, ◌&&◌, ◌-◌, ◌||◌,
}
use brainstem_mcp.Prelude.Dict.{
  count_values, delete, delete_all, drop_values, get, keys, map_values, put,
}
use brainstem_mcp.Prelude.Sort.{sort_by}

pub data Kind : Type 0 where
  access refresh : Kind

pub record ClientRecord : Type 0 where
  pub client_id : Text
  pub client_name : Text
  pub redirect_uris : List Text
  pub fetched_at : ℕ
  pub expires_at : ℕ
  pub negative : Bool

pub record PendingRecord : Type 0 where
  pub id : Text
  pub client_id : Text
  pub client_name : Text
  pub redirect_uri : Text
  pub code_challenge : Text
  pub resource : Text
  pub scope : Text
  pub state : Text
  pub nonce : Text
  pub expires_at : ℕ
  pub loopback_only : Bool

pub record CodeRecord : Type 0 where
  pub pending_id : Text
  pub client_id : Text
  pub client_name : Text
  pub redirect_uri : Text
  pub code_challenge : Text
  pub resource : Text
  pub scope : Text
  pub expires_at : ℕ
  pub used_at : Option ℕ

pub record TokenRecord : Type 0 where
  pub kind : Kind
  pub family_id : Text
  pub client_id : Text
  pub client_name : Text
  pub resource : Text
  pub scope : Text
  pub expires_at : ℕ
  pub rotated_at : Option ℕ
  pub revoked_at : Option ℕ
  pub last_used_at : Option ℕ

-- `Partial<TokenRecord>`, of which the program gives these two fields; `none` is an absent key.
pub record TokenPatch : Type 0 where
  pub rotated_at : Option ℕ
  pub last_used_at : Option ℕ

pub record Doc : Type 0 where
  pub clients : List (Text × ClientRecord)
  pub pending : List (Text × PendingRecord)
  pub codes : List (Text × CodeRecord)
  pub tokens : List (Text × TokenRecord)

abbrev pub empty_doc : Doc
empty_doc = record { clients = []; pending = []; codes = []; tokens = [] }

abbrev pub max_pending : ℕ
max_pending = 16

unfoldable pub get_client : Text → Doc → Option ClientRecord
get_client client_id doc = get client_id doc.clients

unfoldable pub put_client : ClientRecord → Doc → Doc
put_client rec doc = record doc { clients = put rec.client_id rec doc.clients }

-- `doc.pending[a]?.expiresAt ?? 0`
pub expiry_of : List (Text × PendingRecord) → Text → ℕ
expiry_of pending id = elim (get id pending) [ none ↦ 0 | some r ↦ r.expires_at ]

unfoldable pub put_pending : PendingRecord → Doc → Doc
unfolding expiry_of
put_pending rec doc =
    let pending = put rec.id rec doc.pending in
    let ids = keys pending in
    if leb (length ids) max_pending then record doc { pending = pending } else (record doc {
      pending =
          delete_all (take (length ids - max_pending) (sort_by (expiry_of pending) ids)) pending;
    })

unfoldable pub get_pending : Text → Doc → Option PendingRecord
get_pending id doc = get id doc.pending

unfoldable pub delete_pending : Text → Doc → Doc
delete_pending id doc = record doc { pending = delete id doc.pending }

unfoldable pub put_code : Text → CodeRecord → Doc → Doc
put_code hash rec doc = record doc { codes = put hash rec doc.codes }

-- `!rec || rec.usedAt !== undefined || rec.expiresAt <= now`
unfoldable pub code_usable : ℕ → CodeRecord → Bool
code_usable now rec = not (is_some rec.used_at || leb rec.expires_at now)

unfoldable pub consume_code : Text → ℕ → Doc → Doc × Option CodeRecord
unfolding code_usable
consume_code hash now doc = elim (get hash doc.codes) [
  | none ↦ (doc, none)
  | some rec ↦
      let used = record rec { used_at = some now } in
      if code_usable now rec
      then (record doc { codes = put hash used doc.codes }, some used)
      else (doc, none)
]

unfoldable pub put_token : Text → TokenRecord → Doc → Doc
put_token hash rec doc = record doc { tokens = put hash rec doc.tokens }

unfoldable pub get_token : Text → Doc → Option TokenRecord
get_token hash doc = get hash doc.tokens

-- A key of the patch that is absent leaves the field.
abbrev patched : Option ℕ → Option ℕ → Option ℕ
patched none old = old
patched (some t) old = some t

unfoldable pub assign : TokenPatch → TokenRecord → TokenRecord
assign patch rec = record rec {
  rotated_at = patched patch.rotated_at rec.rotated_at;
  last_used_at = patched patch.last_used_at rec.last_used_at;
}

unfoldable pub update_token : Text → TokenPatch → Doc → Doc
update_token hash patch doc = elim (get hash doc.tokens) [
  | none ↦ doc
  | some rec ↦ record doc { tokens = put hash (assign patch rec) doc.tokens }
]

-- `rec.familyId === familyId && rec.revokedAt === undefined`
unfoldable pub revocable : Text → TokenRecord → Bool
revocable family rec = text_eq rec.family_id family && not (is_some rec.revoked_at)

unfoldable pub revoke_in : Text → ℕ → TokenRecord → TokenRecord
unfolding revocable
revoke_in family now rec =
    if revocable family rec then record rec { revoked_at = some now } else rec

unfoldable pub revoke_family : Text → ℕ → Doc → Doc × ℕ
unfolding revoke_in
revoke_family family now doc = (
  record doc { tokens = map_values (revoke_in family now) doc.tokens },
  count_values (revocable family) doc.tokens,
)

unfoldable pub revoke : ℕ → TokenRecord → TokenRecord
revoke now rec = if is_some rec.revoked_at then rec else record rec { revoked_at = some now }

unfoldable pub revoke_all : ℕ → Doc → Doc × ℕ
unfolding revoke
revoke_all now doc = (
  record doc { tokens = map_values (revoke now) doc.tokens; codes = []; pending = [] },
  count_values (λ _. true) doc.tokens,
)

unfoldable pub sweep_expired : ℕ → Doc → Doc
sweep_expired now doc = record doc {
  pending = drop_values (λ v. leb v.expires_at now) doc.pending;
  codes = drop_values (λ v. leb v.expires_at now || is_some v.used_at) doc.codes;
  tokens = drop_values (λ v. leb v.expires_at now) doc.tokens;
  clients = drop_values (λ v. v.negative && leb v.expires_at now) doc.clients;
}

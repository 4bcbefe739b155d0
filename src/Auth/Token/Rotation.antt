-- ===== src/Auth/Token/Rotation.antt =====
-- src/auth/as/token.ts: rotating a refresh token, and detecting its reuse. Between the
-- awaited calls of the store other requests may change the document.
use brainstem_mcp.Auth.Store.{Doc, Kind, TokenRecord, assign, get_token, put_token, update_token}
use brainstem_mcp.Auth.Store.Families.{or_else}
use brainstem_mcp.Auth.Token.{
  Config, Crypto, Meanwhile, Random, Response, TokenPair, base_of_token, handle_refresh_token,
  invalid_grant, invalid_request, issue_pair, issued, mark_rotated, refresh_outcome, refused,
  reused, rotation_grace_ms, token_of,
}
use brainstem_mcp.Prelude.{
  Bool-cases, Option, Option-cases, Text, ap, arith, false, inl, inr, is_empty, ltb, none, refl,
  some, text_eq, text_eq-eq, text_eq_refl, ℕ, ◌*◌, ◌+◌, ◌<◌, ◌||◌, ◌∙◌, ◌≡◌, ◌≢◌, ◌≤◌, ◌⊎◌,
}
use brainstem_mcp.Prelude.Dict.{get, get-put, put}

-- The token was not rotated before, or was so within the grace period.
abbrev pub InGrace : ℕ → Option ℕ → Type 0
InGrace now none = Unit
InGrace now (some t) = now ≤ t + rotation_grace_ms

InGrace-of :
    (now : ℕ) (o : Option ℕ)
    → elim o [ none ↦ false | some t ↦ ltb (t + rotation_grace_ms) now ] ≡ false
    → InGrace now o
InGrace-of now none h = tt
InGrace-of now (some t) h = ground arith

-- The reasons for which a token is not rotated.
abbrev pub IsDead : ℕ → Text → TokenRecord → Type 0
IsDead now client_id rec =
    (rec.kind ≡ Kind.access)
    ⊎ ((t : ℕ) × (rec.revoked_at ≡ some t))
    ⊎ (rec.expires_at ≤ now)
    ⊎ (rec.client_id ≢ client_id)
    ⊎ ((t : ℕ) × (rec.rotated_at ≡ some t) × (t + rotation_grace_ms < now))

-- The record of the token stays as it is.
abbrev pub LeavesToken : Text → (Doc → Doc) → Type 0
LeavesToken hash f = (d : Doc) → get hash (f d).tokens ≡ get hash d.tokens

module _ (c : Crypto) (config : Config) where
  -- What holds of a refresh token that is accepted.
  pub record WasLive (now : ℕ) (token client_id : Text) (doc : Doc) : Type 0 where
    pub rec : TokenRecord
    pub stored : get (c.sha256hex token) doc.tokens ≡ some rec
    pub kind : rec.kind ≡ Kind.refresh
    pub unrevoked : rec.revoked_at ≡ none
    pub unexpired : now < rec.expires_at
    pub client : rec.client_id ≡ client_id
    pub in_grace : InGrace now rec.rotated_at

  -- The two outcomes of the lookup in `handleRefreshToken`.
  refresh-cases :
      (r : Random) (w : Meanwhile) (now : ℕ) (token client_id : Text) (doc : Doc)
      → (((handle_refresh_token c config r w now token client_id doc).0 ≡ doc)
          × (((handle_refresh_token c config r w now token client_id doc).1 ≡ invalid_request)
              ⊎ ((handle_refresh_token c config r w now token client_id doc).1 ≡ invalid_grant)))
        ⊎ ((rec : TokenRecord) × (get (c.sha256hex token) doc.tokens ≡ some rec)
            × (handle_refresh_token c config r w now token client_id doc
                ≡ refresh_outcome c config r w now (c.sha256hex token) client_id rec doc))
  unfolding handle_refresh_token get_token
  refresh-cases r w now token client_id doc =
      elim (Bool-cases (is_empty token || is_empty client_id)) [
        | inl missing ↦
            inl (
              rw (missing, handle_refresh_token) refl,
              inl (rw (missing, handle_refresh_token) refl),
            )
        | inr given ↦ elim (Option-cases (get (c.sha256hex token) doc.tokens)) [
          | inl absent ↦ inl (
            rw (given, absent, handle_refresh_token) refl,
            inr (rw (given, absent, handle_refresh_token) refl),
          )
          | inr (rec, found) ↦ inr (rec, found, rw (given, found, handle_refresh_token) refl)
        ]
      ]

  outcome_issued :
      (r : Random) (w : Meanwhile) (now : ℕ) (hash client_id : Text) (rec : TokenRecord) (doc : Doc)
      (pair : TokenPair)
      → (refresh_outcome c config r w now hash client_id rec doc).1 ≡ issued pair
      → (rec.kind ≡ Kind.refresh)
        × (rec.revoked_at ≡ none)
        × (now < rec.expires_at)
        × (rec.client_id ≡ client_id)
        × InGrace now rec.rotated_at
  unfolding refresh_outcome refused reused
  outcome_issued r w now hash client_id rec doc pair e = (
    ground arith,
    ground arith,
    ground arith,
    text_eq-eq _ _ (ground arith),
    InGrace-of now rec.rotated_at (ground arith),
  )

  -- Whatever other requests do meanwhile, tokens are issued for a refresh token only if it is stored,
  -- when the request reads it, as a refresh token of this client, neither revoked nor expired, and
  -- was not rotated more than the grace period ago.
  pub refresh-WasLive :
      (r : Random) (w : Meanwhile) (now : ℕ) (token client_id : Text) (doc : Doc) (pair : TokenPair)
      → (handle_refresh_token c config r w now token client_id doc).1 ≡ issued pair
      → WasLive now token client_id doc
  refresh-WasLive r w now token client_id doc pair e =
      elim (refresh-cases r w now token client_id doc) [
        | inl (_, inl bad) ↦ cc
        | inl (_, inr bad) ↦ cc
        | inr (rec, found, outcome) ↦
            let (a, b, d, g, h) =
              outcome_issued r w now (c.sha256hex token) client_id rec doc pair (rw outcome at e) in
            record {
              rec = rec;
              stored = found;
              kind = a;
              unrevoked = b;
              unexpired = d;
              client = g;
              in_grace = h;
            }
      ]

  abbrev stamped : ℕ → TokenRecord → TokenRecord
  stamped now rec = record rec { rotated_at = some (or_else rec.rotated_at now) }

  get-mark_rotated :
      (hash : Text) (now : ℕ) (rec : TokenRecord) (doc : Doc)
      → get hash doc.tokens ≡ some rec
      → get hash (mark_rotated hash now rec doc).tokens ≡ some (stamped now rec)
  unfolding mark_rotated update_token assign
  get-mark_rotated hash now rec doc stored = ground (
    arith,
    stored,
    get-put hash hash (record rec { rotated_at = some now }) doc.tokens,
    text_eq_refl hash,
  )

  outcome_tokens :
      (r : Random) (w : Meanwhile) (now : ℕ) (hash client_id : Text) (rec : TokenRecord) (doc : Doc)
      (pair : TokenPair)
      → (refresh_outcome c config r w now hash client_id rec doc).1 ≡ issued pair
      → text_eq (c.sha256hex r.access) hash ≡ false
      → text_eq (c.sha256hex r.refresh) hash ≡ false
      → get hash (refresh_outcome c config r w now hash client_id rec doc).0.tokens
        ≡ get hash (w.after_update (mark_rotated hash now rec (w.after_read doc))).tokens
  unfolding refresh_outcome issue_pair put_token
  outcome_tokens r w now hash client_id rec doc pair e a b =
      let m = w.after_update (mark_rotated hash now rec (w.after_read doc)) in
      ground (
        arith,
        get-put (c.sha256hex r.refresh) hash
            (token_of (base_of_token rec) Kind.refresh (now + config.refresh_token_ttl_s * 1000))
            (put (c.sha256hex r.access)
              (token_of (base_of_token rec) Kind.access (now + config.access_token_ttl_s * 1000))
              m.tokens),
        get-put (c.sha256hex r.access) hash
            (token_of (base_of_token rec) Kind.access (now + config.access_token_ttl_s * 1000))
            m.tokens,
      )

  -- When a refresh token is rotated, its record keeps everything but the time of rotation, and
  -- that is the time of the first rotation: a retry within the grace period does not move it.
  -- The hashes of the two new tokens are other hashes than the one that is presented, and what
  -- other requests do meanwhile is assumed to leave the record of the token.
  pub first_rotation_wins :
      (r : Random) (w : Meanwhile) (now : ℕ) (token client_id : Text) (doc : Doc)
      (rec : TokenRecord) (pair : TokenPair)
      → get (c.sha256hex token) doc.tokens ≡ some rec
      → (handle_refresh_token c config r w now token client_id doc).1 ≡ issued pair
      → text_eq (c.sha256hex r.access) (c.sha256hex token) ≡ false
      → text_eq (c.sha256hex r.refresh) (c.sha256hex token) ≡ false
      → LeavesToken (c.sha256hex token) w.after_read
      → LeavesToken (c.sha256hex token) w.after_update
      → get (c.sha256hex token) (handle_refresh_token c config r w now token client_id doc).0.tokens
        ≡ some (record rec { rotated_at = some (or_else rec.rotated_at now) })
  first_rotation_wins r w now token client_id doc rec pair stored e a b read updated =
      elim (refresh-cases r w now token client_id doc) [
        | inl (_, inl bad) ↦ cc
        | inl (_, inr bad) ↦ cc
        | inr (q, held, outcome) ↦
            let one : q ≡ rec = ground arith in
            let h = c.sha256hex token in
            let outcome' : handle_refresh_token c config r w now token client_id doc
                ≡ refresh_outcome c config r w now h client_id rec doc =
              outcome ∙ ap (λ q. refresh_outcome c config r w now h client_id q doc) one in
            ap (λ (p : Doc × Response). get h p.0.tokens) outcome'
            ∙ outcome_tokens r w now h client_id rec doc pair (rw outcome' at e) a b
            ∙ updated (mark_rotated h now rec (w.after_read doc))
            ∙ get-mark_rotated h now rec (w.after_read doc) (read doc ∙ stored)
      ]

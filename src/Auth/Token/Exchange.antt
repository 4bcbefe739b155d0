-- ===== src/Auth/Token/Exchange.antt =====
-- src/auth/as/token.ts: exchanging an authorization code.
use brainstem_mcp.Auth.Store.{CodeRecord, Doc, code_usable, consume_code, put_token}
use brainstem_mcp.Auth.Store.Codes.{
  consume-IsSpent, consume-cases, consume_of_IsSpent, used_at_time,
}
use brainstem_mcp.Auth.Token.{
  CodeForm, Config, Crypto, Random, Response, TokenPair, code_matches, code_outcome,
  handle_authorization_code, invalid_grant, is_code_verifier, issue_pair, issued, verify_pkce_s256,
}
use brainstem_mcp.Prelude.{
  Option, Text, [], ap, arith, false, inl, inr, is_empty, none, refl, some, sym, text_eq,
  text_eq-eq, true, ℕ, ◌<◌, ◌||◌, ◌∙◌, ◌∷◌, ◌≡◌, ◌⊎◌,
}
use brainstem_mcp.Prelude.Dict.{get}

module _ (c : Crypto) (config : Config) where
  -- What the store held when the code was exchanged.
  pub record WasGranted (now : ℕ) (f : CodeForm) (doc : Doc) : Type 0 where
    pub rec : CodeRecord
    pub stored : get (c.sha256hex f.code) doc.codes ≡ some rec
    pub unused : rec.used_at ≡ none
    pub unexpired : now < rec.expires_at
    pub client : rec.client_id ≡ f.client_id
    pub redirect : rec.redirect_uri ≡ f.redirect_uri
    pub verifier : is_code_verifier f.code_verifier ≡ true
    pub challenge : c.challenge_of f.code_verifier ≡ rec.code_challenge
    pub resource : (f.resource ≡ []) ⊎ (f.resource ≡ rec.resource)

  outcome_issued :
      (r : Random) (now : ℕ) (f : CodeForm) (doc : Doc) (o : Option CodeRecord) (pair : TokenPair)
      → (code_outcome c config r now f (doc, o)).1 ≡ issued pair
      → (rec : CodeRecord) × (o ≡ some rec) × (code_matches c config f rec ≡ true)
  unfolding code_outcome
  outcome_issued r now f doc none pair e = cc
  outcome_issued r now f doc (some rec) pair e = (rec, refl, ground arith)

  matched :
      (f : CodeForm) (rec : CodeRecord)
      → code_matches c config f rec ≡ true
      → (rec.client_id ≡ f.client_id)
        × (rec.redirect_uri ≡ f.redirect_uri)
        × (is_code_verifier f.code_verifier ≡ true)
        × (c.challenge_of f.code_verifier ≡ rec.code_challenge)
        × ((f.resource ≡ []) ⊎ (f.resource ≡ rec.resource))
  unfolding code_matches verify_pkce_s256
  matched f rec h = (
    text_eq-eq _ _ (ground arith),
    text_eq-eq _ _ (ground arith),
    ground arith,
    text_eq-eq _ _ (ground arith),
    given f.resource (ground arith),
  )
    where
      given :
          (s : Text) → (is_empty s || text_eq s rec.resource) ≡ true → (s ≡ []) ⊎ (s ≡ rec.resource)
      given [] h = inl refl
      given (x ∷ s) h = inr (text_eq-eq _ _ h)

  usable :
      (now : ℕ) (rec : CodeRecord)
      → code_usable now rec ≡ true
      → (rec.used_at ≡ none) × (now < rec.expires_at)
  unfolding code_usable
  usable now rec h = ground arith

  -- Tokens are issued for a code only if the code is stored, unused and unexpired, was minted for
  -- this client and this redirect URI, and the verifier has the right form and the right digest;
  -- a resource that is given is the resource of the code.
  pub exchange-WasGranted :
      (r : Random) (now : ℕ) (f : CodeForm) (doc : Doc) (pair : TokenPair)
      → (handle_authorization_code c config r now f doc).1 ≡ issued pair
      → WasGranted now f doc
  unfolding handle_authorization_code
  exchange-WasGranted r now f doc pair e =
      let h = c.sha256hex f.code in
      let e' : (code_outcome c config r now f (consume_code h now doc)).1 ≡ issued pair =
        ground arith in
      let (rec, consumed, good) =
        outcome_issued r now f (consume_code h now doc).0 (consume_code h now doc).1 pair e' in
      elim (consume-cases h now doc) [
        | inl (missed, _) ↦ cc
        | inr (q, found, ready, got, _) ↦
            let same : used_at_time now q ≡ rec = ground arith in
            let (a, b, d, e, g) =
              matched f (used_at_time now q) (ap (code_matches c config f) same ∙ good) in
            let (unused, fresh) = usable now q ready in
            record {
              rec = q;
              stored = found;
              unused = unused;
              unexpired = fresh;
              client = a;
              redirect = b;
              verifier = d;
              challenge = e;
              resource = g;
            }
      ]

  codes-outcome :
      (r : Random) (now : ℕ) (f : CodeForm) (d : Doc) (o : Option CodeRecord)
      → (code_outcome c config r now f (d, o)).0.codes ≡ d.codes
  unfolding code_outcome issue_pair put_token
  codes-outcome r now f d none = refl
  codes-outcome r now f d (some rec) = ground arith

  outcome_missed :
      (r : Random) (now : ℕ) (f : CodeForm) (d : Doc) (o : Option CodeRecord)
      → o ≡ none
      → (code_outcome c config r now f (d, o)).1 ≡ invalid_grant
  unfolding code_outcome
  outcome_missed r now f d none e = refl
  outcome_missed r now f d (some rec) e = cc

  reached :
      (r : Random) (now : ℕ) (f : CodeForm) (doc : Doc) (pair : TokenPair)
      → (handle_authorization_code c config r now f doc).1 ≡ issued pair
      → handle_authorization_code c config r now f doc
        ≡ code_outcome c config r now f (consume_code (c.sha256hex f.code) now doc)
  unfolding handle_authorization_code
  reached r now f doc pair e = ground arith

  -- A code for which tokens were issued is refused with invalid_grant when it is presented again,
  -- at any later time and with any other parameters of which none is empty.
  pub code_used_once :
      (r s : Random) (now later : ℕ) (f g : CodeForm) (doc : Doc) (pair : TokenPair)
      → f.code ≡ g.code
      → (is_empty g.code
          || is_empty g.client_id
          || is_empty g.redirect_uri
          || is_empty g.code_verifier)
        ≡ false
      → (handle_authorization_code c config r now f doc).1 ≡ issued pair
      → (handle_authorization_code c config s later g
          (handle_authorization_code c config r now f doc).0).1
        ≡ invalid_grant
  code_used_once r s now later f g doc pair same given e =
      let first = reached r now f doc pair e in
      let h = c.sha256hex f.code in
      let e' : (code_outcome c config r now f (consume_code h now doc)).1 ≡ issued pair =
        rw first at e in
      let (rec, consumed, _) =
        outcome_issued r now f (consume_code h now doc).0 (consume_code h now doc).1 pair e' in
      let d' = (handle_authorization_code c config r now f doc).0 in
      let kept : d'.codes ≡ (consume_code h now doc).0.codes =
        ap (λ (p : Doc × Response). p.0.codes) first
        ∙ codes-outcome r now f (consume_code h now doc).0 (consume_code h now doc).1 in
      let spent = consume-IsSpent h now doc rec consumed in
      let gone : (consume_code (c.sha256hex g.code) later d').1 ≡ none =
        consume_of_IsSpent (c.sha256hex g.code) later d' (λ q e. spent q (
          ap (λ t. get t (consume_code h now doc).0.codes) (ap c.sha256hex same)
          ∙ ap (get (c.sha256hex g.code)) (sym kept)
          ∙ e)) in
      let second : handle_authorization_code c config s later g d'
          ≡ code_outcome c config s later g (consume_code (c.sha256hex g.code) later d') =
        unfold handle_authorization_code in rw (given, handle_authorization_code) refl in
      ap (λ (p : Doc × Response). p.1) second
      ∙ outcome_missed s later g (consume_code (c.sha256hex g.code) later d').0 _ gone

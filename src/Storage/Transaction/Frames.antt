-- ===== src/Storage/Transaction/Frames.antt =====
-- src/storage/transaction.ts: what the pre-flight records of the disk, and which paths the
-- operations can change.
use brainstem_mcp.Prelude.{
  Bool, Bool-cases, List, Option, Option-cases, Text, [], arith, false, if◌then◌else◌, inl, inr,
  is_some, length, none, refl, some, text_eq, text_eq-eq, true, ◌<◌, ◌∷◌, ◌≡◌,
}
use brainstem_mcp.Prelude.Dict.{get, get-put, put}
use brainstem_mcp.Storage.Transaction.{
  Node, Services, TxOp, Vault, append, attachment, delete, edit, folder, frontmatter_update, move,
  text, unreadable, write,
}
use brainstem_mcp.Storage.Transaction.Adapter.{Adapter, Flight, before, cleared, stopped}
use brainstem_mcp.Storage.Transaction.Run.{preflight}
use brainstem_mcp.Storage.Transaction.Simulate.{
  FileState, M, Plan, Sim, empty_sim, lift, load, produce, pure, require_text, set_state, simulate,
  state_of, throw_if, ◌>>=◌, ◌>>◌,
}
use brainstem_mcp.Storage.Types.{ErrorCode, Result, encoding, err, ok, reject_if}

-- What the pre-flight noted of a path agrees with the vault on whether a file is there.
pub record IsFaithful (v : Vault) (σ : Sim) : Type 0 where
  pub at : (p : Text) (h : Option Text) → get p σ.on_disk ≡ some h → is_some h ≡ is_some (v p)

abbrev Kept : {A : Type 0} → Vault → Result (A × Sim) → Type 0
Kept v (ok (a, σ)) = IsFaithful v σ
Kept v (err e) = Unit

-- The action keeps that, unless it throws.
pub record Keeps {A : Type 0} (v : Vault) (m : M A) : Type 0 where
  pub at : (σ : Sim) → IsFaithful v σ → Kept v (m σ)

module _ {v : Vault} where
  Keeps-pure : {A : Type 0} (a : A) → Keeps v (pure a)
  unfolding pure
  Keeps-pure a = record { at = λ σ h. h }

  Keeps-lift : {A : Type 0} (r : Result A) → Keeps v (lift r)
  unfolding lift
  Keeps-lift (ok a) = record { at = λ σ h. h }
  Keeps-lift (err e) = record { at = λ σ h. tt }

  Keeps-bind :
      {A B : Type 0} (m : M A) (f : A → M B)
      → Keeps v m
      → ((a : A) → Keeps v (f a))
      → Keeps v (m >>= f)
  unfolding ◌>>=◌
  Keeps-bind {A} {B} m f km kf = record { at = λ σ h. after (m σ) (km.at σ h) }
    where
      after :
          (r : Result (A × Sim))
          → Kept v r
          → Kept v (elim r as (λ _. Result (B × Sim)) [ err e ↦ err e | ok (a, σ') ↦ f a σ' ])
      after (err e) k = tt
      after (ok (a, σ')) k = (kf a).at σ' k

  Keeps-then : {B : Type 0} (m : M (Unit {0})) (k : M B) → Keeps v m → Keeps v k → Keeps v (m >> k)
  unfolding ◌>>◌
  Keeps-then m k km kk = Keeps-bind m (λ _. k) km (λ _. kk)

  Keeps-throw_if : (t : Bool) (e : ErrorCode) → Keeps v (throw_if t e)
  unfolding throw_if
  Keeps-throw_if t e = Keeps-lift (reject_if t e)

  Keeps-if :
      {A : Type 0} (b : Bool) (m n : M A) → Keeps v m → Keeps v n → Keeps v (if b then m else n)
  Keeps-if true m n km kn = km
  Keeps-if false m n km kn = kn

  Keeps-set_state : (s : Services) (p : Text) (state : FileState) → Keeps v (set_state s v p state)
  unfolding set_state
  Keeps-set_state s p state = record { at = λ σ h. record { at = h.at } }

state_of-hash :
    (s : Services) (v : Vault) (n : Option Node) (st : FileState)
    → state_of s v n ≡ ok st
    → is_some st.hash ≡ is_some n
unfolding state_of
state_of-hash s v none st e = ground arith
state_of-hash s v (some (text t)) st e = ground arith
state_of-hash s v (some (attachment b)) st e = ground arith
state_of-hash s v (some folder) st e = cc
state_of-hash s v (some unreadable) st e = cc

noted :
    (v : Vault) (p : Text) (st : FileState) (σ : Sim)
    → is_some st.hash ≡ is_some (v p)
    → IsFaithful v σ
    → IsFaithful v (record { states = put p st σ.states; on_disk = put p st.hash σ.on_disk })
noted v p st σ e h = record {
  at = λ q o found. elim (Bool-cases (text_eq p q)) [
    | inl same ↦
        let one : p ≡ q = text_eq-eq p q same in
        let val : st.hash ≡ o = ground (arith, get-put p q st.hash σ.on_disk) in rw (← one, ← val) e
    | inr other ↦ h.at q o (ground (arith, get-put p q st.hash σ.on_disk))
  ];
}

Keeps-load : (s : Services) (v : Vault) (p : Text) → Keeps v (load s v p)
unfolding load
Keeps-load s v p = record {
  at = λ σ h. elim (Option-cases (get p σ.states)) [
    | inr (cached, e) ↦ rw (e, load) h
    | inl fresh ↦ rw (fresh, load) (after σ h (state_of s v (v p)) refl)
  ];
}
  where
    after :
        (σ : Sim)
        → IsFaithful v σ
        → (r : Result FileState) → state_of s v (v p) ≡ r
        → Kept v (elim r as (λ _. Result (FileState × Sim)) [
          | err e ↦ err e
          | ok st ↦
              ok (st, record { states = put p st σ.states; on_disk = put p st.hash σ.on_disk })
        ])
    after σ h (err e) q = tt
    after σ h (ok st) q = noted v p st σ (state_of-hash s v (v p) st q) h

ruleset sim_rules = (
  Keeps-pure, Keeps-lift, Keeps-bind, Keeps-then, Keeps-throw_if, Keeps-if, Keeps-set_state,
  Keeps-load,
)

Keeps-text :
    (v : Vault) (content : Option Text) (hash : Option Text)
    → Keeps v (elim content as (λ _. M (Text × Option Text)) [
      | none ↦ lift (err encoding)
      | some t ↦ pure (t, hash)
    ])
Keeps-text v none hash = search sim_rules
Keeps-text v (some t) hash = search sim_rules

Keeps-require_text : (s : Services) (v : Vault) (p : Text) → Keeps v (require_text s v p)
unfolding require_text
Keeps-require_text s v p =
    Keeps-bind (load s v p) _ (Keeps-load s v p)
      λ state. Keeps-then _ _ (Keeps-throw_if _ _) (Keeps-text v state.content state.hash)

Keeps-produce :
    (s : Services) (v : Vault) (p : Text) (before : Option Text) (next : Text)
    → Keeps v (produce s v p before next)
unfolding produce
Keeps-produce s v p before next = search sim_rules

ruleset op_rules = (sim_rules, Keeps-require_text, Keeps-produce)

Keeps-simulate : (s : Services) (v : Vault) (op : TxOp s.FmSet) → Keeps v (simulate s v op)
unfolding simulate
Keeps-simulate s v (write p c m e) = search op_rules depth 14
Keeps-simulate s v (edit p c e) = search op_rules depth 14
Keeps-simulate s v (append p c none q u e) = search op_rules depth 14
Keeps-simulate s v (append p c (some h) q u e) = search op_rules depth 14
Keeps-simulate s v (frontmatter_update p c u e) = search op_rules depth 14
Keeps-simulate s v (move p q e) = search op_rules depth 14
Keeps-simulate s v (delete p c e) = search op_rules depth 14

abbrev pub FlightKept : {F : Type 0} → Vault → List (TxOp F) → Flight → Type 0
FlightKept v ops (cleared plans σ) = IsFaithful v σ × (length plans ≡ length ops)
FlightKept v ops (stopped plans e) = length plans < length ops

before-kept :
    {F : Type 0} (v : Vault) (op : TxOp F) (ops : List (TxOp F)) (plan : Plan) (f : Flight)
    → FlightKept v ops f
    → FlightKept v (op ∷ ops) (before plan f)
unfolding before
before-kept v op ops plan (cleared plans σ) h = (h.0, omega arith)
before-kept v op ops plan (stopped plans e) h = omega arith

-- A pre-flight that passes has a plan for each operation; one that fails has fewer.
pub preflight-kept :
    (s : Services) (a : Adapter s.FmSet) (v : Vault) (ops : List (TxOp s.FmSet)) (σ : Sim)
    → IsFaithful v σ
    → FlightKept v ops (preflight s a v ops σ)
unfolding preflight
preflight-kept s a v [] σ h = (h, refl)
preflight-kept s a v (op ∷ ops) σ h =
    after (preflight-kept s a v ops) (simulate s v op σ) ((Keeps-simulate s v op).at σ h)
  where
    after :
        ((σ : Sim) → IsFaithful v σ → FlightKept v ops (preflight s a v ops σ))
        → (r : Result (Plan × Sim)) → Kept v r
        → FlightKept v (op ∷ ops) (elim r as (λ _. Flight) [
          | err e ↦ stopped [] e
          | ok (plan, σ') ↦ before plan (preflight s a v ops σ')
        ])
    after ih (err e) k = omega arith
    after ih (ok (plan, σ')) k = before-kept v op ops plan _ (ih σ' k)

pub empty-IsFaithful : (v : Vault) → IsFaithful v empty_sim
unfolding get
empty-IsFaithful v = record { at = λ p h m. cc }

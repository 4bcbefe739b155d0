-- ===== src/Storage/Transaction/Simulate.antt =====
-- src/storage/transaction.ts: the pre-flight, which runs the operations on paths held in memory.
use brainstem_mcp.Prelude.{
  Bool, List, Option, Text, [], false, if◌then◌else◌, is_empty, is_some, none, not, some, text_eq,
  true, ◌&&◌, ◌++◌, ◌==◌, ◌||◌, ◌∷◌,
}
use brainstem_mcp.Prelude.Dict.{get, put}
use brainstem_mcp.Prelude.Sort.{unique}
use brainstem_mcp.Storage.PathPolicy.{normalize_vault_path}
use brainstem_mcp.Storage.TextDiff.{apply_text_patches}
use brainstem_mcp.Storage.Transaction.{
  Node, Position, Services, TxOp, Unique, Vault, append, assert_expected_hash, assert_within_size,
  at_end, attachment, by_line, by_link, byte_len, delete, edit, folder, frontmatter_update, move,
  not_unique, text, unreadable, write,
}
use brainstem_mcp.Storage.Types.{
  ErrorCode, Result, already_exists, confirm_required, encoding, err, invalid_input, io, not_found,
  ok, reject_if,
}

pub record FileState : Type 0 where
  pub exists : Bool
  pub content : Option Text
  pub hash : Option Text

abbrev pub gone : FileState
gone = record { exists = false; content = none; hash = none }

pub record Sim : Type 0 where
  pub states : List (Text × FileState)
  pub on_disk : List (Text × Option Text)

abbrev pub empty_sim : Sim
empty_sim = record { states = []; on_disk = [] }

-- Code that reads and writes `states` and may throw.
abbrev pub M : Type 0 → Type 0
M A = Sim → Result (A × Sim)

infixl 5 ◌>>=◌ ◌>>◌
unfoldable pub ◌>>=◌ : {A B : Type 0} → M A → (A → M B) → M B
◌>>=◌ m f σ = elim (m σ) [ err e ↦ err e | ok (a, σ') ↦ f a σ' ]

unfoldable pub ◌>>◌ : {B : Type 0} → M (Unit {0}) → M B → M B
m >> k = m >>= λ _. k

unfoldable pub pure : {A : Type 0} → A → M A
pure a σ = ok (a, σ)

unfoldable pub lift : {A : Type 0} → Result A → M A
lift (ok a) σ = ok (a, σ)
lift (err e) σ = err e

unfoldable pub throw_if : Bool → ErrorCode → M (Unit {0})
throw_if t e = lift (reject_if t e)

pub record Plan : Type 0 where
  pub diff : Text
  pub hash : Option Text
  pub skipped : Bool

pub or_empty : Option Text → Text
or_empty none = []
or_empty (some t) = t

module _ (s : Services) (v : Vault) where
  open s use {FmSet}

  -- What `load` finds on the disk.
  unfoldable pub state_of : Option Node → Result FileState
  state_of none = ok gone
  state_of (some unreadable) = err io
  state_of (some folder) = err invalid_input
  state_of (some (text t)) =
      ok (record { exists = true; content = some t; hash = some (s.sha256hex t) })
  state_of (some (attachment b)) =
      ok (record { exists = true; content = none; hash = some (s.hash_bytes b) })

  unfoldable pub load : Text → M FileState
  unfolding state_of
  load p σ = elim (get p σ.states) [
    | some cached ↦ ok (cached, σ)
    | none ↦ elim (state_of (v p)) [
      | err e ↦ err e
      | ok state ↦
          ok (state, record { states = put p state σ.states; on_disk = put p state.hash σ.on_disk })
    ]
  ]

  -- The content and the hash of a file that must be text.
  unfoldable pub require_text : Text → M (Text × Option Text)
  require_text p = do
    state ← load p
    throw_if (not state.exists) not_found
    elim state.content [ none ↦ lift (err encoding) | some t ↦ pure (t, state.hash) ]

  unfoldable pub set_state : Text → FileState → M (Unit {0})
  set_state p state σ = ok (tt, record σ { states = put p state σ.states })

  unfoldable pub produce : Text → Option Text → Text → M Plan
  unfolding or_empty
  produce p before next = do
    set_state p (record { exists = true; content = some next; hash = some (s.sha256hex next) })
    pure (record {
      diff = s.unified_diff p (or_empty before) next;
      hash = some (s.sha256hex next);
      skipped = false;
    })

  abbrev path : Text → M Text
  path p = lift (normalize_vault_path s.nfc false (some p))

  -- `splitLenient`: the frontmatter of a markdown note, none where it cannot be read.
  unfoldable pub split_lenient : Text → Text → s.Fm × Text
  split_lenient p content =
      if s.is_markdown p
      then elim (s.split content) [ ok parts ↦ parts | err _ ↦ (s.no_fm, content) ]
      else (s.no_fm, content)

  unfoldable pub existing_fm : Text → Option Text → s.Fm
  unfolding split_lenient
  existing_fm p none = s.no_fm
  existing_fm p (some t) = (split_lenient p t).0

  -- The text that a write gives, with its size checked once more where frontmatter is merged.
  unfoldable pub merged : Text → FileState → Text → Bool → Result Text
  unfolding existing_fm
  merged p cur content merging =
      if merging && s.is_markdown p
      then elim (cur.exists && not (is_some cur.content)) [
        | true ↦ err encoding
        | false ↦ elim (s.split content) [
          | err e ↦ err e
          | ok (incoming, body) ↦
              let existing = existing_fm p cur.content in
              let next = s.join (s.merge existing incoming) body in
              elim (assert_within_size (byte_len next)) [ err e ↦ err e | ok _ ↦ ok next ]
        ]
      ]
      else ok content

  unfoldable pub is_duplicate_line : Unique → Text → Text → Text → Bool
  is_duplicate_line not_unique p region content = false
  is_duplicate_line by_link p region content = s.has_equivalent_line p region content
  is_duplicate_line by_line p region content = s.has_identical_line region content

  abbrev newline : Text
  newline = 10 ∷ []

  unfoldable pub ends_with_newline : Text → Bool
  ends_with_newline [] = false
  ends_with_newline (c ∷ []) = c == 10
  ends_with_newline (c ∷ d ∷ t) = ends_with_newline (d ∷ t)

  unfoldable pub append_plain : Text → Text → Text
  unfolding ends_with_newline
  append_plain base content =
      (base ++ (if is_empty base || ends_with_newline base then [] else newline))
      ++ (content ++ (if ends_with_newline content then [] else newline))

  -- The next content, and whether the line was there already.
  unfoldable pub plan_append :
      Text → Option Text → Text → Option Text → Option Position → Unique → Result (Text × Bool)
  unfolding append_plain is_duplicate_line
  plan_append p existing content none position unique =
      let base = or_empty existing in
      ok (
        if is_duplicate_line unique p base content
        then (base, true)
        else (append_plain base content, false))
  plan_append p none content (some heading) position unique = err not_found
  plan_append p (some t) content (some heading) position unique = elim (s.find_section t heading) [
    | none ↦ err not_found
    | some range ↦ ok (
        if is_duplicate_line unique p (s.slice_section t range) content then (t, true) else (
          s.insert_into_section t range content (elim position [ none ↦ at_end | some q ↦ q ]),
          false,
        ))
  ]

  -- The pre-flight of one operation: the case of `simulate` for it.
  unfoldable pub simulate : TxOp FmSet → M Plan
  simulate (write path_in content merging expected) = do
    p ← path path_in
    cur ← load p
    lift (assert_expected_hash cur.hash expected)
    lift (assert_within_size (byte_len content))
    next ← lift (merged p cur content merging)
    produce p cur.content next
  simulate (edit path_in patches expected) = do
    p ← path path_in
    (content, hash) ← require_text p
    lift (assert_expected_hash hash expected)
    (next, applied) ← lift (apply_text_patches content patches)
    lift (assert_within_size (byte_len next))
    produce p (some content) next
  simulate (append path_in content none position unique expected) = do
    p ← path path_in
    cur ← load p
    throw_if (cur.exists && not (is_some cur.content)) encoding
    lift (assert_expected_hash cur.hash expected)
    (next, skipped) ← lift (plan_append p cur.content content none position unique)
    if skipped
        then pure (record { diff = []; hash = cur.hash; skipped = true })
        else (lift (assert_within_size (byte_len next)) >> produce p cur.content next)
  simulate (append path_in content (some heading) position unique expected) = do
    p ← path path_in
    (existing, hash) ← require_text p
    lift (assert_expected_hash hash expected)
    (next, skipped) ← lift (plan_append p (some existing) content (some heading) position unique)
    if skipped
        then pure (record { diff = []; hash = hash; skipped = true })
        else (lift (assert_within_size (byte_len next)) >> produce p (some existing) next)
  simulate (frontmatter_update path_in set unset expected) = do
    p ← path path_in
    throw_if (not (s.is_markdown p)) invalid_input
    (content, hash) ← require_text p
    lift (assert_expected_hash hash expected)
    throw_if (s.frontmatter_problem content) invalid_input
    let parts = split_lenient p content
    fm ← lift (s.update parts.0 set unset)
    let next = s.join fm parts.1
    lift (assert_within_size (byte_len next))
    produce p (some content) next
  simulate (move from_in to_in expected) = do
    from ← path from_in
    to ← path to_in
    throw_if (text_eq from to) invalid_input
    src ← load from
    dst ← load to
    throw_if (not src.exists) not_found
    throw_if dst.exists already_exists
    lift (assert_expected_hash src.hash expected)
    set_state to src
    set_state from gone
    pure (record { diff = []; hash = src.hash; skipped = false })
  simulate (delete path_in confirm expected) = do
    p ← path path_in
    throw_if (not confirm) confirm_required
    cur ← load p
    throw_if (not cur.exists) not_found
    lift (assert_expected_hash cur.hash expected)
    set_state p gone
    pure (record { diff = []; hash = none; skipped = false })

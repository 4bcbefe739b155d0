-- ===== src/Storage/Transaction/Journal.antt =====
-- src/storage/transaction.ts: what is said of a journal that a transaction has left behind.
-- `JSON.parse` enters by its outcome: the members of the manifest that are strings.
use brainstem_mcp.Prelude.{
  Bool, Bool-cases, List, Option, Text, [], ap₂, arith, codes, false, filter, if◌then◌else◌, inl,
  inr, map, none, not, refl, some, text_eq, text_eq-eq, true, ◌||◌, ◌∷◌, ◌≡◌,
}

pub record Manifest : Type 0 where
  pub id : Option Text
  pub started_at : Option Text
  pub state : Option Text

pub data JournalState : Type 0 where
  applying applied rolled_back unknown : JournalState

pub record JournalStatus : Type 0 where
  pub state : JournalState
  pub id : Option Text
  pub started_at : Option Text
  pub needs_restore : Bool

unfoldable pub state_named : Option Text → JournalState
state_named none = unknown
state_named (some s) =
    if text_eq s (codes "applying")
    then applying
    else if text_eq s (codes "applied")
    then applied
    else if text_eq s (codes "rolled-back")
    then rolled_back
    else unknown

unfoldable pub restore_needed : JournalState → Bool
restore_needed applied = false
restore_needed rolled_back = false
restore_needed applying = true
restore_needed unknown = true

-- `none` is a manifest that could not be read, is no JSON or no object.
unfoldable pub classify_journal : Option Manifest → JournalStatus
unfolding state_named restore_needed
classify_journal none = record {
  state = unknown;
  id = none;
  started_at = none;
  needs_restore = true;
}
classify_journal (some m) = record {
  state = state_named m.state;
  id = m.id;
  started_at = m.started_at;
  needs_restore = restore_needed (state_named m.state);
}

-- An entry of `tx/`: its name, whether it is a directory, and its manifest.
pub record Entry : Type 0 where
  pub name : Text
  pub is_directory : Bool
  pub manifest : Option Manifest

pub record LeftoverJournal : Type 0 where
  pub transaction : Text
  pub state : JournalState
  pub needs_restore : Bool

-- `none` is the folder `tx` that is not there.
unfoldable pub scan_leftover_journals : Option (List Entry) → List LeftoverJournal
unfolding classify_journal
scan_leftover_journals none = []
scan_leftover_journals (some []) = []
scan_leftover_journals (some (e ∷ es)) =
    let status = classify_journal e.manifest in
    let rest = scan_leftover_journals (some es) in
    if e.is_directory
    then record {
      transaction = elim status.id [ none ↦ e.name | some id ↦ id ];
      state = status.state;
      needs_restore = status.needs_restore;
    }
      ∷ rest
    else rest

-- The manifest names a state in which nothing is left to restore.
abbrev pub is_settled : Option Manifest → Bool
is_settled none = false
is_settled (some m) = elim m.state [
  | none ↦ false
  | some s ↦ text_eq s (codes "applied") || text_eq s (codes "rolled-back")
]

settled_iff :
    (state : Option Text)
    → restore_needed (state_named state)
      ≡ not (elim state [
        | none ↦ false
        | some s ↦ text_eq s (codes "applied") || text_eq s (codes "rolled-back")
      ])
unfolding state_named restore_needed
settled_iff none = refl
settled_iff (some s) = elim (Bool-cases (text_eq s (codes "applying"))) [
  | inl e ↦ let name : s ≡ codes "applying" = text_eq-eq s (codes "applying") e in rw name refl
  | inr e ↦ ground arith
]

classified : (m : Option Manifest) → (classify_journal m).needs_restore ≡ not (is_settled m)
unfolding classify_journal
classified none = refl
classified (some m) = settled_iff m.state

-- Every directory under `tx` is listed, in order, and is said to need restoring unless its
-- manifest can be read and says "applied" or "rolled-back".
pub scan-restores :
    (es : List Entry)
    → map (λ (j : LeftoverJournal). j.needs_restore) (scan_leftover_journals (some es))
      ≡ map (λ (e : Entry). not (is_settled e.manifest)) (filter (λ (e : Entry). e.is_directory) es)
unfolding scan_leftover_journals
scan-restores [] = refl
scan-restores (e ∷ es) = elim (Bool-cases e.is_directory) [
  | inl d ↦ rw (d, scan_leftover_journals) (ap₂ ◌∷◌ (classified e.manifest) (scan-restores es))
  | inr d ↦ rw (d, scan_leftover_journals) (scan-restores es)
]

-- ===== src/Auth/Store/File/Laws.antt =====
-- src/auth/store/file-store.ts: a change of the document is all or nothing.
use brainstem_mcp.Auth.Store.{Doc, empty_doc}
use brainstem_mcp.Auth.Store.File.{
  Change, FileStore, Finished, Stamp, Stat, Write, allocate, apply_and_write, change_in_place,
  doc_of, enoent, failed, mutate, no_file, not_statted, other_error, put_cell, reload_if_changed,
  replaced, roll_back, size_eq, stat_of, write_doc, written,
}
use brainstem_mcp.Prelude.{
  Bool-cases, Option, Option-cases, ap, arith, false, inl, inr, is_some, none, refl, some, sym,
  true, ℕ, ◌&&◌, ◌+◌, ◌<◌, ◌==◌, ◌∙◌, ◌≡◌, ◌≢◌, ◌⊎◌,
}

-- `this.doc` refers to an object.
abbrev pub IsPlaced : FileStore → Type 0
IsPlaced s = s.doc < s.next

-- The document and the stamp that a call starts from.
abbrev pub StartsFrom : Stat → Option Doc → FileStore → Doc → Stamp → Type 0
StartsFrom enoent parsed s d stamp = (d ≡ empty_doc) × (stamp ≡ no_file)
StartsFrom other_error parsed s d stamp = (d ≡ doc_of s) × (stamp ≡ s.stamp)
StartsFrom (stat_of st) parsed s d stamp =
    ((st ≡ s.stamp) × (d ≡ doc_of s) × (stamp ≡ s.stamp))
    ⊎ ((st ≢ s.stamp) × (parsed ≡ some d) × (stamp ≡ st))

-- The file has changed and does not parse.
abbrev pub IsUnreadable : Stat → Option Doc → FileStore → Type 0
IsUnreadable st parsed s =
    (stamp : Stamp) × (st ≡ stat_of stamp) × (stamp ≢ s.stamp) × (parsed ≡ none)

-- What the change made of the document is `o`. It or the write failed, and the store has the document and the stamp it started from.
pub record IsUndone {ℓ} {A : Type ℓ} (w : Write) (o : Doc × Option A) (d : Doc) (stamp : Stamp)
    (out : Finished A) : Type ℓ where
  pub why : (o.1 ≡ none) ⊎ ((w ≡ failed) ⊎ (w ≡ not_statted))
  pub rejected : out.result ≡ none
  pub doc_back : doc_of out.store ≡ d
  pub stamp_back : out.store.stamp ≡ stamp
  pub file_left : (out.file ≡ none) ⊎ ((w ≡ not_statted) × (out.file ≡ some o.0))

-- The change is in the store and in the file.
pub record IsDone {ℓ} {A : Type ℓ} (w : Write) (o : Doc × Option A) (out : Finished A)
    : Type ℓ where
  pub doc_changed : doc_of out.store ≡ o.0
  pub in_file : out.file ≡ some o.0
  pub stamped : w ≡ written out.store.stamp
  pub returned : out.result ≡ o.1
  pub has_result : is_some out.result ≡ true

put_cell-same : (i : ℕ) (d : Doc) (cells : ℕ → Doc) → put_cell i d cells i ≡ d
unfolding put_cell
put_cell-same i d cells = ground arith

put_cell-other : (i j : ℕ) (d : Doc) (cells : ℕ → Doc) → j ≢ i → put_cell i d cells j ≡ cells j
unfolding put_cell
put_cell-other i j d cells h = ground (arith, h)

size_eq-eq : (a b : Option ℕ) → size_eq a b ≡ true → a ≡ b
unfolding size_eq
size_eq-eq none none e = refl
size_eq-eq none (some b) e = cc
size_eq-eq (some a) none e = cc
size_eq-eq (some a) (some b) e = ap some (ground (arith, e))

size_eq_refl : (a : Option ℕ) → size_eq a a ≡ true
unfolding size_eq
size_eq_refl none = refl
size_eq_refl (some a) = ground arith

-- The test of `reloadIfChanged` compares the stamps.
stamp_same : (a b : Stamp) → (a.mtime_ms == b.mtime_ms && size_eq a.size b.size) ≡ true → a ≡ b
stamp_same a b e =
    let time : a.mtime_ms ≡ b.mtime_ms = ground arith in
    let size : a.size ≡ b.size = size_eq-eq a.size b.size (ground arith) in cc

stamp_other : (a b : Stamp) → (a.mtime_ms == b.mtime_ms && size_eq a.size b.size) ≡ false → a ≢ b
stamp_other a b e same =
    let size : size_eq a.size b.size ≡ true = rw same (size_eq_refl b.size) in
    let time : a.mtime_ms ≡ b.mtime_ms = ap (λ (s : Stamp). s.mtime_ms) same in ground arith

replaced_lem :
    (d : Doc) (stamp : Stamp) (s : FileStore)
    → IsPlaced (replaced d stamp s) × (doc_of (replaced d stamp s) ≡ d)
unfolding allocate
replaced_lem d stamp s = (omega arith, put_cell-same s.next d s.cells)

-- A reload that does not throw leaves the store with what the call starts from.
reload_if_changed-StartsFrom :
    (st : Stat) (parsed : Option Doc) (s r : FileStore)
    → IsPlaced s
    → reload_if_changed st parsed s ≡ some r
    → IsPlaced r × StartsFrom st parsed s (doc_of r) r.stamp
unfolding reload_if_changed
reload_if_changed-StartsFrom enoent parsed s r p e =
    let same : replaced empty_doc no_file s ≡ r = cc in
    let (placed, held) = replaced_lem empty_doc no_file s in rw (← same) (placed, (held, refl))
reload_if_changed-StartsFrom other_error parsed s r p e =
    let same : s ≡ r = cc in rw (← same) (p, (refl, refl))
reload_if_changed-StartsFrom (stat_of st) parsed s r p e =
    elim (Bool-cases (st.mtime_ms == s.stamp.mtime_ms && size_eq st.size s.stamp.size)) [
      | inl kept ↦
          let q : some s ≡ some r = rw (kept, reload_if_changed) at e in
          let same : s ≡ r = cc in rw (← same) (p, inl (stamp_same st s.stamp kept, refl, refl))
      | inr new ↦ elim (Option-cases parsed) [
        | inl unread ↦ let no : none ≡ some r = rw (new, reload_if_changed, unread) at e in cc
        | inr (d, q) ↦
            let h : some (replaced d st s) ≡ some r = rw (new, reload_if_changed, q) at e in
            let same : replaced d st s ≡ r = cc in
            let (placed, held) = replaced_lem d st s in
            rw (← same) (placed, inr (stamp_other st s.stamp new, q ∙ ap some (sym held), refl))
      ]
    ]

reload_if_changed-IsUnreadable :
    (st : Stat) (parsed : Option Doc) (s : FileStore)
    → reload_if_changed st parsed s ≡ none
    → IsUnreadable st parsed s
unfolding reload_if_changed
reload_if_changed-IsUnreadable enoent parsed s e = cc
reload_if_changed-IsUnreadable other_error parsed s e = cc
reload_if_changed-IsUnreadable (stat_of st) parsed s e =
    elim (Bool-cases (st.mtime_ms == s.stamp.mtime_ms && size_eq st.size s.stamp.size)) [
      | inl kept ↦ let no : some s ≡ none = rw (kept, reload_if_changed) at e in cc
      | inr new ↦ elim (Option-cases parsed) [
        | inl unread ↦ (st, refl, stamp_other st s.stamp new, unread)
        | inr (d, q) ↦
            let no : some (replaced d st s) ≡ none = rw (new, reload_if_changed, q) at e in cc
      ]
    ]

-- The store after the snapshot and the change in place.
abbrev changed : Doc → FileStore → FileStore
changed d s = record s {
  cells = put_cell s.doc d (put_cell s.next (doc_of s) s.cells);
  next = s.next + 1;
}

snapshot-kept : (d : Doc) (s : FileStore) → IsPlaced s → (changed d s).cells s.next ≡ doc_of s
snapshot-kept d s p =
    (put_cell-other s.doc s.next d (put_cell s.next (doc_of s) s.cells) λ e. omega (arith, p, e))
    ∙ put_cell-same s.next (doc_of s) s.cells

module _ {ℓ} {A : Type ℓ} where
  abbrev ended : Write → Doc × Option A → FileStore → Finished A
  ended w o s = elim o.1 [
    | none ↦ roll_back s.next none (changed o.0 s)
    | some x ↦ write_doc w s.next (changed o.0 s) x
  ]

  -- The snapshot is another object than the document.
  apply_and_write-ended :
      (w : Write) (fn : Change A) (s : FileStore)
      → IsPlaced s
      → apply_and_write w fn s ≡ ended w (fn (doc_of s)) s
  unfolding apply_and_write allocate change_in_place
  apply_and_write-ended w fn s p =
      ap (λ d. ended w (fn d) s)
        (put_cell-other s.next s.doc (doc_of s) s.cells λ e. omega (arith, p, e))

  ended-ends :
      (w : Write) (d : Doc) (r : Option A) (s : FileStore)
      → IsPlaced s
      → IsPlaced (ended w (d, r) s).store
        × (IsUndone w (d, r) (doc_of s) s.stamp (ended w (d, r) s)
            ⊎ IsDone w (d, r) (ended w (d, r) s))
  unfolding roll_back write_doc
  ended-ends w d none s p = (
    omega arith,
    inl (record {
      why = inl refl;
      rejected = refl;
      doc_back = snapshot-kept d s p;
      stamp_back = refl;
      file_left = inl refl;
    }),
  )
  ended-ends failed d (some x) s p = (
    omega arith,
    inl (record {
      why = inr (inl refl);
      rejected = refl;
      doc_back = snapshot-kept d s p;
      stamp_back = refl;
      file_left = inl refl;
    }),
  )
  ended-ends not_statted d (some x) s p = (
    omega arith,
    inl (record {
      why = inr (inr refl);
      rejected = refl;
      doc_back = snapshot-kept d s p;
      stamp_back = refl;
      file_left = inr (refl, ap some (put_cell-same s.doc d (put_cell s.next (doc_of s) s.cells)));
    }),
  )
  ended-ends (written st) d (some x) s p =
      let now = put_cell-same s.doc d (put_cell s.next (doc_of s) s.cells) in
      (
        omega (arith, p),
        inr (record {
          doc_changed = now;
          in_file = ap some now;
          stamped = refl;
          returned = refl;
          has_result = refl;
        }),
      )

  -- A call of `mutate` is all or nothing, also when the change throws half done in place: if the
  -- file has changed and does not parse, then the call is rejected with the store as it was;
  -- otherwise it starts from the document in memory, the empty one if the file is gone or the one
  -- in the file if the stamps differ, and either the change returned and the write and the `stat`
  -- after it went well, and then the changed document is in memory and in the file, with the stamp
  -- of the file, or the call is rejected and memory has the document and the stamp it started from,
  -- while the file is not written, unless it is the `stat` after the write that failed.
  pub mutate-all_or_nothing :
      (st : Stat) (parsed : Option Doc) (w : Write) (fn : Change A) (s : FileStore)
      → IsPlaced s
      → IsPlaced (mutate st parsed w fn s).store
        × ((IsUnreadable st parsed s
              × (mutate st parsed w fn s ≡ record { store = s; file = none; result = none }))
            ⊎ ((d : Doc) × (stamp : Stamp) × StartsFrom st parsed s d stamp
                × (IsUndone w (fn d) d stamp (mutate st parsed w fn s)
                    ⊎ IsDone w (fn d) (mutate st parsed w fn s))))
  unfolding mutate
  mutate-all_or_nothing st parsed w fn s p = elim (Option-cases (reload_if_changed st parsed s)) [
    | inl corrupt ↦
        rw (corrupt, mutate) (p, inl (reload_if_changed-IsUnreadable st parsed s corrupt, refl))
    | inr (r, e) ↦
        rw (e, mutate)
          (let (placed, from) = reload_if_changed-StartsFrom st parsed s r p e in
            let (q, ends) = ended-ends w (fn (doc_of r)).0 (fn (doc_of r)).1 r placed in
            rw (apply_and_write-ended w fn r placed) (q, inr (doc_of r, r.stamp, from, ends)))
  ]

-- ===== src/Auth/Store/File.antt =====
-- src/auth/store/file-store.ts: the class `FileTokenStore` around the document, and its file.
-- A document is an object that calls change in place, so `this.doc` is a reference into the memory.
-- The calls of `fs` enter by their outcomes: `Stat` is what `fs.stat` gives before the change,
-- the text of the file enters as what `parseDoc` makes of it, and `Write` is how the write and the
-- `fs.stat` after it end.
pub mod Laws
use brainstem_mcp.Auth.Store.{Doc, empty_doc}
use brainstem_mcp.Prelude.{
  Bool, Option, arith, false, if◌then◌else◌, none, some, true, ℕ, ◌&&◌, ◌+◌, ◌<◌, ◌==◌, ◌≡◌, ◌≢◌,
}

pub record Stamp : Type 0 where
  pub mtime_ms : ℕ
  pub size : Option ℕ

-- `size: -1` is `none`.
abbrev pub no_file : Stamp
no_file = record { mtime_ms = 0; size = none }

pub data Stat : Type 0 where
  enoent : Stat
  other_error : Stat
  stat_of : Stamp → Stat

-- `this.doc` is the number of a cell; those from `next` on are free.
pub record FileStore : Type 0 where
  pub cells : ℕ → Doc
  pub next : ℕ
  pub doc : ℕ
  pub stamp : Stamp

-- The document that `this.doc` refers to.
abbrev pub doc_of : FileStore → Doc
doc_of s = s.cells s.doc

-- The cells once one of them holds another document.
unfoldable pub put_cell : ℕ → Doc → (ℕ → Doc) → ℕ → Doc
put_cell i d cells j = if j == i then d else cells j

-- A new object, with its reference: what `structuredClone` and `parseDoc` make.
unfoldable pub allocate : Doc → FileStore → ℕ × FileStore
unfolding put_cell
allocate d s = (s.next, record s { cells = put_cell s.next d s.cells; next = s.next + 1 })

unfoldable pub size_eq : Option ℕ → Option ℕ → Bool
size_eq none none = true
size_eq none (some _) = false
size_eq (some _) none = false
size_eq (some a) (some b) = a == b

-- `this.doc` becomes a new object.
abbrev pub replaced : Doc → Stamp → FileStore → FileStore
unfolding allocate
replaced d stamp s = let (ref, t) = allocate d s in record t { doc = ref; stamp = stamp }

-- `none` is a thrown StoreCorruptError.
unfoldable pub reload_if_changed : Stat → Option Doc → FileStore → Option FileStore
unfolding size_eq allocate
reload_if_changed enoent parsed s = some (replaced empty_doc no_file s)
reload_if_changed other_error parsed s = some s
reload_if_changed (stat_of st) parsed s =
    if st.mtime_ms == s.stamp.mtime_ms && size_eq st.size s.stamp.size
    then some s
    else elim parsed [ none ↦ none | some doc ↦ some (replaced doc st s) ]

-- How `writeAtomic` and the `fs.stat` after it end: the write throws, the `stat` throws, or the
-- file has this stamp.
pub data Write : Type 0 where
  failed : Write
  not_statted : Write
  written : Stamp → Write

-- A change in place, and its result or `none` if it throws: it may throw when half done.
abbrev pub Change {ℓ} : Type ℓ → Type ℓ
Change A = Doc → Doc × Option A

-- `fn(this.doc)`
unfoldable pub change_in_place {ℓ} : {A : Type ℓ} → Change A → FileStore → FileStore × Option A
unfolding put_cell
change_in_place fn s =
    let (d, result) = fn (doc_of s) in (record s { cells = put_cell s.doc d s.cells }, result)

-- A finished call: the store, the document that it wrote to the file, if any, and its result, where
-- `none` is a rejected promise.
pub record Finished {ℓ} (A : Type ℓ) : Type ℓ where
  pub store : FileStore
  pub file : Option Doc
  pub result : Option A

-- `this.doc = snapshot; throw err`
unfoldable pub roll_back {ℓ} : {A : Type ℓ} → ℕ → Option Doc → FileStore → Finished A
roll_back snapshot file s = record {
  store = record s { doc = snapshot };
  file = file;
  result = none;
}

-- The rest of the `try` block after `fn`.
unfoldable pub write_doc {ℓ} : {A : Type ℓ} → Write → ℕ → FileStore → A → Finished A
unfolding roll_back
write_doc failed snapshot s x = roll_back snapshot none s
write_doc not_statted snapshot s x = roll_back snapshot (some (doc_of s)) s
write_doc (written st) snapshot s x = record {
  store = record s { stamp = st };
  file = some (doc_of s);
  result = some x;
}

-- The part of `mutate` after the reload.
unfoldable pub apply_and_write {ℓ} : {A : Type ℓ} → Write → Change A → FileStore → Finished A
unfolding allocate change_in_place write_doc roll_back
apply_and_write w fn s =
    let (snapshot, cloned) = allocate (doc_of s) s in
    let (changed, result) = change_in_place fn cloned in
    elim result [ none ↦ roll_back snapshot none changed | some x ↦ write_doc w snapshot changed x ]

unfoldable pub mutate {ℓ} :
    {A : Type ℓ} → Stat → Option Doc → Write → Change A → FileStore → Finished A
unfolding apply_and_write
mutate st parsed w fn s = elim (reload_if_changed st parsed s) [
  | none ↦ record { store = s; file = none; result = none }
  | some reloaded ↦ apply_and_write w fn reloaded
]

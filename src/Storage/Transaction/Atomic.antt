-- ===== src/Storage/Transaction/Atomic.antt =====
-- src/storage/transaction.ts: all or nothing. What the adapter promises is a hypothesis: a call on
-- normalised paths changes these paths only, what is below them, the trash, and the missing parent
-- folders that it makes; the deletion of a file changes the file only, and leaves nothing there.
use brainstem_mcp.Prelude.{
  All, All-append_left, All-append_right, Bool, List, Option, Text, [], arith, codes, false, inl,
  inr, none, refl, some, starts_with, subst, sym, text_eq, true, ◌++◌, ◌||◌, ◌∙◌, ◌∷◌, ◌≡◌, ◌⊎◌,
}
use brainstem_mcp.Prelude.Sort.{member, member-append}
use brainstem_mcp.Storage.PathPolicy.{normalize_vault_path, trash_dir}
use brainstem_mcp.Storage.TextDiff.{TextPatch}
use brainstem_mcp.Storage.Transaction.{
  Position, Services, TxOp, Unique, Vault, append, by_line, by_link, delete, edit, folder,
  frontmatter_update, move, not_unique, write,
}
use brainstem_mcp.Storage.Transaction.Adapter.{Adapter, Call, paths_of}
use brainstem_mcp.Storage.Transaction.Run.{
  append_read, apply, apply_append, read_existing, tolerated, unless_skipped,
}
use brainstem_mcp.Storage.Transaction.Simulate.{plan_append}
use brainstem_mcp.Storage.Types.{ErrorCode, Result, err, ok, ◌>>=◌}

-- A path of the trash folder, where a deletion leaves its copies.
unfoldable pub in_trash : Text → Bool
in_trash q = text_eq q trash_dir || starts_with q (trash_dir ++ codes "/")

-- A path in the folder tree under another one.
unfoldable pub is_below : Text → Text → Bool
is_below q p = starts_with q (p ++ codes "/")

abbrev pub NotBelow : Text → List Text → Type 0
NotBelow q ps = All (λ p. is_below q p ≡ false) ps

-- At the path is what was there, or a folder where nothing was: the parent that a call has made.
abbrev pub Agrees : Vault → Vault → Text → Type 0
Agrees v w q = (w q ≡ v q) ⊎ ((v q ≡ none) × (w q ≡ some folder))

-- Nothing but these paths, what is below them, the trash and new folders differs.
pub record Same (ps : List Text) (v w : Vault) : Type 0 where
  pub at : (q : Text) → in_trash q ≡ false → member q ps ≡ false → NotBelow q ps → Agrees v w q

pub Same-refl : (ps : List Text) (v : Vault) → Same ps v v
Same-refl ps v = record { at = λ q t m n. inl refl }

Agrees-trans : (u v w : Vault) (q : Text) → Agrees u v q → Agrees v w q → Agrees u w q
Agrees-trans u v w q (inl a) (inl b) = inl (b ∙ a)
Agrees-trans u v w q (inl a) (inr (free, made)) = inr (sym a ∙ free, made)
Agrees-trans u v w q (inr (free, made)) (inl b) = inr (free, b ∙ made)
Agrees-trans u v w q (inr (free, made)) (inr (_, again)) = inr (free, again)

pub Same-trans : (ps : List Text) (u v w : Vault) → Same ps u v → Same ps v w → Same ps u w
Same-trans ps u v w a b = record {
  at = λ q t m n. Agrees-trans u v w q (a.at q t m n) (b.at q t m n);
}

pub Same-left : (ps qs : List Text) (v w : Vault) → Same ps v w → Same (ps ++ qs) v w
Same-left ps qs v w a = record {
  at = λ q t m n.
      a.at q t (ground (arith, member-append q ps qs))
        (All-append_left (λ p. is_below q p ≡ false) ps qs n);
}

pub Same-right : (ps qs : List Text) (v w : Vault) → Same qs v w → Same (ps ++ qs) v w
Same-right ps qs v w a = record {
  at = λ q t m n.
      a.at q t (ground (arith, member-append q ps qs))
        (All-append_right (λ p. is_below q p ≡ false) ps qs n);
}

-- Normalising the path again gives the path.
abbrev pub IsStable : (Text → Text) → Text → Type 0
IsStable nfc p = normalize_vault_path nfc false (some p) ≡ ok p

pub record AdapterLaws {F : Type 0} (nfc : Text → Text) (a : Adapter F) : Type 0 where
  pub write :
      (p c : Text) (m : Bool) (v : Vault) → IsStable nfc p → Same (p ∷ []) v (a.write p c m v).0
  pub edit :
      (p : Text) (es : List TextPatch) (v : Vault)
      → IsStable nfc p
      → Same (p ∷ []) v (a.edit p es v).0
  pub append : (p c : Text) (v : Vault) → IsStable nfc p → Same (p ∷ []) v (a.append p c v).0
  pub batch_frontmatter_update :
      (p : Text) (fs : F) (u : List Text) (v : Vault)
      → IsStable nfc p
      → Same (p ∷ []) v (a.batch_frontmatter_update p fs u v).0
  pub move :
      (p q : Text) (v : Vault)
      → IsStable nfc p
      → IsStable nfc q
      → Same (p ∷ q ∷ []) v (a.move p q v).0
  pub soft_delete :
      (p : Text) (c : Bool) (v : Vault) → IsStable nfc p → Same (p ∷ []) v (a.soft_delete p c v).0
  pub hard_delete :
      (p : Text) (v : Vault)
      → IsStable nfc p
      → (q : Text) → text_eq p q ≡ false
      → (a.hard_delete p v).0 q ≡ v q
  pub deleted :
      (p : Text) (v : Vault)
      → IsStable nfc p
      → tolerated (a.hard_delete p v).1 ≡ true
      → (a.hard_delete p v).0 p ≡ none

module _ (s : Services) (a : Adapter s.FmSet) (laws : AdapterLaws s.nfc a) where
  pub unless_skipped-Same :
      (v : Vault) (r : Result (Text × Bool)) (p : Text)
      → IsStable s.nfc p
      → Same (p ∷ []) v (unless_skipped s a v r p).0
  unless_skipped-Same v (err e) p h = Same-refl (p ∷ []) v
  unless_skipped-Same v (ok (next, true)) p h = Same-refl (p ∷ []) v
  unless_skipped-Same v (ok (next, false)) p h = laws.write p next false v h

  append_read-Same :
      (r : Result (Option Text)) (p c : Text) (hd : Option Text) (q : Option Position) (u : Unique)
      (v : Vault)
      → IsStable s.nfc p
      → Same (p ∷ []) v (append_read s a r p c hd q u v).0
  unfolding append_read
  append_read-Same (err e) p c hd q u v h = Same-refl (p ∷ []) v
  append_read-Same (ok existing) p c hd q u v h =
      unless_skipped-Same v (plan_append s v p existing c hd q u) p h

  apply_append-Same :
      (p c : Text) (hd : Option Text) (q : Option Position) (u : Unique) (v : Vault)
      → IsStable s.nfc p
      → Same (p ∷ []) v (apply_append s a p c hd q u v).0
  unfolding apply_append
  apply_append-Same p c none q not_unique v h = laws.append p c v h
  apply_append-Same p c none q by_link v h =
      append_read-Same (read_existing s a v p) p c none q by_link v h
  apply_append-Same p c none q by_line v h =
      append_read-Same (read_existing s a v p) p c none q by_line v h
  apply_append-Same p c (some t) q u v h =
      append_read-Same (read_existing s a v p) p c (some t) q u v h

  -- An operation on one path, whatever the path is once normalised.
  one_path :
      (r : Result Text) (ps : List Text) (call : Text → Call) (v : Vault)
      → (r >>= λ p. ok (p ∷ [])) ≡ ok ps
      → All (IsStable s.nfc) ps
      → ((p : Text) → IsStable s.nfc p → Same (p ∷ []) v (call p v).0)
      → Same ps v
          (elim r as (λ _. Vault × Option ErrorCode) [ err e ↦ (v, some e) | ok q ↦ call q v ]).0
  one_path (err e) ps call v h st k = cc
  one_path (ok q) ps call v h st k =
      let same : (q ∷ []) ≡ ps = cc in
      let stable : All (IsStable s.nfc) (q ∷ []) = subst (All (IsStable s.nfc)) (sym same) st in
      rw (← same) (k q stable.0)

  two_paths :
      (r1 r2 : Result Text) (ps : List Text) (call : Text → Text → Call) (v : Vault)
      → (r1 >>= λ p. (r2 >>= λ q. ok (p ∷ q ∷ []))) ≡ ok ps
      → All (IsStable s.nfc) ps
      → ((p q : Text) → IsStable s.nfc p → IsStable s.nfc q → Same (p ∷ q ∷ []) v (call p q v).0)
      → Same ps v
          (elim r1 as (λ _. Vault × Option ErrorCode) [
            | err e ↦ (v, some e)
            | ok p ↦ elim r2 as (λ _. Vault × Option ErrorCode) [
              | err e ↦ (v, some e)
              | ok q ↦ call p q v
            ]
          ]).0
  two_paths (err e) r2 ps call v h st k = cc
  two_paths (ok p) (err e) ps call v h st k = cc
  two_paths (ok p) (ok q) ps call v h st k =
      let same : (p ∷ q ∷ []) ≡ ps = cc in
      let stable : All (IsStable s.nfc) (p ∷ q ∷ []) = subst (All (IsStable s.nfc)) (sym same) st in
      rw (← same) (k p q stable.0 stable.1.0)

  -- An operation changes its own paths only.
  pub apply-Same :
      (op : TxOp s.FmSet) (ps : List Text) (v : Vault)
      → paths_of s.nfc op ≡ ok ps
      → All (IsStable s.nfc) ps
      → Same ps v (apply s a op v).0
  unfolding apply paths_of
  apply-Same (write raw c m x) ps v e st =
      one_path _ ps (λ q. a.write q c m) v e st λ p h. laws.write p c m v h
  apply-Same (edit raw es x) ps v e st =
      one_path _ ps (λ q. a.edit q es) v e st λ p h. laws.edit p es v h
  apply-Same (append raw c hd q u x) ps v e st =
      one_path _ ps (λ p. apply_append s a p c hd q u) v e st
        λ p h. apply_append-Same p c hd q u v h
  apply-Same (frontmatter_update raw f u x) ps v e st =
      one_path _ ps (λ q. a.batch_frontmatter_update q f u) v e st
        λ p h. laws.batch_frontmatter_update p f u v h
  apply-Same (move r1 r2 x) ps v e st =
      two_paths _ _ ps (λ p q. a.move p q) v e st λ p q h k. laws.move p q v h k
  apply-Same (delete raw c x) ps v e st =
      one_path _ ps (λ q. a.soft_delete q c) v e st λ p h. laws.soft_delete p c v h

-- ===== src/Vault/Query/Matched.antt =====
-- src/vault/query.ts: which notes a query matches, and in which order.
use brainstem_mcp.Prelude.{
  All, All-map, Bool, Bool-cases, List, Text, [], false, filter, inl, inr, refl, subst, tests, true,
  ◌↔◌, ◌∷◌, ◌≡◌,
}
use brainstem_mcp.Storage.Types.{Result, err, ok, ◌>>=◌}
use brainstem_mcp.Vault.Query.{Runtime, Sign, Value, is_greater}
use brainstem_mcp.Vault.Query.Filter.{
  Entry, Query, VaultGraph, compare_by_sort_keys, compile_all, insert_with, match_entries, passes,
  sort_with,
}
use brainstem_mcp.Vault.Query.Meaning.{Fits}
use brainstem_mcp.Vault.Query.Passing.{passes-Fits}
use mathlib.Core.List.{Perm}
use mathlib.Core.List.Perm

module _ {A : Type 0} (compare : A → A → Sign) where
  insert_with-Perm : (x : A) (ys : List A) → Perm (insert_with compare x ys) (x ∷ ys)
  unfolding insert_with
  insert_with-Perm x [] = Perm.refl (x ∷ [])
  insert_with-Perm x (y ∷ ys) = elim (Bool-cases (is_greater (compare x y))) [
    | inl e ↦ rw e (Perm.trans (Perm.cons y (insert_with-Perm x ys)) (Perm.swap x y ys))
    | inr e ↦ rw e (Perm.refl (x ∷ y ∷ ys))
  ]

  sort_with-Perm : (xs : List A) → Perm (sort_with compare xs) xs
  unfolding sort_with
  sort_with-Perm [] = Perm.refl []
  sort_with-Perm (x ∷ xs) =
      Perm.trans (insert_with-Perm x (sort_with compare xs)) (Perm.cons x (sort_with-Perm xs))

  -- No element is greater than a later one.
  abbrev pub InOrder : List A → Type 0
  InOrder [] = Unit
  InOrder (x ∷ xs) = All (λ y. is_greater (compare x y) ≡ false) xs × InOrder xs

  -- The comparison is that of an order.
  pub record IsConsistent : Type 0 where
    pub trans :
        (a b c : A)
        → is_greater (compare a b) ≡ false
        → is_greater (compare b c) ≡ false
        → is_greater (compare a c) ≡ false
    pub total : (a b : A) → is_greater (compare a b) ≡ true → is_greater (compare b a) ≡ false

  module _ (k : IsConsistent) where
    insert-above :
        (b x : A) (ys : List A)
        → is_greater (compare b x) ≡ false
        → All (λ y. is_greater (compare b y) ≡ false) ys
        → All (λ y. is_greater (compare b y) ≡ false) (insert_with compare x ys)
    unfolding insert_with
    insert-above b x [] h a = (h, tt)
    insert-above b x (y ∷ ys) h a = elim (Bool-cases (is_greater (compare x y))) [
      | inl e ↦ rw e (a.0, insert-above b x ys h a.1)
      | inr e ↦ rw e (h, a)
    ]

    insert_with-InOrder : (x : A) (ys : List A) → InOrder ys → InOrder (insert_with compare x ys)
    unfolding insert_with
    insert_with-InOrder x [] o = (tt, tt)
    insert_with-InOrder x (y ∷ ys) o = elim (Bool-cases (is_greater (compare x y))) [
      | inl e ↦ rw e (insert-above y x ys (k.total x y e) o.0, insert_with-InOrder x ys o.1)
      | inr e ↦ rw e ((e, All-map ys (λ z h. k.trans x y z e h) o.0), o)
    ]

    sort_with-InOrder : (xs : List A) → InOrder (sort_with compare xs)
    unfolding sort_with
    sort_with-InOrder [] = tt
    sort_with-InOrder (x ∷ xs) = insert_with-InOrder x (sort_with compare xs) (sort_with-InOrder xs)

module _ {N O F : Type 0} (r : Runtime N O) (get_path : F → Text → Value N O)
    (graph : VaultGraph) where
  -- A query that compiles matches exactly the notes that fit it, each as often as it is there: the
  -- path is in the folder of the prefix; some, every and no tag filter of the three lists is carried
  -- by the note, as a tag or as what a tag is nested in; and each condition holds of its field.
  -- Where the comparison by the sort keys is that of an order, no note comes before one that it is
  -- greater than.
  pub match_entries-Perm :
      (entries result : List (Entry F)) (q : Query N O)
      → match_entries r get_path graph entries q ≡ ok result
      → (keep : Entry F → Bool) × ((entry : Entry F)
          → (keep entry ≡ true) ↔ Fits r get_path graph q entry)
        × Perm result (filter keep entries)
        × (IsConsistent (compare_by_sort_keys r get_path graph q.sort)
            → InOrder (compare_by_sort_keys r get_path graph q.sort) result)
  unfolding match_entries
  match_entries-Perm entries result q e = matched (compile_all r get_path graph q.conds) refl e
    where
      matched :
          (c : Result (List (Entry F → Bool)))
          → compile_all r get_path graph q.conds ≡ c
          → (c >>= λ tests. ok (
              sort_with
                (compare_by_sort_keys r get_path graph q.sort)
                (filter (passes r get_path graph q tests) entries)))
            ≡ ok result
          → (keep : Entry F → Bool) × ((entry : Entry F)
              → (keep entry ≡ true) ↔ Fits r get_path graph q entry)
            × Perm result (filter keep entries)
            × (IsConsistent (compare_by_sort_keys r get_path graph q.sort)
                → InOrder (compare_by_sort_keys r get_path graph q.sort) result)
      matched (err code) at e = cc
      matched (ok tests) at e =
          let compare = compare_by_sort_keys r get_path graph q.sort in
          let found = filter (passes r get_path graph q tests) entries in
          let same : sort_with compare found ≡ result = cc in
          (
            passes r get_path graph q tests,
            λ entry. passes-Fits r get_path graph q tests entry at,
            subst (λ l. Perm l found) same (sort_with-Perm compare found),
            λ k. subst (InOrder compare) same (sort_with-InOrder compare k found),
          )

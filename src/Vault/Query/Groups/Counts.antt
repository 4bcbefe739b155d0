-- ===== src/Vault/Query/Groups/Counts.antt =====
-- src/vault/query.ts: the count of a group is the number of notes that land in it.
use brainstem_mcp.Prelude.{
  Bool, Bool-cases, List, Option, Text, [], any, ap, arith, codes, false, filter, if◌then◌else◌,
  inl, inr, length, map, none, refl, some, subst, sym, text_eq, text_eq-eq, text_eq_iff, true, ℕ,
  ◌+◌, ◌||◌, ◌∙◌, ◌∷◌, ◌≡◌,
}
use brainstem_mcp.Prelude.Dict.{get, get-put, keys, put}
use brainstem_mcp.Prelude.Order.{unique-NoDup}
use brainstem_mcp.Prelude.Sort.{NoDup, member, member-unique, text_lt}
use brainstem_mcp.Vault.Query.{
  Element, Runtime, Value, array, boolean, missing, null, number, object, one, text,
}
use brainstem_mcp.Vault.Query.Filter.{Entry, VaultGraph, field_value}
use brainstem_mcp.Vault.Query.Groups.{
  Group, Groups, add_to_groups, build_groups, collect_groups, group_key_for_value, group_keys,
  grown, insert_group, sort_groups,
}

abbrev count_or_zero : Option Group → ℕ
count_or_zero none = 0
count_or_zero (some g) = g.count

-- The count of the group with a key, and 0 if there is none.
abbrev pub group_count : Text → Groups → ℕ
unfolding get
group_count key groups = count_or_zero (get key groups)

abbrev one_if : Bool → ℕ
one_if true = 1
one_if false = 0

member-keys-put :
    (k j : Text) (g : Group) (d : Groups)
    → member j (keys (put k g d)) ≡ (text_eq k j || member j (keys d))
unfolding member keys put
member-keys-put k j g [] = refl
member-keys-put k j g ((i, h) ∷ d) =
    ground (arith, text_eq_iff i k, text_eq_iff i j, text_eq_iff k j, member-keys-put k j g d)

keys-put-NoDup : (k : Text) (g : Group) (d : Groups) → NoDup (keys d) → NoDup (keys (put k g d))
unfolding keys put member
keys-put-NoDup k g [] n = (refl, tt)
keys-put-NoDup k g ((i, h) ∷ d) n = elim (Bool-cases (text_eq i k)) [
  | inl e ↦ rw e n
  | inr e ↦ rw e (
    ground (arith, member-keys-put k i g d, text_eq_iff i k, text_eq_iff k i, n.0),
    keys-put-NoDup k g d n.1,
  )
]

get-insert_group :
    (k j : Text) (g : Group) (d : Groups)
    → member j (keys d) ≡ false
    → get k (insert_group (j, g) d) ≡ (if text_eq j k then some g else get k d)
unfolding get insert_group keys member
get-insert_group k j g [] h = refl
get-insert_group k j g ((i, v) ∷ d) h = elim (Bool-cases (text_lt i j)) [
  | inl e ↦
      let other : text_eq i j ≡ false = ground arith in
      let rest = get-insert_group k j g d (rw other at h) in
      rw e (ground (arith, rest, other, text_eq_iff i j, text_eq_iff i k, text_eq_iff j k))
  | inr e ↦ rw e refl
]

member-insert_group :
    (k j : Text) (g : Group) (d : Groups)
    → member k (keys (insert_group (j, g) d)) ≡ (text_eq j k || member k (keys d))
unfolding insert_group keys member
member-insert_group k j g [] = refl
member-insert_group k j g ((i, v) ∷ d) = ground (arith, member-insert_group k j g d)

member-sort_groups : (k : Text) (d : Groups) → member k (keys (sort_groups d)) ≡ member k (keys d)
unfolding sort_groups keys member
member-sort_groups k [] = refl
member-sort_groups k ((j, g) ∷ d) =
    ground (arith, member-insert_group k j g (sort_groups d), member-sort_groups k d)

get-sort_groups : (k : Text) (d : Groups) → NoDup (keys d) → get k (sort_groups d) ≡ get k d
unfolding sort_groups get keys
get-sort_groups k [] n = refl
get-sort_groups k ((j, g) ∷ d) n =
    get-insert_group k j g (sort_groups d) (member-sort_groups j d ∙ n.0)
    ∙ ap (λ o. if text_eq j k then some g else o) (get-sort_groups k d n.1)

module _ {N O F : Type 0} (r : Runtime N O) (get_path : F → Text → Value N O)
    (graph : VaultGraph) where
  group_count-put :
      (path k j : Text) (d : Groups)
      → group_count k (put j (grown r get_path graph path (get j d)) d)
        ≡ group_count k d + one_if (text_eq j k)
  unfolding group_count
  group_count-put path k j d = elim (Bool-cases (text_eq j k)) [
    | inl e ↦
        let here : j ≡ k = text_eq-eq j k e in
        rw (get-put j k (grown r get_path graph path (get j d)) d, e)
          (subst (λ i. (grown r get_path graph path (get i d)).count ≡ count_or_zero (get k d) + 1)
            (sym here) (one_more (get k d)))
    | inr e ↦ rw (get-put j k (grown r get_path graph path (get j d)) d, e) (omega arith)
  ]
    where
      one_more : (o : Option Group) → (grown r get_path graph path o).count ≡ count_or_zero o + 1
      one_more none = refl
      one_more (some g) = refl

  group_count-add_to_groups :
      (path k : Text) (ks : List Text) (d : Groups)
      → NoDup ks
      → group_count k (add_to_groups r get_path graph path ks d)
        ≡ group_count k d + one_if (member k ks)
  unfolding add_to_groups member
  group_count-add_to_groups path k [] d n = omega arith
  group_count-add_to_groups path k (j ∷ ks) d n =
      let d' = put j (grown r get_path graph path (get j d)) d in
      let rest = group_count-add_to_groups path k ks d' n.1 in
      let here = group_count-put path k j d in
      elim (Bool-cases (text_eq j k)) [
        | inl e ↦
            let same : j ≡ k = text_eq-eq j k e in
            let gone : member k ks ≡ false = subst (λ i. member i ks ≡ false) same n.0 in
            omega (
              arith,
              rest,
              here,
              ap one_if gone,
              ap one_if e,
              ap one_if (ap (λ b. b || member k ks) e),
            )
        | inr e ↦ omega (arith, rest, here, ap one_if e, ap one_if (ap (λ b. b || member k ks) e))
      ]

  add_to_groups-NoDup :
      (path : Text) (ks : List Text) (d : Groups)
      → NoDup (keys d)
      → NoDup (keys (add_to_groups r get_path graph path ks d))
  unfolding add_to_groups
  add_to_groups-NoDup path [] d n = n
  add_to_groups-NoDup path (j ∷ ks) d n =
      add_to_groups-NoDup path ks _ (keys-put-NoDup j (grown r get_path graph path (get j d)) d n)

  group_keys-NoDup : (v : Value N O) → NoDup (group_keys r get_path graph v)
  unfolding group_keys member
  group_keys-NoDup (one el) = (refl, tt)
  group_keys-NoDup (array []) = (refl, tt)
  group_keys-NoDup (array (el ∷ els)) =
      unique-NoDup (map (λ e. group_key_for_value r get_path graph (one e)) (el ∷ els))

  -- A single value stands under a key.
  abbrev pub shown_as : Text → Element N O → Bool
  shown_as key missing = text_eq (codes "(none)") key
  shown_as key (text s) = text_eq s key
  shown_as key el = text_eq (r.shown (one el)) key

  abbrev pub stands_under : Text → Value N O → Bool
  stands_under key (one el) = shown_as key el
  stands_under key (array []) = text_eq (codes "(none)") key
  stands_under key (array (el ∷ els)) = any (shown_as key) (el ∷ els)

  -- A note lands in the group of a key.
  abbrev pub lands : Text → Text → Entry F → Bool
  lands field key entry = stands_under key (field_value r get_path entry graph field)

  shown_as-group_key :
      (key : Text) (el : Element N O)
      → text_eq (group_key_for_value r get_path graph (one el)) key ≡ shown_as key el
  shown_as-group_key key missing = refl
  shown_as-group_key key null = refl
  shown_as-group_key key (boolean b) = refl
  shown_as-group_key key (number n) = refl
  shown_as-group_key key (text s) = refl
  shown_as-group_key key (object o) = refl

  member-keys :
      (key : Text) (els : List (Element N O))
      → member key (map (λ e. group_key_for_value r get_path graph (one e)) els)
        ≡ any (shown_as key) els
  unfolding member
  member-keys key [] = refl
  member-keys key (el ∷ els) = rw (shown_as-group_key key el, member-keys key els) refl

  member-group_keys :
      (key : Text) (v : Value N O) → member key (group_keys r get_path graph v) ≡ stands_under key v
  unfolding group_keys member
  member-group_keys key (one el) = rw (shown_as-group_key key el) (or_false (shown_as key el))
    where
      or_false : (b : Bool) → (b || false) ≡ b
      or_false b = ground arith
  member-group_keys key (array []) = or_false (text_eq (codes "(none)") key)
    where
      or_false : (b : Bool) → (b || false) ≡ b
      or_false b = ground arith
  member-group_keys key (array (el ∷ els)) =
      member-unique key (map (λ e. group_key_for_value r get_path graph (one e)) (el ∷ els))
      ∙ member-keys key (el ∷ els)

  collect_groups-counts :
      (field key : Text) (entries : List (Entry F)) (d : Groups)
      → group_count key (collect_groups r get_path graph field entries d)
        ≡ group_count key d + length (filter (lands field key) entries)
  unfolding collect_groups
  collect_groups-counts field key [] d = omega arith
  collect_groups-counts field key (entry ∷ entries) d =
      let ks = group_keys r get_path graph (field_value r get_path entry graph field) in
      let rest =
        collect_groups-counts field key entries (add_to_groups r get_path graph entry.path ks d) in
      let here =
        group_count-add_to_groups entry.path key ks d
          (group_keys-NoDup (field_value r get_path entry graph field)) in
      let same = member-group_keys key (field_value r get_path entry graph field) in
      elim (Bool-cases (lands field key entry)) [
        | inl e ↦ rw e (omega (arith, rest, here, ap one_if (same ∙ e)))
        | inr e ↦ rw e (omega (arith, rest, here, ap one_if (same ∙ e)))
      ]

  collect_groups-NoDup :
      (field : Text) (entries : List (Entry F)) (d : Groups)
      → NoDup (keys d)
      → NoDup (keys (collect_groups r get_path graph field entries d))
  unfolding collect_groups
  collect_groups-NoDup field [] d n = n
  collect_groups-NoDup field (entry ∷ entries) d n = collect_groups-NoDup field entries _ (
      add_to_groups-NoDup entry.path
        (group_keys r get_path graph (field_value r get_path entry graph field)) d n)

  -- The count of the group of a key is the number of the notes that land in it: those whose field
  -- is a single value with the key as its text, or is a list with such an element, where a missing
  -- value (also as an element) counts as "(none)", and so does the empty list.
  pub build_groups-counts :
      (entries : List (Entry F)) (field key : Text)
      → group_count key (build_groups r get_path graph entries field)
        ≡ length (filter (lands field key) entries)
  unfolding build_groups keys
  build_groups-counts entries field key =
      ap count_or_zero (
        get-sort_groups key (collect_groups r get_path graph field entries [])
          (collect_groups-NoDup field entries [] tt))
      ∙ collect_groups-counts field key entries []
      ∙ from_zero (length (filter (lands field key) entries))
    where
      from_zero : (n : ℕ) → 0 + n ≡ n
      from_zero n = omega arith

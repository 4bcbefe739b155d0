-- ===== src/Vault/Query/Passing.antt =====
-- src/vault/query.ts: the tests of a query let a note through exactly if it fits the query.
use brainstem_mcp.Prelude.{
  All, Bool, Bool-cases, List, Option, Text, [], all, any, ap, arith, codes, drop, false, inl, inr,
  length, length-append, none, not, refl, some, starts_with, sym, take, take-append-drop, text_eq,
  text_eq-eq, text_eq_iff, text_eq_refl, true, ◌++◌, ◌-◌, ◌||◌, ◌↔◌, ◌∙◌, ◌∷◌, ◌≡◌, ◌⊎◌,
}
use brainstem_mcp.Storage.PathPolicy.{ends_with}
use brainstem_mcp.Storage.Types.{>>=-eq-ok, ok, ◌>>=◌}
use brainstem_mcp.Vault.Query.{Runtime, Value}
use brainstem_mcp.Vault.Query.Conditions.{Cond, compile_cond}
use brainstem_mcp.Vault.Query.Filter.{
  Entry, Query, TagFilters, VaultGraph, compile_all, field_value, is_tag_or_descendant,
  matches_path_prefix, passes, passes_if, passes_tag_filters, tag_filter_matches,
}
use brainstem_mcp.Vault.Query.Meaning.{
  Any, Carries, Extends, Fits, Holds, IfGiven, InFolder, InFolderIfGiven, IsNested, TagsFit,
}
use mathlib.Core.List.{append_assoc}

module _ {ℓ} {A : Type ℓ} (p : A → Bool) (P : A → Type 0) (h : (x : A) → (p x ≡ true) ↔ P x) where
  any-Any : (xs : List A) → (any p xs ≡ true) ↔ Any P xs
  any-Any [] = (λ e. let no : false ≡ true = e in cc, λ e. absurd e)
  any-Any (x ∷ xs) = (
    λ e. elim (Bool-cases (p x)) [
      | inl here ↦ inl ((h x).0 here)
      | inr not_here ↦ inr ((any-Any xs).0 (rw not_here at e))
    ],
    λ e. elim e [
      | inl here ↦ rw ((h x).1 here) refl
      | inr later ↦ let q = (any-Any xs).1 later in ground (arith, q)
    ],
  )

  all-All : (xs : List A) → (all p xs ≡ true) ↔ All P xs
  all-All [] = (λ e. tt, λ e. refl)
  all-All (x ∷ xs) = (
    λ e. ((h x).0 (ground arith), (all-All xs).0 (ground arith)),
    λ (here, later). rw ((h x).1 here, (all-All xs).1 later) refl,
  )

  not-any-All : (xs : List A) → (not (any p xs) ≡ true) ↔ All (λ x. ¬ P x) xs
  not-any-All [] = (λ e. tt, λ e. refl)
  not-any-All (x ∷ xs) = (
    λ e. (
      λ here. let no : false ≡ true = rw ((h x).1 here) at e in cc,
      (not-any-All xs).0 (ground arith),
    ),
    λ (here, later). elim (Bool-cases (p x)) [
      | inl e ↦ absurd (here ((h x).0 e))
      | inr e ↦ rw e ((not-any-All xs).1 later)
    ],
  )

starts_with-Extends : (s p : Text) → (starts_with s p ≡ true) ↔ Extends s p
starts_with-Extends s [] = (λ e. (s, refl), λ e. refl)
starts_with-Extends [] (c ∷ p) = (λ e. cc, λ (rest, e). cc)
starts_with-Extends (a ∷ s) (c ∷ p) = (
  λ e.
      let (rest, later) = (starts_with-Extends s p).0 (ground arith) in
      let same : a ≡ c = ground arith in (rest, cc),
  λ (rest, e).
      let same : a ≡ c = cc in
      let later : s ≡ p ++ rest = cc in
      let q = (starts_with-Extends s p).1 (rest, later) in ground (arith, q, same),
)

drop-append : (s t : Text) → drop (length s) (s ++ t) ≡ t
drop-append [] t = refl
drop-append (c ∷ s) t = drop-append s t

ends_with-split : (s t : Text) → ends_with s t ≡ true → (front : Text) × (s ≡ front ++ t)
unfolding ends_with
ends_with-split s t e =
    let n = length s - length t in
    (take n s, sym (take-append-drop n s) ∙ ap (λ u. take n s ++ u) (text_eq-eq (drop n s) t e))

ends_with-append : (s t : Text) → ends_with (s ++ t) t ≡ true
unfolding ends_with
ends_with-append s t =
    let n : length (s ++ t) - length t ≡ length s = omega (arith, length-append s t) in
    rw (n, drop-append s t) (text_eq_refl t)

or_iff : (a b : Bool) {P Q : Type 0} → (a ≡ true) ↔ P → (b ≡ true) ↔ Q → ((a || b) ≡ true) ↔ (P ⊎ Q)
or_iff a b f g = (
  λ e. elim (Bool-cases a) [ inl x ↦ inl (f.0 x) | inr x ↦ inr (g.0 (rw x at e)) ],
  λ e. elim e [ inl x ↦ rw (f.1 x) refl | inr y ↦ let q = g.1 y in ground (arith, q) ],
)

is_tag_or_descendant-IsNested :
    (tag parent : Text) → (is_tag_or_descendant tag parent ≡ true) ↔ IsNested tag parent
unfolding is_tag_or_descendant
is_tag_or_descendant-IsNested tag parent =
    or_iff (text_eq tag parent) (starts_with tag (parent ++ codes "/")) (text_eq_iff tag parent)
      (starts_with-Extends tag (parent ++ codes "/"))

module _ (lower : Text → Text) where
  tag_filter_matches-Carries :
      (tags : List Text) (wanted : Text)
      → (tag_filter_matches lower tags wanted ≡ true) ↔ Carries lower tags wanted
  unfolding tag_filter_matches
  tag_filter_matches-Carries tags wanted =
      any-Any (λ t. is_tag_or_descendant (lower t) (lower wanted))
        (λ t. IsNested (lower t) (lower wanted))
        (λ t. is_tag_or_descendant-IsNested (lower t) (lower wanted)) tags

  passes_if-IfGiven :
      (test : List Text → Bool) (P : List Text → Type 0) (o : Option (List Text))
      → ((ts : List Text) → (test ts ≡ true) ↔ P ts)
      → (passes_if lower test o ≡ true) ↔ IfGiven P o
  passes_if-IfGiven test P none h = (λ e. tt, λ e. refl)
  passes_if-IfGiven test P (some ts) h = h ts

  passes_tag_filters-TagsFit :
      (tags : List Text) (o : Option TagFilters)
      → (passes_tag_filters lower tags o ≡ true) ↔ TagsFit lower tags o
  unfolding passes_tag_filters
  passes_tag_filters-TagsFit tags none = (λ e. tt, λ e. refl)
  passes_tag_filters-TagsFit tags (some f) =
      let test = tag_filter_matches lower tags in
      let each = tag_filter_matches-Carries tags in
      let some_of =
        passes_if-IfGiven (any test) (Any (Carries lower tags)) f.any_of
          (any-Any test (Carries lower tags) each) in
      let every =
        passes_if-IfGiven (all test) (All (Carries lower tags)) f.all_of
          (all-All test (Carries lower tags) each) in
      let no_one =
        passes_if-IfGiven (λ ts. not (any test ts)) (All (λ t. ¬ Carries lower tags t)) f.none_of
          (not-any-All test (Carries lower tags) each) in
      (
        λ e. (some_of.0 (ground arith), every.0 (ground arith), no_one.0 (ground arith)),
        λ (x, y, z). rw (some_of.1 x, every.1 y, no_one.1 z) refl,
      )

InFolder-slash :
    (path folder : Text)
    → ends_with folder (codes "/") ≡ true
    → (starts_with path folder ≡ true) ↔ InFolder path folder
InFolder-slash path folder e = (
  λ h.
      let (dir, parts) = ends_with-split folder (codes "/") e in
      inr (dir, parts, (starts_with-Extends path folder).0 h),
  λ h. elim h [
    | inl (rest, at) ↦
        (starts_with-Extends path folder).1
          (codes "/" ++ rest, at ∙ append_assoc folder (codes "/") rest)
    | inr (dir, parts, inside) ↦ (starts_with-Extends path folder).1 inside
  ],
)

InFolder-bare :
    (path folder : Text)
    → ends_with folder (codes "/") ≡ false
    → (starts_with path (folder ++ codes "/") ≡ true) ↔ InFolder path folder
InFolder-bare path folder e = (
  λ h. inl ((starts_with-Extends path (folder ++ codes "/")).0 h),
  λ h. elim h [
    | inl inside ↦ (starts_with-Extends path (folder ++ codes "/")).1 inside
    | inr (dir, parts, inside) ↦
        let no : true ≡ false =
          sym (ends_with-append dir (codes "/"))
          ∙ (ap (λ f. ends_with f (codes "/")) (sym parts) ∙ e) in
        cc
  ],
)

matches_path_prefix-InFolder :
    (path : Text) (o : Option Text) → (matches_path_prefix path o ≡ true) ↔ InFolderIfGiven path o
unfolding matches_path_prefix
matches_path_prefix-InFolder path none = (λ e. tt, λ e. refl)
matches_path_prefix-InFolder path (some []) = (λ e. tt, λ e. refl)
matches_path_prefix-InFolder path (some (c ∷ folder)) =
    elim (Bool-cases (ends_with (c ∷ folder) (codes "/"))) [
      | inl e ↦ rw e (InFolder-slash path (c ∷ folder) e)
      | inr e ↦ rw e (InFolder-bare path (c ∷ folder) e)
    ]

module _ {N O F : Type 0} (r : Runtime N O) (get_path : F → Text → Value N O)
    (graph : VaultGraph) where
  compile_all-Holds :
      (conds : List (Cond N O)) (tests : List (Entry F → Bool)) (entry : Entry F)
      → compile_all r get_path graph conds ≡ ok tests
      → (all (λ test. test entry) tests ≡ true) ↔ All (Holds r get_path graph entry) conds
  unfolding compile_all
  compile_all-Holds [] tests entry e =
      let none_left : [] ≡ tests = cc in rw (← none_left) (λ h. tt, λ h. refl)
  compile_all-Holds (cond ∷ conds) tests entry e =
      let (test, compiled, e') =
        >>=-eq-ok (compile_cond r cond.op cond.value)
          (λ test. compile_all r get_path graph conds >>= λ tests.
            ok ((λ entry. test (field_value r get_path entry graph cond.field)) ∷ tests))
          e in
      let (others, at, e'') =
        >>=-eq-ok (compile_all r get_path graph conds)
          (λ tests. ok ((λ entry. test (field_value r get_path entry graph cond.field)) ∷ tests))
          e' in
      let all_of : (λ entry. test (field_value r get_path entry graph cond.field)) ∷ others
          ≡ tests =
        cc in
      let ih = compile_all-Holds conds others entry at in
      rw (← all_of) (
        λ h. ((test, compiled, ground arith), ih.0 (ground arith)),
        λ ((test', compiled', holds), later).
            let one : ok test' ≡ ok test = sym compiled' ∙ compiled in
            let one : test' ≡ test = cc in
            let now : test (field_value r get_path entry graph cond.field) ≡ true =
              rw (← one) holds in
            rw (now, ih.1 later) refl,
      )

  -- The tests of `matchEntries` together.
  pub passes-Fits :
      (q : Query N O) (tests : List (Entry F → Bool)) (entry : Entry F)
      → compile_all r get_path graph q.conds ≡ ok tests
      → (passes r get_path graph q tests entry ≡ true) ↔ Fits r get_path graph q entry
  unfolding passes
  passes-Fits q tests entry e =
      let folder = matches_path_prefix-InFolder entry.path q.path_prefix in
      let tagged = passes_tag_filters-TagsFit r.lower entry.tags q.tags in
      let held = compile_all-Holds q.conds tests entry e in
      (
        λ h. record {
          in_folder = folder.0 (ground arith);
          tags_fit = tagged.0 (ground arith);
          conditions_hold = held.0 (ground arith);
        },
        λ f. rw (folder.1 f.in_folder, tagged.1 f.tags_fit, held.1 f.conditions_hold) refl,
      )

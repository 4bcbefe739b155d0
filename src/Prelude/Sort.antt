-- ===== src/Prelude/Sort.antt =====
-- The stable sort of `Array.prototype.sort` by a number of each element.
use brainstem_mcp.Prelude.{
  All, Bool, Bool-cases, List, Text, [], arith, false, filter, if◌then◌else◌, inl, inr, ltb, map,
  refl, subst, text_eq, text_eq-eq, text_eq_iff, text_eq_refl, true, ℕ, ◌&&◌, ◌++◌, ◌==◌, ◌||◌, ◌∷◌,
  ◌≡◌,
}

module _ {ℓ} {A : Type ℓ} (key : A → ℕ) where
  -- Puts an element behind those that are not larger.
  unfoldable pub insert_by : A → List A → List A
  insert_by x [] = x ∷ []
  insert_by x (y ∷ ys) = if ltb (key x) (key y) then x ∷ y ∷ ys else y ∷ insert_by x ys

  sort_into : List A → List A → List A
  unfolding insert_by
  sort_into done [] = done
  sort_into done (x ∷ xs) = sort_into (insert_by x done) xs

  unfoldable pub sort_by : List A → List A
  unfolding sort_into
  sort_by xs = sort_into [] xs

-- `<` on strings: by code units.
unfoldable pub text_lt : Text → Text → Bool
text_lt s [] = false
text_lt [] (_ ∷ _) = true
text_lt (a ∷ s) (b ∷ t) = ltb a b || (a == b && text_lt s t)

unfoldable pub insert_text : Text → List Text → List Text
unfolding text_lt
insert_text p [] = p ∷ []
insert_text p (q ∷ qs) = if text_lt p q then p ∷ q ∷ qs else q ∷ insert_text p qs

-- `sort()` of an array of strings.
unfoldable pub sort_texts : List Text → List Text
unfolding insert_text
sort_texts [] = []
sort_texts (p ∷ ps) = insert_text p (sort_texts ps)

unfoldable pub member : Text → List Text → Bool
member p [] = false
member p (q ∷ qs) = text_eq q p || member p qs

unfoldable pub without : Text → List Text → List Text
without p [] = []
without p (q ∷ qs) = let rest = without p qs in if text_eq q p then rest else q ∷ rest

-- `[...new Set(ps)]`: the first of equal texts stays.
unfoldable pub unique : List Text → List Text
unfolding without
unique [] = []
unique (p ∷ ps) = p ∷ without p (unique ps)

member-insert_text :
    (p q : Text) (qs : List Text) → member p (insert_text q qs) ≡ (text_eq q p || member p qs)
unfolding member insert_text
member-insert_text p q [] = refl
member-insert_text p q (r ∷ qs) = ground (arith, member-insert_text p q qs)

pub member-sort_texts : (p : Text) (ps : List Text) → member p (sort_texts ps) ≡ member p ps
unfolding sort_texts member
member-sort_texts p [] = refl
member-sort_texts p (q ∷ ps) =
    ground (arith, member-insert_text p q (sort_texts ps), member-sort_texts p ps)

member-without :
    (p q : Text) (qs : List Text) → text_eq q p ≡ false → member p (without q qs) ≡ member p qs
unfolding member without
member-without p q [] h = refl
member-without p q (r ∷ qs) h =
    ground (arith, member-without p q qs h, text_eq_iff r q, text_eq_iff r p, text_eq_iff q p)

pub member-unique : (p : Text) (ps : List Text) → member p (unique ps) ≡ member p ps
unfolding unique member
member-unique p [] = refl
member-unique p (q ∷ ps) = ground (arith, member-without p q (unique ps), member-unique p ps)

module _ {κ} (P : Text → Type κ) where
  pub All-from : (ps : List Text) → ((p : Text) → member p ps ≡ true → P p) → All P ps
  unfolding member
  All-from [] h = tt
  All-from (p ∷ ps) h =
      (h p (ground (arith, text_eq_refl p)), All-from ps λ q m. h q (ground (arith, m)))

  pub All-member : (ps : List Text) → All P ps → (p : Text) → member p ps ≡ true → P p
  unfolding member
  All-member [] h p m = cc
  All-member (q ∷ ps) h p m = elim (Bool-cases (text_eq q p)) [
    | inl e ↦ subst P (text_eq-eq q p e) h.0
    | inr e ↦ All-member ps h.1 p (rw e at m)
  ]

pub member-append :
    (p : Text) (ps qs : List Text) → member p (ps ++ qs) ≡ (member p ps || member p qs)
unfolding member
member-append p [] qs = refl
member-append p (q ∷ ps) qs = ground (arith, member-append p ps qs)

-- No text twice.
abbrev pub NoDup : List Text → Type 0
NoDup [] = Unit
NoDup (p ∷ ps) = (member p ps ≡ false) × NoDup ps

pub NoDup-snoc :
    (ps : List Text) (p : Text) → NoDup ps → member p ps ≡ false → NoDup (ps ++ (p ∷ []))
unfolding member
NoDup-snoc [] p h m = (refl, tt)
NoDup-snoc (q ∷ ps) p h m = (
  ground (arith, member-append q ps (p ∷ []), text_eq_iff p q, text_eq_iff q p, text_eq_refl q),
  NoDup-snoc ps p h.1 (ground arith),
)

module _ {A : Type 0} (f : A → Text) (keep : A → Bool) where
  pub member-filter :
      (p : Text) (xs : List A)
      → member p (map f xs) ≡ false
      → member p (map f (filter keep xs)) ≡ false
  unfolding member
  member-filter p [] h = refl
  member-filter p (x ∷ xs) h = elim (Bool-cases (keep x)) [
    | inl e ↦ rw e (ground (arith, member-filter p xs))
    | inr e ↦ rw e (member-filter p xs (ground arith))
  ]

  pub NoDup-filter : (xs : List A) → NoDup (map f xs) → NoDup (map f (filter keep xs))
  NoDup-filter [] h = tt
  NoDup-filter (x ∷ xs) h = elim (Bool-cases (keep x)) [
    | inl e ↦ rw e (member-filter (f x) xs h.0, NoDup-filter xs h.1)
    | inr e ↦ rw e (NoDup-filter xs h.1)
  ]

-- ===== src/Prelude/Order.antt =====
-- The order of texts by code units, and lists that ascend in it.
use brainstem_mcp.Prelude.{
  All, All-map, Bool-cases, List, Text, [], arith, false, inl, inr, refl, text_eq, true, ◌∙◌, ◌∷◌,
  ◌≡◌,
}
use brainstem_mcp.Prelude.Sort.{
  NoDup, insert_text, member, member-sort_texts, sort_texts, text_lt, unique, without,
}

pub text_lt_trans : (s t u : Text) → text_lt s t ≡ true → text_lt t u ≡ true → text_lt s u ≡ true
unfolding text_lt
text_lt_trans s t [] h k = cc
text_lt_trans [] t (c ∷ u) h k = refl
text_lt_trans (a ∷ s) [] (c ∷ u) h k = cc
text_lt_trans (a ∷ s) (b ∷ t) (c ∷ u) h k = ground (arith, text_lt_trans s t u)

pub text_lt_total : (s t : Text) → text_lt s t ≡ false → text_eq t s ≡ false → text_lt t s ≡ true
unfolding text_lt
text_lt_total [] [] h e = cc
text_lt_total [] (b ∷ t) h e = cc
text_lt_total (a ∷ s) [] h e = refl
text_lt_total (a ∷ s) (b ∷ t) h e = ground (arith, text_lt_total s t)

-- Strictly ascending.
abbrev pub Ascending : List Text → Type 0
Ascending [] = Unit
Ascending (p ∷ ps) = All (λ q. text_lt p q ≡ true) ps × Ascending ps

insert-above :
    (b p : Text) (ps : List Text)
    → text_lt b p ≡ true
    → All (λ q. text_lt b q ≡ true) ps
    → All (λ q. text_lt b q ≡ true) (insert_text p ps)
unfolding insert_text
insert-above b p [] h a = (h, tt)
insert-above b p (q ∷ ps) h a = elim (Bool-cases (text_lt p q)) [
  | inl e ↦ rw e (h, a)
  | inr e ↦ rw e (a.0, insert-above b p ps h a.1)
]

insert-Ascending :
    (p : Text) (ps : List Text) → Ascending ps → member p ps ≡ false → Ascending (insert_text p ps)
unfolding insert_text member
insert-Ascending p [] a m = (tt, tt)
insert-Ascending p (q ∷ ps) a m = elim (Bool-cases (text_lt p q)) [
  | inl e ↦ rw e ((e, All-map ps (λ r h. text_lt_trans p q r e h) a.0), a)
  | inr e ↦
      let other : text_eq q p ≡ false = ground arith in
      rw e (
        insert-above q p ps (text_lt_total p q e other) a.0,
        insert-Ascending p ps a.1 (rw other at m),
      )
]

pub sort_texts-Ascending : (ps : List Text) → NoDup ps → Ascending (sort_texts ps)
unfolding sort_texts
sort_texts-Ascending [] h = tt
sort_texts-Ascending (p ∷ ps) h =
    insert-Ascending p (sort_texts ps) (sort_texts-Ascending ps h.1) (member-sort_texts p ps ∙ h.0)

member-without :
    (p q : Text) (ps : List Text) → member q ps ≡ false → member q (without p ps) ≡ false
unfolding member without
member-without p q [] h = refl
member-without p q (r ∷ ps) h = ground (arith, member-without p q ps)

without-gone : (p : Text) (ps : List Text) → member p (without p ps) ≡ false
unfolding member without
without-gone p [] = refl
without-gone p (r ∷ ps) = ground (arith, without-gone p ps)

without-NoDup : (p : Text) (ps : List Text) → NoDup ps → NoDup (without p ps)
unfolding without
without-NoDup p [] h = tt
without-NoDup p (r ∷ ps) h = elim (Bool-cases (text_eq r p)) [
  | inl e ↦ rw e (without-NoDup p ps h.1)
  | inr e ↦ rw e (member-without p r ps h.0, without-NoDup p ps h.1)
]

pub unique-NoDup : (ps : List Text) → NoDup (unique ps)
unfolding unique
unique-NoDup [] = tt
unique-NoDup (p ∷ ps) = (without-gone p (unique ps), without-NoDup p (unique ps) (unique-NoDup ps))

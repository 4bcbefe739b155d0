-- ===== src/Storage/TextDiff/Laws.antt =====
-- src/storage/text-diff.ts: a patch replaces the one place where its text stands.
use brainstem_mcp.Prelude.{
  &&-true, ==_iff, Bool-cases, Text, [], ap, ap₂, arith, drop, false, if◌then◌else◌, inl, inr,
  is_empty, length, not, refl, starts_with, subst, sym, true, ℕ, ◌++◌, ◌+◌, ◌==◌, ◌∙◌, ◌∷◌, ◌≡◌,
  ◌≤◌, ◌⊎◌,
}
use brainstem_mcp.Storage.TextDiff.{TextPatch, apply_patch, count_occurrences, replace_first}
use brainstem_mcp.Storage.Types.{invalid_input, ok, reject_if, reject_if-eq-ok, ◌>>◌}

starts_with-split : (s n : Text) → starts_with s n ≡ true → s ≡ n ++ drop (length n) s
starts_with-split s [] h = refl
starts_with-split [] (c ∷ n) h = cc
starts_with-split (d ∷ s) (c ∷ n) h =
    let (same, rest) = &&-true (d == c) (starts_with s n) h in
    ap₂ ◌∷◌ ((==_iff d c).0 same) (starts_with-split s n rest)

starts_with-append : (n a : Text) → starts_with (n ++ a) n ≡ true
starts_with-append [] a = refl
starts_with-append (c ∷ n) a = ground (arith, starts_with-append n a)

module _ (c : ℕ) (rest : Text) where
  -- The text to find, which is not empty.
  abbrev n : Text
  n = c ∷ rest

  count-cons :
      (d : ℕ) (s : Text)
      → (starts_with (d ∷ s) n ≡ true × count_occurrences n (d ∷ s) ≡ 1 + count_occurrences n s)
        ⊎ (starts_with (d ∷ s) n ≡ false × count_occurrences n (d ∷ s) ≡ count_occurrences n s)
  unfolding count_occurrences
  count-cons d s = elim (Bool-cases (starts_with (d ∷ s) n)) [
    | inl e ↦ inl (e, omega (arith, ap (λ t. (if t then 1 else 0) + count_occurrences n s) e))
    | inr e ↦ inr (e, omega (arith, ap (λ t. (if t then 1 else 0) + count_occurrences n s) e))
  ]

  -- A text that contains it counts it.
  count-found : (b a : Text) → 1 ≤ count_occurrences n (b ++ (n ++ a))
  count-found [] a = elim (count-cons c (rest ++ a)) [
    | inl (e, k) ↦ omega arith
    | inr (e, k) ↦ let no : true ≡ false = sym (starts_with-append n a) ∙ e in cc
  ]
  count-found (x ∷ b) a = elim (count-cons x (b ++ (n ++ a))) [
    | inl (e, k) ↦ omega arith
    | inr (e, k) ↦ omega (arith, count-found b a)
  ]

  -- Two places are too many.
  two_places :
      {A : Type 0} (a b a' : Text)
      → rest ++ a ≡ b ++ (n ++ a')
      → count_occurrences n (n ++ a) ≡ 1
      → A
  two_places a b a' t k = elim (count-cons c (rest ++ a)) [
    | inl (e, m) ↦
        let no : 1 ≤ count_occurrences n (rest ++ a) =
          subst (λ s. 1 ≤ count_occurrences n s) (sym t) (count-found b a') in
        absurd (omega arith)
    | inr (e, m) ↦ let no : true ≡ false = sym (starts_with-append n a) ∙ e in cc
  ]

  replace_first-split :
      (by s : Text)
      → 1 ≤ count_occurrences n s
      → (b a : Text) × (s ≡ b ++ (n ++ a)) × (replace_first n by s ≡ b ++ (by ++ a))
  unfolding count_occurrences replace_first
  replace_first-split by [] h = ground arith
  replace_first-split by (d ∷ s) h = elim (count-cons d s) [
    | inl (e, k) ↦
        ([], drop (length rest) s, starts_with-split (d ∷ s) n e, rw (e, replace_first) refl)
    | inr (e, k) ↦
        let (b, a, p, q) = replace_first-split by s (omega arith) in
        (d ∷ b, a, ap (◌∷◌ d) p, rw (e, replace_first) (ap (◌∷◌ d) q))
  ]

  one_place :
      (b a b' a' : Text)
      → b ++ (n ++ a) ≡ b' ++ (n ++ a')
      → count_occurrences n (b ++ (n ++ a)) ≡ 1
      → b ≡ b'
  one_place [] a [] a' h k = refl
  one_place [] a (x ∷ b') a' h k =
      let t : rest ++ a ≡ b' ++ (n ++ a') = cc in two_places a b' a' t k
  one_place (x ∷ b) a [] a' h k =
      let t : rest ++ a' ≡ b ++ (n ++ a) = cc in
      two_places a' b a t (ap (count_occurrences n) (sym h) ∙ k)
  one_place (x ∷ b) a (y ∷ b') a' h k =
      let head : x ≡ y = cc in
      let tail : b ++ (n ++ a) ≡ b' ++ (n ++ a') = cc in
      ap₂ ◌∷◌ head (
        one_place b a b' a' tail (elim (count-cons x (b ++ (n ++ a))) [
          | inl (e, m) ↦ omega (arith, count-found b a)
          | inr (e, m) ↦ omega arith
        ]))

replaces :
    (find by current next : Text)
    → (reject_if (is_empty find) invalid_input
        >> (reject_if (not (count_occurrences find current == 1)) invalid_input
            >> ok (replace_first find by current)))
      ≡ ok next
    → (b a : Text) × (current ≡ b ++ (find ++ a))
      × (next ≡ b ++ (by ++ a))
      × (count_occurrences find current ≡ 1)
      × (is_empty find ≡ false)
replaces [] by current next h = cc
replaces (c ∷ f) by current next h =
    let (t, q) =
      reject_if-eq-ok (not (count_occurrences (c ∷ f) current == 1)) invalid_input
        (ok (replace_first (c ∷ f) by current)) h in
    let one : count_occurrences (c ∷ f) current ≡ 1 = ground arith in
    let (b, a, e, r) = replace_first-split c f by current (omega arith) in
    let same : replace_first (c ∷ f) by current ≡ next = cc in (b, a, e, sym same ∙ r, one, refl)

-- A patch that is applied replaces one stretch of the text by another and keeps what is before
-- and after it.
apply_patch-finds :
    (current next : Text) (p : TextPatch)
    → apply_patch current p ≡ ok next
    → (b a : Text) × (current ≡ b ++ (p.find ++ a)) × (next ≡ b ++ (p.replace ++ a))
unfolding apply_patch
apply_patch-finds current next p h =
    let (b, a, e, r, _, _) = replaces p.find p.replace current next h in (b, a, e, r)

same_end : (find b a a' : Text) → b ++ (find ++ a) ≡ b ++ (find ++ a') → a ≡ a'
same_end [] [] a a' h = h
same_end (c ∷ f) [] a a' h = let t : f ++ a ≡ f ++ a' = cc in same_end f [] a a' t
same_end f (c ∷ b) a a' h = let t : b ++ (f ++ a) ≡ b ++ (f ++ a') = cc in same_end f b a a' t

-- Wherever the text to find is seen to stand, that is the place which the patch replaces.
pub apply_patch-replaces :
    (current next b a : Text) (p : TextPatch)
    → apply_patch current p ≡ ok next
    → current ≡ b ++ (p.find ++ a)
    → next ≡ b ++ (p.replace ++ a)
unfolding apply_patch
apply_patch-replaces current next b a p h e =
    let (b', a', e', r, one, full) = replaces p.find p.replace current next h in
    unique_place p.find p.replace b a b' a' (sym e ∙ e') full
      (subst (λ s. count_occurrences p.find s ≡ 1) e one) r
  where
    unique_place :
        (find by b a b' a' : Text)
        → b ++ (find ++ a) ≡ b' ++ (find ++ a')
        → is_empty find ≡ false
        → count_occurrences find (b ++ (find ++ a)) ≡ 1
        → next ≡ b' ++ (by ++ a')
        → next ≡ b ++ (by ++ a)
    unique_place [] by b a b' a' q full k r = cc
    unique_place (c ∷ f) by b a b' a' q full k r =
        let same : b ≡ b' = one_place c f b a b' a' q k in
        let ends : a' ≡ a = same_end (c ∷ f) b' a' a (sym q ∙ ap (λ x. x ++ ((c ∷ f) ++ a)) same) in
        rw (same, ← ends) r

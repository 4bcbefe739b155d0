-- ===== src/Vault/Budget/Prefix.antt =====
-- src/vault/budget.ts: `prefixWithinSerialized` ends, and what it returns is within the bound.
use brainstem_mcp.Prelude.{
  Bool, Bool-cases, Option-cases, Text, [], ap, arith, false, get_elem?, inl, inr, leb, leb→le,
  length, ltb, ltb→lt, none, refl, some, subst, suc, sym, take, true, zero, ℕ, ◌&&◌, ◌++◌, ◌+◌, ◌-◌,
  ◌/◌, ◌<◌, ◌∷◌, ◌≡◌, ◌≤◌,
}
use brainstem_mcp.Vault.Budget.{
  body_length, is_high, is_low, json_length, prefix_within_serialized, search_cut, unit_length,
  whole_pairs,
}

-- The search ends within as many rounds as it has units to choose from, and its cut fits.
search_cut-fits :
    (fuel : ℕ) (text : Text) (max low high : ℕ)
    → high ≤ fuel + low
    → json_length (take low text) ≤ max
    → low ≤ high
    → (cut : ℕ) × (search_cut fuel text max low high ≡ some cut)
      × (json_length (take cut text) ≤ max)
      × (cut ≤ high)
unfolding search_cut
search_cut-fits zero text max low high enough fits le = (low, ground arith, fits, le)
search_cut-fits (suc fuel) text max low high enough fits le = elim (Bool-cases (ltb low high)) [
  | inr e ↦ (low, rw (e, search_cut) refl, fits, le)
  | inl e ↦
      let lt : low < high = ltb→lt low high e in
      let mid : ℕ = (low + high + 1) / 2 in
      let above : low < mid = omega arith in
      let below : mid ≤ high = omega arith in
      elim (Bool-cases (leb (json_length (take mid text)) max)) [
        | inl f ↦
            let (cut, q, r, t) =
              search_cut-fits fuel text max mid high (omega arith) (leb→le _ _ f) below in
            (cut, rw (e, f, search_cut) q, r, t)
        | inr f ↦
            let (cut, q, r, t) =
              search_cut-fits fuel text max low (mid - 1) (omega arith) fits (omega arith) in
            (cut, rw (e, f, search_cut) q, r, omega arith)
      ]
]

high-low : (c : ℕ) → is_high c ≡ true → is_low c ≡ false
unfolding is_high is_low
high-low c h = ground arith

unit_length-pos : (c : ℕ) → 1 ≤ unit_length c
unfolding unit_length
unit_length-pos c = ground arith

empty_fits : {max : ℕ} → 2 ≤ max → json_length (take 0 []) ≤ max
unfolding json_length
empty_fits h = h

-- A high surrogate at the end stands alone.
body_length-snoc :
    (s : Text) (c : ℕ) → is_high c ≡ true → body_length s ≤ body_length (s ++ (c ∷ []))
unfolding body_length
body_length-snoc [] c h = omega arith
body_length-snoc (a ∷ []) c h =
    let up : is_low c ≡ false = high-low c h in ground (arith, unit_length-pos c)
body_length-snoc (a ∷ b ∷ s) c h =
    ground (arith, body_length-snoc s c h, body_length-snoc (b ∷ s) c h)

-- The cut falls between the halves of a pair.
unfoldable pub splits_pair : ℕ → Text → Bool
splits_pair (suc zero) (c ∷ d ∷ s) = is_high c && is_low d
splits_pair (suc (suc n)) (c ∷ s) = splits_pair (suc n) s
splits_pair _ _ = false

splits-none : (n : ℕ) (s : Text) → get_elem? s n ≡ none → splits_pair (suc n) s ≡ false
unfolding splits_pair
splits-none zero [] h = refl
splits-none (suc n) [] h = refl
splits-none zero (c ∷ s) h = cc
splits-none (suc n) (c ∷ s) h = splits-none n s h

splits-plain :
    (n c : ℕ) (s : Text)
    → get_elem? s n ≡ some c
    → is_high c ≡ false
    → splits_pair (suc n) s ≡ false
unfolding splits_pair
splits-plain n c [] h e = cc
splits-plain zero c (d ∷ []) h e = refl
splits-plain zero c (d ∷ b ∷ s) h e = let same : d ≡ c = cc in rw (same, e) refl
splits-plain (suc n) c (d ∷ s) h e = splits-plain n c s h e

splits-high :
    (n c : ℕ) (s : Text) → get_elem? s n ≡ some c → is_high c ≡ true → splits_pair n s ≡ false
unfolding splits_pair
splits-high zero c s h e = refl
splits-high (suc n) c [] h e = cc
splits-high (suc zero) c (d ∷ []) h e = refl
splits-high (suc zero) c (d ∷ b ∷ s) h e =
    let same : b ≡ c = cc in rw (same, high-low c e) (ground arith)
splits-high (suc (suc n)) c (d ∷ s) h e = splits-high (suc n) c s h e

take-snoc : (n c : ℕ) (s : Text) → get_elem? s n ≡ some c → take (suc n) s ≡ take n s ++ (c ∷ [])
take-snoc n c [] h = cc
take-snoc zero c (d ∷ s) h = let same : d ≡ c = cc in ap (λ x. x ∷ []) same
take-snoc (suc n) c (d ∷ s) h = ap (◌∷◌ d) (take-snoc n c s h)

take-all : (s : Text) → take (length s) s ≡ s
take-all [] = refl
take-all (c ∷ s) = ap (◌∷◌ c) (take-all s)

splits-all : (s : Text) → splits_pair (length s) s ≡ false
unfolding splits_pair
splits-all [] = refl
splits-all (c ∷ []) = refl
splits-all (c ∷ d ∷ s) = splits-all (d ∷ s)

drop_last :
    (s : Text) (c max : ℕ)
    → is_high c ≡ true
    → json_length (s ++ (c ∷ [])) ≤ max
    → json_length s ≤ max
unfolding json_length
drop_last s c max up h = omega (arith, body_length-snoc s c up)

-- Going back over the first half of a pair makes the text no longer and splits nothing.
whole_pairs-fits :
    (text : Text) (low max : ℕ)
    → json_length (take low text) ≤ max
    → (json_length (take (whole_pairs text low) text) ≤ max)
      × (splits_pair (whole_pairs text low) text ≡ false)
unfolding splits_pair whole_pairs
whole_pairs-fits text zero max h = (h, refl)
whole_pairs-fits text (suc low) max h = elim (Option-cases (get_elem? text low)) [
  | inl e ↦ rw (e, whole_pairs) (h, splits-none low text e)
  | inr (c, e) ↦ elim (Bool-cases (is_high c)) [
    | inl up ↦
        rw (e, up, whole_pairs)
          (shorter low c (take-snoc low c text e) up h, splits-high low c text e up)
    | inr plain ↦ rw (e, plain, whole_pairs) (h, splits-plain low c text e plain)
  ]
]
  where
    shorter :
        (low c : ℕ)
        → take (suc low) text ≡ take low text ++ (c ∷ [])
        → is_high c ≡ true
        → json_length (take (suc low) text) ≤ max
        → json_length (take low text) ≤ max
    shorter low c e up h = drop_last (take low text) c max up (subst (λ s. json_length s ≤ max) e h)

-- With room for the quotes the search returns a prefix of the text whose JSON is within the bound
-- and which does not end between the halves of a pair.
pub prefix_within_serialized-fits :
    (text : Text) (max : ℕ)
    → 2 ≤ max
    → (n : ℕ) × (prefix_within_serialized text max ≡ some (take n text))
      × (json_length (take n text) ≤ max)
      × (splits_pair n text ≡ false)
unfolding prefix_within_serialized
prefix_within_serialized-fits text max room = elim (Bool-cases (leb (json_length text) max)) [
  | inl e ↦ (
    length text,
    rw (e, prefix_within_serialized) (ap some (sym (take-all text))),
    rw (take-all text) (leb→le _ _ e),
    splits-all text,
  )
  | inr e ↦
      let (cut, q, fits, _) =
        search_cut-fits (length text) text max 0 (length text) (omega arith) (empty_fits room)
          (omega arith) in
      let (fits, whole) = whole_pairs-fits text cut max fits in
      (whole_pairs text cut, rw (e, q, prefix_within_serialized) refl, fits, whole)
]

-- ===== src/Vault/Budget/Laws.antt =====
-- src/vault/budget.ts: the lists that are kept fit, in order, and lose nothing that fits.
use brainstem_mcp.Prelude.{
  Bool, Bool-cases, List, [], ap, arith, false, if◌then◌else◌, inl, inr, length, ltb, refl, sym,
  true, ℕ, ◌*◌, ◌+◌, ◌-◌, ◌/◌, ◌∙◌, ◌∷◌, ◌≡◌, ◌≤◌,
}
use brainstem_mcp.Vault.Budget.{array_length, fit_from, fit_in_order, fit_within_budget}
use native.Mathlib.Nat.{le-div_iff_mul-le, mul-div-le, mul-le-mul_left}

-- An equal share of what is left, with room for brackets, leaves the others as much.
share_fits : (n rem : ℕ) → 2 * (1 + n) ≤ rem → (2 ≤ rem / (1 + n)) × (rem / (1 + n) + 2 * n ≤ rem)
share_fits n rem h =
    let two : 2 ≤ rem / (1 + n) =
      (le-div_iff_mul-le {k = 1 + n} {x = 2} {y = rem} (omega arith)).1 h in
    let all_shares : (1 + n) * (rem / (1 + n)) ≤ rem = mul-div-le rem (1 + n) in
    let others : n * 2 ≤ n * (rem / (1 + n)) = mul-le-mul_left n two in (two, omega arith)

module _ {A : Type 0} (size : A → ℕ) where
  -- What the items kept from here on add to the length of the JSON so far.
  unfoldable pub added : Bool → List A → ℕ
  added any_kept [] = 0
  added any_kept (x ∷ xs) = size x + (if any_kept then 1 else 0) + added true xs

  added-array : (x : A) (xs : List A) → array_length size (x ∷ xs) ≡ 2 + (size x + added true xs)
  unfolding added array_length
  added-array x [] = omega arith
  added-array x (y ∷ xs) = omega (arith, added-array y xs)

  fit_from-fits :
      (budget used : ℕ) (any_kept cut : Bool) (items : List A)
      → used ≤ budget
      → used + added any_kept (fit_from size budget used any_kept cut items).0 ≤ budget
  unfolding fit_from added
  fit_from-fits budget used k cut [] h = omega arith
  fit_from-fits budget used k cut (x ∷ xs) h = elim (Bool-cases (ltb budget (size x + 2))) [
    | inl e ↦ rw (e, fit_from) (fit_from-fits budget used k true xs h)
    | inr e ↦ elim (Bool-cases (ltb budget (used + (size x + (if k then 1 else 0))))) [
      | inl f ↦ rw (e, f, fit_from) (omega arith)
      | inr f ↦
          let room : used + (size x + (if k then 1 else 0)) ≤ budget = ground arith in
          rw (e, f, fit_from)
            (omega (
              arith,
              fit_from-fits budget (used + (size x + (if k then 1 else 0))) true cut xs room,
            ))
    ]
  ]

  array_length-added : (xs : List A) → array_length size xs ≡ 2 + added false xs
  unfolding array_length added
  array_length-added [] = omega arith
  array_length-added (x ∷ xs) = omega (arith, added-array x xs)

  -- What is kept fits, where the brackets do.
  pub fit_within_budget-fits :
      (items : List A) (budget : ℕ)
      → 2 ≤ budget
      → array_length size (fit_within_budget size items budget).0 ≤ budget
  unfolding fit_within_budget
  fit_within_budget-fits items budget h = omega (
    arith,
    array_length-added (fit_from size budget 2 false false items).0,
    fit_from-fits budget 2 false false items h,
  )

  fit_from-cut :
      (budget used : ℕ) (any_kept : Bool) (items : List A)
      → (fit_from size budget used any_kept true items).1 ≡ true
  unfolding fit_from
  fit_from-cut budget used k [] = refl
  fit_from-cut budget used k (x ∷ xs) = elim (Bool-cases (ltb budget (size x + 2))) [
    | inl e ↦ rw (e, fit_from) (fit_from-cut budget used k xs)
    | inr e ↦ elim (Bool-cases (ltb budget (used + (size x + (if k then 1 else 0))))) [
      | inl f ↦ rw (e, f, fit_from) refl
      | inr f ↦
          rw (e, f, fit_from) (fit_from-cut budget (used + (size x + (if k then 1 else 0))) true xs)
    ]
  ]

  fit_from-whole :
      (budget used : ℕ) (any_kept : Bool) (items : List A)
      → (fit_from size budget used any_kept false items).1 ≡ false
      → (fit_from size budget used any_kept false items).0 ≡ items
  unfolding fit_from
  fit_from-whole budget used k [] h = refl
  fit_from-whole budget used k (x ∷ xs) h = elim (Bool-cases (ltb budget (size x + 2))) [
    | inl e ↦
        let no : true ≡ false = sym (fit_from-cut budget used k xs) ∙ rw (e, fit_from) at h in cc
    | inr e ↦ elim (Bool-cases (ltb budget (used + (size x + (if k then 1 else 0))))) [
      | inl f ↦ let no : true ≡ false = rw (e, f, fit_from) at h in cc
      | inr f ↦
          rw (e, f, fit_from)
            (ap (◌∷◌ x) (
              fit_from-whole budget (used + (size x + (if k then 1 else 0))) true xs
                (rw (e, f, fit_from) at h)))
    ]
  ]

  fit_from-all :
      (budget used : ℕ) (any_kept : Bool) (items : List A)
      → 2 ≤ used
      → used + added any_kept items ≤ budget
      → fit_from size budget used any_kept false items ≡ (items, false)
  unfolding fit_from added
  fit_from-all budget used k [] low h = refl
  fit_from-all budget used k (x ∷ xs) low h =
      let e : ltb budget (size x + 2) ≡ false = ground arith in
      let f : ltb budget (used + (size x + (if k then 1 else 0))) ≡ false = ground arith in
      rw (e, f, fit_from)
        (ap (λ (r : List A × Bool). (x ∷ r.0, r.1))
          (fit_from-all budget (used + (size x + (if k then 1 else 0))) true xs (omega arith)
            (omega arith)))

  -- A list whose whole JSON fits the budget is kept whole, and `cut` says so.
  fit_within_budget-whole :
      (items : List A) (budget : ℕ)
      → array_length size items ≤ budget
      → fit_within_budget size items budget ≡ (items, false)
  unfolding fit_within_budget
  fit_within_budget-whole items budget h =
      fit_from-all budget 2 false items (omega arith) (omega (arith, array_length-added items))

  -- Where `cut` is false, every item is kept.
  fit_within_budget-cut :
      (items : List A) (budget : ℕ)
      → (fit_within_budget size items budget).1 ≡ false
      → (fit_within_budget size items budget).0 ≡ items
  unfolding fit_within_budget
  fit_within_budget-cut items budget h = fit_from-whole budget 2 false items h

  unfoldable pub total_length : List (ℕ × List A × Bool) → ℕ
  total_length [] = 0
  total_length ((i, kept, cut) ∷ rs) = array_length size kept + total_length rs

  -- Several lists: the arrays that are kept are together within the budget, if it has room for
  -- their brackets.
  fit_in_order-fits :
      (lists : List (ℕ × List A)) (remaining : ℕ)
      → 2 * length lists ≤ remaining
      → total_length (fit_in_order size lists remaining) ≤ remaining
  unfolding total_length fit_in_order
  fit_in_order-fits [] remaining h = omega arith
  fit_in_order-fits ((i, list) ∷ lists) remaining h =
      let share = remaining / (1 + length lists) in
      let (two, rest) = share_fits (length lists) remaining (omega arith) in
      let one : array_length size (fit_within_budget size list share).0 ≤ share =
        fit_within_budget-fits list share two in
      omega (
        arith,
        fit_in_order-fits lists
            (remaining - array_length size (fit_within_budget size list share).0) (omega arith),
      )

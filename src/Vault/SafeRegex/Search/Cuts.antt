-- ===== src/Vault/SafeRegex/Search/Cuts.antt =====
-- src/vault/safe-regex.ts: the threads before the first match, in the order of priority.
use brainstem_mcp.Prelude.{
  All, Bool-cases, List, [], ap, ap₂, arith, false, get_elem?, inl, inr, length, refl, some, subst,
  suc, sym, true, zero, ℕ, ◌++◌, ◌∙◌, ◌∷◌, ◌≡◌, ◌≤◌, ◌⊎◌,
}
use brainstem_mcp.Vault.SafeRegex.Language.{Texts}
use brainstem_mcp.Vault.SafeRegex.Matcher.{is_match}
use brainstem_mcp.Vault.SafeRegex.Matcher.Stopped.{end_accepts, match_at}
use brainstem_mcp.Vault.SafeRegex.Nfa.{States}
use brainstem_mcp.Vault.SafeRegex.Nfa.Accepts.{Accepts-at, Accepts_none, Accepts_of}
use brainstem_mcp.Vault.SafeRegex.Search.{ThreadList, cut, match_start}
use brainstem_mcp.Vault.SafeRegex.Search.Lists.{SortedFrom, UpTo}
use brainstem_mcp.Vault.SafeRegex.Search.Threads.{Covers, Kept}

pub append_cancel : (a x y : List ℕ) → a ++ x ≡ a ++ y → x ≡ y
append_cancel [] x y e = e
append_cancel (c ∷ a) x y e = append_cancel a x y (ap rest e)
  where
    rest : List ℕ → List ℕ
    rest [] = []
    rest (_ ∷ s) = s

pub append_same : (a b x y : List ℕ) → length a ≡ length b → a ++ x ≡ b ++ y → a ≡ b
append_same [] [] x y h e = refl
append_same [] (d ∷ b) x y h e = absurd (omega arith)
append_same (c ∷ a) [] x y h e = absurd (omega arith)
append_same (c ∷ a) (d ∷ b) x y h e =
    let heads : c ≡ d = cc in
    let tails : a ++ x ≡ b ++ y = cc in ap₂ ◌∷◌ heads (append_same a b x y (omega (arith, h)) tails)

Some-lower :
    (variants : ℕ → List ℕ) (states : States) (low bound : ℕ) (w : List ℕ) (threads : ThreadList)
    → SortedFrom low threads
    → Covers variants states bound w threads
    → low ≤ bound
Some-lower variants states low bound w [] o h = absurd h
Some-lower variants states low bound w (p ∷ threads) o (inl h) = omega (arith, o.0, h.0)
Some-lower variants states low bound w (p ∷ threads) o (inr h) =
    omega (arith, o.0, Some-lower variants states p.1 bound w threads o.1 h)

module _ (variants : ℕ → List ℕ) (states : States) where
  pub cut-All :
      (P : ℕ × ℕ → Type 0) (threads : ThreadList) → All P threads → All P (cut states threads)
  unfolding cut
  cut-All P [] h = tt
  cut-All P ((i, s) ∷ threads) h = elim (Bool-cases (is_match (get_elem? states i))) [
    | inl m ↦ rw (m, cut) tt
    | inr m ↦ rw (m, cut) (h.0, cut-All P threads h.1)
  ]

  pub cut-SortedFrom :
      (low : ℕ) (threads : ThreadList)
      → SortedFrom low threads
      → SortedFrom low (cut states threads)
  unfolding cut
  cut-SortedFrom low [] o = tt
  cut-SortedFrom low ((i, s) ∷ threads) o = elim (Bool-cases (is_match (get_elem? states i))) [
    | inl m ↦ rw (m, cut) tt
    | inr m ↦ rw (m, cut) (o.0, cut-SortedFrom s threads o.1)
  ]

  -- The threads before a match start no later than it does.
  pub cut-UpTo :
      (low start : ℕ) (threads : ThreadList)
      → SortedFrom low threads
      → match_start states threads ≡ some start
      → (low ≤ start) × UpTo start (cut states threads)
  unfolding cut match_start
  cut-UpTo low start [] o e = cc
  cut-UpTo low start ((i, s) ∷ threads) o e = elim (Bool-cases (is_match (get_elem? states i))) [
    | inl m ↦
        let same : s ≡ start = let found : some s ≡ some start = rw m at e in cc in
        rw (m, cut) (omega (arith, o.0, same), tt)
    | inr m ↦
        let (later, up) = cut-UpTo s start threads o.1 (rw m at e) in
        rw (m, cut) (omega (arith, o.0, later), (later, up))
  ]

  pub match_start-Kept :
      (L : ℕ → Texts) (start : ℕ) (threads : ThreadList)
      → All (Kept variants states L) threads
      → match_start states threads ≡ some start
      → L start []
  unfolding match_start
  match_start-Kept L start [] k e = cc
  match_start-Kept L start ((i, s) ∷ threads) k e =
      elim (Bool-cases (is_match (get_elem? states i))) [
        | inl m ↦
            let found : some s ≡ some start = rw m at e in
            let same : s ≡ start = cc in
            let accepted =
              Accepts_of variants states 0 i [] _ (match_at variants states (get_elem? states i) m)
                refl in
            subst (λ t. L t []) same (k.0.0 1 [] accepted)
        | inr m ↦ match_start-Kept L start threads k.1 (rw m at e)
      ]

  -- A covered text is matched by now, or has a character left and is still covered.
  pub cut-Covers :
      (L : ℕ → Texts) (low bound : ℕ) (w : List ℕ) (threads : ThreadList)
      → SortedFrom low threads
      → All (Kept variants states L) threads
      → Covers variants states bound w threads
      → ((start : ℕ) × (match_start states threads ≡ some start) × (start ≤ bound))
        ⊎ ((c : ℕ) × (v : List ℕ) × (w ≡ c ∷ v)
            × Covers variants states bound w (cut states threads))
  unfolding cut match_start
  cut-Covers L low bound w [] o k h = absurd h
  cut-Covers L low bound w ((i, s) ∷ threads) o k h =
      elim (Bool-cases (is_match (get_elem? states i))) [
        | inl m ↦ inl (s, rw m refl, first_start h)
        | inr m ↦ cases m w (λ a. cut-Covers L s bound w threads o.1 k.1 a) h
      ]
    where
      first_start : Covers variants states bound w ((i, s) ∷ threads) → s ≤ bound
      first_start (inl a) = a.0
      first_start (inr a) = Some-lower variants states s bound w threads o.1 a

      Outcome : List ℕ → Type 0
      Outcome x =
          ((start : ℕ) × (match_start states ((i, s) ∷ threads) ≡ some start) × (start ≤ bound))
          ⊎ ((c : ℕ) × (v : List ℕ) × (x ≡ c ∷ v)
              × Covers variants states bound x (cut states ((i, s) ∷ threads)))

      Later : List ℕ → Type 0
      Later x =
          ((start : ℕ) × (match_start states threads ≡ some start) × (start ≤ bound))
          ⊎ ((c : ℕ) × (v : List ℕ) × (x ≡ c ∷ v)
              × Covers variants states bound x (cut states threads))

      cases :
          is_match (get_elem? states i) ≡ false
          → (x : List ℕ) → (Covers variants states bound x threads → Later x)
          → Covers variants states bound x ((i, s) ∷ threads)
          → Outcome x
      cases m [] later (inl (early, zero, d)) = absurd (Accepts_none variants states i [] d)
      cases m [] later (inl (early, suc n, d)) =
          let yes_match =
            end_accepts variants states n i (get_elem? states i) k.0.1
              (Accepts-at variants states n i [] _ refl d) in
          let no : false ≡ true = sym m ∙ yes_match in cc
      cases m (c ∷ v) later (inl a) = inr (c, v, refl, rw (m, cut) (inl a))
      cases m x later (inr a) = elim (later a) [
        | inl (start, e, early) ↦ inl (start, rw m e, early)
        | inr (c, v, parts, left) ↦ inr (c, v, parts, rw (m, cut) (inr left))
      ]

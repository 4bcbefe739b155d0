-- ===== src/Vault/SafeRegex/Matcher/Stopped.antt =====
-- src/vault/safe-regex.ts: the states of the matcher accept only what is left to match.
use brainstem_mcp.Prelude.{
  All, All-map, Bool, Bool-cases, List, Option, [], any, ap, arith, false, get_elem?, inl, inr,
  length, ltb, ltb→lt, none, refl, some, subst, suc, sym, true, zero, ||-true, ℕ, ◌++◌, ◌+◌, ◌↔◌,
  ◌∙◌, ◌∷◌, ◌≡◌, ◌≤◌,
}
use brainstem_mcp.Vault.SafeRegex.{max_subject_chars, set_matches}
use brainstem_mcp.Vault.SafeRegex.Language.{Texts}
use brainstem_mcp.Vault.SafeRegex.Matcher.{
  Visit, add_state, add_target, follow, follow_all, is_match, marked, nothing_seen, run, step,
}
use brainstem_mcp.Vault.SafeRegex.Matcher.Closure.{add_state-Closes}
use brainstem_mcp.Vault.SafeRegex.Matcher.Decides.{
  Alive, All-from, All-marked, Leads, alive_at, nothing-Settled, step-complete,
}
use brainstem_mcp.Vault.SafeRegex.Matcher.Marks.{marked_cons, marked_here, marked_there}
use brainstem_mcp.Vault.SafeRegex.Matcher.Stops.{
  AllStop, IsStop, Spreads, Target, add_state-AllStop,
}
use brainstem_mcp.Vault.SafeRegex.Nfa.{NfaState, States, char_state, match_state, split_state}
use brainstem_mcp.Vault.SafeRegex.Nfa.Accepts.{
  Accepts, Accepts-at, Accepts_none, Accepts_of, From, Through,
}

module _ (variants : ℕ → List ℕ) (states : States) where
  -- Every text that the state accepts is one that keeps the property.
  abbrev pub Only : Texts → ℕ → Type 0
  Only L i = (n : ℕ) (w : List ℕ) → Accepts variants states n i w → L w

  Only-Target :
      (L : Texts) (o : Option ℕ)
      → ((n : ℕ) (w : List ℕ) → From variants (Accepts variants states n) o w → L w)
      → Target states (Only L) o
  Only-Target L none h = tt
  Only-Target L (some i) h = h

  pub Only-Spreads : (L : Texts) → Spreads states (Only L)
  Only-Spreads L i a b e q = (
    Only-Target L a (λ n w d. q (suc n) w (Accepts_of variants states n i w _ e (inl d))),
    Only-Target L b (λ n w d. q (suc n) w (Accepts_of variants states n i w _ e (inr d))),
  )

  follow-AllStop :
      (L : Texts) (vs : List ℕ) (i : ℕ) (v : Visit) (o : Option NfaState)
      → get_elem? states i ≡ o
      → ((j : ℕ) → Leads variants states vs i j → Only L j)
      → AllStop states (Only L) v.list
      → AllStop states (Only L) (follow states vs o v).list
  unfolding follow add_target
  follow-AllStop L vs i v none e q h = h
  follow-AllStop L vs i v (some match_state) e q h = h
  follow-AllStop L vs i v (some (split_state a b)) e q h = h
  follow-AllStop L vs i v (some (char_state chars none)) e q h =
      elim (Bool-cases (set_matches chars vs)) [ inl m ↦ rw m h | inr m ↦ rw m h ]
  follow-AllStop L vs i v (some (char_state chars (some k))) e q h =
      elim (Bool-cases (set_matches chars vs)) [
        | inl m ↦
            rw m
              (add_state-AllStop false states (Only L) k v (Only-Spreads L) (q k (chars, e, m)) h)
        | inr m ↦ rw m h
      ]

  follow_all-AllStop :
      (L : Texts) (vs current : List ℕ) (v : Visit)
      → All (λ i. (j : ℕ) → Leads variants states vs i j → Only L j) current
      → AllStop states (Only L) v.list
      → AllStop states (Only L) (follow_all states vs current v).list
  unfolding follow_all
  follow_all-AllStop L vs [] v q h = h
  follow_all-AllStop L vs (i ∷ current) v q h =
      follow_all-AllStop L vs current (follow states vs (get_elem? states i) v) q.1
        (follow-AllStop L vs i v (get_elem? states i) refl q.0 h)

  step-AllStop :
      (c : ℕ) (current : List ℕ)
      → AllStop states
          (Only (λ w. Alive variants states current (c ∷ w)))
          (step states (variants c) current)
  unfolding step
  step-AllStop c current =
      follow_all-AllStop (λ w. Alive variants states current (c ∷ w)) (variants c) current
        nothing_seen
        (All-from _ current (λ i m j (chars, at, matches) n w d. (
          i,
          m,
          suc n,
          Accepts_of variants states n i (c ∷ w) _ at (c ∷ [], w, refl, (c, refl, matches), d),
        )))
        tt

  alive_only :
      (L : Texts) (list w : List ℕ)
      → AllStop states (Only L) list
      → Alive variants states list w
      → L w
  alive_only L list w h (i, m, n, d) = (All-marked _ list i h m).0 n w d

  pub Only-stops :
      (L : Texts) (list : List ℕ)
      → AllStop states (Only L) list
      → All (λ i. IsStop (get_elem? states i)) list
  Only-stops L list h = All-map list (λ i b. b.1) h

  pub end_accepts :
      (n i : ℕ) (o : Option NfaState)
      → IsStop o
      → Through variants (Accepts variants states n) o []
      → is_match o ≡ true
  end_accepts n i none s d = absurd s
  end_accepts n i (some match_state) s d = refl
  end_accepts n i (some (split_state a b)) s d = absurd s
  end_accepts n i (some (char_state chars next)) s (u, v, parts, (c, alone, m), d) =
      let no : [] ≡ c ∷ v = parts ∙ ap (λ z. z ++ v) alone in cc

  pub match_at : (o : Option NfaState) → is_match o ≡ true → o ≡ some match_state
  match_at none h = let no : false ≡ true = h in cc
  match_at (some match_state) h = refl
  match_at (some (split_state a b)) h = let no : false ≡ true = h in cc
  match_at (some (char_state chars next)) h = let no : false ≡ true = h in cc

  any_match :
      (list : List ℕ)
      → any (λ i. is_match (get_elem? states i)) list ≡ true
      → (i : ℕ) × (marked list i ≡ true) × (is_match (get_elem? states i) ≡ true)
  any_match [] h = let no : false ≡ true = h in cc
  any_match (x ∷ xs) h = elim (||-true _ _ h) [
    | inl e ↦ (x, marked_here x xs, e)
    | inr e ↦ let (i, m, at) = any_match xs e in (i, marked_there i x xs m, at)
  ]

  pub any_of :
      (p : ℕ → Bool) (list : List ℕ) (i : ℕ) → marked list i ≡ true → p i ≡ true → any p list ≡ true
  any_of p [] i m h = let no : false ≡ true = m in cc
  any_of p (x ∷ xs) i m h = elim (marked_cons i x xs m) [
    | inl e ↦ let here : p x ≡ true = subst (λ y. p y ≡ true) (sym e) h in ground arith
    | inr e ↦ let rest = any_of p xs i e h in ground arith
  ]

  run-end :
      (current : List ℕ)
      → All (λ i. IsStop (get_elem? states i)) current
      → (any (λ i. is_match (get_elem? states i)) current ≡ true) ↔ Alive variants states current []
  run-end current stops = (
    λ h.
        let (i, m, at) = any_match current h in
        (i, m, 1, Accepts_of variants states 0 i [] _ (match_at (get_elem? states i) at) refl),
    λ (i, m, n, d). any_of (λ i. is_match (get_elem? states i)) current i m (ended n i m d),
  )
    where
      ended :
          (n i : ℕ)
          → marked current i ≡ true
          → Accepts variants states n i []
          → is_match (get_elem? states i) ≡ true
      ended zero i m d = absurd (Accepts_none variants states i [] d)
      ended (suc n) i m d =
          end_accepts n i (get_elem? states i)
            (All-marked (λ k. IsStop (get_elem? states k)) current i stops m)
            (Accepts-at variants states n i [] _ refl d)

  pub run-decides :
      (cs : List ℕ) (n : ℕ) (current : List ℕ)
      → All (λ i. IsStop (get_elem? states i)) current
      → n ≤ max_subject_chars
      → (run variants states n current cs ≡ true)
        ↔ ((n + length cs ≤ max_subject_chars) × Alive variants states current cs)
  unfolding run
  run-decides [] n current stops h =
      (λ e. (omega (arith, h), (run-end current stops).0 e), λ a. (run-end current stops).1 a.1)
  run-decides (c ∷ cs) n [] stops h = (
    λ e. let no : false ≡ true = ground arith in cc,
    λ (_, (i, m, _, _)). let no : false ≡ true = m in cc,
  )
  run-decides (c ∷ cs) n (i ∷ current) stops h = elim (Bool-cases (ltb max_subject_chars (n + 1))) [
    | inl over ↦
        let past = ltb→lt max_subject_chars (n + 1) over in
        rw over (λ e. let no : false ≡ true = e in cc, λ a. absurd (omega (arith, a.0, past)))
    | inr within ↦
        let next = step states (variants c) (i ∷ current) in
        let all_stop = step-AllStop c (i ∷ current) in
        let rest = run-decides cs (n + 1) next (Only-stops _ next all_stop) (ground arith) in
        rw within (
          λ e.
              let (fits, alive) = rest.0 e in
              (omega (arith, fits), alive_only _ next cs all_stop alive),
          λ (fits, alive).
              rest.1
                (omega (arith, fits), step-complete variants states c (i ∷ current) cs stops alive),
        )
  ]

  -- The first states of a run.
  pub begin_stops :
      (start : ℕ)
      → AllStop states
          (Only (λ w. (n : ℕ) × Accepts variants states n start w))
          (add_state false states start nothing_seen).list
  begin_stops start =
      add_state-AllStop false states _ start nothing_seen (Only-Spreads _) (λ n w d. (n, d)) tt

  pub begin_alive :
      (start : ℕ) (w : List ℕ)
      → Alive variants states (add_state false states start nothing_seen).list w
        ↔ ((n : ℕ) × Accepts variants states n start w)
  begin_alive start w =
      let c = add_state-Closes false states start nothing_seen (nothing-Settled variants states) in
      (
        λ a. alive_only _ (add_state false states start nothing_seen).list w (begin_stops start) a,
        λ (n, d).
            alive_at variants states n start w (add_state false states start nothing_seen) c.settled
              (c.takes start (marked_here start [])) d,
      )

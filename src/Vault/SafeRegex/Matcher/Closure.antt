-- ===== src/Vault/SafeRegex/Matcher/Closure.antt =====
-- src/vault/safe-regex.ts: `addState` adds the states that can be reached with no character.
use brainstem_mcp.Prelude.{
  Bool, Bool-cases, List, Option, [], arith, false, get_elem?, inl, inr, length, none, refl, some,
  subst, suc, true, zero, ℕ, ◌*◌, ◌+◌, ◌∷◌, ◌≡◌, ◌≤◌,
}
use brainstem_mcp.Vault.SafeRegex.Matcher.{
  Visit, add_state, add_states, enough, entered, marked, pushed,
}
use brainstem_mcp.Vault.SafeRegex.Matcher.Marks.{
  Settles, Settles-more, Settles-new, entered-list, entered-seen, free, free-le, free-marked,
  free_more, get-lt, length-pushed, marked_cons, marked_here, marked_there, pushed-marked,
}
use brainstem_mcp.Vault.SafeRegex.Nfa.{NfaState, States}

module _ (states : States) where
  -- Every marked state has done its part.
  abbrev pub Settled : Visit → List ℕ → Type 0
  Settled v stack = (i : ℕ) → marked v.seen i ≡ true → Settles (get_elem? states i) i v stack

  -- What the loop comes to, from a stack and marks.
  pub record Closes (stack : List ℕ) (v v' : Visit) : Type 0 where
    pub keeps_seen : (j : ℕ) → marked v.seen j ≡ true → marked v'.seen j ≡ true
    pub keeps_list : (j : ℕ) → marked v.list j ≡ true → marked v'.list j ≡ true
    pub takes : (j : ℕ) → marked stack j ≡ true → marked v'.seen j ≡ true
    pub settled : Settled v' []

  Closes-done : (v : Visit) → Settled v [] → Closes [] v v
  Closes-done v s = record {
    keeps_seen = λ j h. h;
    keeps_list = λ j h. h;
    takes = λ j h. let no : false ≡ true = h in cc;
    settled = s;
  }

  Settled-skip :
      (i : ℕ) (stack : List ℕ) (v : Visit)
      → marked v.seen i ≡ true
      → Settled v (i ∷ stack)
      → Settled v stack
  Settled-skip i stack v m s j h =
      Settles-more (get_elem? states j) j v v (i ∷ stack) stack (λ k g. g) (λ k g. g)
        (λ k g. elim (marked_cons k i stack g) [
          | inl e ↦ inl (subst (λ x. marked v.seen x ≡ true) e m)
          | inr e ↦ inr e
        ])
        (s j h)

  Settled-pushed : (from : ℕ) (v : Visit) → Settled v [] → Settled v (from ∷ [])
  Settled-pushed from v s j h =
      Settles-more (get_elem? states j) j v v [] (from ∷ []) (λ k g. g) (λ k g. g) (λ k g. cc)
        (s j h)

module _ (f : Bool) (states : States) where
  Settled-enter :
      (i : ℕ) (stack : List ℕ) (v : Visit)
      → Settled states v (i ∷ stack)
      → Settled states (entered (get_elem? states i) i v) (pushed f (get_elem? states i) stack)
  Settled-enter i stack v s j h =
      let o = get_elem? states i in
      let seen_is = entered-seen o i v in
      let h' : marked (i ∷ v.seen) j ≡ true = rw seen_is at h in
      elim (marked_cons j i v.seen h') [
        | inl e ↦
            subst (λ x. Settles (get_elem? states x) x (entered o i v) (pushed f o stack)) e
              (Settles-new f o i v stack)
        | inr old ↦
            Settles-more (get_elem? states j) j v (entered o i v) (i ∷ stack) (pushed f o stack)
              (λ k g. rw seen_is (marked_there k i v.seen g)) (λ k g. entered-list o i k v g)
              (λ k g. elim (marked_cons k i stack g) [
                | inl e ↦ inl (
                    rw seen_is (subst (λ x. marked (i ∷ v.seen) x ≡ true) e (marked_here i v.seen)))
                | inr e ↦ inr (pushed-marked f o k stack e)
              ])
              (s j old)
      ]

  measure_less :
      (i fuel : ℕ) (stack : List ℕ) (v : Visit) (o : Option NfaState)
      → get_elem? states i ≡ o
      → marked v.seen i ≡ false
      → length (i ∷ stack) + 2 * free (length states) v.seen ≤ suc fuel
      → length (pushed f o stack) + 2 * free (length states) (i ∷ v.seen) ≤ fuel
  measure_less i fuel stack v none e m h = omega (arith, h, free_more (length states) i v.seen)
  measure_less i fuel stack v (some s) e m h = omega (
    arith,
    h,
    length-pushed f (some s) stack,
    free-marked (length states) i v.seen (get-lt states i s e) m,
  )

  add_states-Closes :
      (fuel : ℕ) (stack : List ℕ) (v : Visit)
      → length stack + 2 * free (length states) v.seen ≤ fuel
      → Settled states v stack
      → Closes states stack v (add_states f states fuel stack v)
  unfolding add_states
  add_states-Closes zero [] v h s = Closes-done states v s
  add_states-Closes zero (i ∷ stack) v h s = absurd (omega arith)
  add_states-Closes (suc fuel) [] v h s = Closes-done states v s
  add_states-Closes (suc fuel) (i ∷ stack) v h s = elim (Bool-cases (marked v.seen i)) [
    | inl m ↦
        let c =
          add_states-Closes fuel stack v (omega (arith, h)) (Settled-skip states i stack v m s) in
        rw (m, add_states)
          (record {
            keeps_seen = c.keeps_seen;
            keeps_list = c.keeps_list;
            takes = λ j g. elim (marked_cons j i stack g) [
              | inl e ↦ c.keeps_seen j (subst (λ x. marked v.seen x ≡ true) e m)
              | inr e ↦ c.takes j e
            ];
            settled = c.settled;
          })
    | inr m ↦
        let o = get_elem? states i in
        let seen_is = entered-seen o i v in
        let less = measure_less i fuel stack v o refl m h in
        let c =
          add_states-Closes fuel (pushed f o stack) (entered o i v) (rw seen_is less)
            (Settled-enter i stack v s) in
        rw (m, add_states)
          (record {
            keeps_seen = λ j g. c.keeps_seen j (rw seen_is (marked_there j i v.seen g));
            keeps_list = λ j g. c.keeps_list j (entered-list o i j v g);
            takes = λ j g. elim (marked_cons j i stack g) [
              | inl e ↦
                  c.keeps_seen j (
                    rw seen_is (subst (λ x. marked (i ∷ v.seen) x ≡ true) e (marked_here i v.seen)))
              | inr e ↦ c.takes j (pushed-marked f o j stack e)
            ];
            settled = c.settled;
          })
  ]

  pub add_state-Closes :
      (from : ℕ) (v : Visit)
      → Settled states v []
      → Closes states (from ∷ []) v (add_state f states from v)
  unfolding add_state
  add_state-Closes from v s =
      add_states-Closes (enough states) (from ∷ []) v
        (omega (arith, free-le (length states) v.seen)) (Settled-pushed states from v s)

-- ===== src/Vault/SafeRegex/Matcher/Stops.antt =====
-- src/vault/safe-regex.ts: `addState` adds no other states than those, and no splits.
use brainstem_mcp.Prelude.{
  All, All-append, Bool, Bool-cases, List, Option, [], ap, false, get_elem?, inl, inr, none, refl,
  some, suc, sym, true, zero, ℕ, ◌++◌, ◌∙◌, ◌∷◌, ◌≡◌,
}
use brainstem_mcp.Vault.SafeRegex.Matcher.{
  Visit, add_state, add_states, enough, entered, marked, push, pushed,
}
use brainstem_mcp.Vault.SafeRegex.Nfa.{NfaState, States, char_state, match_state, split_state}
use mathlib.Core.List.{append-nil, append_assoc}

-- No state of the list is a split.
abbrev pub IsStop : Option NfaState → Type 0
IsStop none = ⊥
IsStop (some match_state) = Unit
IsStop (some (char_state chars next)) = Unit
IsStop (some (split_state a b)) = ⊥

module _ (states : States) (Q : ℕ → Type 0) where
  abbrev pub Target : Option ℕ → Type 0
  Target none = Unit
  Target (some i) = Q i

  -- A property of states that passes from a split to its targets.
  abbrev pub Spreads : Type 0
  Spreads =
      (i : ℕ) (a b : Option ℕ)
      → get_elem? states i ≡ some (split_state a b)
      → Q i
      → Target a × Target b

  -- The states of a list have it, and are no splits.
  abbrev pub AllStop : List ℕ → Type 0
  AllStop list = All (λ i. Q i × IsStop (get_elem? states i)) list

  push-All : (a : Option ℕ) (stack : List ℕ) → Target a → All Q stack → All Q (push a stack)
  push-All none stack t h = h
  push-All (some i) stack t h = (t, h)

  -- New states at the end of a list.
  abbrev pub Extends : List ℕ → List ℕ → Type 0
  Extends old list = (new : List ℕ) × (list ≡ old ++ new) × AllStop new

  Extends-same : (list : List ℕ) → Extends list list
  Extends-same list = ([], sym (append-nil list), tt)

  pub Extends-trans : (a b c : List ℕ) → Extends a b → Extends b c → Extends a c
  Extends-trans a b c (x, e, p) (y, g, q) =
      (x ++ y, g ∙ ap (λ z. z ++ y) e ∙ append_assoc a x y, All-append _ x y p q)

  entered-Extends :
      (i : ℕ) (o : Option NfaState) (v : Visit)
      → get_elem? states i ≡ o
      → Q i
      → Extends v.list (entered o i v).list
  entered-Extends i none v e q = Extends-same v.list
  entered-Extends i (some match_state) v e q = (i ∷ [], refl, ((q, rw e tt), tt))
  entered-Extends i (some (char_state chars next)) v e q = (i ∷ [], refl, ((q, rw e tt), tt))
  entered-Extends i (some (split_state a b)) v e q = Extends-same v.list

module _ (f : Bool) (states : States) (Q : ℕ → Type 0) where
  pushed-All :
      (i : ℕ) (o : Option NfaState) (stack : List ℕ)
      → Spreads states Q
      → get_elem? states i ≡ o
      → Q i
      → All Q stack
      → All Q (pushed f o stack)
  pushed-All i none stack sp e q h = h
  pushed-All i (some match_state) stack sp e q h = h
  pushed-All i (some (char_state chars next)) stack sp e q h = h
  pushed-All i (some (split_state a b)) stack sp e q h = by_order f
    where
      by_order : (order : Bool) → All Q (pushed order (some (split_state a b)) stack)
      by_order true =
          push-All states Q a (push b stack) (sp i a b e q).0
            (push-All states Q b stack (sp i a b e q).1 h)
      by_order false =
          push-All states Q b (push a stack) (sp i a b e q).1
            (push-All states Q a stack (sp i a b e q).0 h)

  add_states-Extends :
      (fuel : ℕ) (stack : List ℕ) (v : Visit)
      → Spreads states Q
      → All Q stack
      → Extends states Q v.list (add_states f states fuel stack v).list
  unfolding add_states
  add_states-Extends zero stack v sp q = Extends-same states Q v.list
  add_states-Extends (suc fuel) [] v sp q = Extends-same states Q v.list
  add_states-Extends (suc fuel) (i ∷ stack) v sp q = elim (Bool-cases (marked v.seen i)) [
    | inl m ↦ rw (m, add_states) (add_states-Extends fuel stack v sp q.1)
    | inr m ↦
        let o = get_elem? states i in
        rw (m, add_states)
          (Extends-trans states Q v.list (entered o i v).list
            (add_states f states fuel (pushed f o stack) (entered o i v)).list
            (entered-Extends states Q i o v refl q.0)
            (add_states-Extends fuel (pushed f o stack) (entered o i v) sp
              (pushed-All i o stack sp refl q.0 q.1)))
  ]

  pub add_state-Extends :
      (from : ℕ) (v : Visit)
      → Spreads states Q
      → Q from
      → Extends states Q v.list (add_state f states from v).list
  unfolding add_state
  add_state-Extends from v sp q = add_states-Extends (enough states) (from ∷ []) v sp (q, tt)

  pub add_state-AllStop :
      (from : ℕ) (v : Visit)
      → Spreads states Q
      → Q from
      → AllStop states Q v.list
      → AllStop states Q (add_state f states from v).list
  add_state-AllStop from v sp q h =
      let (new, e, p) = add_state-Extends from v sp q in rw e (All-append _ v.list new h p)

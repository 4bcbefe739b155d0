-- ===== src/Vault/SafeRegex/Matcher/Marks.antt =====
-- src/vault/safe-regex.ts: the marks of a closure, and what one step does to them.
use brainstem_mcp.Prelude.{
  ==_iff, Bool, Bool-cases, List, Option, [], arith, false, get_elem?, if◌then◌else◌, inl, inr,
  length, none, refl, some, suc, true, zero, ||-true, ℕ, ◌++◌, ◌+◌, ◌<◌, ◌==◌, ◌∷◌, ◌≡◌, ◌≤◌, ◌⊎◌,
}
use brainstem_mcp.Vault.SafeRegex.Matcher.{Visit, entered, marked, push, pushed}
use brainstem_mcp.Vault.SafeRegex.Nfa.{NfaState, States, char_state, match_state, split_state}

pub marked_here : (i : ℕ) (xs : List ℕ) → marked (i ∷ xs) i ≡ true
marked_here i xs = ground arith

pub marked_there : (i j : ℕ) (xs : List ℕ) → marked xs i ≡ true → marked (j ∷ xs) i ≡ true
marked_there i j xs h = ground (arith, h)

pub marked_cons :
    (i j : ℕ) (xs : List ℕ) → marked (j ∷ xs) i ≡ true → (j ≡ i) ⊎ (marked xs i ≡ true)
marked_cons i j xs h = elim (||-true (j == i) (marked xs i) h) [
  | inl e ↦ inl ((==_iff j i).0 e)
  | inr e ↦ inr e
]

pub marked-append_left : (i : ℕ) (xs ys : List ℕ) → marked xs i ≡ true → marked (xs ++ ys) i ≡ true
marked-append_left i [] ys h = cc
marked-append_left i (x ∷ xs) ys h = elim (marked_cons i x xs h) [
  | inl e ↦ rw e (marked_here i (xs ++ ys))
  | inr e ↦ marked_there i x (xs ++ ys) (marked-append_left i xs ys e)
]

pub marked-append_end : (i : ℕ) (xs : List ℕ) → marked (xs ++ i ∷ []) i ≡ true
marked-append_end i [] = marked_here i []
marked-append_end i (x ∷ xs) = marked_there i x (xs ++ i ∷ []) (marked-append_end i xs)

pub marked-append_split :
    (i : ℕ) (xs ys : List ℕ)
    → marked (xs ++ ys) i ≡ true
    → (marked xs i ≡ true) ⊎ (marked ys i ≡ true)
marked-append_split i [] ys h = inr h
marked-append_split i (x ∷ xs) ys h = elim (marked_cons i x (xs ++ ys) h) [
  | inl e ↦ inl (rw e (marked_here i xs))
  | inr e ↦ elim (marked-append_split i xs ys e) [
    | inl l ↦ inl (marked_there i x xs l)
    | inr r ↦ inr r
  ]
]

-- How many of the first states have no mark.
unfoldable pub free : ℕ → List ℕ → ℕ
free zero seen = 0
free (suc k) seen = free k seen + (if marked seen k then 0 else 1)

pub free-le : (k : ℕ) (seen : List ℕ) → free k seen ≤ k
unfolding free
free-le zero seen = omega arith
free-le (suc k) seen = ground (arith, free-le k seen)

pub free_more : (k i : ℕ) (seen : List ℕ) → free k (i ∷ seen) ≤ free k seen
unfolding free
free_more zero i seen = omega arith
free_more (suc k) i seen = ground (arith, free_more k i seen)

pub free-marked :
    (k i : ℕ) (seen : List ℕ) → i < k → marked seen i ≡ false → free k (i ∷ seen) + 1 ≤ free k seen
unfolding free
free-marked zero i seen h e = absurd (omega arith)
free-marked (suc k) i seen h e = elim (Bool-cases (i == k)) [
  | inl same ↦
      let at : marked seen k ≡ false = ground arith in
      rw (same, at) (omega (arith, free_more k i seen))
  | inr other ↦
      let less : i < k = ground arith in rw other (ground (arith, free-marked k i seen less e))
]

pub get-lt :
    (states : States) (i : ℕ) (s : NfaState) → get_elem? states i ≡ some s → i < length states
get-lt [] i s e = cc
get-lt (x ∷ states) zero s e = omega arith
get-lt (x ∷ states) (suc i) s e = omega (arith, get-lt states i s e)

pub length-pushed :
    (f : Bool) (o : Option NfaState) (stack : List ℕ) → length (pushed f o stack) ≤ length stack + 2
length-pushed f none stack = omega arith
length-pushed f (some match_state) stack = omega arith
length-pushed f (some (char_state chars next)) stack = omega arith
length-pushed true (some (split_state none none)) stack = omega arith
length-pushed false (some (split_state none none)) stack = omega arith
length-pushed true (some (split_state none (some b))) stack = omega arith
length-pushed false (some (split_state none (some b))) stack = omega arith
length-pushed true (some (split_state (some a) none)) stack = omega arith
length-pushed false (some (split_state (some a) none)) stack = omega arith
length-pushed true (some (split_state (some a) (some b))) stack = omega arith
length-pushed false (some (split_state (some a) (some b))) stack = omega arith

pub entered-seen : (o : Option NfaState) (i : ℕ) (v : Visit) → (entered o i v).seen ≡ i ∷ v.seen
entered-seen none i v = refl
entered-seen (some match_state) i v = refl
entered-seen (some (char_state chars next)) i v = refl
entered-seen (some (split_state a b)) i v = refl

pub entered-list :
    (o : Option NfaState) (i j : ℕ) (v : Visit)
    → marked v.list j ≡ true
    → marked (entered o i v).list j ≡ true
entered-list none i j v h = h
entered-list (some match_state) i j v h = marked-append_left j v.list (i ∷ []) h
entered-list (some (char_state chars next)) i j v h = marked-append_left j v.list (i ∷ []) h
entered-list (some (split_state a b)) i j v h = h

push-marked :
    (a : Option ℕ) (j : ℕ) (stack : List ℕ) → marked stack j ≡ true → marked (push a stack) j ≡ true
push-marked none j stack h = h
push-marked (some i) j stack h = marked_there j i stack h

pub pushed-marked :
    (f : Bool) (o : Option NfaState) (j : ℕ) (stack : List ℕ)
    → marked stack j ≡ true
    → marked (pushed f o stack) j ≡ true
pushed-marked f none j stack h = h
pushed-marked f (some match_state) j stack h = h
pushed-marked f (some (char_state chars next)) j stack h = h
pushed-marked true (some (split_state a b)) j stack h =
    push-marked a j (push b stack) (push-marked b j stack h)
pushed-marked false (some (split_state a b)) j stack h =
    push-marked b j (push a stack) (push-marked a j stack h)

-- A target has a mark or waits on the stack.
abbrev pub Known : List ℕ → List ℕ → Option ℕ → Type 0
Known seen stack none = Unit
Known seen stack (some j) = (marked seen j ≡ true) ⊎ (marked stack j ≡ true)

abbrev pub Settles : Option NfaState → ℕ → Visit → List ℕ → Type 0
Settles none i v stack = Unit
Settles (some match_state) i v stack = marked v.list i ≡ true
Settles (some (char_state chars next)) i v stack = marked v.list i ≡ true
Settles (some (split_state a b)) i v stack = Known v.seen stack a × Known v.seen stack b

Known-more :
    (seen seen' stack stack' : List ℕ) (o : Option ℕ)
    → ((j : ℕ) → marked seen j ≡ true → marked seen' j ≡ true)
    → ((j : ℕ) → marked stack j ≡ true → (marked seen' j ≡ true) ⊎ (marked stack' j ≡ true))
    → Known seen stack o
    → Known seen' stack' o
Known-more seen seen' stack stack' none f g k = tt
Known-more seen seen' stack stack' (some j) f g (inl k) = inl (f j k)
Known-more seen seen' stack stack' (some j) f g (inr k) = g j k

pub Settles-more :
    (o : Option NfaState) (i : ℕ) (v v' : Visit) (stack stack' : List ℕ)
    → ((j : ℕ) → marked v.seen j ≡ true → marked v'.seen j ≡ true)
    → ((j : ℕ) → marked v.list j ≡ true → marked v'.list j ≡ true)
    → ((j : ℕ) → marked stack j ≡ true → (marked v'.seen j ≡ true) ⊎ (marked stack' j ≡ true))
    → Settles o i v stack
    → Settles o i v' stack'
Settles-more none i v v' stack stack' f l g k = tt
Settles-more (some match_state) i v v' stack stack' f l g k = l i k
Settles-more (some (char_state chars next)) i v v' stack stack' f l g k = l i k
Settles-more (some (split_state a b)) i v v' stack stack' f l g (x, y) =
    (Known-more v.seen v'.seen stack stack' a f g x, Known-more v.seen v'.seen stack stack' b f g y)

push-Known : (seen stack : List ℕ) (a : Option ℕ) → Known seen (push a stack) a
push-Known seen stack none = tt
push-Known seen stack (some i) = inr (marked_here i stack)

pub Settles-new :
    (f : Bool) (o : Option NfaState) (i : ℕ) (v : Visit) (stack : List ℕ)
    → Settles o i (entered o i v) (pushed f o stack)
Settles-new f none i v stack = tt
Settles-new f (some match_state) i v stack = marked-append_end i v.list
Settles-new f (some (char_state chars next)) i v stack = marked-append_end i v.list
Settles-new true (some (split_state a b)) i v stack =
    let seen = i ∷ v.seen in
    (
      push-Known seen (push b stack) a,
      Known-more seen seen (push b stack) (push a (push b stack)) b (λ j h. h)
          (λ j h. inr (push-marked a j (push b stack) h)) (push-Known seen stack b),
    )
Settles-new false (some (split_state a b)) i v stack =
    let seen = i ∷ v.seen in
    (
      Known-more seen seen (push a stack) (push b (push a stack)) a (λ j h. h)
          (λ j h. inr (push-marked b j (push a stack) h)) (push-Known seen stack a),
      push-Known seen (push a stack) b,
    )

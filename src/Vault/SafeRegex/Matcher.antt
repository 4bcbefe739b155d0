-- ===== src/Vault/SafeRegex/Matcher.antt =====
-- src/vault/safe-regex.ts: the simulation of the automaton on a subject. The marks of a generation
-- are the list of the states that have them. A target that is no state, at which the code would
-- throw, is passed over.
pub mod Closure
pub mod Stops
pub mod Decides
pub mod Marks
pub mod Tested
pub mod Stopped
use brainstem_mcp.Prelude.{
  Bool, List, Option, Text, [], any, false, get_elem?, if◌then◌else◌, is_empty, leb, length, ltb,
  none, some, suc, true, zero, ℕ, ◌&&◌, ◌*◌, ◌++◌, ◌+◌, ◌-◌, ◌==◌, ◌∷◌,
}
use brainstem_mcp.Vault.SafeRegex.{max_subject_chars, set_matches}
use brainstem_mcp.Vault.SafeRegex.Nfa.{Nfa, NfaState, States, char_state, match_state, split_state}

-- `marks[index] === gen`, and `includes`.
abbrev pub marked : List ℕ → ℕ → Bool
marked seen i = any (λ j. j == i) seen

pub record Visit : Type 0 where
  pub seen : List ℕ
  pub list : List ℕ

abbrev pub nothing_seen : Visit
nothing_seen = record { seen = []; list = [] }

abbrev pub push : Option ℕ → List ℕ → List ℕ
push none stack = stack
push (some i) stack = i ∷ stack

-- The stack after a state has been looked at. The search pushes `b` first, so that `a` goes first.
abbrev pub pushed : (a_first : Bool) → Option NfaState → List ℕ → List ℕ
pushed a_first none stack = stack
pushed a_first (some match_state) stack = stack
pushed a_first (some (char_state chars next)) stack = stack
pushed true (some (split_state a b)) stack = push a (push b stack)
pushed false (some (split_state a b)) stack = push b (push a stack)

abbrev pub entered : Option NfaState → ℕ → Visit → Visit
entered none i v = record v { seen = i ∷ v.seen }
entered (some match_state) i v = record { seen = i ∷ v.seen; list = v.list ++ i ∷ [] }
entered (some (char_state chars next)) i v = record { seen = i ∷ v.seen; list = v.list ++ i ∷ [] }
entered (some (split_state a b)) i v = record v { seen = i ∷ v.seen }

-- The loops of `addState` and `addThread` over their stack.
unfoldable pub add_states : (a_first : Bool) → States → ℕ → List ℕ → Visit → Visit
add_states f states zero stack v = v
add_states f states (suc fuel) [] v = v
add_states f states (suc fuel) (i ∷ stack) v = elim (marked v.seen i) [
  | true ↦ add_states f states fuel stack v
  | false ↦
      add_states f states fuel (pushed f (get_elem? states i) stack)
        (entered (get_elem? states i) i v)
]

-- A state is entered once, and pushes two.
abbrev pub enough : States → ℕ
enough states = 2 * length states + 1

unfoldable pub add_state : (a_first : Bool) → States → ℕ → Visit → Visit
unfolding add_states
add_state f states from v = add_states f states (enough states) (from ∷ []) v

unfoldable pub add_target : States → Option ℕ → Visit → Visit
unfolding add_state
add_target states none v = v
add_target states (some i) v = add_state false states i v

-- What state does with the variants of a character.
unfoldable pub follow : States → List ℕ → Option NfaState → Visit → Visit
unfolding add_target
follow states variants none v = v
follow states variants (some match_state) v = v
follow states variants (some (split_state a b)) v = v
follow states variants (some (char_state chars next)) v =
    if set_matches chars variants then add_target states next v else v

unfoldable pub follow_all : States → List ℕ → List ℕ → Visit → Visit
unfolding follow
follow_all states variants [] v = v
follow_all states variants (i ∷ current) v =
    follow_all states variants current (follow states variants (get_elem? states i) v)

unfoldable pub step : States → List ℕ → List ℕ → List ℕ
unfolding follow_all
step states variants current = (follow_all states variants current nothing_seen).list

abbrev pub is_match : Option NfaState → Bool
is_match (some match_state) = true
is_match _ = false

-- The loop over the subject, with the number of code points before it.
unfoldable pub run : (ℕ → List ℕ) → States → ℕ → List ℕ → List ℕ → Bool
unfolding step
run variants states n current [] = any (λ i. is_match (get_elem? states i)) current
run variants states n current (c ∷ cs) =
    let rest = run variants states (n + 1) (step states (variants c) current) cs in
    if ltb max_subject_chars (n + 1) then false else if is_empty current then false else rest

abbrev pub high_surrogate : ℕ → Bool
high_surrogate u = leb 0xd800 u && leb u 0xdbff

abbrev pub low_surrogate : ℕ → Bool
low_surrogate u = leb 0xdc00 u && leb u 0xdfff

-- The characters of a text, as `for … of` and the spread syntax give them.
unfoldable pub code_points : Text → List ℕ
code_points [] = []
code_points (u ∷ []) = u ∷ []
code_points (h ∷ l ∷ s) =
    let pair = code_points s in
    let one = code_points (l ∷ s) in
    if high_surrogate h && low_surrogate l
    then (0x10000 + (h - 0xd800) * 0x400 + (l - 0xdc00)) ∷ pair
    else h ∷ one

-- `test` of the matcher of an automaton.
unfoldable pub test : (ℕ → List ℕ) → Nfa → Text → Bool
unfolding run add_state code_points
test variants nfa subject =
    if ltb (2 * max_subject_chars) (length subject)
    then false
    else run variants nfa.states 0 (add_state false nfa.states nfa.start nothing_seen).list
        (code_points subject)

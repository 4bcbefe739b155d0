-- ===== src/Vault/SafeRegex/Nfa.antt =====
-- src/vault/safe-regex.ts: the construction of the automaton, with its exits patched in place. The
-- target -1 of a new state is `none`.
pub mod Accepts
pub mod Patching
pub mod Built
pub mod Branches
pub mod Chains
pub mod Powers
pub mod Compiled
pub mod Sizes
pub mod Closed
pub mod Stars
pub mod Linked
use brainstem_mcp.Prelude.{
  Bool, List, Option, [], leb, length, none, some, suc, zero, ℕ, ◌++◌, ◌-◌, ◌∷◌,
}
use brainstem_mcp.Storage.Types.{Result, invalid_input, ok, reject_if, ◌>>=◌, ◌>>◌}
use brainstem_mcp.Vault.SafeRegex.{
  Ast, Asts, CharSet, alt, concat, empty, last, max_nfa_states, more, repeat, set,
}

pub data NfaState : Type 0 where
  char_state : CharSet → (next : Option ℕ) → NfaState
  split_state : (a b : Option ℕ) → NfaState
  match_state : NfaState

abbrev pub States : Type 0
States = List NfaState

-- What a function of `patch` assigns: `next`, both targets of a split, or one of them.
pub data Slot : Type 0 where
  next_slot both_slots a_slot b_slot : Slot

abbrev pub Exits : Type 0
Exits = List (ℕ × Slot)

pub record Fragment : Type 0 where
  pub start : ℕ
  pub patch : Exits

-- Compiles a node at the end of the states.
abbrev pub Builder : Type 0
Builder = States → Result (States × Fragment)

abbrev pub too_complex : States → Bool
too_complex states = leb max_nfa_states (length states)

unfoldable pub alloc : NfaState → States → Result (States × ℕ)
alloc state states = do
  reject_if (too_complex states) invalid_input
  ok (states ++ state ∷ [], length states)

unfoldable pub assign : Slot → ℕ → NfaState → NfaState
assign next_slot t (char_state chars _) = char_state chars (some t)
assign both_slots t (split_state _ _) = split_state (some t) (some t)
assign a_slot t (split_state _ b) = split_state (some t) b
assign b_slot t (split_state a _) = split_state a (some t)
assign slot t state = state

unfoldable pub modify : ℕ → (NfaState → NfaState) → States → States
modify i f [] = []
modify zero f (s ∷ states) = f s ∷ states
modify (suc i) f (s ∷ states) = s ∷ modify i f states

-- `for (const p of patch) p(target)`
unfoldable pub patch_all : Exits → ℕ → States → States
unfolding modify assign
patch_all [] t states = states
patch_all ((i, slot) ∷ exits) t states = patch_all exits t (modify i (assign slot t) states)

unfoldable pub epsilon : Builder
unfolding alloc
epsilon states = do
  (s, index) ← alloc (split_state none none) states
  ok (s, record { start = index; patch = (index, both_slots) ∷ [] })

unfoldable pub single : CharSet → Builder
unfolding alloc
single chars states = do
  (s, index) ← alloc (char_state chars none) states
  ok (s, record { start = index; patch = (index, next_slot) ∷ [] })

-- The loop of `chain`: the exits of each fragment are pointed at the next.
unfoldable pub link : Fragment → List Fragment → States → States × Fragment
unfolding patch_all
link frag [] states = (states, frag)
link frag (next ∷ rest) states =
    link (record { start = frag.start; patch = next.patch }) rest
      (patch_all frag.patch next.start states)

unfoldable pub build_all : List Builder → States → Result (States × List Fragment)
build_all [] states = ok (states, [])
build_all (b ∷ builders) states = do
  (s1, frag) ← b states
  (s2, frags) ← build_all builders s1
  ok (s2, frag ∷ frags)

-- `chain`, and `epsilon` for no pieces.
unfoldable pub chain : List Fragment → Builder
unfolding link epsilon
chain [] states = epsilon states
chain (frag ∷ rest) states = ok (link frag rest states)

unfoldable pub chained : List Builder → Builder
unfolding build_all chain
chained builders states = do (s, frags) ← build_all builders states; chain frags s

unfoldable pub star : Builder → Builder
unfolding alloc patch_all
star node states = do
  (s1, index) ← alloc (split_state none none) states
  (s2, inner) ← node s1
  ok (
    patch_all inner.patch index (patch_all ((index, a_slot) ∷ []) inner.start s2),
    record { start = index; patch = (index, b_slot) ∷ [] },
  )

unfoldable pub optional : Builder → Builder
unfolding alloc
optional node states = do
  (s1, inner) ← node states
  (s2, index) ← alloc (split_state (some inner.start) none) s1
  ok (s2, record { start = index; patch = inner.patch ++ (index, b_slot) ∷ [] })

-- One round of the loop of `alt`, which goes from the last option to the first.
unfoldable pub either : Builder → Builder → Builder
unfolding alloc
either left_node right_nodes states = do
  (s1, frag) ← right_nodes states
  (s2, left) ← left_node s1
  (s3, index) ← alloc (split_state (some left.start) (some frag.start)) s2
  ok (s3, record { start = index; patch = left.patch ++ frag.patch })

abbrev pub replicate {ℓ} : {A : Type ℓ} → ℕ → A → List A
replicate zero x = []
replicate (suc n) x = x ∷ replicate n x

-- The pieces of `compileRepeat`.
unfoldable pub pieces : Builder → ℕ → Option ℕ → List Builder
unfolding star optional
pieces node min none = replicate min node ++ star node ∷ []
pieces node min (some max) = replicate min node ++ replicate (max - min) (optional node)

unfoldable mutual
  unfolding epsilon single chained pieces either

  pub compile : Ast → Builder
  compile empty = epsilon
  compile (set s) = single s
  compile (concat parts) = chained (compile_parts parts)
  compile (alt options) = compile_options options
  compile (repeat node min max) = chained (pieces (compile node) min max)

  pub compile_parts : Asts → List Builder
  compile_parts (last node) = compile node ∷ []
  compile_parts (more node nodes) = compile node ∷ compile_parts nodes

  pub compile_options : Asts → Builder
  compile_options (last node) = compile node
  compile_options (more node nodes) = either (compile node) (compile_options nodes)

pub record Nfa : Type 0 where
  pub states : States
  pub start : ℕ

unfoldable pub build_nfa : Ast → Result Nfa
unfolding compile alloc patch_all
build_nfa ast = do
  (s1, frag) ← compile ast []
  (s2, match_index) ← alloc match_state s1
  ok (record { states = patch_all frag.patch match_index s2; start = frag.start })

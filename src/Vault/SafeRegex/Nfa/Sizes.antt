-- ===== src/Vault/SafeRegex/Nfa/Sizes.antt =====
-- src/vault/safe-regex.ts: the number of states of an automaton.
use brainstem_mcp.Prelude.{
  All, All-append, List, Option, [], ap, arith, length, length-append, none, refl, some, subst, suc,
  zero, ℕ, ◌++◌, ◌-◌, ◌<◌, ◌∙◌, ◌∷◌, ◌≡◌, ◌≤◌,
}
use brainstem_mcp.Storage.Types.{>>=-eq-ok, Result, invalid_input, ok, reject_if-eq-ok, ◌>>=◌}
use brainstem_mcp.Vault.SafeRegex.{
  Ast, Asts, CharSet, alt, concat, empty, last, max_nfa_states, more, repeat, set,
}
use brainstem_mcp.Vault.SafeRegex.Nfa.{
  Builder, Fragment, Nfa, NfaState, States, a_slot, alloc, build_all, build_nfa, chain, chained,
  char_state, compile, compile_options, compile_parts, either, epsilon, link, match_state, optional,
  patch_all, pieces, replicate, single, split_state, star, too_complex,
}
use brainstem_mcp.Vault.SafeRegex.Nfa.Built.{alloc-eq-ok}
use brainstem_mcp.Vault.SafeRegex.Nfa.Patching.{length-patch_all}

abbrev Fits : States → Type 0
Fits states = length states ≤ max_nfa_states

-- The builder gives no more states than the limit.
abbrev IsSmall : Builder → Type 0
IsSmall b = (states s : States) (frag : Fragment) → Fits states → b states ≡ ok (s, frag) → Fits s

alloc-Fits :
    {V : Type 0} (s : NfaState) (states : States) (next : States × ℕ → Result V) (v : V)
    → (alloc s states >>= next) ≡ ok v
    → Fits (states ++ s ∷ [])
unfolding alloc
alloc-Fits s states next v e =
    let (at, allocated, went) = >>=-eq-ok (alloc s states) next e in
    let (room, _) = reject_if-eq-ok (too_complex states) invalid_input _ allocated in
    let less : length states < max_nfa_states = ground arith in
    omega (arith, less, length-append states (s ∷ []))

abbrev made : States → Fragment → Result (States × Fragment)
made states frag = ok (states, frag)

-- A builder that only allocates one state.
allocated :
    (s : NfaState) (states : States) (frag frag' : Fragment) (s' : States)
    → Fits (states ++ s ∷ [])
    → made (states ++ s ∷ []) frag ≡ made s' frag'
    → Fits s'
allocated s states frag frag' s' h e = let same : states ++ s ∷ [] ≡ s' = cc in subst Fits same h

epsilon-IsSmall : IsSmall epsilon
unfolding epsilon
epsilon-IsSmall states s frag h e =
    allocated (split_state none none) states _ frag s
      (alloc-Fits (split_state none none) states _ (s, frag) e)
      (alloc-eq-ok (split_state none none) states _ e)

single-IsSmall : (chars : CharSet) → IsSmall (single chars)
unfolding single
single-IsSmall chars states s frag h e =
    allocated (char_state chars none) states _ frag s
      (alloc-Fits (char_state chars none) states _ (s, frag) e)
      (alloc-eq-ok (char_state chars none) states _ e)

length-link :
    (frag : Fragment) (frags : List Fragment) (states : States)
    → length (link frag frags states).0 ≡ length states
unfolding link
length-link frag [] states = refl
length-link frag (next ∷ frags) states =
    length-link (record { start = frag.start; patch = next.patch }) frags
      (patch_all frag.patch next.start states)
    ∙ length-patch_all frag.patch next.start states

chain-IsSmall : (frags : List Fragment) → IsSmall (chain frags)
unfolding chain
chain-IsSmall [] states s frag h e = epsilon-IsSmall states s frag h e
chain-IsSmall (first ∷ frags) states s frag h e =
    let same : (link first frags states) ≡ (s, frag) = cc in
    omega
      (arith, h, length-link first frags states, ap (λ (p : States × Fragment). length p.0) same)

build_all-Fits :
    (builders : List Builder) (states s : States) (frags : List Fragment)
    → All IsSmall builders
    → Fits states
    → build_all builders states ≡ ok (s, frags)
    → Fits s
unfolding build_all
build_all-Fits [] states s frags a h e = let same : states ≡ s = cc in subst Fits same h
build_all-Fits (b ∷ builders) states s frags (small, a) h e =
    let ((s1, frag), built, rest) = >>=-eq-ok (b states) _ e in
    let ((s2, others), all_built, whole) = >>=-eq-ok (build_all builders s1) _ rest in
    let same : s2 ≡ s = cc in
    subst Fits same
      (build_all-Fits builders s1 s2 others a (small states s1 frag h built) all_built)

chained-IsSmall : (builders : List Builder) → All IsSmall builders → IsSmall (chained builders)
unfolding chained
chained-IsSmall builders a states s frag h e =
    let ((s1, frags), built, rest) = >>=-eq-ok (build_all builders states) _ e in
    chain-IsSmall frags s1 s frag (build_all-Fits builders states s1 frags a h built) rest

star-IsSmall : (b : Builder) → IsSmall b → IsSmall (star b)
unfolding star
star-IsSmall b small states s frag h e =
    let new = split_state none none in
    let room = alloc-Fits new states _ (s, frag) e in
    let ((s2, inner), built, rest) =
      >>=-eq-ok (b (states ++ new ∷ [])) _ (alloc-eq-ok new states _ e) in
    let j = length states in
    let pointed = patch_all ((j, a_slot) ∷ []) inner.start s2 in
    let same : patch_all inner.patch j pointed ≡ s = cc in
    omega (
      arith,
      small (states ++ new ∷ []) s2 inner room built,
      length-patch_all inner.patch j pointed,
      length-patch_all ((j, a_slot) ∷ []) inner.start s2,
      ap length same,
    )

optional-IsSmall : (b : Builder) → IsSmall b → IsSmall (optional b)
unfolding optional
optional-IsSmall b small states s frag h e =
    let ((s1, inner), built, rest) = >>=-eq-ok (b states) _ e in
    let new = split_state (some inner.start) none in
    allocated new s1 _ frag s (alloc-Fits new s1 _ (s, frag) rest) (alloc-eq-ok new s1 _ rest)

either-IsSmall : (left right : Builder) → IsSmall (either left right)
unfolding either
either-IsSmall left right states s frag h e =
    let ((s1, other), built, rest) = >>=-eq-ok (right states) _ e in
    let ((s2, first), built_too, last_step) = >>=-eq-ok (left s1) _ rest in
    let new = split_state (some first.start) (some other.start) in
    allocated new s2 _ frag s (alloc-Fits new s2 _ (s, frag) last_step)
      (alloc-eq-ok new s2 _ last_step)

replicate-All : (n : ℕ) (b : Builder) → IsSmall b → All IsSmall (replicate n b)
replicate-All zero b small = tt
replicate-All (suc n) b small = (small, replicate-All n b small)

pieces-All : (b : Builder) (min : ℕ) (max : Option ℕ) → IsSmall b → All IsSmall (pieces b min max)
unfolding pieces
pieces-All b min none small =
    All-append IsSmall (replicate min b) (star b ∷ []) (replicate-All min b small)
      (star-IsSmall b small, tt)
pieces-All b min (some max) small =
    All-append IsSmall (replicate min b) (replicate (max - min) (optional b))
      (replicate-All min b small)
      (replicate-All (max - min) (optional b) (optional-IsSmall b small))

mutual
  unfolding compile

  compile-IsSmall : (ast : Ast) → IsSmall (compile ast)
  compile-IsSmall empty = epsilon-IsSmall
  compile-IsSmall (set s) = single-IsSmall s
  compile-IsSmall (concat parts) = chained-IsSmall (compile_parts parts) (compile_parts-All parts)
  compile-IsSmall (alt options) = compile_options-IsSmall options
  compile-IsSmall (repeat node min max) =
      chained-IsSmall (pieces (compile node) min max)
        (pieces-All (compile node) min max (compile-IsSmall node))

  compile_parts-All : (nodes : Asts) → All IsSmall (compile_parts nodes)
  compile_parts-All (last node) = (compile-IsSmall node, tt)
  compile_parts-All (more node nodes) = (compile-IsSmall node, compile_parts-All nodes)

  compile_options-IsSmall : (nodes : Asts) → IsSmall (compile_options nodes)
  compile_options-IsSmall (last node) = compile-IsSmall node
  compile_options-IsSmall (more node nodes) = either-IsSmall (compile node) (compile_options nodes)

-- The automaton of a pattern has at most 5000 states, however its repetitions nest.
pub build_nfa-bounded :
    (ast : Ast) (nfa : Nfa) → build_nfa ast ≡ ok nfa → length nfa.states ≤ max_nfa_states
unfolding build_nfa
build_nfa-bounded ast nfa e =
    let ((s1, frag), compiled, rest) = >>=-eq-ok (compile ast []) _ e in
    let room = alloc-Fits match_state s1 _ nfa rest in
    let whole = alloc-eq-ok match_state s1 _ rest in
    let t = length s1 in
    let same : record {
      states = patch_all frag.patch t (s1 ++ match_state ∷ []);
      start = frag.start;
    }
        ≡ nfa =
      cc in
    omega (
      arith,
      room,
      length-patch_all frag.patch t (s1 ++ match_state ∷ []),
      ap (λ (a : Nfa). length a.states) same,
    )

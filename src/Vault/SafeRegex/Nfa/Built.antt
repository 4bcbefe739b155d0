-- ===== src/Vault/SafeRegex/Nfa/Built.antt =====
-- src/vault/safe-regex.ts: what a compiled fragment promises, and the fragments of one state.
use brainstem_mcp.Prelude.{
  Bool-cases, List, Option, [], ap, arith, get_elem?, inl, inr, length, length-append, ltb, ltb→lt,
  none, refl, some, subst, suc, sym, true, zero, ℕ, ◌++◌, ◌<◌, ◌==◌, ◌∙◌, ◌∷◌, ◌≡◌, ◌≤◌, ◌⊎◌,
}
use brainstem_mcp.Storage.Types.{>>=-eq-ok, Result, invalid_input, ok, reject_if-eq-ok, ◌>>=◌}
use brainstem_mcp.Vault.SafeRegex.{CharSet}
use brainstem_mcp.Vault.SafeRegex.Language.{One, Texts}
use brainstem_mcp.Vault.SafeRegex.Nfa.{
  Builder, Exits, Fragment, NfaState, Slot, States, alloc, assign, both_slots, char_state, epsilon,
  match_state, next_slot, single, split_state, too_complex,
}
use brainstem_mcp.Vault.SafeRegex.Nfa.Accepts.{Accepts, Accepts-at, Accepts_none, Accepts_of}
use brainstem_mcp.Vault.SafeRegex.Nfa.Patching.{Within, fill, map_some}

module _ {ℓ} {A : Type ℓ} where
  pub get-append_left :
      (xs ys : List A) (i : ℕ) → i < length xs → get_elem? (xs ++ ys) i ≡ get_elem? xs i
  get-append_left [] ys i h = absurd (omega arith)
  get-append_left (x ∷ xs) ys zero h = refl
  get-append_left (x ∷ xs) ys (suc i) h = get-append_left xs ys i (omega arith)

  pub get-append_end : (xs : List A) (y : A) → get_elem? (xs ++ y ∷ []) (length xs) ≡ some y
  get-append_end [] y = refl
  get-append_end (x ∷ xs) y = get-append_end xs y

-- Code that goes on after an allocation and returns goes on with the longer states.
pub alloc-eq-ok {ℓ} :
    {V : Type ℓ} (s : NfaState) (states : States) (next : States × ℕ → Result V) {v : V}
    → (alloc s states >>= next) ≡ ok v
    → next (states ++ s ∷ [], length states) ≡ ok v
unfolding alloc
alloc-eq-ok s states next e =
    let (at, allocated, went) = >>=-eq-ok (alloc s states) next e in
    let (_, same) = reject_if-eq-ok (too_complex states) invalid_input _ allocated in
    let pair : (states ++ s ∷ [], length states) ≡ at = cc in ap next pair ∙ went

pub fill_here :
    (j : ℕ) (slot : Slot) (t : ℕ) (s : NfaState) → fill ((j, slot) ∷ []) t j s ≡ assign slot t s
unfolding fill
fill_here j slot t s = let same : (j == j) ≡ true = ground arith in rw same refl

-- The final automaton `nfa` has the states of a fragment, with its exits pointed at `t`.
abbrev pub Fits : States → States → Exits → ℕ → ℕ → ℕ → Type 0
Fits nfa states exits t lo hi =
    (i : ℕ) → lo ≤ i → i < hi → get_elem? nfa i ≡ map_some (fill exits t i) (get_elem? states i)

-- Every target of the state is one of the first `m` states.
abbrev pub TargetsBelow : ℕ → Option NfaState → Type 0
TargetsBelow m (some match_state) = Unit
TargetsBelow m (some (char_state chars (some next))) = next < m
TargetsBelow m (some (split_state (some a) (some b))) = (a < m) × (b < m)
TargetsBelow m _ = ⊥

-- Where the exits lead to `t`, the states of a fragment have their targets among the states.
pub record Wired (frag : Fragment) (nfa : States) (t lo hi : ℕ) : Type 0 where
  pub starts : frag.start < hi
  pub below :
      (m : ℕ) → hi ≤ m → t < m → (i : ℕ) → lo ≤ i → i < hi → TargetsBelow m (get_elem? nfa i)

pub split_at : (middle i : ℕ) → (i < middle) ⊎ (middle ≤ i)
split_at middle i = elim (Bool-cases (ltb i middle)) [
  | inl e ↦ inl (ltb→lt i middle e)
  | inr e ↦ inr (ground arith)
]

pub at_state :
    (nfa : States) (m i j : ℕ) (s : NfaState)
    → get_elem? nfa j ≡ some s
    → i ≡ j
    → TargetsBelow m (some s)
    → TargetsBelow m (get_elem? nfa i)
at_state nfa m i j s at same b = subst (TargetsBelow m) (sym (ap (get_elem? nfa) same ∙ at)) b

module _ (variants : ℕ → List ℕ) where
  -- A path from the start reads a text of `L` before it comes to `t`, and gets there.
  abbrev pub IsSound : Texts → States → ℕ → ℕ → Type 0
  IsSound L nfa start t =
      (n : ℕ) (w : List ℕ)
      → Accepts variants nfa n start w
      → (m : ℕ) × (u v : List ℕ) × (m < n) × (w ≡ u ++ v) × L u × Accepts variants nfa m t v

  abbrev pub IsComplete : Texts → States → ℕ → ℕ → Type 0
  IsComplete L nfa start t =
      (m : ℕ) (u v : List ℕ)
      → L u
      → Accepts variants nfa m t v
      → (n : ℕ) × Accepts variants nfa n start (u ++ v)

  abbrev pub Reads : Texts → Fragment → States → ℕ → ℕ → Type 0
  Reads L frag states lo hi =
      (nfa : States) (t : ℕ)
      → Fits nfa states frag.patch t lo hi
      → IsSound L nfa frag.start t × IsComplete L nfa frag.start t × Wired frag nfa t lo hi

  pub record Built (L : Texts) (states states' : States) (frag : Fragment) : Type 0 where
    pub grows : length states ≤ length states'
    pub keeps : (i : ℕ) → i < length states → get_elem? states' i ≡ get_elem? states i
    pub exits : Within (length states) (length states') frag.patch
    pub reads : Reads L frag states' (length states) (length states')

  abbrev pub Builds : Builder → Texts → Type 0
  Builds builder L =
      (states states' : States) (frag : Fragment)
      → builder states ≡ ok (states', frag)
      → Built L states states' frag

  -- A fragment of one state, which is its own exit.
  pub one_state :
      (L : Texts) (s : NfaState) (slot : Slot) (states : States)
      → ((nfa : States) (j t : ℕ)
          → get_elem? nfa j ≡ some (assign slot t s)
          → IsSound L nfa j t
            × IsComplete L nfa j t
            × ((m : ℕ) → t < m → TargetsBelow m (some (assign slot t s))))
      → Built L states
          (states ++ s ∷ [])
          (record { start = length states; patch = (length states, slot) ∷ [] })
  one_state L s slot states right = record {
    grows = omega (arith, length-append states (s ∷ []));
    keeps = get-append_left states (s ∷ []);
    exits = ((omega arith, omega (arith, length-append states (s ∷ []))), tt);
    reads = λ nfa t fits.
        let j = length states in
        let there = fits j (omega arith) (omega (arith, length-append states (s ∷ []))) in
        let at : get_elem? nfa j ≡ some (assign slot t s) =
          there
          ∙ ap (map_some (fill ((j, slot) ∷ []) t j)) (get-append_end states s)
          ∙ ap some (fill_here j slot t s) in
        let (sound, complete, below) = right nfa j t at in
        (
          sound,
          complete,
          record {
            starts = omega (arith, length-append states (s ∷ []));
            below = λ m h k i l b.
                at_state nfa m i j (assign slot t s) at
                  (omega (arith, l, b, length-append states (s ∷ []))) (below m k);
          },
        );
  }

  pub Built-as :
      (L : Texts) (states : States) (p q : States × Fragment)
      → ok p ≡ ok q
      → Built L states p.0 p.1
      → Built L states q.0 q.1
  Built-as L states p q e b =
      let same : p ≡ q = cc in subst (λ (x : States × Fragment). Built L states x.0 x.1) same b

  both-IsSound :
      (nfa : States) (j t : ℕ)
      → get_elem? nfa j ≡ some (split_state (some t) (some t))
      → IsSound (λ w. w ≡ []) nfa j t
  both-IsSound nfa j t e zero w h = absurd (Accepts_none variants nfa j w h)
  both-IsSound nfa j t e (suc n) w h = elim (Accepts-at variants nfa n j w _ e h) [
    | inl a ↦ (n, [], w, omega arith, refl, refl, a)
    | inr a ↦ (n, [], w, omega arith, refl, refl, a)
  ]

  both-IsComplete :
      (nfa : States) (j t : ℕ)
      → get_elem? nfa j ≡ some (split_state (some t) (some t))
      → IsComplete (λ w. w ≡ []) nfa j t
  both-IsComplete nfa j t e m u v l a =
      (suc m, Accepts_of variants nfa m j (u ++ v) _ e (inl (rw l a)))

  pub epsilon-Builds : Builds epsilon (λ w. w ≡ [])
  unfolding epsilon assign
  epsilon-Builds states states' frag e =
      Built-as _ states _ (states', frag) (alloc-eq-ok (split_state none none) states _ e)
        (one_state _ (split_state none none) both_slots states
          (λ nfa j t h. (both-IsSound nfa j t h, both-IsComplete nfa j t h, λ m k. (k, k))))

  char-IsSound :
      (chars : CharSet) (nfa : States) (j t : ℕ)
      → get_elem? nfa j ≡ some (char_state chars (some t))
      → IsSound (One variants chars) nfa j t
  char-IsSound chars nfa j t e zero w h = absurd (Accepts_none variants nfa j w h)
  char-IsSound chars nfa j t e (suc n) w h =
      let (u, v, parts, one, after) = Accepts-at variants nfa n j w _ e h in
      (n, u, v, omega arith, parts, one, after)

  char-IsComplete :
      (chars : CharSet) (nfa : States) (j t : ℕ)
      → get_elem? nfa j ≡ some (char_state chars (some t))
      → IsComplete (One variants chars) nfa j t
  char-IsComplete chars nfa j t e m u v l a =
      (suc m, Accepts_of variants nfa m j (u ++ v) _ e (u, v, refl, l, a))

  pub single-Builds : (chars : CharSet) → Builds (single chars) (One variants chars)
  unfolding single assign
  single-Builds chars states states' frag e =
      Built-as _ states _ (states', frag) (alloc-eq-ok (char_state chars none) states _ e)
        (one_state _ (char_state chars none) next_slot states
          (λ nfa j t h. (char-IsSound chars nfa j t h, char-IsComplete chars nfa j t h, λ m k. k)))

-- ===== src/Vault/SafeRegex/Nfa/Patching.antt =====
-- src/vault/safe-regex.ts: what patching the exits of a fragment does to a state.
use brainstem_mcp.Prelude.{
  All, All-map, Option, [], ap, arith, false, get_elem?, if◌then◌else◌, length, none, refl, some,
  suc, sym, zero, ℕ, ◌++◌, ◌+◌, ◌<◌, ◌==◌, ◌∙◌, ◌∷◌, ◌≡◌, ◌≤◌,
}
use brainstem_mcp.Vault.SafeRegex.Nfa.{Exits, NfaState, Slot, States, assign, modify, patch_all}

abbrev pub map_some : (NfaState → NfaState) → Option NfaState → Option NfaState
map_some f none = none
map_some f (some s) = some (f s)

-- The state with number `i` after patching.
unfoldable pub fill : Exits → ℕ → ℕ → NfaState → NfaState
fill [] t i s = s
fill ((j, slot) ∷ exits) t i s = fill exits t i (if j == i then assign slot t s else s)

-- The exits are states with these numbers.
abbrev pub Within : ℕ → ℕ → Exits → Type 0
Within lo hi exits = All (λ (p : ℕ × Slot). (lo ≤ p.0) × (p.0 < hi)) exits

map_some-map_some :
    (f g : NfaState → NfaState) (o : Option NfaState)
    → map_some f (map_some g o) ≡ map_some (λ s. f (g s)) o
map_some-map_some f g none = refl
map_some-map_some f g (some s) = refl

map_some_id : (o : Option NfaState) → map_some (λ s. s) o ≡ o
map_some_id none = refl
map_some_id (some s) = refl

get-modify :
    (j : ℕ) (f : NfaState → NfaState) (states : States) (i : ℕ)
    → get_elem? (modify j f states) i
      ≡ map_some (λ s. if j == i then f s else s) (get_elem? states i)
unfolding modify
get-modify j f [] i = refl
get-modify zero f (s ∷ states) zero = refl
get-modify zero f (s ∷ states) (suc i) =
    let other : (0 == suc i) ≡ false = ground arith in
    rw other (sym (map_some_id (get_elem? states i)))
get-modify (suc j) f (s ∷ states) zero =
    let other : (suc j == 0) ≡ false = ground arith in rw other refl
get-modify (suc j) f (s ∷ states) (suc i) =
    let same : (suc j == suc i) ≡ (j == i) = ground arith in rw same (get-modify j f states i)

pub get-patch_all :
    (exits : Exits) (t : ℕ) (states : States) (i : ℕ)
    → get_elem? (patch_all exits t states) i ≡ map_some (fill exits t i) (get_elem? states i)
unfolding patch_all fill
get-patch_all [] t states i = sym (map_some_id (get_elem? states i))
get-patch_all ((j, slot) ∷ exits) t states i =
    get-patch_all exits t (modify j (assign slot t) states) i
    ∙ ap (map_some (fill exits t i)) (get-modify j (assign slot t) states i)
    ∙ map_some-map_some (fill exits t i) (λ s. if j == i then assign slot t s else s)
        (get_elem? states i)

length-modify :
    (j : ℕ) (f : NfaState → NfaState) (states : States) → length (modify j f states) ≡ length states
unfolding modify
length-modify j f [] = refl
length-modify zero f (s ∷ states) = refl
length-modify (suc j) f (s ∷ states) = ap suc (length-modify j f states)

pub length-patch_all :
    (exits : Exits) (t : ℕ) (states : States) → length (patch_all exits t states) ≡ length states
unfolding patch_all
length-patch_all [] t states = refl
length-patch_all ((j, slot) ∷ exits) t states =
    length-patch_all exits t (modify j (assign slot t) states)
    ∙ length-modify j (assign slot t) states

-- A state that is none of the exits stays.
pub fill-below :
    (exits : Exits) (lo hi t i : ℕ) (s : NfaState)
    → Within lo hi exits
    → i < lo
    → fill exits t i s ≡ s
unfolding fill
fill-below [] lo hi t i s w h = refl
fill-below ((j, slot) ∷ exits) lo hi t i s w h =
    let other : (j == i) ≡ false = ground (arith, w.0.0) in
    rw other (fill-below exits lo hi t i s w.1 h)

pub fill-above :
    (exits : Exits) (lo hi t i : ℕ) (s : NfaState)
    → Within lo hi exits
    → hi ≤ i
    → fill exits t i s ≡ s
unfolding fill
fill-above [] lo hi t i s w h = refl
fill-above ((j, slot) ∷ exits) lo hi t i s w h =
    let other : (j == i) ≡ false = ground (arith, w.0.1) in
    rw other (fill-above exits lo hi t i s w.1 h)

pub fill-append :
    (exits rest : Exits) (t i : ℕ) (s : NfaState)
    → fill (exits ++ rest) t i s ≡ fill rest t i (fill exits t i s)
unfolding fill
fill-append [] rest t i s = refl
fill-append ((j, slot) ∷ exits) rest t i s =
    fill-append exits rest t i (if j == i then assign slot t s else s)

pub Within-wider :
    (lo hi lo' hi' : ℕ) (exits : Exits)
    → lo' ≤ lo
    → hi ≤ hi'
    → Within lo hi exits
    → Within lo' hi' exits
Within-wider lo hi lo' hi' exits l h w =
    All-map exits (λ p b. (omega (arith, b.0), omega (arith, b.1))) w

map_some-fill :
    (exits : Exits) (t i : ℕ) (o : Option NfaState)
    → ((s : NfaState) → fill exits t i s ≡ s)
    → map_some (fill exits t i) o ≡ o
map_some-fill exits t i none h = refl
map_some-fill exits t i (some s) h = ap some (h s)

-- An exit is no state before the fragment, and none after it.
pub stays_below :
    (exits : Exits) (lo hi t i : ℕ) (o : Option NfaState)
    → Within lo hi exits
    → i < lo
    → map_some (fill exits t i) o ≡ o
stays_below exits lo hi t i o w h =
    map_some-fill exits t i o (λ s. fill-below exits lo hi t i s w h)

pub stays_above :
    (exits : Exits) (lo hi t i : ℕ) (o : Option NfaState)
    → Within lo hi exits
    → hi ≤ i
    → map_some (fill exits t i) o ≡ o
stays_above exits lo hi t i o w h =
    map_some-fill exits t i o (λ s. fill-above exits lo hi t i s w h)

pub map_some-fill-append :
    (exits rest : Exits) (t i : ℕ) (o : Option NfaState)
    → map_some (fill (exits ++ rest) t i) o ≡ map_some (fill rest t i) (map_some (fill exits t i) o)
map_some-fill-append exits rest t i none = refl
map_some-fill-append exits rest t i (some s) = ap some (fill-append exits rest t i s)

-- The one exit of a fragment.
pub one_Within : (j : ℕ) (slot : Slot) → Within j (j + 1) ((j, slot) ∷ [])
one_Within j slot = ((omega arith, omega arith), tt)

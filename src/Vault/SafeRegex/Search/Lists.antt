-- ===== src/Vault/SafeRegex/Search/Lists.antt =====
-- src/vault/safe-regex.ts: lists of threads, sorted by where their matches start.
use brainstem_mcp.Prelude.{
  All, All-map, List, [], ap, arith, drop, false, inl, inr, length, refl, subst, sym, true, ℕ, ◌++◌,
  ◌∷◌, ◌≡◌, ◌≤◌, ◌⊎◌,
}
use brainstem_mcp.Vault.SafeRegex.Matcher.{marked}
use brainstem_mcp.Vault.SafeRegex.Matcher.Marks.{marked_cons}
use brainstem_mcp.Vault.SafeRegex.Search.{ThreadList, states_of, tagged}

pub states_of-append : (a b : ThreadList) → states_of (a ++ b) ≡ states_of a ++ states_of b
states_of-append [] b = refl
states_of-append (p ∷ a) b = ap (◌∷◌ p.0) (states_of-append a b)

pub states_of-tagged : (s : ℕ) (list : List ℕ) → states_of (tagged s list) ≡ list
states_of-tagged s [] = refl
states_of-tagged s (i ∷ list) = ap (◌∷◌ i) (states_of-tagged s list)

pub drop-append : (a b : List ℕ) → drop (length a) (a ++ b) ≡ b
drop-append [] b = refl
drop-append (x ∷ a) b = drop-append a b

-- Some thread has a property.
abbrev pub Some : (ℕ × ℕ → Type 0) → ThreadList → Type 0
Some P [] = ⊥
Some P (p ∷ ps) = P p ⊎ Some P ps

pub Some-append_left : (P : ℕ × ℕ → Type 0) (a b : ThreadList) → Some P a → Some P (a ++ b)
Some-append_left P [] b h = absurd h
Some-append_left P (p ∷ a) b (inl h) = inl h
Some-append_left P (p ∷ a) b (inr h) = inr (Some-append_left P a b h)

pub Some-map :
    (P Q : ℕ × ℕ → Type 0) (threads : ThreadList)
    → ((p : ℕ × ℕ) → P p → Q p)
    → Some P threads
    → Some Q threads
Some-map P Q [] f h = h
Some-map P Q (p ∷ threads) f (inl h) = inl (f p h)
Some-map P Q (p ∷ threads) f (inr h) = inr (Some-map P Q threads f h)

pub Some-of-marked :
    (P Q : ℕ × ℕ → Type 0) (threads : ThreadList) (i : ℕ)
    → ((s : ℕ) → Q (i, s) → P (i, s))
    → All Q threads
    → marked (states_of threads) i ≡ true
    → Some P threads
Some-of-marked P Q [] i f q m = let no : false ≡ true = m in cc
Some-of-marked P Q ((j, s) ∷ threads) i f q m = elim (marked_cons i j (states_of threads) m) [
  | inl e ↦ inl (subst (λ k. P (k, s)) (sym e) (f s (subst (λ k. Q (k, s)) e q.0)))
  | inr e ↦ inr (Some-of-marked P Q threads i f q.1 e)
]

-- Starts do not decrease along the list, from a bound on.
abbrev pub SortedFrom : ℕ → ThreadList → Type 0
SortedFrom b [] = Unit
SortedFrom b (p ∷ ps) = (b ≤ p.1) × SortedFrom p.1 ps

abbrev pub UpTo : ℕ → ThreadList → Type 0
UpTo b threads = All (λ (p : ℕ × ℕ). p.1 ≤ b) threads

pub UpTo-wider : (a b : ℕ) (threads : ThreadList) → a ≤ b → UpTo a threads → UpTo b threads
UpTo-wider a b threads h u = All-map threads (λ p k. omega (arith, h, k)) u

pub tagged-UpTo : (s : ℕ) (list : List ℕ) → UpTo s (tagged s list)
tagged-UpTo s [] = tt
tagged-UpTo s (i ∷ list) = (omega arith, tagged-UpTo s list)

tagged-SortedFrom : (b s : ℕ) (list : List ℕ) → b ≤ s → SortedFrom b (tagged s list)
tagged-SortedFrom b s [] h = tt
tagged-SortedFrom b s (i ∷ list) h = (h, tagged-SortedFrom s s list (omega arith))

pub append-SortedFrom :
    (b s : ℕ) (threads : ThreadList) (list : List ℕ)
    → b ≤ s
    → SortedFrom b threads
    → UpTo s threads
    → SortedFrom b (threads ++ tagged s list)
append-SortedFrom b s [] list h o u = tagged-SortedFrom b s list h
append-SortedFrom b s (p ∷ threads) list h o u =
    (o.0, append-SortedFrom p.1 s threads list u.0 o.1 u.1)

-- ===== src/Vault/SafeRegex/Search/Followed.antt =====
-- src/vault/safe-regex.ts: what the threads cover after a character.
use brainstem_mcp.Prelude.{
  All, Bool-cases, List, Option, [], ap, arith, get_elem?, inl, inr, none, refl, some, sym, ℕ, ◌++◌,
  ◌∙◌, ◌∷◌, ◌≡◌, ◌≤◌,
}
use brainstem_mcp.Vault.SafeRegex.{set_matches}
use brainstem_mcp.Vault.SafeRegex.Language.{Texts}
use brainstem_mcp.Vault.SafeRegex.Matcher.Decides.{Leads}
use brainstem_mcp.Vault.SafeRegex.Nfa.{NfaState, States, char_state, match_state, split_state}
use brainstem_mcp.Vault.SafeRegex.Nfa.Accepts.{Accepts}
use brainstem_mcp.Vault.SafeRegex.Search.{Buffer, ThreadList, follow_thread, follow_threads}
use brainstem_mcp.Vault.SafeRegex.Search.Lists.{Some, Some-append_left, Some-map, SortedFrom, UpTo}
use brainstem_mcp.Vault.SafeRegex.Search.Threads.{
  Accepting, Covers, Grows, Sorted, Sorted-wider, add_thread-Covers, add_thread-Grows,
}
use mathlib.Core.List.{append-nil, append_assoc}

module _ (variants : ℕ → List ℕ) (states : States) where
  follow_thread-Grows :
      (L : ℕ → Texts) (vs : List ℕ) (i start : ℕ) (o : Option NfaState) (buffer : Buffer)
      → get_elem? states i ≡ o
      → ((j : ℕ)
          → Leads variants states vs i j
          → (n : ℕ) (w : List ℕ) → Accepts variants states n j w
          → L start w)
      → Sorted variants states L start buffer
      → Grows variants states L start buffer (follow_thread states vs o start buffer)
  unfolding follow_thread
  follow_thread-Grows L vs i start none buffer e q s = record {
    more = [];
    extends = sym (append-nil buffer.threads);
    good = s;
  }
  follow_thread-Grows L vs i start (some match_state) buffer e q s = record {
    more = [];
    extends = sym (append-nil buffer.threads);
    good = s;
  }
  follow_thread-Grows L vs i start (some (split_state a b)) buffer e q s = record {
    more = [];
    extends = sym (append-nil buffer.threads);
    good = s;
  }
  follow_thread-Grows L vs i start (some (char_state chars none)) buffer e q s = record {
    more = [];
    extends = sym (append-nil buffer.threads);
    good = s;
  }
  follow_thread-Grows L vs i start (some (char_state chars (some k))) buffer e q s =
      elim (Bool-cases (set_matches chars vs)) [
        | inl m ↦ rw m (add_thread-Grows variants states L k start buffer s (q k (chars, e, m)))
        | inr m ↦ rw m (record { more = []; extends = sym (append-nil buffer.threads); good = s })
      ]

  follow_thread-Covers :
      (L : ℕ → Texts) (vs : List ℕ) (i j start n : ℕ) (w : List ℕ) (buffer : Buffer)
      → ((j : ℕ)
          → Leads variants states vs i j
          → (n : ℕ) (w : List ℕ) → Accepts variants states n j w
          → L start w)
      → Sorted variants states L start buffer
      → Leads variants states vs i j
      → Accepts variants states n j w
      → Covers variants states start w
          (follow_thread states vs (get_elem? states i) start buffer).threads
  unfolding follow_thread
  follow_thread-Covers L vs i j start n w buffer q s (chars, e, m) d =
      rw (e, m) (add_thread-Covers variants states L j start n w buffer s (q j (chars, e, m)) d)

  -- What the threads of a list may lead to.
  abbrev pub LeadsWell : (ℕ → Texts) → List ℕ → ThreadList → Type 0
  LeadsWell L vs threads =
      All
        (λ (p : ℕ × ℕ).
          (j : ℕ)
          → Leads variants states vs p.0 j
          → (n : ℕ) (w : List ℕ) → Accepts variants states n j w
          → L p.1 w)
        threads

  pub follow_threads-Grows :
      (L : ℕ → Texts) (vs : List ℕ) (current : ThreadList) (low high : ℕ) (buffer : Buffer)
      → SortedFrom low current
      → UpTo high current
      → low ≤ high
      → LeadsWell L vs current
      → Sorted variants states L low buffer
      → Grows variants states L high buffer (follow_threads states vs current buffer)
  unfolding follow_threads
  follow_threads-Grows L vs [] low high buffer o u h q s = record {
    more = [];
    extends = sym (append-nil buffer.threads);
    good = Sorted-wider variants states L low high buffer h s;
  }
  follow_threads-Grows L vs ((i, start) ∷ current) low high buffer o u h q s =
      let first = follow_thread states vs (get_elem? states i) start buffer in
      let g =
        follow_thread-Grows L vs i start (get_elem? states i) buffer refl q.0
          (Sorted-wider variants states L low start buffer o.0 s) in
      let r = follow_threads-Grows L vs current start high first o.1 u.1 u.0 q.1 g.good in
      record {
        more = g.more ++ r.more;
        extends =
            r.extends ∙ ap (λ t. t ++ r.more) g.extends ∙ append_assoc buffer.threads g.more r.more;
        good = r.good;
      }

  -- A thread that a character leads on is covered, by one with no later start.
  pub follow_threads-Covers :
      (L : ℕ → Texts) (vs : List ℕ) (current : ThreadList) (low high bound : ℕ) (w : List ℕ)
      (buffer : Buffer)
      → SortedFrom low current
      → UpTo high current
      → low ≤ high
      → LeadsWell L vs current
      → Sorted variants states L low buffer
      → Some
          (λ p.
            (p.1 ≤ bound)
            × (j n : ℕ) × Leads variants states vs p.0 j
            × Accepts variants states n j w)
          current
      → Covers variants states bound w (follow_threads states vs current buffer).threads
  unfolding follow_threads
  follow_threads-Covers L vs [] low high bound w buffer o u h q s d = absurd d
  follow_threads-Covers L vs ((i, start) ∷ current) low high bound w buffer o u h q s
        (inl (early, j, n, l, d)) =
      let first = follow_thread states vs (get_elem? states i) start buffer in
      let wider = Sorted-wider variants states L low start buffer o.0 s in
      let g = follow_thread-Grows L vs i start (get_elem? states i) buffer refl q.0 wider in
      let r = follow_threads-Grows L vs current start high first o.1 u.1 u.0 q.1 g.good in
      let here = follow_thread-Covers L vs i j start n w buffer q.0 wider l d in
      rw r.extends (
        Some-append_left (Accepting variants states bound w) first.threads r.more (
          Some-map (Accepting variants states start w) (Accepting variants states bound w)
            first.threads (λ p a. (omega (arith, a.0, early), a.1, a.2)) here))
  follow_threads-Covers L vs ((i, start) ∷ current) low high bound w buffer o u h q s (inr d) =
      let first = follow_thread states vs (get_elem? states i) start buffer in
      let g =
        follow_thread-Grows L vs i start (get_elem? states i) buffer refl q.0
          (Sorted-wider variants states L low start buffer o.0 s) in
      follow_threads-Covers L vs current start high bound w first o.1 u.1 u.0 q.1 g.good d

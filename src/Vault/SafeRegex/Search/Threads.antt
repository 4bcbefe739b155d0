-- ===== src/Vault/SafeRegex/Search/Threads.antt =====
-- src/vault/safe-regex.ts: what the threads of a search cover.
use brainstem_mcp.Prelude.{
  All, All-append, List, [], ap, arith, drop, get_elem?, length, sym, true, ℕ, ◌++◌, ◌∙◌, ◌∷◌, ◌≡◌,
  ◌≤◌,
}
use brainstem_mcp.Vault.SafeRegex.Language.{Texts}
use brainstem_mcp.Vault.SafeRegex.Matcher.{Visit, add_state, marked}
use brainstem_mcp.Vault.SafeRegex.Matcher.Closure.{Settled, add_state-Closes}
use brainstem_mcp.Vault.SafeRegex.Matcher.Decides.{alive_at, nothing-Settled}
use brainstem_mcp.Vault.SafeRegex.Matcher.Marks.{marked_here}
use brainstem_mcp.Vault.SafeRegex.Matcher.Stopped.{Only-Spreads}
use brainstem_mcp.Vault.SafeRegex.Matcher.Stops.{AllStop, IsStop, add_state-Extends}
use brainstem_mcp.Vault.SafeRegex.Nfa.{States}
use brainstem_mcp.Vault.SafeRegex.Nfa.Accepts.{Accepts}
use brainstem_mcp.Vault.SafeRegex.Search.{
  Buffer, ThreadList, add_thread, no_threads, states_of, tagged,
}
use brainstem_mcp.Vault.SafeRegex.Search.Lists.{
  Some, Some-of-marked, SortedFrom, UpTo, UpTo-wider, append-SortedFrom, drop-append,
  states_of-append, states_of-tagged, tagged-UpTo,
}

module _ (variants : ℕ → List ℕ) (states : States) where
  -- A thread with an early enough start accepts the rest of the line.
  abbrev pub Accepting : ℕ → List ℕ → ℕ × ℕ → Type 0
  Accepting bound w p = (p.1 ≤ bound) × (n : ℕ) × Accepts variants states n p.0 w

  abbrev pub Covers : ℕ → List ℕ → ThreadList → Type 0
  Covers bound w threads = Some (Accepting bound w) threads

  -- The buffer's marks belong to its threads.
  abbrev pub Marks : Buffer → Type 0
  Marks buffer = Settled states (record { seen = buffer.seen; list = states_of buffer.threads }) []

  -- A state accepts only what keeps the property of the threads that have its start.
  abbrev pub Kept : (ℕ → Texts) → ℕ × ℕ → Type 0
  Kept L p =
      ((n : ℕ) (w : List ℕ) → Accepts variants states n p.0 w → L p.1 w)
      × IsStop (get_elem? states p.0)

  pub record Adds (L : ℕ → Texts) (from start : ℕ) (buffer buffer' : Buffer) : Type 0 where
    pub new : List ℕ
    pub threads : buffer'.threads ≡ buffer.threads ++ tagged start new
    pub kept : All (Kept L) (tagged start new)
    pub marks : Marks buffer'
    pub seen : (j : ℕ) → marked buffer.seen j ≡ true → marked buffer'.seen j ≡ true
    pub takes : marked buffer'.seen from ≡ true

  tagged-Kept :
      (L : ℕ → Texts) (start : ℕ) (new : List ℕ)
      → AllStop states (λ i. (n : ℕ) (w : List ℕ) → Accepts variants states n i w → L start w) new
      → All (Kept L) (tagged start new)
  tagged-Kept L start [] h = tt
  tagged-Kept L start (i ∷ new) h = (h.0, tagged-Kept L start new h.1)

  pub add_thread-Adds :
      (L : ℕ → Texts) (from start : ℕ) (buffer : Buffer)
      → Marks buffer
      → ((n : ℕ) (w : List ℕ) → Accepts variants states n from w → L start w)
      → Adds L from start buffer (add_thread states from start buffer)
  unfolding add_thread
  add_thread-Adds L from start buffer m q =
      let old = states_of buffer.threads in
      let v0 : Visit = record { seen = buffer.seen; list = old } in
      let v = add_state true states from v0 in
      let closes = add_state-Closes true states from v0 m in
      let (new, extends, stops) =
        add_state-Extends true states _ from v0 (Only-Spreads variants states (L start)) q in
      let tail : drop (length old) v.list ≡ new =
        ap (drop (length old)) extends ∙ drop-append old new in
      let whole : states_of (buffer.threads ++ tagged start (drop (length old) v.list)) ≡ v.list =
        states_of-append buffer.threads (tagged start (drop (length old) v.list))
        ∙ ap (◌++◌ old) (states_of-tagged start (drop (length old) v.list) ∙ tail)
        ∙ sym extends in
      record {
        new = new;
        threads = ap (λ t. buffer.threads ++ tagged start t) tail;
        kept = tagged-Kept L start new stops;
        marks = rw whole closes.settled;
        seen = closes.keeps_seen;
        takes = closes.takes from (marked_here from []);
      }

  -- A marked state that accepts a text has a thread that does.
  pub marked-Covers :
      (bound n j : ℕ) (w : List ℕ) (buffer : Buffer)
      → Marks buffer
      → UpTo bound buffer.threads
      → marked buffer.seen j ≡ true
      → Accepts variants states n j w
      → Covers bound w buffer.threads
  marked-Covers bound n j w buffer m u seen d =
      let (i, at, n', d') =
        alive_at variants states n j w
          (record { seen = buffer.seen; list = states_of buffer.threads }) m seen d in
      Some-of-marked (Accepting bound w) (λ p. p.1 ≤ bound) buffer.threads i (λ s h. (h, n', d')) u
        at

  -- A buffer whose threads are sorted, start by a bound, and keep a property.
  pub record Sorted (L : ℕ → Texts) (bound : ℕ) (buffer : Buffer) : Type 0 where
    pub marks : Marks buffer
    pub sorted : SortedFrom 0 buffer.threads
    pub below : UpTo bound buffer.threads
    pub kept : All (Kept L) buffer.threads

  pub no_threads-Sorted : (L : ℕ → Texts) (bound : ℕ) → Sorted L bound no_threads
  no_threads-Sorted L bound = record {
    marks = nothing-Settled variants states;
    sorted = tt;
    below = tt;
    kept = tt;
  }

  pub Sorted-wider :
      (L : ℕ → Texts) (a b : ℕ) (buffer : Buffer) → a ≤ b → Sorted L a buffer → Sorted L b buffer
  Sorted-wider L a b buffer h s = record {
    marks = s.marks;
    sorted = s.sorted;
    below = UpTo-wider a b buffer.threads h s.below;
    kept = s.kept;
  }

  -- Threads are added with the largest start so far, for a state that keeps the property.
  pub record Grows (L : ℕ → Texts) (bound : ℕ) (buffer buffer' : Buffer) : Type 0 where
    pub more : ThreadList
    pub extends : buffer'.threads ≡ buffer.threads ++ more
    pub good : Sorted L bound buffer'

  pub add_thread-Grows :
      (L : ℕ → Texts) (from start : ℕ) (buffer : Buffer)
      → Sorted L start buffer
      → ((n : ℕ) (w : List ℕ) → Accepts variants states n from w → L start w)
      → Grows L start buffer (add_thread states from start buffer)
  add_thread-Grows L from start buffer s q =
      let a = add_thread-Adds L from start buffer s.marks q in
      record {
        more = tagged start a.new;
        extends = a.threads;
        good = record {
          marks = a.marks;
          sorted =
              rw a.threads
                (append-SortedFrom 0 start buffer.threads a.new (omega arith) s.sorted s.below);
          below =
              rw a.threads (
                All-append _ buffer.threads (tagged start a.new) s.below (tagged-UpTo start a.new));
          kept = rw a.threads (All-append _ buffer.threads (tagged start a.new) s.kept a.kept);
        };
      }

  pub add_thread-Covers :
      (L : ℕ → Texts) (from start n : ℕ) (w : List ℕ) (buffer : Buffer)
      → Sorted L start buffer
      → ((n : ℕ) (w : List ℕ) → Accepts variants states n from w → L start w)
      → Accepts variants states n from w
      → Covers start w (add_thread states from start buffer).threads
  add_thread-Covers L from start n w buffer s q d =
      let g = add_thread-Grows L from start buffer s q in
      let a = add_thread-Adds L from start buffer s.marks q in
      marked-Covers start n from w (add_thread states from start buffer) a.marks g.good.below
        a.takes d

-- ===== src/Vault/SafeRegex/Search/Leftmost.antt =====
-- src/vault/safe-regex.ts: the search finds the leftmost match.
use brainstem_mcp.Prelude.{
  All, All-map, Bool-cases, List, Option, [], ap, arith, inl, inr, is_empty, is_some, length,
  length-append, none, refl, some, subst, suc, sym, ℕ, ◌&&◌, ◌++◌, ◌+◌, ◌∙◌, ◌∷◌, ◌≡◌,
}
use brainstem_mcp.Vault.SafeRegex.Language.{Texts}
use brainstem_mcp.Vault.SafeRegex.Nfa.{Nfa}
use brainstem_mcp.Vault.SafeRegex.Nfa.Accepts.{Accepts, Accepts_of}
use brainstem_mcp.Vault.SafeRegex.Search.{
  Buffer, SearchMatch, ThreadList, add_thread, cut, find_from, follow_threads, match_start,
  matched_now, next_threads, no_threads,
}
use brainstem_mcp.Vault.SafeRegex.Search.Cuts.{cut-All, cut-SortedFrom, match_start-Kept}
use brainstem_mcp.Vault.SafeRegex.Search.Followed.{LeadsWell, follow_threads-Grows}
use brainstem_mcp.Vault.SafeRegex.Search.Lists.{Some, SortedFrom, UpTo, UpTo-wider}
use brainstem_mcp.Vault.SafeRegex.Search.Threads.{
  Grows, Kept, Sorted, Sorted-wider, add_thread-Grows, no_threads-Sorted,
}
use mathlib.Core.List.{append-nil, append_assoc}

pub Some-map-All :
    (P Q R : ℕ × ℕ → Type 0) (threads : ThreadList)
    → ((p : ℕ × ℕ) → P p → Q p → R p)
    → All P threads
    → Some Q threads
    → Some R threads
Some-map-All P Q R [] f a h = h
Some-map-All P Q R (p ∷ threads) f a (inl h) = inl (f p a.0 h)
Some-map-All P Q R (p ∷ threads) f a (inr h) = inr (Some-map-All P Q R threads f a.1 h)

module _ (variants : ℕ → List ℕ) (nfa : Nfa) where
  -- What the automaton accepts from its start.
  abbrev pub Whole : Texts
  Whole x = (n : ℕ) × Accepts variants nfa.states n nfa.start x

  -- After the characters `pre`: a text that continues a match that starts at an offset.
  abbrev pub Continues : List ℕ → ℕ → Texts
  Continues pre s w = (y x : List ℕ) × (pre ≡ y ++ x) × (length y ≡ s) × Whole (x ++ w)

  -- A part of the line that matches.
  abbrev pub Found : List ℕ → SearchMatch → Type 0
  Found line m =
      (y x z : List ℕ) × (line ≡ y ++ (x ++ z))
      × (length y ≡ m.start)
      × (length (y ++ x) ≡ m.end)
      × Whole x

  -- The threads at an offset of the line.
  pub record Threads (pre : List ℕ) (current : ThreadList) : Type 0 where
    pub sorted : SortedFrom 0 current
    pub below : UpTo (length pre) current
    pub kept : All (Kept variants nfa.states (Continues pre)) current

  pub continues_new :
      (pre : List ℕ) (n : ℕ) (w : List ℕ)
      → Accepts variants nfa.states n nfa.start w
      → Continues pre (length pre) w
  continues_new pre n w d = (pre, [], sym (append-nil pre), refl, (n, d))

  pub leads_on :
      (pre : List ℕ) (c : ℕ) (current : ThreadList)
      → All (Kept variants nfa.states (Continues pre)) current
      → LeadsWell variants nfa.states (Continues (pre ++ c ∷ [])) (variants c) current
  leads_on pre c current k =
      All-map current
        (λ p kept j (chars, at, m) n w d.
          let (y, x, parts, len, (k', d')) = kept.0 (suc n) (c ∷ w) (
            Accepts_of variants nfa.states n p.0 (c ∷ w) _ at (c ∷ [], w, refl, (c, refl, m), d)) in
          (
            y,
            x ++ c ∷ [],
            ap (λ t. t ++ c ∷ []) parts ∙ append_assoc y x (c ∷ []),
            len,
            (
              k',
              subst (Accepts variants nfa.states k' nfa.start) (sym (append_assoc x (c ∷ []) w)) d',
            ),
          ))
        k

  pub followed :
      (pre : List ℕ) (c : ℕ) (current : ThreadList)
      → Threads pre current
      → Grows variants nfa.states
          (Continues (pre ++ c ∷ []))
          (length pre)
          no_threads
          (follow_threads nfa.states (variants c) current no_threads)
  followed pre c current t =
      follow_threads-Grows variants nfa.states (Continues (pre ++ c ∷ [])) (variants c) current 0
        (length pre) no_threads t.sorted t.below (omega arith) (leads_on pre c current t.kept)
        (no_threads-Sorted variants nfa.states (Continues (pre ++ c ∷ [])) 0)

  pub length-snoc : (pre : List ℕ) (c : ℕ) → length (pre ++ c ∷ []) ≡ length pre + 1
  length-snoc pre c = length-append pre (c ∷ [])

  pub begun :
      (pre : List ℕ) (c : ℕ) (buffer : Buffer)
      → Sorted variants nfa.states (Continues (pre ++ c ∷ [])) (length pre) buffer
      → Grows variants nfa.states
          (Continues (pre ++ c ∷ []))
          (length pre + 1)
          buffer
          (add_thread nfa.states nfa.start (length pre + 1) buffer)
  begun pre c buffer s =
      add_thread-Grows variants nfa.states (Continues (pre ++ c ∷ [])) nfa.start (length pre + 1)
        buffer
        (Sorted-wider variants nfa.states (Continues (pre ++ c ∷ [])) (length pre) (length pre + 1)
          buffer (omega arith) s)
        (λ n w d.
          subst (λ t. Continues (pre ++ c ∷ []) t w) (length-snoc pre c)
            (continues_new (pre ++ c ∷ []) n w d))

  pub next_threads-Threads :
      (pre : List ℕ) (c sp : ℕ) (matched : Option SearchMatch) (current : ThreadList)
      → sp ≡ length pre
      → Threads pre current
      → Threads (pre ++ c ∷ []) (next_threads variants nfa sp c matched current)
  unfolding next_threads
  next_threads-Threads pre c sp (some m) current e t =
      let g = followed pre c current t in
      record {
        sorted = g.good.sorted;
        below =
            UpTo-wider (length pre) (length (pre ++ c ∷ [])) _ (omega (arith, length-snoc pre c))
              g.good.below;
        kept = g.good.kept;
      }
  next_threads-Threads pre c sp none current e t =
      let g = followed pre c current t in
      let b = begun pre c (follow_threads nfa.states (variants c) current no_threads) g.good in
      rw e (record {
        sorted = b.good.sorted;
        below =
            UpTo-wider (length pre + 1) (length (pre ++ c ∷ [])) _
              (omega (arith, length-snoc pre c)) b.good.below;
        kept = b.good.kept;
      })

  pub cut-Threads :
      (pre : List ℕ) (current : ThreadList)
      → Threads pre current
      → Threads pre (cut nfa.states current)
  cut-Threads pre current t = record {
    sorted = cut-SortedFrom variants nfa.states 0 current t.sorted;
    below = cut-All variants nfa.states _ current t.below;
    kept = cut-All variants nfa.states _ current t.kept;
  }

  -- A match so far is found in the line.
  abbrev pub FoundIf : List ℕ → Option SearchMatch → Type 0
  FoundIf line none = Unit
  FoundIf line (some m) = Found line m

  now_found :
      (pre cs : List ℕ) (sp : ℕ) (o : Option ℕ) (matched : Option SearchMatch)
      (current : ThreadList)
      → sp ≡ length pre
      → Threads pre current
      → match_start nfa.states current ≡ o
      → FoundIf (pre ++ cs) matched
      → FoundIf (pre ++ cs) (matched_now sp o matched)
  now_found pre cs sp none matched current e t m f = f
  now_found pre cs sp (some start) matched current e t m f =
      let (y, x, parts, len, (n, d)) =
        match_start-Kept variants nfa.states (Continues pre) start current t.kept m in
      (
        y,
        x,
        cs,
        ap (λ p. p ++ cs) parts ∙ append_assoc y x cs,
        len,
        ap length (sym parts) ∙ sym e,
        (n, subst (Accepts variants nfa.states n nfa.start) (append-nil x) d),
      )

  pub find_from-Found :
      (cs pre : List ℕ) (sp : ℕ) (matched : Option SearchMatch) (current : ThreadList)
      → sp ≡ length pre
      → Threads pre current
      → FoundIf (pre ++ cs) matched
      → FoundIf (pre ++ cs) (find_from variants nfa sp matched current cs)
  unfolding find_from
  find_from-Found [] pre sp matched current e t f =
      now_found pre [] sp (match_start nfa.states current) matched current e t refl f
  find_from-Found (c ∷ cs) pre sp matched current e t f =
      let now = matched_now sp (match_start nfa.states current) matched in
      let left = cut nfa.states current in
      let found =
        now_found pre (c ∷ cs) sp (match_start nfa.states current) matched current e t refl f in
      let line : (pre ++ c ∷ []) ++ cs ≡ pre ++ c ∷ cs = append_assoc pre (c ∷ []) cs in
      let rest =
        find_from-Found cs (pre ++ c ∷ []) (sp + 1) now (next_threads variants nfa sp c now left)
          (omega (arith, e, length-snoc pre c))
          (next_threads-Threads pre c sp now left e (cut-Threads pre current t))
          (subst (λ l. FoundIf l now) (sym line) found) in
      elim (Bool-cases (is_empty left && is_some now)) [
        | inl stop ↦ rw stop found
        | inr go ↦ rw go (
            subst
              (λ l.
                FoundIf l (
                  find_from variants nfa (sp + 1) now (next_threads variants nfa sp c now left) cs))
              line rest)
      ]

-- ===== src/Vault/SafeRegex/Search/Earliest.antt =====
-- src/vault/safe-regex.ts: a match in the line stays covered by the threads, or is bettered.
use brainstem_mcp.Prelude.{
  List, Option, [], ap, arith, get_elem?, inl, inr, length, none, refl, some, subst, suc, sym, zero,
  ℕ, ◌++◌, ◌+◌, ◌<◌, ◌∙◌, ◌∷◌, ◌≡◌, ◌≤◌, ◌⊎◌,
}
use brainstem_mcp.Vault.SafeRegex.Language.{Texts}
use brainstem_mcp.Vault.SafeRegex.Matcher.Decides.{Leads, led}
use brainstem_mcp.Vault.SafeRegex.Nfa.{Nfa}
use brainstem_mcp.Vault.SafeRegex.Nfa.Accepts.{Accepts, Accepts-at, Accepts_none}
use brainstem_mcp.Vault.SafeRegex.Search.{
  SearchMatch, ThreadList, cut, follow_threads, match_start, matched_now, next_threads, no_threads,
}
use brainstem_mcp.Vault.SafeRegex.Search.Bounds.{Bound, Early, match_start-UpTo}
use brainstem_mcp.Vault.SafeRegex.Search.Cuts.{cut-All, cut-Covers, cut-UpTo}
use brainstem_mcp.Vault.SafeRegex.Search.Followed.{follow_threads-Covers, follow_threads-Grows}
use brainstem_mcp.Vault.SafeRegex.Search.Leftmost.{
  Continues, Some-map-All, Threads, Whole, begun, continues_new, followed, leads_on, length-snoc,
}
use brainstem_mcp.Vault.SafeRegex.Search.Lists.{Some-append_left}
use brainstem_mcp.Vault.SafeRegex.Search.Threads.{
  Accepting, Covers, Kept, Sorted-wider, add_thread-Covers, no_threads-Sorted,
}

module _ (variants : ℕ → List ℕ) (nfa : Nfa) (y0 x0 z0 : List ℕ)
    (whole : Whole variants nfa x0) where
  -- The match of `x0` after `y0` is already bettered, still to come, or under way.
  abbrev pub Case : List ℕ → Option SearchMatch → ThreadList → Type 0
  Case pre matched current =
      Early (length y0) matched
      ⊎ (((matched ≡ none) × (length pre < length y0))
          ⊎ ((a b : List ℕ) × (pre ≡ y0 ++ a)
              × (x0 ≡ a ++ b)
              × Covers variants nfa.states (length y0) b current))

  -- The same after the threads have been cut, with a character left of a match under way.
  abbrev pub Left : List ℕ → Option SearchMatch → ThreadList → Type 0
  Left pre matched current =
      Early (length y0) matched
      ⊎ (((matched ≡ none) × (length pre < length y0))
          ⊎ ((a : List ℕ) × (c : ℕ) × (b : List ℕ) × (pre ≡ y0 ++ a)
              × (x0 ≡ a ++ (c ∷ b))
              × Covers variants nfa.states (length y0) (c ∷ b) current))

  pub settle :
      (pre : List ℕ) (sp : ℕ) (o : Option ℕ) (matched : Option SearchMatch) (current : ThreadList)
      → sp ≡ length pre
      → Threads variants nfa pre current
      → match_start nfa.states current ≡ o
      → Bound matched current
      → Case pre matched current
      → Left pre (matched_now sp o matched) (cut nfa.states current)
  settle pre sp none matched current e t at b (inl early) = inl early
  settle pre sp (some s) (some k) current e t at b (inl (m, same, less)) =
      let early = match_start-UpTo nfa.states k.start s current b at in
      let km : k ≡ m = cc in
      inl (
        record { start = s; end = sp },
        refl,
        omega (arith, early, ap (λ (x : SearchMatch). x.start) km, less),
      )
  settle pre sp (some s) none current e t at b (inl (m, same, less)) = cc
  settle pre sp none matched current e t at b (inr (inl coming)) = inr (inl coming)
  settle pre sp (some s) matched current e t at b (inr (inl (_, before))) =
      let early = match_start-UpTo nfa.states (length pre) s current t.below at in
      inl (record { start = s; end = sp }, refl, omega (arith, early, before))
  settle pre sp o matched current e t at bound (inr (inr (a, b, parts, text, covers))) =
      elim (cut-Covers variants nfa.states (Continues variants nfa pre) 0 (length y0) b current
        t.sorted t.kept covers) [
          | inl (s, found, early) ↦
              let same : o ≡ some s = sym at ∙ found in
              rw same (inl (record { start = s; end = sp }, refl, early))
          | inr (c, v, next, covers') ↦ inr (
              inr (
                a,
                c,
                v,
                parts,
                text ∙ ap (◌++◌ a) next,
                subst (λ w. Covers variants nfa.states (length y0) w (cut nfa.states current)) next
                    covers',
              ))
        ]

  pub Bound-now :
      (pre : List ℕ) (sp : ℕ) (o : Option ℕ) (matched : Option SearchMatch) (current : ThreadList)
      → Threads variants nfa pre current
      → match_start nfa.states current ≡ o
      → Bound matched current
      → Bound (matched_now sp o matched) (cut nfa.states current)
  Bound-now pre sp none none current t at b = tt
  Bound-now pre sp none (some m) current t at b = cut-All variants nfa.states _ current b
  Bound-now pre sp (some s) matched current t at b =
      (cut-UpTo variants nfa.states 0 s current t.sorted at).1

  pub Bound-next :
      (pre : List ℕ) (c sp : ℕ) (matched : Option SearchMatch) (current : ThreadList)
      → Threads variants nfa pre current
      → Bound matched current
      → Bound matched (next_threads variants nfa sp c matched current)
  unfolding next_threads
  Bound-next pre c sp none current t b = tt
  Bound-next pre c sp (some m) current t b =
      let L = Continues variants nfa (pre ++ c ∷ []) in
      (follow_threads-Grows variants nfa.states L (variants c) current 0 m.start no_threads t.sorted
        b (omega arith) (leads_on variants nfa pre c current t.kept)
        (no_threads-Sorted variants nfa.states L 0)).good.below

  -- The thread of a match under way is led on by the next character.
  led_on :
      (c : ℕ) (b : List ℕ) (p : ℕ × ℕ) (L : ℕ → Texts)
      → Kept variants nfa.states L p
      → Accepting variants nfa.states (length y0) (c ∷ b) p
      → (p.1 ≤ length y0)
        × (j n : ℕ) × Leads variants nfa.states (variants c) p.0 j
        × Accepts variants nfa.states n j b
  led_on c b p L k (early, zero, d) = absurd (Accepts_none variants nfa.states p.0 (c ∷ b) d)
  led_on c b p L k (early, suc n, d) =
      let (j, l, d') =
        led variants nfa.states n p.0 c b (get_elem? nfa.states p.0) refl k.1
          (Accepts-at variants nfa.states n p.0 (c ∷ b) _ refl d) in
      (early, j, n, l, d')

  followed_Covers :
      (pre : List ℕ) (c : ℕ) (b : List ℕ) (current : ThreadList)
      → Threads variants nfa pre current
      → Covers variants nfa.states (length y0) (c ∷ b) current
      → Covers variants nfa.states
          (length y0)
          b
          (follow_threads nfa.states (variants c) current no_threads).threads
  followed_Covers pre c b current t h =
      let L = Continues variants nfa (pre ++ c ∷ []) in
      follow_threads-Covers variants nfa.states L (variants c) current 0 (length pre) (length y0) b
        no_threads t.sorted t.below (omega arith) (leads_on variants nfa pre c current t.kept)
        (no_threads-Sorted variants nfa.states L 0)
        (Some-map-All _ _ _ current (λ p k a. led_on c b p (Continues variants nfa pre) k a) t.kept
          h)

  pub next_Covers :
      (pre : List ℕ) (c sp : ℕ) (b : List ℕ) (matched : Option SearchMatch) (current : ThreadList)
      → sp ≡ length pre
      → Threads variants nfa pre current
      → Covers variants nfa.states (length y0) (c ∷ b) current
      → Covers variants nfa.states (length y0) b (next_threads variants nfa sp c matched current)
  unfolding next_threads
  next_Covers pre c sp b (some m) current e t h = followed_Covers pre c b current t h
  next_Covers pre c sp b none current e t h =
      let buffer = follow_threads nfa.states (variants c) current no_threads in
      let g = begun variants nfa pre c buffer (followed variants nfa pre c current t).good in
      rw (e, g.extends)
        (Some-append_left (Accepting variants nfa.states (length y0) b) buffer.threads g.more
          (followed_Covers pre c b current t h))

  -- A new thread starts the match.
  pub new_Covers :
      (pre : List ℕ) (c sp : ℕ) (current : ThreadList)
      → sp ≡ length pre
      → length pre + 1 ≡ length y0
      → Threads variants nfa pre current
      → Covers variants nfa.states (length y0) x0 (next_threads variants nfa sp c none current)
  unfolding next_threads
  new_Covers pre c sp current e at t =
      let L = Continues variants nfa (pre ++ c ∷ []) in
      let buffer = follow_threads nfa.states (variants c) current no_threads in
      let good = (followed variants nfa pre c current t).good in
      let (n, d) = whole in
      rw (e, ← at)
        (add_thread-Covers variants nfa.states L nfa.start (length pre + 1) n x0 buffer
          (Sorted-wider variants nfa.states L (length pre) (length pre + 1) buffer (omega arith)
            good)
          (λ n w d.
            subst (λ t. L t w) (length-snoc variants nfa pre c)
              (continues_new variants nfa (pre ++ c ∷ []) n w d))
          d)

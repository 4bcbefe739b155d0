-- ===== src/Vault/SafeRegex/Search/First.antt =====
-- src/vault/safe-regex.ts: no match starts before the one that the search finds.
use brainstem_mcp.Prelude.{
  ==_iff, Bool-cases, List, Option, [], ap, arith, false, inl, inr, is_empty, is_some, length,
  length-append, none, refl, some, subst, sym, true, ℕ, ◌&&◌, ◌++◌, ◌+◌, ◌<◌, ◌==◌, ◌∙◌, ◌∷◌, ◌≡◌,
}
use brainstem_mcp.Vault.SafeRegex.Nfa.{Nfa}
use brainstem_mcp.Vault.SafeRegex.Search.{
  SearchMatch, ThreadList, cut, find_from, match_start, matched_now, next_threads,
}
use brainstem_mcp.Vault.SafeRegex.Search.Bounds.{Bound, Early}
use brainstem_mcp.Vault.SafeRegex.Search.Cuts.{append_cancel, append_same}
use brainstem_mcp.Vault.SafeRegex.Search.Earliest.{
  Bound-next, Bound-now, Case, Left, new_Covers, next_Covers, settle,
}
use brainstem_mcp.Vault.SafeRegex.Search.Leftmost.{
  Threads, Whole, cut-Threads, length-snoc, next_threads-Threads,
}
use brainstem_mcp.Vault.SafeRegex.Search.Threads.{Covers}
use mathlib.Core.List.{append-nil, append_assoc}

module _ (variants : ℕ → List ℕ) (nfa : Nfa) (y0 x0 z0 : List ℕ)
    (whole : Whole variants nfa x0) where
  -- What is left after a character.
  next_Case :
      (pre cs : List ℕ) (c sp : ℕ) (matched : Option SearchMatch) (current : ThreadList)
      → sp ≡ length pre
      → pre ++ c ∷ cs ≡ y0 ++ (x0 ++ z0)
      → Threads variants nfa pre current
      → Left variants nfa y0 x0 z0 whole pre matched current
      → Case variants nfa y0 x0 z0 whole
          (pre ++ c ∷ [])
          matched
          (next_threads variants nfa sp c matched current)
  next_Case pre cs c sp matched current e line t (inl early) = inl early
  next_Case pre cs c sp matched current e line t (inr (inl (fresh, before))) =
      elim (Bool-cases (length pre + 1 == length y0)) [
        | inl at ↦
            let here : length pre + 1 ≡ length y0 = (==_iff (length pre + 1) (length y0)).0 at in
            let same : pre ++ c ∷ [] ≡ y0 =
              append_same (pre ++ c ∷ []) y0 cs (x0 ++ z0) (length-snoc variants nfa pre c ∙ here)
                (append_assoc pre (c ∷ []) cs ∙ line) in
            inr (
              inr (
                [],
                x0,
                same ∙ sym (append-nil y0),
                refl,
                rw fresh (new_Covers variants nfa y0 x0 z0 whole pre c sp current e here t),
              ))
        | inr other ↦
            let later : length pre + 1 < length y0 = ground arith in
            inr (inl (fresh, omega (arith, later, length-snoc variants nfa pre c)))
      ]
  next_Case pre cs c sp matched current e line t (inr (inr (a, d, b, parts, text, covers))) =
      let rest : c ∷ cs ≡ (d ∷ b) ++ z0 = append_cancel (y0 ++ a) (c ∷ cs) ((d ∷ b) ++ z0) (
        ap (λ p. p ++ c ∷ cs) (sym parts)
        ∙ line
        ∙ ap (λ x. y0 ++ (x ++ z0)) text
        ∙ ap (◌++◌ y0) (append_assoc a (d ∷ b) z0)
        ∙ sym (append_assoc y0 a ((d ∷ b) ++ z0))) in
      let same : d ≡ c = cc in
      inr (
        inr (
          a ++ c ∷ [],
          b,
          ap (λ p. p ++ c ∷ []) parts ∙ append_assoc y0 a (c ∷ []),
          text ∙ ap (λ k. a ++ (k ∷ b)) same ∙ sym (append_assoc a (c ∷ []) b),
          next_Covers variants nfa y0 x0 z0 whole pre c sp b matched current e t
              (subst (λ k. Covers variants nfa.states (length y0) (k ∷ b) current) same covers),
        ))

  -- A search that stops has its match.
  pub stopped :
      (pre : List ℕ) (matched : Option SearchMatch) (current : ThreadList)
      → (is_empty current && is_some matched) ≡ true
      → Left variants nfa y0 x0 z0 whole pre matched current
      → Early (length y0) matched
  stopped pre matched current stop (inl early) = early
  stopped pre (some m) current stop (inr (inl (fresh, _))) = cc
  stopped pre none [] stop (inr _) = let no : false ≡ true = stop in cc
  stopped pre matched (p ∷ current) stop (inr _) = let no : false ≡ true = stop in cc
  stopped pre matched [] stop (inr (inr (a, c, b, parts, text, covers))) = absurd covers

  -- At the end of the line no match is to come or under way.
  pub ended :
      (pre : List ℕ) (matched : Option SearchMatch) (current : ThreadList)
      → pre ++ [] ≡ y0 ++ (x0 ++ z0)
      → Left variants nfa y0 x0 z0 whole pre matched current
      → Early (length y0) matched
  ended pre matched current line (inl early) = early
  ended pre matched current line (inr (inl (_, before))) =
      absurd (
        omega (arith, before, ap length (sym (append-nil pre) ∙ line), length-append y0 (x0 ++ z0)))
  ended pre matched current line (inr (inr (a, c, b, parts, text, _))) =
      let rest : [] ≡ (c ∷ b) ++ z0 = append_cancel (y0 ++ a) [] ((c ∷ b) ++ z0) (
        ap (λ p. p ++ []) (sym parts)
        ∙ line
        ∙ ap (λ x. y0 ++ (x ++ z0)) text
        ∙ ap (◌++◌ y0) (append_assoc a (c ∷ b) z0)
        ∙ sym (append_assoc y0 a ((c ∷ b) ++ z0))) in
      cc

  pub find_from-Early :
      (cs pre : List ℕ) (sp : ℕ) (matched : Option SearchMatch) (current : ThreadList)
      → sp ≡ length pre
      → pre ++ cs ≡ y0 ++ (x0 ++ z0)
      → Threads variants nfa pre current
      → Bound matched current
      → Case variants nfa y0 x0 z0 whole pre matched current
      → Early (length y0) (find_from variants nfa sp matched current cs)
  unfolding find_from
  find_from-Early [] pre sp matched current e line t b h =
      ended pre (matched_now sp (match_start nfa.states current) matched) (cut nfa.states current)
        line
        (settle variants nfa y0 x0 z0 whole pre sp (match_start nfa.states current) matched current
          e t refl b h)
  find_from-Early (c ∷ cs) pre sp matched current e line t b h =
      let now = matched_now sp (match_start nfa.states current) matched in
      let left = cut nfa.states current in
      let t' = cut-Threads variants nfa pre current t in
      let l =
        settle variants nfa y0 x0 z0 whole pre sp (match_start nfa.states current) matched current e
          t refl b h in
      let b' =
        Bound-now variants nfa y0 x0 z0 whole pre sp (match_start nfa.states current) matched
          current t refl b in
      elim (Bool-cases (is_empty left && is_some now)) [
        | inl stop ↦ rw stop (stopped pre now left stop l)
        | inr go ↦ rw go (
            find_from-Early cs (pre ++ c ∷ []) (sp + 1) now
              (next_threads variants nfa sp c now left)
              (omega (arith, e, length-snoc variants nfa pre c))
              (append_assoc pre (c ∷ []) cs ∙ line)
              (next_threads-Threads variants nfa pre c sp now left e t')
              (Bound-next variants nfa y0 x0 z0 whole pre c sp now left t' b')
              (next_Case pre cs c sp now left e line t' l))
      ]

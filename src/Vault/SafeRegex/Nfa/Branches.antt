-- ===== src/Vault/SafeRegex/Nfa/Branches.antt =====
-- src/vault/safe-regex.ts: the fragments of a repetition and of an alternation keep their promise.
use brainstem_mcp.Prelude.{
  All-append, List, [], ap, arith, get_elem?, inl, inr, length, length-append, none, refl, some,
  suc, zero, ℕ, ◌++◌, ◌+◌, ◌<◌, ◌∙◌, ◌∷◌, ◌≡◌, ◌≤◌, ◌⊎◌,
}
use brainstem_mcp.Storage.Types.{>>=-eq-ok}
use brainstem_mcp.Vault.SafeRegex.Language.{Texts}
use brainstem_mcp.Vault.SafeRegex.Nfa.{
  Builder, States, assign, b_slot, either, optional, split_state,
}
use brainstem_mcp.Vault.SafeRegex.Nfa.Accepts.{Accepts-at, Accepts_none, Accepts_of}
use brainstem_mcp.Vault.SafeRegex.Nfa.Built.{
  Builds, Built-as, IsComplete, IsSound, alloc-eq-ok, at_state, fill_here, get-append_end,
  get-append_left, split_at,
}
use brainstem_mcp.Vault.SafeRegex.Nfa.Patching.{
  Within-wider, fill, fill-above, fill-append, map_some, map_some-fill-append, one_Within,
  stays_above, stays_below,
}

abbrev pub Maybe : Texts → Texts
Maybe L w = (w ≡ []) ⊎ L w

abbrev pub Or : Texts → Texts → Texts
Or L M w = L w ⊎ M w

module _ (variants : ℕ → List ℕ) where
  optional-IsSound :
      (L : Texts) (nfa : States) (j start t : ℕ)
      → get_elem? nfa j ≡ some (split_state (some start) (some t))
      → IsSound variants L nfa start t
      → IsSound variants (Maybe L) nfa j t
  optional-IsSound L nfa j start t e inner zero w h = absurd (Accepts_none variants nfa j w h)
  optional-IsSound L nfa j start t e inner (suc n) w h =
      elim (Accepts-at variants nfa n j w _ e h) [
        | inl a ↦
            let (m, u, v, less, parts, l, after) = inner n w a in
            (m, u, v, omega (arith, less), parts, inr l, after)
        | inr a ↦ (n, [], w, omega arith, refl, inl refl, a)
      ]

  optional-IsComplete :
      (L : Texts) (nfa : States) (j start t : ℕ)
      → get_elem? nfa j ≡ some (split_state (some start) (some t))
      → IsComplete variants L nfa start t
      → IsComplete variants (Maybe L) nfa j t
  optional-IsComplete L nfa j start t e inner m u v (inl none_read) a =
      (suc m, Accepts_of variants nfa m j (u ++ v) _ e (inr (rw none_read a)))
  optional-IsComplete L nfa j start t e inner m u v (inr l) a =
      let (n, b) = inner m u v l a in (suc n, Accepts_of variants nfa n j (u ++ v) _ e (inl b))

  pub optional-Builds :
      (node : Builder) (L : Texts)
      → Builds variants node L
      → Builds variants (optional node) (Maybe L)
  unfolding optional assign
  optional-Builds node L builds states states' frag e =
      let ((s1, inner), compiled, rest) = >>=-eq-ok (node states) _ e in
      let b = builds states s1 inner compiled in
      let j = length s1 in
      let new = split_state (some inner.start) none in
      let s2 = s1 ++ new ∷ [] in
      let longer : length s2 ≡ j + 1 = length-append s1 (new ∷ []) in
      Built-as variants (Maybe L) states
        (s2, record { start = j; patch = inner.patch ++ (j, b_slot) ∷ [] }) (states', frag)
        (alloc-eq-ok new s1 _ rest)
        (record {
          grows = omega (arith, b.grows, longer);
          keeps = λ i h. get-append_left s1 (new ∷ []) i (omega (arith, h, b.grows)) ∙ b.keeps i h;
          exits =
              All-append _ inner.patch ((j, b_slot) ∷ [])
                (Within-wider (length states) j (length states) (length s2) inner.patch
                  (omega arith) (omega (arith, longer)) b.exits)
                ((b.grows, omega (arith, longer)), tt);
          reads = λ nfa t fits.
              let at : get_elem? nfa j ≡ some (split_state (some inner.start) (some t)) =
                fits j b.grows (omega (arith, longer))
                ∙ ap (map_some (fill (inner.patch ++ (j, b_slot) ∷ []) t j)) (get-append_end s1 new)
                ∙ ap some (fill-append inner.patch ((j, b_slot) ∷ []) t j new)
                ∙ ap (λ s. some (fill ((j, b_slot) ∷ []) t j s))
                    (fill-above inner.patch (length states) j t j new b.exits (omega arith))
                ∙ ap some (fill_here j b_slot t new) in
              let inside = λ (i : ℕ) (l : length states ≤ i) (h : i < j).
                fits i l (omega (arith, h, longer))
                ∙ map_some-fill-append inner.patch ((j, b_slot) ∷ []) t i (get_elem? s2 i)
                ∙ stays_below ((j, b_slot) ∷ []) j (j + 1) t i _ (one_Within j b_slot) h
                ∙ ap (map_some (fill inner.patch t i)) (get-append_left s1 (new ∷ []) i h) in
              let (sound, complete, wired) = b.reads nfa t inside in
              (
                optional-IsSound L nfa j inner.start t at sound,
                optional-IsComplete L nfa j inner.start t at complete,
                record {
                  starts = omega (arith, longer);
                  below = λ m h k i low high. elim (split_at j i) [
                    | inl less ↦ wired.below m (omega (arith, h, longer)) k i low less
                    | inr past ↦
                        at_state nfa m i j (split_state (some inner.start) (some t)) at
                          (omega (arith, past, high, longer))
                          (omega (arith, wired.starts, h, longer), k)
                  ];
                },
              );
        })

  either-IsSound :
      (L M : Texts) (nfa : States) (j a b t : ℕ)
      → get_elem? nfa j ≡ some (split_state (some a) (some b))
      → IsSound variants L nfa a t
      → IsSound variants M nfa b t
      → IsSound variants (Or L M) nfa j t
  either-IsSound L M nfa j a b t e left right zero w h = absurd (Accepts_none variants nfa j w h)
  either-IsSound L M nfa j a b t e left right (suc n) w h =
      elim (Accepts-at variants nfa n j w _ e h) [
        | inl d ↦
            let (m, u, v, less, parts, l, after) = left n w d in
            (m, u, v, omega (arith, less), parts, inl l, after)
        | inr d ↦
            let (m, u, v, less, parts, l, after) = right n w d in
            (m, u, v, omega (arith, less), parts, inr l, after)
      ]

  either-IsComplete :
      (L M : Texts) (nfa : States) (j a b t : ℕ)
      → get_elem? nfa j ≡ some (split_state (some a) (some b))
      → IsComplete variants L nfa a t
      → IsComplete variants M nfa b t
      → IsComplete variants (Or L M) nfa j t
  either-IsComplete L M nfa j a b t e left right m u v (inl l) d =
      let (n, k) = left m u v l d in (suc n, Accepts_of variants nfa n j (u ++ v) _ e (inl k))
  either-IsComplete L M nfa j a b t e left right m u v (inr l) d =
      let (n, k) = right m u v l d in (suc n, Accepts_of variants nfa n j (u ++ v) _ e (inr k))

  pub either-Builds :
      (left_node right_nodes : Builder) (L M : Texts)
      → Builds variants left_node L
      → Builds variants right_nodes M
      → Builds variants (either left_node right_nodes) (Or L M)
  unfolding either
  either-Builds left_node right_nodes L M builds_left builds_right states states' frag e =
      let ((s1, fr), compiled, rest) = >>=-eq-ok (right_nodes states) _ e in
      let ((s2, fl), compiled', rest') = >>=-eq-ok (left_node s1) _ rest in
      let r = builds_right states s1 fr compiled in
      let l = builds_left s1 s2 fl compiled' in
      let j = length s2 in
      let new = split_state (some fl.start) (some fr.start) in
      let s3 = s2 ++ new ∷ [] in
      let longer : length s3 ≡ j + 1 = length-append s2 (new ∷ []) in
      let low = length states in
      let middle = length s1 in
      Built-as variants (Or L M) states (s3, record { start = j; patch = fl.patch ++ fr.patch })
        (states', frag) (alloc-eq-ok new s2 _ rest')
        (record {
          grows = omega (arith, r.grows, l.grows, longer);
          keeps = λ i h.
              get-append_left s2 (new ∷ []) i (omega (arith, h, r.grows, l.grows))
              ∙ l.keeps i (omega (arith, h, r.grows))
              ∙ r.keeps i h;
          exits =
              All-append _ fl.patch fr.patch
                (Within-wider middle j low (length s3) fl.patch r.grows (omega (arith, longer))
                  l.exits)
                (Within-wider low middle low (length s3) fr.patch (omega arith)
                  (omega (arith, longer, l.grows)) r.exits);
          reads = λ nfa t fits.
              let filled = λ (i : ℕ) (b : low ≤ i) (h : i < length s3).
                fits i b h ∙ map_some-fill-append fl.patch fr.patch t i (get_elem? s3 i) in
              let at : get_elem? nfa j ≡ some new =
                filled j (omega (arith, r.grows, l.grows)) (omega (arith, longer))
                ∙ stays_above fr.patch low middle t j _ r.exits l.grows
                ∙ stays_above fl.patch middle j t j _ l.exits (omega arith)
                ∙ get-append_end s2 new in
              let on_right = λ (i : ℕ) (b : low ≤ i) (h : i < middle).
                filled i b (omega (arith, h, l.grows, longer))
                ∙ ap (map_some (fill fr.patch t i)) (
                    stays_below fl.patch middle j t i _ l.exits h
                    ∙ get-append_left s2 (new ∷ []) i (omega (arith, h, l.grows))
                    ∙ l.keeps i h) in
              let on_left = λ (i : ℕ) (b : middle ≤ i) (h : i < j).
                filled i (omega (arith, b, r.grows)) (omega (arith, h, longer))
                ∙ stays_above fr.patch low middle t i _ r.exits b
                ∙ ap (map_some (fill fl.patch t i)) (get-append_left s2 (new ∷ []) i h) in
              let right = r.reads nfa t on_right in
              let left = l.reads nfa t on_left in
              (
                either-IsSound L M nfa j fl.start fr.start t at left.0 right.0,
                either-IsComplete L M nfa j fl.start fr.start t at left.1 right.1,
                record {
                  starts = omega (arith, longer);
                  below = λ m h k i b high. elim (split_at middle i) [
                    | inl less ↦ right.2.below m (omega (arith, h, longer, l.grows)) k i b less
                    | inr past ↦ elim (split_at j i) [
                      | inl less ↦ left.2.below m (omega (arith, h, longer)) k i past less
                      | inr beyond ↦
                          at_state nfa m i j new at (omega (arith, beyond, high, longer)) (
                            omega (arith, left.2.starts, h, longer),
                            omega (arith, right.2.starts, h, longer, l.grows),
                          )
                    ]
                  ];
                },
              );
        })

-- ===== src/Vault/SafeRegex/Nfa/Stars.antt =====
-- src/vault/safe-regex.ts: the fragment of an unbounded repetition keeps its promise.
use brainstem_mcp.Prelude.{
  List, [], ap, arith, get_elem?, inl, inr, length, length-append, none, refl, some, subst, suc,
  sym, zero, ℕ, ◌++◌, ◌+◌, ◌<◌, ◌∙◌, ◌∷◌, ◌≡◌, ◌≤◌,
}
use brainstem_mcp.Storage.Types.{>>=-eq-ok}
use brainstem_mcp.Vault.SafeRegex.Language.{Power, Texts, Times}
use brainstem_mcp.Vault.SafeRegex.Nfa.{
  Builder, States, a_slot, assign, b_slot, patch_all, split_state, star,
}
use brainstem_mcp.Vault.SafeRegex.Nfa.Accepts.{Accepts, Accepts-at, Accepts_none, Accepts_of}
use brainstem_mcp.Vault.SafeRegex.Nfa.Built.{
  Builds, Built-as, IsComplete, IsSound, alloc-eq-ok, at_state, fill_here, get-append_end,
  get-append_left, split_at,
}
use brainstem_mcp.Vault.SafeRegex.Nfa.Patching.{
  fill, get-patch_all, length-patch_all, map_some, one_Within, stays_above, stays_below,
}
use mathlib.Core.List.{append_assoc}

module _ (variants : ℕ → List ℕ) where
  -- Rounds of a star, by the number of states that a path has left.
  star_sound :
      (L : Texts) (nfa : States) (j start t : ℕ)
      → get_elem? nfa j ≡ some (split_state (some start) (some t))
      → IsSound variants L nfa start j
      → (bound n : ℕ) (w : List ℕ) → n < bound
      → Accepts variants nfa n j w
      → (m : ℕ) × (u v : List ℕ) × (m < n)
        × (w ≡ u ++ v)
        × Times L 0 none u
        × Accepts variants nfa m t v
  star_sound L nfa j start t e inner zero n w h d = absurd (omega arith)
  star_sound L nfa j start t e inner (suc bound) zero w h d =
      absurd (Accepts_none variants nfa j w d)
  star_sound L nfa j start t e inner (suc bound) (suc n) w h d =
      elim (Accepts-at variants nfa n j w _ e d) [
        | inr a ↦ (n, [], w, omega arith, refl, (0, omega arith, refl), a)
        | inl a ↦
            let (m, u, v, less, parts, l, after) = inner n w a in
            let (m', u', v', less', parts', (k, _, ls), after') =
              star_sound L nfa j start t e inner bound m v (omega (arith, h, less)) after in
            (
              m',
              u ++ u',
              v',
              omega (arith, less, less'),
              parts ∙ ap (◌++◌ u) parts' ∙ sym (append_assoc u u' v'),
              (suc k, omega arith, (u, u', refl, l, ls)),
              after',
            )
      ]

  star_complete :
      (L : Texts) (nfa : States) (j start t : ℕ)
      → get_elem? nfa j ≡ some (split_state (some start) (some t))
      → IsComplete variants L nfa start j
      → (k m : ℕ) (u v : List ℕ) → Power L k u
      → Accepts variants nfa m t v
      → (n : ℕ) × Accepts variants nfa n j (u ++ v)
  star_complete L nfa j start t e inner zero m u v p a =
      (suc m, Accepts_of variants nfa m j (u ++ v) _ e (inr (rw p a)))
  star_complete L nfa j start t e inner (suc k) m u v (x, y, parts, l, ls) a =
      let (n, d) = star_complete L nfa j start t e inner k m y v ls a in
      let (n', d') = inner n x (y ++ v) l d in
      let same : x ++ (y ++ v) ≡ u ++ v = sym (append_assoc x y v) ∙ ap (λ z. z ++ v) (sym parts) in
      (
        suc n',
        Accepts_of variants nfa n' j (u ++ v) _ e
            (inl (subst (Accepts variants nfa n' start) same d')),
      )

  pub star-Builds :
      (node : Builder) (L : Texts)
      → Builds variants node L
      → Builds variants (star node) (Times L 0 none)
  unfolding star assign
  star-Builds node L builds states states' frag e =
      let j = length states in
      let new = split_state none none in
      let s1 = states ++ new ∷ [] in
      let longer : length s1 ≡ j + 1 = length-append states (new ∷ []) in
      let ((s2, inner), compiled, rest) = >>=-eq-ok (node s1) _ (alloc-eq-ok new states _ e) in
      let b = builds s1 s2 inner compiled in
      let pointed = patch_all ((j, a_slot) ∷ []) inner.start s2 in
      let s3 = patch_all inner.patch j pointed in
      let same_length : length s3 ≡ length s2 =
        length-patch_all inner.patch j pointed
        ∙ length-patch_all ((j, a_slot) ∷ []) inner.start s2 in
      let patched = λ (i : ℕ).
        get-patch_all inner.patch j pointed i
        ∙ ap (map_some (fill inner.patch j i))
            (get-patch_all ((j, a_slot) ∷ []) inner.start s2 i) in
      Built-as variants (Times L 0 none) states (s3, record { start = j; patch = (j, b_slot) ∷ [] })
        (states', frag) rest
        (record {
          grows = omega (arith, b.grows, longer, same_length);
          keeps = λ i h.
              patched i
              ∙ stays_below inner.patch (length s1) (length s2) j i _ b.exits
                  (omega (arith, h, longer))
              ∙ stays_below ((j, a_slot) ∷ []) j (j + 1) inner.start i _ (one_Within j a_slot) h
              ∙ b.keeps i (omega (arith, h, longer))
              ∙ get-append_left states (new ∷ []) i h;
          exits = ((omega arith, omega (arith, b.grows, longer, same_length)), tt);
          reads = λ nfa t fits.
              let at : get_elem? nfa j ≡ some (split_state (some inner.start) (some t)) =
                fits j (omega arith) (omega (arith, b.grows, longer, same_length))
                ∙ ap (map_some (fill ((j, b_slot) ∷ []) t j)) (
                    patched j
                    ∙ stays_below inner.patch (length s1) (length s2) j j _ b.exits
                        (omega (arith, longer))
                    ∙ ap (map_some (fill ((j, a_slot) ∷ []) inner.start j))
                        (b.keeps j (omega (arith, longer)) ∙ get-append_end states new)
                    ∙ ap some (fill_here j a_slot inner.start new))
                ∙ ap some (fill_here j b_slot t (split_state (some inner.start) none)) in
              let inside = λ (i : ℕ) (l : length s1 ≤ i) (h : i < length s2).
                fits i (omega (arith, l, longer)) (omega (arith, h, same_length))
                ∙ stays_above ((j, b_slot) ∷ []) j (j + 1) t i _ (one_Within j b_slot)
                    (omega (arith, l, longer))
                ∙ patched i
                ∙ ap (map_some (fill inner.patch j i)) (
                    stays_above ((j, a_slot) ∷ []) j (j + 1) inner.start i _ (one_Within j a_slot)
                      (omega (arith, l, longer))) in
              let (sound, complete, wired) = b.reads nfa j inside in
              (
                λ n w d. star_sound L nfa j inner.start t at sound (suc n) n w (omega arith) d,
                λ m u v p a. star_complete L nfa j inner.start t at complete p.0 m u v p.2 a,
                record {
                  starts = omega (arith, b.grows, longer, same_length);
                  below = λ m h k i low high. elim (split_at (length s1) i) [
                    | inl less ↦
                        at_state nfa m i j (split_state (some inner.start) (some t)) at
                          (omega (arith, low, less, longer))
                          (omega (arith, wired.starts, h, same_length), k)
                    | inr past ↦
                        wired.below m (omega (arith, h, same_length))
                          (omega (arith, h, b.grows, longer, same_length)) i past
                          (omega (arith, high, same_length))
                  ];
                },
              );
        })

-- ===== src/Vault/SafeRegex/Nfa/Linked.antt =====
-- src/vault/safe-regex.ts: fragments in a row keep their promise.
use brainstem_mcp.Prelude.{
  List, [], ap, arith, get_elem?, inl, inr, length, refl, subst, sym, ℕ, ◌++◌, ◌<◌, ◌∙◌, ◌∷◌, ◌≡◌,
  ◌≤◌,
}
use brainstem_mcp.Storage.Types.{>>=-eq-ok, ok}
use brainstem_mcp.Vault.SafeRegex.Language.{Texts, Then}
use brainstem_mcp.Vault.SafeRegex.Nfa.{
  Builder, Fragment, States, build_all, chain, chained, link, patch_all,
}
use brainstem_mcp.Vault.SafeRegex.Nfa.Accepts.{Accepts}
use brainstem_mcp.Vault.SafeRegex.Nfa.Built.{
  Builds, Built, Built-as, IsComplete, IsSound, Reads, epsilon-Builds, split_at,
}
use brainstem_mcp.Vault.SafeRegex.Nfa.Chains.{
  BuildsAll, Row, Row-le, Row-moved, Seq, build_all-Laid,
}
use brainstem_mcp.Vault.SafeRegex.Nfa.Patching.{
  Within, Within-wider, get-patch_all, length-patch_all, stays_above, stays_below,
}
use mathlib.Core.List.{append-nil, append_assoc}

module _ (variants : ℕ → List ℕ) where
  then-IsSound :
      (L M : Texts) (nfa : States) (a b t : ℕ)
      → IsSound variants L nfa a b
      → IsSound variants M nfa b t
      → IsSound variants (Then L M) nfa a t
  then-IsSound L M nfa a b t first second n w d =
      let (m, u, v, less, parts, l, after) = first n w d in
      let (m', u', v', less', parts', l', after') = second m v after in
      (
        m',
        u ++ u',
        v',
        omega (arith, less, less'),
        parts ∙ ap (◌++◌ u) parts' ∙ sym (append_assoc u u' v'),
        (u, u', refl, l, l'),
        after',
      )

  then-IsComplete :
      (L M : Texts) (nfa : States) (a b t : ℕ)
      → IsComplete variants L nfa a b
      → IsComplete variants M nfa b t
      → IsComplete variants (Then L M) nfa a t
  then-IsComplete L M nfa a b t first second m u v (x, y, parts, l, l') d =
      let (n, k) = second m y v l' d in
      let (n', k') = first n x (y ++ v) l k in
      let same : x ++ (y ++ v) ≡ u ++ v = sym (append_assoc x y v) ∙ ap (λ z. z ++ v) (sym parts) in
      (n', subst (Accepts variants nfa n' a) same k')

  nothing-IsSound :
      (nfa : States) (L : Texts) (a t : ℕ)
      → IsSound variants L nfa a t
      → IsSound variants (Then L (λ v. v ≡ [])) nfa a t
  nothing-IsSound nfa L a t sound n w d =
      let (m, u, v, less, parts, l, after) = sound n w d in
      (m, u, v, less, parts, (u, [], sym (append-nil u), l, refl), after)

  nothing-IsComplete :
      (nfa : States) (L : Texts) (a t : ℕ)
      → IsComplete variants L nfa a t
      → IsComplete variants (Then L (λ v. v ≡ [])) nfa a t
  nothing-IsComplete nfa L a t complete m u v (x, y, parts, l, none_read) d =
      let whole : u ≡ x = parts ∙ ap (◌++◌ x) none_read ∙ append-nil x in
      let (n, k) = complete m x v l d in
      (n, subst (λ z. Accepts variants nfa n a (z ++ v)) (sym whole) k)

  -- The start of the first fragment passes through.
  link-start :
      (start : ℕ) (g : Fragment) (rest : List Fragment) (states : States)
      → link (record { start = start; patch = g.patch }) rest states
        ≡ ((link g rest states).0, record { start = start; patch = (link g rest states).1.patch })
  unfolding link
  link-start start g [] states = refl
  link-start start g (h ∷ rest) states =
      link-start start h rest (patch_all g.patch h.start states)
      ∙ ap (λ (p : States × Fragment). (p.0, record { start = start; patch = p.1.patch }))
          (sym (link-start g.start h rest (patch_all g.patch h.start states)))

  -- A chain of fragments side by side, as one fragment.
  pub record Chain (L : Texts) (start lo hi : ℕ) (states : States) (p : States × Fragment)
      : Type 0 where
    same_length : length p.0 ≡ length states
    keeps : (i : ℕ) → i < lo → get_elem? p.0 i ≡ get_elem? states i
    starts : p.1.start ≡ start
    exits : Within lo hi p.1.patch
    reads : Reads variants L p.1 p.0 lo hi

  link-Chain :
      (L : Texts) (Ls : List Texts) (f : Fragment) (rest : List Fragment) (lo hi : ℕ)
      (states : States)
      → Row variants (L ∷ Ls) (f ∷ rest) lo hi states
      → Chain (Seq (L ∷ Ls)) f.start lo hi states (link f rest states)
  unfolding link Row
  link-Chain L [] f [] lo hi states (middle, b, w, reads, end) = record {
    same_length = refl;
    keeps = λ i h. refl;
    starts = refl;
    exits = Within-wider lo middle lo hi f.patch (omega arith) (omega (arith, end)) w;
    reads = λ nfa t fits.
        let (sound, complete, wired) = reads nfa t (λ i l h. fits i l (omega (arith, h, end))) in
        (
          nothing-IsSound nfa L f.start t sound,
          nothing-IsComplete nfa L f.start t complete,
          record {
            starts = omega (arith, wired.starts, end);
            below = λ m h k i low high.
                wired.below m (omega (arith, h, end)) k i low (omega (arith, high, end));
          },
        );
  }
  link-Chain L (M ∷ Ls) f [] lo hi states (middle, b, w, reads, r) = absurd r
  link-Chain L [] f (g ∷ rest) lo hi states (middle, b, w, reads, r) = absurd r
  link-Chain L (M ∷ Ls) f (g ∷ rest) lo hi states (middle, b, w, reads, r) =
      let pointed = patch_all f.patch g.start states in
      let moved = λ (i : ℕ) (l : middle ≤ i) (h : i < hi).
        get-patch_all f.patch g.start states i ∙ stays_above f.patch lo middle g.start i _ w l in
      let end = Row-le variants (M ∷ Ls) (g ∷ rest) middle hi states r in
      let c =
        link-Chain M Ls g rest middle hi pointed
          (Row-moved variants (M ∷ Ls) (g ∷ rest) states pointed middle hi moved r) in
      let linked = link g rest pointed in
      let whole : Chain (Seq (L ∷ M ∷ Ls)) f.start lo hi states
          (linked.0, record { start = f.start; patch = linked.1.patch }) =
        record {
          same_length = c.same_length ∙ length-patch_all f.patch g.start states;
          keeps = λ i h.
              c.keeps i (omega (arith, h, b))
              ∙ get-patch_all f.patch g.start states i
              ∙ stays_below f.patch lo middle g.start i _ w h;
          starts = refl;
          exits = Within-wider middle hi lo hi linked.1.patch b (omega arith) c.exits;
          reads = λ nfa t fits.
              let after = c.reads nfa t (λ i l h. fits i (omega (arith, l, b)) h) in
              let before = reads nfa g.start (λ i l h.
                fits i l (omega (arith, h, end))
                ∙ stays_below linked.1.patch middle hi t i _ c.exits h
                ∙ c.keeps i h
                ∙ get-patch_all f.patch g.start states i) in
              (
                then-IsSound L (Seq (M ∷ Ls)) nfa f.start g.start t before.0
                    (subst (λ a. IsSound variants (Seq (M ∷ Ls)) nfa a t) c.starts after.0),
                then-IsComplete L (Seq (M ∷ Ls)) nfa f.start g.start t before.1
                    (subst (λ a. IsComplete variants (Seq (M ∷ Ls)) nfa a t) c.starts after.1),
                record {
                  starts = omega (arith, before.2.starts, end);
                  below = λ m h k i low high. elim (split_at middle i) [
                    | inl less ↦
                        before.2.below m (omega (arith, h, end))
                          (omega (arith, after.2.starts, c.starts, h)) i low less
                    | inr past ↦ after.2.below m h k i past high
                  ];
                },
              );
        } in
      rw (link-start f.start g rest pointed) whole

  chain_from :
      (Ls : List Texts) (frags : List Fragment) (states s1 states' : States) (frag : Fragment)
      → length states ≤ length s1
      → ((i : ℕ) → i < length states → get_elem? s1 i ≡ get_elem? states i)
      → Row variants Ls frags (length states) (length s1) s1
      → chain frags s1 ≡ ok (states', frag)
      → Built variants (Seq Ls) states states' frag
  unfolding chain Row
  chain_from [] [] states s1 states' frag longer keeps row e =
      let b = epsilon-Builds variants s1 states' frag e in
      record {
        grows = omega (arith, b.grows, longer);
        keeps = λ i h. b.keeps i (omega (arith, h, longer)) ∙ keeps i h;
        exits =
            Within-wider (length s1) (length states') (length states) (length states') frag.patch
              longer (omega arith) b.exits;
        reads = λ nfa t fits.
            let (sound, complete, wired) =
              b.reads nfa t (λ i l h. fits i (omega (arith, l, longer)) h) in
            (
              sound,
              complete,
              record {
                starts = wired.starts;
                below = λ m h k i low high. wired.below m h k i (omega (arith, low, row)) high;
              },
            );
      }
  chain_from [] (f ∷ frags) states s1 states' frag longer keeps row e = absurd row
  chain_from (L ∷ Ls) [] states s1 states' frag longer keeps row e = absurd row
  chain_from (L ∷ Ls) (f ∷ frags) states s1 states' frag longer keeps row e =
      let c = link-Chain L Ls f frags (length states) (length s1) s1 row in
      let linked = link f frags s1 in
      Built-as variants (Seq (L ∷ Ls)) states linked (states', frag) e
        (record {
          grows = omega (arith, c.same_length, longer);
          keeps = λ i h. c.keeps i h ∙ keeps i h;
          exits = rw c.same_length c.exits;
          reads = rw c.same_length c.reads;
        })

  pub chained-Builds :
      (builders : List Builder) (Ls : List Texts)
      → BuildsAll variants builders Ls
      → Builds variants (chained builders) (Seq Ls)
  unfolding chained chain
  chained-Builds builders Ls each states states' frag e =
      let ((s1, frags), compiled, rest) = >>=-eq-ok (build_all builders states) _ e in
      let (longer, keeps, row) =
        build_all-Laid variants builders Ls states (s1, frags) each compiled in
      chain_from Ls frags states s1 states' frag longer keeps row rest

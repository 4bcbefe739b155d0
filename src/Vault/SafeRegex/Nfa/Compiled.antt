-- ===== src/Vault/SafeRegex/Nfa/Compiled.antt =====
-- src/vault/safe-regex.ts: the automaton of a pattern accepts what the pattern means.
use brainstem_mcp.Prelude.{
  List, Option, [], ap, arith, get_elem?, length, none, refl, some, subst, suc, sym, zero, ℕ, ◌++◌,
  ◌-◌, ◌<◌, ◌↔◌, ◌∙◌, ◌∷◌, ◌≡◌, ◌≤◌,
}
use brainstem_mcp.Storage.Types.{>>=-eq-ok, ok}
use brainstem_mcp.Vault.SafeRegex.{Ast, Asts, alt, concat, empty, last, more, repeat, set}
use brainstem_mcp.Vault.SafeRegex.Language.{Matches, MatchesAll, MatchesAny, Texts, Times}
use brainstem_mcp.Vault.SafeRegex.Nfa.{
  Builder, Nfa, States, build_nfa, chained, compile, compile_options, compile_parts, match_state,
  optional, patch_all, pieces, replicate, star,
}
use brainstem_mcp.Vault.SafeRegex.Nfa.Accepts.{Accepts, Accepts-at, Accepts_none, Accepts_of}
use brainstem_mcp.Vault.SafeRegex.Nfa.Branches.{Maybe, either-Builds, optional-Builds}
use brainstem_mcp.Vault.SafeRegex.Nfa.Built.{
  Builds, IsSound, alloc-eq-ok, epsilon-Builds, get-append_end, get-append_left, single-Builds,
}
use brainstem_mcp.Vault.SafeRegex.Nfa.Chains.{BuildsAll, Seq}
use brainstem_mcp.Vault.SafeRegex.Nfa.Linked.{chained-Builds}
use brainstem_mcp.Vault.SafeRegex.Nfa.Patching.{fill, get-patch_all, map_some, stays_above}
use brainstem_mcp.Vault.SafeRegex.Nfa.Powers.{InBounds, Times→pieces, piece_texts, pieces→Times}
use brainstem_mcp.Vault.SafeRegex.Nfa.Stars.{star-Builds}
use mathlib.Core.List.{append-nil}

-- The counts of the repetitions of a pattern are in order and at most 100.
unfoldable mutual
  pub IsBounded : Ast → Type 0
  IsBounded empty = Unit
  IsBounded (set s) = Unit
  IsBounded (concat parts) = AreBounded parts
  IsBounded (alt options) = AreBounded options
  IsBounded (repeat node min max) = InBounds min max × IsBounded node

  pub AreBounded : Asts → Type 0
  AreBounded (last node) = IsBounded node
  AreBounded (more node nodes) = IsBounded node × AreBounded nodes

module _ (variants : ℕ → List ℕ) where
  abbrev part_texts : Asts → List Texts
  unfolding Matches
  part_texts (last node) = Matches variants node ∷ []
  part_texts (more node nodes) = Matches variants node ∷ part_texts nodes

  parts→MatchesAll :
      (nodes : Asts) (w : List ℕ) → Seq (part_texts nodes) w → MatchesAll variants nodes w
  unfolding part_texts Matches
  parts→MatchesAll (last node) w s = s
  parts→MatchesAll (more node nodes) w (u, v, parts, l, s) =
      (u, v, parts, l, parts→MatchesAll nodes v s)

  MatchesAll→parts :
      (nodes : Asts) (w : List ℕ) → MatchesAll variants nodes w → Seq (part_texts nodes) w
  unfolding part_texts Matches
  MatchesAll→parts (last node) w s = s
  MatchesAll→parts (more node nodes) w (u, v, parts, l, s) =
      (u, v, parts, l, MatchesAll→parts nodes v s)

  -- A fragment reads a set of texts however it is described.
  Builds-as :
      (b : Builder) (L M : Texts)
      → ((w : List ℕ) → L w → M w)
      → ((w : List ℕ) → M w → L w)
      → Builds variants b L
      → Builds variants b M
  Builds-as b L M to from builds states states' frag e =
      let x = builds states states' frag e in
      record {
        grows = x.grows;
        keeps = x.keeps;
        exits = x.exits;
        reads = λ nfa t fits.
            let (sound, complete, wired) = x.reads nfa t fits in
            (
              λ n w d.
                  let (m, u, v, less, parts, l, after) = sound n w d in
                  (m, u, v, less, parts, to u l, after),
              λ m u v l d. complete m u v (from u l) d,
              wired,
            );
      }

  replicate-BuildsAll :
      (k : ℕ) (b : Builder) (L : Texts) (bs : List Builder) (Ls : List Texts)
      → Builds variants b L
      → BuildsAll variants bs Ls
      → BuildsAll variants (replicate k b ++ bs) (replicate k L ++ Ls)
  replicate-BuildsAll zero b L bs Ls one rest = rest
  replicate-BuildsAll (suc k) b L bs Ls one rest = (one, replicate-BuildsAll k b L bs Ls one rest)

  only_replicate-BuildsAll :
      (k : ℕ) (b : Builder) (L : Texts)
      → Builds variants b L
      → BuildsAll variants (replicate k b) (replicate k L)
  only_replicate-BuildsAll zero b L one = tt
  only_replicate-BuildsAll (suc k) b L one = (one, only_replicate-BuildsAll k b L one)

  pieces-BuildsAll :
      (b : Builder) (L : Texts) (min : ℕ) (max : Option ℕ)
      → Builds variants b L
      → BuildsAll variants (pieces b min max) (piece_texts L min max)
  unfolding pieces
  pieces-BuildsAll b L min none one =
      replicate-BuildsAll min b L (star b ∷ []) (Times L 0 none ∷ []) one
        (star-Builds variants b L one, tt)
  pieces-BuildsAll b L min (some max) one =
      replicate-BuildsAll min b L (replicate (max - min) (optional b))
        (replicate (max - min) (Maybe L)) one
        (only_replicate-BuildsAll (max - min) (optional b) (Maybe L)
          (optional-Builds variants b L one))

  mutual
    unfolding compile Matches IsBounded part_texts

    pub compile-Builds :
        (ast : Ast) → IsBounded ast → Builds variants (compile ast) (Matches variants ast)
    compile-Builds empty o = epsilon-Builds variants
    compile-Builds (set s) o = single-Builds variants s
    compile-Builds (concat parts) o =
        Builds-as (chained (compile_parts parts)) (Seq (part_texts parts))
          (MatchesAll variants parts) (parts→MatchesAll parts) (MatchesAll→parts parts)
          (chained-Builds variants (compile_parts parts) (part_texts parts)
            (compile_parts-BuildsAll parts o))
    compile-Builds (alt options) o = compile_options-Builds options o
    compile-Builds (repeat node min max) o =
        let one = compile-Builds node o.1 in
        Builds-as (chained (pieces (compile node) min max))
          (Seq (piece_texts (Matches variants node) min max))
          (Times (Matches variants node) min max)
          (λ w s. pieces→Times (Matches variants node) min max w o.0 s)
          (λ w s. Times→pieces (Matches variants node) min max w s)
          (chained-Builds variants (pieces (compile node) min max)
            (piece_texts (Matches variants node) min max)
            (pieces-BuildsAll (compile node) (Matches variants node) min max one))

    compile_parts-BuildsAll :
        (nodes : Asts)
        → AreBounded nodes
        → BuildsAll variants (compile_parts nodes) (part_texts nodes)
    compile_parts-BuildsAll (last node) o = (compile-Builds node o, tt)
    compile_parts-BuildsAll (more node nodes) o =
        (compile-Builds node o.0, compile_parts-BuildsAll nodes o.1)

    compile_options-Builds :
        (nodes : Asts)
        → AreBounded nodes
        → Builds variants (compile_options nodes) (MatchesAny variants nodes)
    compile_options-Builds (last node) o = compile-Builds node o
    compile_options-Builds (more node nodes) o =
        either-Builds variants (compile node) (compile_options nodes) (Matches variants node)
          (MatchesAny variants nodes) (compile-Builds node o.0) (compile_options-Builds nodes o.1)

  final_sound :
      (L : Texts) (nfa : States) (start t : ℕ)
      → get_elem? nfa t ≡ some match_state
      → IsSound variants L nfa start t
      → (n : ℕ) (w : List ℕ) → Accepts variants nfa n start w
      → L w
  final_sound L nfa start t e sound n w d =
      let (m, u, v, _, parts, l, after) = sound n w d in final_at m u v parts l after
    where
      final_at : (m : ℕ) (u v : List ℕ) → w ≡ u ++ v → L u → Accepts variants nfa m t v → L w
      final_at zero u v parts l after = absurd (Accepts_none variants nfa t v after)
      final_at (suc m) u v parts l after =
          let done : v ≡ [] = Accepts-at variants nfa m t v _ e after in
          subst L (sym (parts ∙ ap (◌++◌ u) done ∙ append-nil u)) l

  -- The automaton that is built accepts a text from its start, along some path, exactly when the
  -- pattern matches the text, where the counts of its repetitions are in
  -- order.
  pub build_nfa-accepts :
      (ast : Ast) (nfa : Nfa) (w : List ℕ)
      → IsBounded ast
      → build_nfa ast ≡ ok nfa
      → ((n : ℕ) × Accepts variants nfa.states n nfa.start w) ↔ Matches variants ast w
  unfolding build_nfa
  build_nfa-accepts ast nfa w o e =
      let ((s1, frag), compiled, rest) = >>=-eq-ok (compile ast []) _ e in
      let b = compile-Builds ast o [] s1 frag compiled in
      let t = length s1 in
      let s2 = s1 ++ match_state ∷ [] in
      let whole : ok (record { states = patch_all frag.patch t s2; start = frag.start }) ≡ ok nfa =
        alloc-eq-ok match_state s1 _ rest in
      let same : record { states = patch_all frag.patch t s2; start = frag.start } ≡ nfa = cc in
      let final = patch_all frag.patch t s2 in
      let at : get_elem? final t ≡ some match_state =
        get-patch_all frag.patch t s2 t
        ∙ stays_above frag.patch 0 t t t _ b.exits (omega arith)
        ∙ get-append_end s1 match_state in
      let fits = λ (i : ℕ) (l : 0 ≤ i) (h : i < t).
        get-patch_all frag.patch t s2 i
        ∙ ap (map_some (fill frag.patch t i)) (get-append_left s1 (match_state ∷ []) i h) in
      let (sound, complete, _) = b.reads final t fits in
      subst
        (λ (a : Nfa). ((n : ℕ) × Accepts variants a.states n a.start w) ↔ Matches variants ast w)
        same
        (
          λ d. final_sound (Matches variants ast) final frag.start t at sound d.0 w d.1,
          λ m.
              let (n, d) = complete 1 w [] m (Accepts_of variants final 0 t [] _ at refl) in
              (n, subst (Accepts variants final n frag.start) (append-nil w) d),
        )

-- ===== src/Vault/SafeRegex/Nfa/Chains.antt =====
-- src/vault/safe-regex.ts: fragments in a row keep their promise.
use brainstem_mcp.Prelude.{
  List, [], ap, arith, get_elem?, length, refl, subst, ℕ, ◌<◌, ◌∙◌, ◌∷◌, ◌≡◌, ◌≤◌,
}
use brainstem_mcp.Storage.Types.{>>=-eq-ok, ok}
use brainstem_mcp.Vault.SafeRegex.Language.{Texts, Then}
use brainstem_mcp.Vault.SafeRegex.Nfa.{Builder, Fragment, States, build_all}
use brainstem_mcp.Vault.SafeRegex.Nfa.Built.{Builds, Reads}
use brainstem_mcp.Vault.SafeRegex.Nfa.Patching.{Within, fill, map_some}

-- One text of each set, in a row.
abbrev pub Seq : List Texts → Texts
Seq [] w = w ≡ []
Seq (L ∷ Ls) w = Then L (Seq Ls) w

module _ (variants : ℕ → List ℕ) where
  abbrev pub BuildsAll : List Builder → List Texts → Type 0
  BuildsAll [] [] = Unit
  BuildsAll [] (L ∷ Ls) = ⊥
  BuildsAll (b ∷ builders) [] = ⊥
  BuildsAll (b ∷ builders) (L ∷ Ls) = Builds variants b L × BuildsAll builders Ls

  -- Fragments side by side, from the states from `lo` on to those before `hi`.
  unfoldable pub Row : List Texts → List Fragment → ℕ → ℕ → States → Type 0
  Row [] [] lo hi states = lo ≡ hi
  Row [] (f ∷ frags) lo hi states = ⊥
  Row (L ∷ Ls) [] lo hi states = ⊥
  Row (L ∷ Ls) (f ∷ frags) lo hi states =
      (middle : ℕ) × (lo ≤ middle)
      × Within lo middle f.patch
      × Reads variants L f states lo middle
      × Row Ls frags middle hi states

  pub Row-le :
      (Ls : List Texts) (frags : List Fragment) (lo hi : ℕ) (states : States)
      → Row Ls frags lo hi states
      → lo ≤ hi
  unfolding Row
  Row-le [] [] lo hi states r = omega arith
  Row-le [] (f ∷ frags) lo hi states r = absurd r
  Row-le (L ∷ Ls) [] lo hi states r = absurd r
  Row-le (L ∷ Ls) (f ∷ frags) lo hi states (middle, b, _, _, r) =
      omega (arith, b, Row-le Ls frags middle hi states r)

  Reads-moved :
      (L : Texts) (frag : Fragment) (states states' : States) (lo hi : ℕ)
      → ((i : ℕ) → lo ≤ i → i < hi → get_elem? states' i ≡ get_elem? states i)
      → Reads variants L frag states lo hi
      → Reads variants L frag states' lo hi
  Reads-moved L frag states states' lo hi same reads nfa t fits =
      reads nfa t (λ i b h. fits i b h ∙ ap (map_some (fill frag.patch t i)) (same i b h))

  pub Row-moved :
      (Ls : List Texts) (frags : List Fragment) (states states' : States) (lo hi : ℕ)
      → ((i : ℕ) → lo ≤ i → i < hi → get_elem? states' i ≡ get_elem? states i)
      → Row Ls frags lo hi states
      → Row Ls frags lo hi states'
  unfolding Row
  Row-moved [] [] states states' lo hi same r = r
  Row-moved [] (f ∷ frags) states states' lo hi same r = absurd r
  Row-moved (L ∷ Ls) [] states states' lo hi same r = absurd r
  Row-moved (L ∷ Ls) (f ∷ frags) states states' lo hi same (middle, b, w, reads, r) =
      let end = Row-le Ls frags middle hi states r in
      (
        middle,
        b,
        w,
        Reads-moved L f states states' lo middle (λ i l h. same i l (omega (arith, h, end))) reads,
        Row-moved Ls frags states states' middle hi (λ i l h. same i (omega (arith, l, b)) h) r,
      )

  -- The states and fragments that `build_all` adds to states.
  abbrev Laid : List Texts → States → States × List Fragment → Type 0
  Laid Ls states p =
      (length states ≤ length p.0)
      × ((i : ℕ) → i < length states → get_elem? p.0 i ≡ get_elem? states i)
      × Row Ls p.1 (length states) (length p.0) p.0

  Laid-as :
      (Ls : List Texts) (states : States) (p q : States × List Fragment)
      → ok p ≡ ok q
      → Laid Ls states p
      → Laid Ls states q
  Laid-as Ls states p q e l = let same : p ≡ q = cc in subst (Laid Ls states) same l

  pub build_all-Laid :
      (builders : List Builder) (Ls : List Texts) (states : States) (q : States × List Fragment)
      → BuildsAll builders Ls
      → build_all builders states ≡ ok q
      → Laid Ls states q
  unfolding build_all Row
  build_all-Laid [] [] states q each e =
      Laid-as [] states (states, []) q e (omega arith, λ i h. refl, refl)
  build_all-Laid [] (L ∷ Ls) states q each e = absurd each
  build_all-Laid (b ∷ builders) [] states q each e = absurd each
  build_all-Laid (b ∷ builders) (L ∷ Ls) states q each e =
      let ((s1, f), compiled, rest) = >>=-eq-ok (b states) _ e in
      let ((s2, fs), compiled', rest') = >>=-eq-ok (build_all builders s1) _ rest in
      let one = each.0 states s1 f compiled in
      let (longer, keeps, row) = build_all-Laid builders Ls s1 (s2, fs) each.1 compiled' in
      Laid-as (L ∷ Ls) states (s2, f ∷ fs) q rest'
        (
          omega (arith, one.grows, longer),
          λ i h. keeps i (omega (arith, h, one.grows)) ∙ one.keeps i h,
          (
            length s1,
            one.grows,
            one.exits,
            Reads-moved L f s1 s2 (length states) (length s1) (λ i l h. keeps i h) one.reads,
            row,
          ),
        )

-- ===== src/Vault/SafeRegex/Literals/Ruled.antt =====
-- src/vault/safe-regex.ts: a text that is ruled out has no match.
use brainstem_mcp.Prelude.{
  Bool-cases, List, Option, Text, [], any, ap, ap₂, arith, false, if◌then◌else◌, inl, inr, length,
  length-append, none, refl, some, subst, suc, sym, true, zero, ℕ, ◌++◌, ◌==◌, ◌∙◌, ◌∷◌, ◌≡◌, ◌≤◌,
}
use brainstem_mcp.Vault.SafeRegex.{Ast, Asts, alt, concat, empty, last, more, repeat, set}
use brainstem_mcp.Vault.SafeRegex.Language.{Matches, MatchesAll, MatchesAny, Power, Texts}
use brainstem_mcp.Vault.SafeRegex.Literals.{
  Requirement, alt_requirement, both, cannot_match, consider_run, definite_char,
  derive_required_literals, includes, literals_of, option_literals, part_best, part_run,
  parts_requirement, requirement_of,
}
use brainstem_mcp.Vault.SafeRegex.Literals.Held.{
  Holds, Holds-append_left, Holds-append_right, Holds-unique, includes_inside, units, units-append,
}
use brainstem_mcp.Vault.SafeRegex.Literals.Sound.{
  Ends, Folds, Has, Has-consider, Has-consider_run, Has-definite, Has-wider, InText, definite_folds,
}
use mathlib.Core.List.{append-nil, append_assoc}

module _ (variants : ℕ → List ℕ) (fold : Text → Text) (folds : Folds variants fold) where
  fold_nothing : fold [] ≡ []
  fold_nothing = empty_of (fold []) (folds.joins [] [])
    where
      empty_of : (s : Text) → s ≡ s ++ s → s ≡ []
      empty_of [] e = refl
      empty_of (c ∷ s) e = absurd (omega (arith, ap length e, length-append (c ∷ s) (c ∷ s)))

  -- One round of the loop over the parts: `u` has been read and the part reads `v`.
  Has-part :
      (o : Option Text) (req : Option Requirement) (sofar : Text) (best : Option Requirement)
      (u v : List ℕ)
      → Has variants fold folds req v
      → Ends variants fold folds u sofar
      → Has variants fold folds best u
      → Has variants fold folds (part_best o req sofar best) (u ++ v)
  unfolding part_best
  Has-part (some ch) req sofar best u v h e b = Has-longer best u v b
    where
      Has-longer :
          (best : Option Requirement) (u v : List ℕ)
          → Has variants fold folds best u
          → Has variants fold folds best (u ++ v)
      Has-longer best u v b = Has-wider variants fold folds best [] u v b
  Has-part none req sofar best u v h e b =
      Has-consider variants fold folds req (consider_run sofar best) (u ++ v)
        (subst (λ x. Has variants fold folds req (u ++ x)) (append-nil v)
          (Has-wider variants fold folds req u v [] h))
        (Has-wider variants fold folds (consider_run sofar best) [] u v
          (Has-consider_run variants fold folds sofar best u e b))

  Ends-part :
      (o : Option Text) (sofar : Text) (u v : List ℕ)
      → ((ch : Text) → o ≡ some ch → fold (units v) ≡ fold ch)
      → Ends variants fold folds u sofar
      → Ends variants fold folds (u ++ v) (part_run o sofar)
  unfolding part_run
  Ends-part (some ch) sofar u v h (a, e) = (
    a,
    ap fold (units-append u v)
        ∙ folds.joins (units u) (units v)
        ∙ ap₂ ◌++◌ e (h ch refl)
        ∙ append_assoc a (fold sofar) (fold ch)
        ∙ ap (◌++◌ a) (sym (folds.joins sofar ch)),
  )
  Ends-part none sofar u v h e = (
    fold (units (u ++ v)),
    sym (ap (◌++◌ (fold (units (u ++ v)))) fold_nothing ∙ append-nil (fold (units (u ++ v)))),
  )

  nothing-Ends : Ends variants fold folds [] []
  unfolding units
  nothing-Ends = ([], refl)

  HasOne : Option (List Text) → List ℕ → Type 0
  HasOne none w = Unit
  HasOne (some literals) w = Holds (InText variants fold folds w) literals

  Has-HasOne :
      (r : Option Requirement) (w : List ℕ) → Has variants fold folds r w → HasOne (literals_of r) w
  unfolding HasOne
  Has-HasOne none w h = tt
  Has-HasOne (some r) w h = h

  HasOne-both_left : (a b : Option (List Text)) (w : List ℕ) → HasOne a w → HasOne (both a b) w
  unfolding HasOne
  HasOne-both_left none b w h = tt
  HasOne-both_left (some a) none w h = tt
  HasOne-both_left (some a) (some b) w h = Holds-append_left (InText variants fold folds w) a b h

  HasOne-both_right : (a b : Option (List Text)) (w : List ℕ) → HasOne b w → HasOne (both a b) w
  unfolding HasOne
  HasOne-both_right none b w h = tt
  HasOne-both_right (some a) none w h = tt
  HasOne-both_right (some a) (some b) w h = Holds-append_right (InText variants fold folds w) a b h

  Has-alt :
      (o : Option (List Text)) (w : List ℕ)
      → HasOne o w
      → Has variants fold folds (alt_requirement o) w
  unfolding HasOne alt_requirement
  Has-alt none w h = tt
  Has-alt (some []) w h = tt
  Has-alt (some (s ∷ texts)) w h = Holds-unique (InText variants fold folds w) (s ∷ texts) h

  -- A text repeated at least once.
  Has-repeat :
      (req : Option Requirement) (min : ℕ) (L : Texts) (k : ℕ) (w : List ℕ)
      → ((v : List ℕ) → L v → Has variants fold folds req v)
      → min ≤ k
      → Power L k w
      → Has variants fold folds (if min == 0 then none else req) w
  Has-repeat req min L k w h less p = elim (Bool-cases (min == 0)) [
    | inl e ↦ rw e tt
    | inr e ↦ rw e (at_least k (ground arith) p)
  ]
    where
      at_least : (k : ℕ) → 1 ≤ k → Power L k w → Has variants fold folds req w
      at_least zero less p = absurd (omega arith)
      at_least (suc k) less (u, v, parts, l, _) =
          subst (Has variants fold folds req) (sym parts)
            (Has-wider variants fold folds req [] u v (h u l))

  mutual
    unfolding requirement_of Matches

    requirement_of-Has :
        (ast : Ast) (w : List ℕ)
        → Matches variants ast w
        → Has variants fold folds (requirement_of ast) w
    requirement_of-Has empty w m = tt
    requirement_of-Has (set s) w m =
        Has-definite variants fold folds (definite_char (set s)) w
          (λ ch e. definite_folds variants fold folds (set s) ch w e m)
    requirement_of-Has (repeat node min none) w (k, less, p) =
        Has-repeat (requirement_of node) min (Matches variants node) k w
          (λ v l. requirement_of-Has node v l) less p
    requirement_of-Has (repeat node min (some max)) w (k, less, _, p) =
        Has-repeat (requirement_of node) min (Matches variants node) k w
          (λ v l. requirement_of-Has node v l) less p
    requirement_of-Has (alt options) w m =
        Has-alt (option_literals options) w (options-HasOne options w m)
    requirement_of-Has (concat parts) w m = parts-Has parts [] none [] w nothing-Ends tt m

    options-HasOne :
        (nodes : Asts) (w : List ℕ) → MatchesAny variants nodes w → HasOne (option_literals nodes) w
    options-HasOne (last node) w m =
        Has-HasOne (requirement_of node) w (requirement_of-Has node w m)
    options-HasOne (more node nodes) w (inl m) =
        HasOne-both_left (literals_of (requirement_of node)) (option_literals nodes) w
          (Has-HasOne (requirement_of node) w (requirement_of-Has node w m))
    options-HasOne (more node nodes) w (inr m) =
        HasOne-both_right (literals_of (requirement_of node)) (option_literals nodes) w
          (options-HasOne nodes w m)

    parts-Has :
        (nodes : Asts) (sofar : Text) (best : Option Requirement) (u w : List ℕ)
        → Ends variants fold folds u sofar
        → Has variants fold folds best u
        → MatchesAll variants nodes w
        → Has variants fold folds (parts_requirement nodes sofar best) (u ++ w)
    parts-Has (last node) sofar best u w e b (v, z, parts, m, done) =
        let whole : v ≡ w = sym (parts ∙ ap (◌++◌ v) done ∙ append-nil v) in
        subst (λ x. Has variants fold folds (parts_requirement (last node) sofar best) (u ++ x))
          whole
          (Has-consider_run variants fold folds (part_run (definite_char node) sofar)
            (part_best (definite_char node) (requirement_of node) sofar best) (u ++ v)
            (Ends-part (definite_char node) sofar u v
              (λ ch d. definite_folds variants fold folds node ch v d m) e)
            (Has-part (definite_char node) (requirement_of node) sofar best u v
              (requirement_of-Has node v m) e b))
    parts-Has (more node nodes) sofar best u w e b (v, z, parts, m, ms) =
        let whole : (u ++ v) ++ z ≡ u ++ w = append_assoc u v z ∙ ap (◌++◌ u) (sym parts) in
        subst (Has variants fold folds (parts_requirement (more node nodes) sofar best)) whole (
          parts-Has nodes (part_run (definite_char node) sofar)
            (part_best (definite_char node) (requirement_of node) sofar best) (u ++ v) z
            (Ends-part (definite_char node) sofar u v
              (λ ch d. definite_folds variants fold folds node ch v d m) e)
            (Has-part (definite_char node) (requirement_of node) sofar best u v
              (requirement_of-Has node v m) e b)
            ms)

  includes-any :
      (w : List ℕ) (literals : List Text)
      → Holds (InText variants fold folds w) literals
      → any (λ needle. includes (fold (units w)) (fold needle)) literals ≡ true
  includes-any w [] h = absurd h
  includes-any w (s ∷ literals) (inl (a, b, e)) =
      let here : includes (fold (units w)) (fold s) ≡ true = rw e (includes_inside a (fold s) b) in
      ground arith
  includes-any w (s ∷ literals) (inr h) = let rest = includes-any w literals h in ground arith

  -- A text with a part that the pattern matches is not ruled out, where folding works character by
  -- character and makes the variants of a character equal.
  pub cannot_match_lem :
      (ast : Ast) (u v z : List ℕ)
      → Matches variants ast v
      → cannot_match fold (derive_required_literals ast) (units (u ++ (v ++ z))) ≡ false
  unfolding cannot_match derive_required_literals HasOne
  cannot_match_lem ast u v z m = ruled_out (literals_of (requirement_of ast)) (
      Has-HasOne (requirement_of ast) (u ++ (v ++ z))
        (Has-wider variants fold folds (requirement_of ast) u v z (requirement_of-Has ast v m)))
    where
      ruled_out :
          (o : Option (List Text))
          → HasOne o (u ++ (v ++ z))
          → cannot_match fold o (units (u ++ (v ++ z))) ≡ false
      ruled_out none h = refl
      ruled_out (some literals) h =
          let found = includes-any (u ++ (v ++ z)) literals h in rw found refl

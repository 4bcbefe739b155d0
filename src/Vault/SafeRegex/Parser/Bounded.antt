-- ===== src/Vault/SafeRegex/Parser/Bounded.antt =====
-- src/vault/safe-regex.ts: the parser does not run out of fuel, and bounds the repetitions.
use brainstem_mcp.Prelude.{
  All, Bool-cases, List, Option, [], any, arith, false, inl, inr, is_empty, length, none, some, suc,
  true, zero, ℕ, ◌+◌, ◌<◌, ◌==◌, ◌∷◌, ◌≡◌, ◌≤◌,
}
use brainstem_mcp.Vault.SafeRegex.{Ast}
use brainstem_mcp.Vault.SafeRegex.Nfa.Compiled.{AreBounded, IsBounded}
use brainstem_mcp.Vault.SafeRegex.Parser.{
  Parser, as_alt, as_asts, as_concat, atom_set, concat_parts, ends_concat, group_body, more_options,
  parse_alternation, parse_atom, parse_concat, parse_group, parse_pattern, parse_quantified,
  quantified, refused_atoms, set_of,
}
use brainstem_mcp.Vault.SafeRegex.Parser.Ends.{
  Gives, Gives-bind, Gives-if, Gives-weaker, NoLonger, SomeInBounds, escaped_atom-Gives,
  length-rest_of, parse_class-Gives, read_quantifier-Gives,
}
use brainstem_mcp.Vault.SafeRegex.Pattern.{Source, backslash, rest_of, starts, starts_any}
use brainstem_mcp.Vault.SafeRegex.Pattern.Classes.{escaped_atom, parse_class}
use brainstem_mcp.Vault.SafeRegex.Pattern.Quantifiers.{Counts, quantifiers, read_quantifier}

-- A pattern in bounds, and no more left than there was; or less.
abbrev Good : ℕ → Ast × Source → Type 0
Good n p = IsBounded p.0 × (length p.1 ≤ n)

abbrev Better : ℕ → Ast × Source → Type 0
Better n p = IsBounded p.0 × (length p.1 < n)

AllBounded : List Ast → Type 0
AllBounded asts = All IsBounded asts

as_asts-AreBounded :
    (node : Ast) (nodes : List Ast)
    → IsBounded node
    → All IsBounded nodes
    → AreBounded (as_asts node nodes)
unfolding IsBounded
as_asts-AreBounded node [] b h = b
as_asts-AreBounded node (next ∷ nodes) b h = (b, as_asts-AreBounded next nodes h.0 h.1)

as_concat-IsBounded : (nodes : List Ast) → All IsBounded nodes → IsBounded (as_concat nodes)
unfolding IsBounded
as_concat-IsBounded [] h = tt
as_concat-IsBounded (node ∷ []) h = h.0
as_concat-IsBounded (node ∷ next ∷ nodes) h = as_asts-AreBounded node (next ∷ nodes) h.0 h.1

as_alt-IsBounded :
    (node : Ast) (nodes : List Ast)
    → IsBounded node
    → All IsBounded nodes
    → IsBounded (as_alt node nodes)
unfolding IsBounded
as_alt-IsBounded node [] b h = b
as_alt-IsBounded node (next ∷ nodes) b h = as_asts-AreBounded node (next ∷ nodes) b h

group_body-Gives : (s : Source) → Gives (λ r. length r ≤ length s) (group_body s)
group_body-Gives s =
    Gives-if _ (starts b'?' s) _ _
      (λ _.
        Gives-if _ (starts b':' (rest_of s)) _ _
          (λ _. omega (arith, length-rest_of s, length-rest_of (rest_of s))) (λ _. tt))
      (λ _. omega arith)

quantified-Gives :
    (n : ℕ) (atom : Ast) (q : Option Counts) (s : Source)
    → IsBounded atom
    → SomeInBounds q
    → length s < n
    → Gives (Better n) (quantified atom (q, s))
unfolding IsBounded
quantified-Gives n atom none s b q h = (b, h)
quantified-Gives n atom (some (min, max)) s b q h =
    Gives-if _ (starts_any quantifiers s) _ _ (λ _. tt) (λ _. ((q, b), h))

module _ (inner : Parser) (depth : ℕ)
    (inside : (s : Source) → length s < depth → Gives (Good (length s)) (inner s)) where
  parse_group-Gives :
      (s : Source) → length s < depth → Gives (Good (length s)) (parse_group inner s)
  unfolding parse_group
  parse_group-Gives s h =
      Gives-bind (λ r. length r ≤ length s) (Good (length s)) (group_body s) _ (group_body-Gives s)
        (λ body k.
          Gives-bind (Good (length body)) (Good (length s)) (inner body) _
            (inside body (omega (arith, h, k)))
            (λ (ast, after) g.
              Gives-if _ (starts b')' after) _ _
                (λ _. (g.0, omega (arith, g.1, k, length-rest_of after))) (λ _. tt)))

  parse_atom-Gives :
      (s : Source) → length s ≤ depth → Gives (Better (length s)) (parse_atom inner s)
  unfolding parse_atom IsBounded
  parse_atom-Gives [] h = tt
  parse_atom-Gives (c ∷ s) h =
      Gives-if _ (any (λ r. c == r) refused_atoms) _ _ (λ _. tt)
        (λ _.
          Gives-if _ (c == b'(') _ _
            (λ _.
              Gives-weaker (Good (length s)) (Better (length (c ∷ s))) (parse_group inner s)
                (λ a g. (g.0, omega (arith, g.1))) (parse_group-Gives s (omega (arith, h))))
            (λ _.
              Gives-if _ (c == b'[') _ _
                (λ _.
                  Gives-bind (NoLonger (length s)) (Better (length (c ∷ s))) (parse_class s) set_of
                    (parse_class-Gives s) (λ (chars, r) k. (tt, omega (arith, k))))
                (λ _.
                  Gives-if _ (c == b'.') _ _ (λ _. (tt, omega arith))
                    (λ _.
                      Gives-if _ (c == backslash) _ _
                        (λ _.
                          Gives-bind (NoLonger (length s)) (Better (length (c ∷ s)))
                            (escaped_atom s) atom_set (escaped_atom-Gives s)
                            (λ (atom, r) k. (tt, omega (arith, k))))
                        (λ _. (tt, omega arith))))))

  parse_quantified-Gives :
      (s : Source) → length s ≤ depth → Gives (Better (length s)) (parse_quantified inner s)
  unfolding parse_quantified
  parse_quantified-Gives s h =
      Gives-bind (Better (length s)) (Better (length s)) (parse_atom inner s) _
        (parse_atom-Gives s h)
        (λ (atom, after) g.
          Gives-bind (λ (q, r). SomeInBounds q × (length r ≤ length after)) (Better (length s))
            (read_quantifier after) _ (read_quantifier-Gives after)
            (λ (q, r) k. quantified-Gives (length s) atom q r g.0 k.0 (omega (arith, g.1, k.1))))

  concat_parts-Gives :
      (n : ℕ) (s : Source)
      → length s < n
      → length s ≤ depth
      → Gives (λ (parts, r). All IsBounded parts × (length r ≤ length s)) (concat_parts inner n s)
  unfolding concat_parts
  concat_parts-Gives zero s h k = absurd (omega arith)
  concat_parts-Gives (suc n) s h k = elim (Bool-cases (ends_concat s)) [
    | inl e ↦ rw (e, concat_parts) (tt, omega arith)
    | inr e ↦
        rw (e, concat_parts)
          (Gives-bind (Better (length s)) _ (parse_quantified inner s) _
            (parse_quantified-Gives s k)
            (λ (part, after) g.
              Gives-bind (λ (parts, r). All IsBounded parts × (length r ≤ length after)) _
                (concat_parts inner n after) _
                (concat_parts-Gives n after (omega (arith, g.1, h)) (omega (arith, g.1, k)))
                (λ (parts, end) f. ((g.0, f.0), omega (arith, f.1, g.1)))))
  ]

  parse_concat-Gives :
      (s : Source) → length s ≤ depth → Gives (Good (length s)) (parse_concat inner s)
  unfolding parse_concat
  parse_concat-Gives s h =
      Gives-bind (λ (parts, r). All IsBounded parts × (length r ≤ length s)) (Good (length s))
        (concat_parts inner (length s + 1) s) _
        (concat_parts-Gives (length s + 1) s (omega arith) h)
        (λ (parts, after) g. (as_concat-IsBounded parts g.0, g.1))

  starts-shorter : (c : ℕ) (s : Source) → starts c s ≡ true → length (rest_of s) < length s
  starts-shorter c [] h = let no : false ≡ true = h in cc
  starts-shorter c (a ∷ s) h = omega arith

  more_options-Gives :
      (n : ℕ) (s : Source)
      → length s < n
      → length s ≤ depth
      → Gives
          (λ (options, r). All IsBounded options × (length r ≤ length s))
          (more_options inner n s)
  unfolding more_options
  more_options-Gives zero s h k = absurd (omega arith)
  more_options-Gives (suc n) s h k = elim (Bool-cases (starts b'|' s)) [
    | inr e ↦ rw (e, more_options) (tt, omega arith)
    | inl e ↦
        let less = starts-shorter b'|' s e in
        rw (e, more_options)
          (Gives-bind (Good (length (rest_of s))) _ (parse_concat inner (rest_of s)) _
            (parse_concat-Gives (rest_of s) (omega (arith, less, k)))
            (λ (option, after) g.
              Gives-bind (λ (options, r). All IsBounded options × (length r ≤ length after)) _
                (more_options inner n after) _
                (more_options-Gives n after (omega (arith, g.1, less, h))
                  (omega (arith, g.1, less, k)))
                (λ (options, end) f. ((g.0, f.0), omega (arith, f.1, g.1, less)))))
  ]

parse_alternation-Gives :
    (depth : ℕ) (s : Source)
    → length s < depth
    → Gives (Good (length s)) (parse_alternation depth s)
unfolding parse_alternation
parse_alternation-Gives zero s h = absurd (omega arith)
parse_alternation-Gives (suc depth) s h =
    let inner = parse_alternation depth in
    let inside = parse_alternation-Gives depth in
    Gives-bind (Good (length s)) (Good (length s)) (parse_concat inner s) _
      (parse_concat-Gives inner depth inside s (omega (arith, h)))
      (λ (first, after) g.
        Gives-bind (λ (options, r). All IsBounded options × (length r ≤ length after))
          (Good (length s)) (more_options inner (length after + 1) after) _
          (more_options-Gives inner depth inside (length after + 1) after (omega arith)
            (omega (arith, g.1, h)))
          (λ (options, end) f. (as_alt-IsBounded first options g.0 f.0, omega (arith, f.1, g.1))))

-- Every pattern is parsed or refused: the fuel is enough. In what is parsed each repetition has
-- counts of at most 100, the smaller first.
pub parse_pattern-IsBounded : (src : Source) → Gives IsBounded (parse_pattern src)
unfolding parse_pattern
parse_pattern-IsBounded src =
    Gives-bind (Good (length src)) IsBounded (parse_alternation (length src + 1) src) _
      (parse_alternation-Gives (length src + 1) src (omega arith))
      (λ (ast, after) g. Gives-if _ (is_empty after) _ _ (λ _. g.0) (λ _. tt))

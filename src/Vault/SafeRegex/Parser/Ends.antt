-- ===== src/Vault/SafeRegex/Parser/Ends.antt =====
-- src/vault/safe-regex.ts: the parser ends, and its repetitions are in bounds.
use brainstem_mcp.Prelude.{
  Bool, Bool-cases, List, Option, [], arith, false, if◌then◌else◌, inl, inr, is_empty, length, ltb,
  none, not, refl, some, suc, true, zero, ℕ, ◌&&◌, ◌++◌, ◌+◌, ◌<◌, ◌==◌, ◌∷◌, ◌≡◌, ◌≤◌,
}
use brainstem_mcp.Vault.SafeRegex.{SetItem, is_digit}
use brainstem_mcp.Vault.SafeRegex.Nfa.Powers.{InBounds}
use brainstem_mcp.Vault.SafeRegex.Pattern.{
  Parse, Source, backslash, invalid, out_of_fuel, parsed, rest_of, starts, ◌>>=◌,
}
use brainstem_mcp.Vault.SafeRegex.Pattern.Classes.{
  ClassAtom, char_atom, class_atom, class_item, class_item_from, class_items, escape_of,
  escaped_atom, parse_class, parse_class_atom, range_of, starts_range,
}
use brainstem_mcp.Vault.SafeRegex.Pattern.Quantifiers.{
  Counts, counts_refused, number, parse_braces, read_quantifier, take_digits, upper_part, with_some,
}

-- The parser has not run out of fuel, and what holds of what it gives.
abbrev pub Gives {ℓ} : {A : Type ℓ} → (A → Type 0) → Parse A → Type 0
Gives P (parsed a) = P a
Gives P invalid = Unit
Gives P out_of_fuel = ⊥

pub Gives-bind {ℓ κ} :
    {A : Type ℓ} {B : Type κ} (P : A → Type 0) (Q : B → Type 0) (r : Parse A) (f : A → Parse B)
    → Gives P r
    → ((a : A) → P a → Gives Q (f a))
    → Gives Q (r >>= f)
Gives-bind P Q (parsed a) f h k = k a h
Gives-bind P Q invalid f h k = tt
Gives-bind P Q out_of_fuel f h k = h

pub Gives-if {ℓ} :
    {A : Type ℓ} (Q : A → Type 0) (t : Bool) (x y : Parse A)
    → (t ≡ true → Gives Q x)
    → (t ≡ false → Gives Q y)
    → Gives Q (if t then x else y)
Gives-if Q true x y f g = f refl
Gives-if Q false x y f g = g refl

pub length-rest_of : (s : Source) → length (rest_of s) ≤ length s
length-rest_of [] = omega arith
length-rest_of (c ∷ s) = omega arith

pub Gives-weaker {ℓ} :
    {A : Type ℓ} (P Q : A → Type 0) (r : Parse A) → ((a : A) → P a → Q a) → Gives P r → Gives Q r
Gives-weaker P Q (parsed a) f h = f a h
Gives-weaker P Q invalid f h = tt
Gives-weaker P Q out_of_fuel f h = h

-- What is left is shorter, or no longer.
module _ {A : Type 0} where
  abbrev pub Shorter : ℕ → A × Source → Type 0
  Shorter n p = length p.1 < n

  abbrev pub NoLonger : ℕ → A × Source → Type 0
  NoLonger n p = length p.1 ≤ n

pub escaped_atom-Gives : (s : Source) → Gives (NoLonger (length s)) (escaped_atom s)
unfolding escaped_atom
escaped_atom-Gives [] = tt
escaped_atom-Gives (e ∷ s) = Gives-if _ (is_digit e) _ _ (λ _. tt) (λ _. taken (escape_of e))
  where
    taken :
        (o : Option ClassAtom)
        → Gives
            (NoLonger (length (e ∷ s)))
            (elim o [ some atom ↦ parsed (atom, s) | none ↦ invalid ])
    taken none = tt
    taken (some atom) = omega arith

parse_class_atom-Gives :
    (c : ℕ) (s : Source) → Gives (NoLonger (length s)) (parse_class_atom (c ∷ s))
unfolding parse_class_atom
parse_class_atom-Gives c s =
    Gives-if _ (c == backslash) _ _ (λ _. escaped_atom-Gives s) (λ _. omega arith)

any_class_atom-Gives : (s : Source) → Gives (NoLonger (length s)) (parse_class_atom s)
unfolding parse_class_atom
any_class_atom-Gives [] = omega arith
any_class_atom-Gives (c ∷ s) =
    Gives-if _ (c == backslash) _ _
      (λ _.
        Gives-weaker (NoLonger (length s)) (NoLonger (length (c ∷ s))) (escaped_atom s)
          (λ a h. omega (arith, h)) (escaped_atom-Gives s))
      (λ _. omega arith)

range_of-Gives : (a b : ClassAtom) → Gives (λ _. Unit) (range_of a b)
range_of-Gives (char_atom from) (char_atom to) = Gives-if _ (ltb to from) _ _ (λ _. tt) (λ _. tt)
range_of-Gives (char_atom from) (class_atom name) = tt
range_of-Gives (class_atom name) b = tt

class_item_from-Gives :
    (first : ClassAtom) (s : Source) → Gives (NoLonger (length s)) (class_item_from (first, s))
unfolding class_item_from
class_item_from-Gives first s =
    Gives-if _ (starts_range s) _ _
      (λ _.
        Gives-bind (NoLonger (length (rest_of s))) (NoLonger (length s))
          (parse_class_atom (rest_of s)) _ (any_class_atom-Gives (rest_of s))
          (λ (second, end) h.
            Gives-bind (λ _. Unit) (NoLonger (length s)) (range_of first second) _
              (range_of-Gives first second) (λ item _. omega (arith, h, length-rest_of s))))
      (λ _. omega arith)

class_item-Gives : (c : ℕ) (s : Source) → Gives (NoLonger (length s)) (class_item (c ∷ s))
unfolding class_item
class_item-Gives c s =
    Gives-bind (NoLonger (length s)) (NoLonger (length s)) (parse_class_atom (c ∷ s))
      class_item_from (parse_class_atom-Gives c s)
      (λ (first, after) h.
        Gives-weaker (NoLonger (length after)) (NoLonger (length s))
          (class_item_from (first, after)) (λ a k. omega (arith, h, k))
          (class_item_from-Gives first after))

class_items-Gives :
    (n : ℕ) (items : List SetItem) (s : Source)
    → length s < n
    → Gives (NoLonger (length s)) (class_items n items s)
unfolding class_items
class_items-Gives zero items s h = absurd (omega arith)
class_items-Gives (suc n) items [] h = tt
class_items-Gives (suc n) items (c ∷ s) h = elim (Bool-cases (c == b']')) [
  | inl e ↦ rw (e, class_items) (omega arith)
  | inr e ↦
      rw (e, class_items)
        (Gives-bind (NoLonger (length s)) (NoLonger (length (c ∷ s))) (class_item (c ∷ s)) _
          (class_item-Gives c s)
          (λ (item, after) k.
            Gives-weaker (NoLonger (length after)) (NoLonger (length (c ∷ s)))
              (class_items n (items ++ item ∷ []) after) (λ a g. omega (arith, k, g))
              (class_items-Gives n (items ++ item ∷ []) after (omega (arith, h, k)))))
]

pub parse_class-Gives : (s : Source) → Gives (NoLonger (length s)) (parse_class s)
unfolding parse_class
parse_class-Gives s =
    let negated = starts b'^' s in
    let body = if negated then rest_of s else s in
    let shorter : length body ≤ length s = ground (arith, length-rest_of s) in
    Gives-if _ (starts b'[' body && starts b':' (rest_of body)) _ _ (λ _. tt)
      (λ _.
        Gives-bind (NoLonger (length body)) (NoLonger (length s))
          (class_items (length body + 1) [] body) _
          (class_items-Gives (length body + 1) [] body (omega arith))
          (λ (items, after) h.
            Gives-if _ (is_empty items) _ _ (λ _. tt) (λ _. omega (arith, h, shorter))))

take_digits-NoLonger : (s : Source) → length (take_digits s).1 ≤ length s
unfolding take_digits
take_digits-NoLonger [] = omega arith
take_digits-NoLonger (c ∷ s) = ground (arith, take_digits-NoLonger s)

upper_part-NoLonger : (min : ℕ) (s : Source) → length (upper_part min s).1 ≤ length s
unfolding upper_part
upper_part-NoLonger min s = ground (arith, take_digits-NoLonger (rest_of s), length-rest_of s)

counts_refused-InBounds :
    (min : ℕ) (max : Option ℕ) → counts_refused min max ≡ false → InBounds min max
counts_refused-InBounds min none e = ground arith
counts_refused-InBounds min (some max) e = (ground arith, ground arith)

-- Counts in bounds, if there are any.
abbrev pub SomeInBounds : Option Counts → Type 0
SomeInBounds none = Unit
SomeInBounds (some (min, max)) = InBounds min max

parse_braces-Gives :
    (s : Source)
    → Gives (λ ((min, max), r). InBounds min max × (length r ≤ length s)) (parse_braces s)
unfolding parse_braces
parse_braces-Gives s =
    let min = number 0 (take_digits s).0 in
    let after = (take_digits s).1 in
    let max = (upper_part min after).0 in
    let end = (upper_part min after).1 in
    let one : length after ≤ length s = take_digits-NoLonger s in
    let two : length end ≤ length after = upper_part-NoLonger min after in
    Gives-if _ (is_empty (take_digits s).0) _ _ (λ _. tt)
      (λ _.
        Gives-if _ (not (starts b'}' end)) _ _ (λ _. tt)
          (λ _.
            Gives-if _ (counts_refused min max) _ _ (λ _. tt)
              (λ e.
                (counts_refused-InBounds min max e, omega (arith, one, two, length-rest_of end)))))

pub read_quantifier-Gives :
    (s : Source) → Gives (λ (q, r). SomeInBounds q × (length r ≤ length s)) (read_quantifier s)
unfolding read_quantifier
read_quantifier-Gives [] = (tt, omega arith)
read_quantifier-Gives (c ∷ s) =
    Gives-if _ (c == b'*') _ _ (λ _. (omega arith, omega arith))
      (λ _.
        Gives-if _ (c == b'+') _ _ (λ _. (omega arith, omega arith))
          (λ _.
            Gives-if _ (c == b'?') _ _ (λ _. ((omega arith, omega arith), omega arith))
              (λ _.
                Gives-if _ (c == b'{') _ _
                  (λ _.
                    Gives-bind (λ ((min, max), r). InBounds min max × (length r ≤ length s)) _
                      (parse_braces s) with_some (parse_braces-Gives s)
                      (λ ((min, max), r) (b, h). (b, omega (arith, h))))
                  (λ _. (tt, omega arith)))))

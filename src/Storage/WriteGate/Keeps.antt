-- ===== src/Storage/WriteGate/Keeps.antt =====
-- src/storage/write-gate.ts: every step of the gate keeps its invariant.
use brainstem_mcp.Prelude.{
  All, All-map, Bool-cases, List, Text, [], ap, arith, false, filter, inl, inr, none, not, refl,
  some, subst, sym, text_eq, text_eq-eq, text_eq_refl, true, ||-true, ℕ, ◌==◌, ◌∙◌, ◌∷◌, ◌≡◌, ◌⊎◌,
}
use brainstem_mcp.Prelude.Order.{sort_texts-Ascending, text_lt_trans, unique-NoDup}
use brainstem_mcp.Prelude.Sort.{member, sort_texts, text_lt, unique}
use brainstem_mcp.Storage.WriteGate.{
  Call, Reachable, State, Step, acquire, advance, advanced, enqueue, enter, entered, finish,
  finished, listed, next, set_call, start,
}
use brainstem_mcp.Storage.WriteGate.Valid.{
  CallValid, Ready, Valid, enqueue-CallValid, listed-enqueue, running-CallValid, waiting-CallValid,
}

-- All calls but one are valid, and no stranger stands in a queue.
record OthersValid (c : ℕ) (s : State) : Type 0 where
  calls : (d : ℕ) → (c == d) ≡ false → listed d s.active ≡ true → CallValid (s.call d) s.chain d
  strangers : (d : ℕ) → listed d s.active ≡ false → (p : Text) → listed d (s.chain p) ≡ false

same_call : (c d : ℕ) → (c == d) ≡ true → c ≡ d
same_call c d e = ground arith

set-own : (c d : ℕ) (k : Call) (f : ℕ → Call) → (c == d) ≡ true → set_call c k f d ≡ k
unfolding set_call
set-own c d k f e = rw e refl

set-other : (c d : ℕ) (k : Call) (f : ℕ → Call) → (c == d) ≡ false → set_call c k f d ≡ f d
unfolding set_call
set-other c d k f e = rw e refl

not_active : (c d : ℕ) (xs : List ℕ) → listed c xs ≡ true → listed d xs ≡ false → (c == d) ≡ false
not_active c d xs h k = elim (Bool-cases (c == d)) [
  | inr e ↦ e
  | inl e ↦ let no : true ≡ false = sym h ∙ (ap (λ x. listed x xs) (same_call c d e) ∙ k) in cc
]

acquire-Valid :
    (c : ℕ) (held rest : List Text) (s : State)
    → listed c s.active ≡ true
    → OthersValid c s
    → Ready c held rest s.chain
    → Valid (acquire c held rest s)
unfolding acquire
acquire-Valid c held [] s l o r = record {
  calls = λ d a. elim (Bool-cases (c == d)) [
    | inl e ↦
        subst (λ (k : Call). CallValid k s.chain d) (sym (set-own c d _ s.call e))
          (subst (λ x. CallValid (record { held = held; waits = none; rest = [] }) s.chain x)
            (same_call c d e) (running-CallValid c held s.chain r))
    | inr e ↦
        subst (λ (k : Call). CallValid k s.chain d) (sym (set-other c d _ s.call e)) (o.calls d e a)
  ];
  strangers = o.strangers;
}
acquire-Valid c held (p ∷ rest) s l o r = record {
  calls = λ d a. elim (Bool-cases (c == d)) [
    | inl e ↦
        subst (λ (k : Call). CallValid k (enqueue p c s.chain) d) (sym (set-own c d _ s.call e))
          (subst
            (λ x.
              CallValid (record { held = held; waits = some p; rest = rest }) (enqueue p c s.chain)
                x)
            (same_call c d e) (waiting-CallValid c held rest p s.chain r))
    | inr e ↦
        subst (λ (k : Call). CallValid k (enqueue p c s.chain) d) (sym (set-other c d _ s.call e))
          (enqueue-CallValid (s.call d) s.chain c d p e (o.calls d e a))
  ];
  strangers =
      λ d n q. listed-enqueue d c p q s.chain (not_active c d s.active l n) ∙ o.strangers d n q;
}

All-tt : (rest : List Text) → All (λ r. All (λ q. text_lt q r ≡ true) []) rest
All-tt [] = tt
All-tt (r ∷ rest) = (tt, All-tt rest)

enter-Valid :
    (c : ℕ) (paths : List Text) (s : State)
    → listed c s.active ≡ false
    → Valid s
    → Valid (enter c paths s)
unfolding enter
enter-Valid c paths s f v =
    acquire-Valid c [] (sort_texts (unique paths)) (record s { active = c ∷ s.active })
      (ground arith)
      (record {
        calls = λ d e a. v.calls d (ground arith);
        strangers = λ d n. v.strangers d (ground arith);
      })
      (record {
        holds = λ p m. let no : false ≡ true = unfold member in m in cc;
        owned = λ p l. let no : true ≡ false = sym l ∙ v.strangers c f p in cc;
        below = All-tt (sort_texts (unique paths));
        ascending = sort_texts-Ascending (unique paths) (unique-NoDup paths);
      })

below_next :
    (p : Text) (held rest : List Text)
    → All (λ q. text_lt q p ≡ true) held
    → All (λ r. text_lt p r ≡ true) rest
    → All (λ r. All (λ q. text_lt q r ≡ true) (p ∷ held)) rest
below_next p held [] h a = tt
below_next p held (r ∷ rest) h a =
    ((a.0, All-map held (λ q k. text_lt_trans q p r k a.0) h), below_next p held rest h a.1)

holds_next :
    (p q : Text) (held : List Text) → member q (p ∷ held) ≡ true → (p ≡ q) ⊎ (member q held ≡ true)
unfolding member
holds_next p q held m = elim (||-true (text_eq p q) (member q held) m) [
  | inl e ↦ inl (text_eq-eq p q e)
  | inr h ↦ inr h
]

member-next :
    (p q : Text) (held : List Text) → (p ≡ q) ⊎ (member q held ≡ true) → member q (p ∷ held) ≡ true
unfolding member
member-next p q held (inl e) = rw (← e) (ground (arith, text_eq_refl p))
member-next p q held (inr m) = ground (arith, m)

advance-Valid :
    (c : ℕ) (p : Text) (s : State) (b : List ℕ)
    → listed c s.active ≡ true
    → (s.call c).waits ≡ some p
    → s.chain p ≡ c ∷ b
    → Valid s
    → Valid (advance c p s)
unfolding advance
advance-Valid c p s b l w h v =
    let k = v.calls c l in
    acquire-Valid c (p ∷ (s.call c).held) (s.call c).rest s l
      (record { calls = λ d e a. v.calls d a; strangers = v.strangers })
      (record {
        holds = λ q m. elim (holds_next p q (s.call c).held m) [
          | inl e ↦ (b, subst (λ q. s.chain q ≡ c ∷ b) e h)
          | inr m ↦ k.holds q m
        ];
        owned = λ q o. member-next p q (s.call c).held (elim (k.owned q o) [
          | inl m ↦ inr m
          | inr w' ↦ let one : some p ≡ some q = sym w ∙ w' in let same : p ≡ q = cc in inl same
        ]);
        below = below_next p (s.call c).held (s.call c).rest (k.above p w) (k.coming p w).0;
        ascending = (k.coming p w).1;
      })

listed-filter :
    (c d : ℕ) (xs : List ℕ)
    → (c == d) ≡ false
    → listed d (filter (λ x. not (x == c)) xs) ≡ listed d xs
listed-filter c d [] e = refl
listed-filter c d (x ∷ xs) e = ground (arith, listed-filter c d xs)

listed-gone : (c : ℕ) (xs : List ℕ) → listed c (filter (λ x. not (x == c)) xs) ≡ false
listed-gone c [] = refl
listed-gone c (x ∷ xs) = ground (arith, listed-gone c xs)

head-filter :
    (c d : ℕ) (xs b : List ℕ)
    → (c == d) ≡ false
    → xs ≡ d ∷ b
    → (b' : List ℕ) × (filter (λ x. not (x == c)) xs ≡ d ∷ b')
head-filter c d xs b e h =
    let keep : (d == c) ≡ false = ground arith in
    (filter (λ x. not (x == c)) b, rw h (rw keep refl))

released-CallValid :
    (k : Call) (chain : Text → List ℕ) (c d : ℕ)
    → (c == d) ≡ false
    → CallValid k chain d
    → CallValid k (λ q. filter (λ x. not (x == c)) (chain q)) d
released-CallValid k chain c d e v = record {
  holds = λ q m. head-filter c d (chain q) (v.holds q m).0 e (v.holds q m).1;
  queued = λ q w. listed-filter c d (chain q) e ∙ v.queued q w;
  owned = λ q l. v.owned q (sym (listed-filter c d (chain q) e) ∙ l);
  above = v.above;
  coming = v.coming;
}

finish-Valid : (c : ℕ) (s : State) → Valid s → Valid (finish c s)
unfolding finish
finish-Valid c s v = record {
  calls = λ d a. elim (Bool-cases (c == d)) [
    | inl e ↦
        let no : true ≡ false =
          sym a
          ∙ subst (λ x. listed x (filter (λ x. not (x == c)) s.active) ≡ false) (same_call c d e)
              (listed-gone c s.active) in
        cc
    | inr e ↦
        subst (λ (k : Call). CallValid k (λ q. filter (λ x. not (x == c)) (s.chain q)) d)
          (sym (set-other c d _ s.call e))
          (released-CallValid (s.call d) s.chain c d e
            (v.calls d (sym (listed-filter c d s.active e) ∙ a)))
  ];
  strangers = λ d n q. elim (Bool-cases (c == d)) [
    | inl e ↦
        subst (λ x. listed x (filter (λ x. not (x == c)) (s.chain q)) ≡ false) (same_call c d e)
          (listed-gone c (s.chain q))
    | inr e ↦
        listed-filter c d (s.chain q) e ∙ v.strangers d (sym (listed-filter c d s.active e) ∙ n) q
  ];
}

step-Valid : (s t : State) → Step s t → Valid s → Valid t
step-Valid _ _ (entered c paths s f) v = enter-Valid c paths s f v
step-Valid _ _ (advanced c p s b l w h) v = advance-Valid c p s b l w h v
step-Valid _ _ (finished c s l w) v = finish-Valid c s v

pub Reachable-Valid : (s : State) → Reachable s → Valid s
Reachable-Valid _ start = record { calls = λ d a. cc; strangers = λ d n p. refl }
Reachable-Valid _ (next s t r e) = step-Valid s t e (Reachable-Valid s r)

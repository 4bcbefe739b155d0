-- ===== src/Storage/WriteGate/Valid.antt =====
-- src/storage/write-gate.ts: the invariant of the gate, and that every step keeps it.
use brainstem_mcp.Prelude.{
  All, Bool-cases, List, Text, [], ap, arith, false, inl, inr, none, refl, some, subst, sym,
  text_eq, text_eq-eq, text_eq_refl, true, ℕ, ◌++◌, ◌==◌, ◌||◌, ◌∙◌, ◌∷◌, ◌≡◌, ◌⊎◌,
}
use brainstem_mcp.Prelude.Order.{Ascending}
use brainstem_mcp.Prelude.Sort.{member, text_lt}
use brainstem_mcp.Storage.WriteGate.{Call, State, enqueue, listed}

-- One call: a path that it holds has it at the head of the queue, it stands in the queues of its
-- own paths only, and it asks for its paths in ascending order.
pub record CallValid (k : Call) (chain : Text → List ℕ) (d : ℕ) : Type 0 where
  pub holds : (p : Text) → member p k.held ≡ true → (b : List ℕ) × (chain p ≡ d ∷ b)
  pub queued : (p : Text) → k.waits ≡ some p → listed d (chain p) ≡ true
  pub owned : (p : Text) → listed d (chain p) ≡ true → (member p k.held ≡ true) ⊎ (k.waits ≡ some p)
  pub above : (p : Text) → k.waits ≡ some p → All (λ q. text_lt q p ≡ true) k.held
  pub coming : (p : Text) → k.waits ≡ some p → Ascending (p ∷ k.rest)

pub record Valid (s : State) : Type 0 where
  pub calls : (d : ℕ) → listed d s.active ≡ true → CallValid (s.call d) s.chain d
  pub strangers : (d : ℕ) → listed d s.active ≡ false → (p : Text) → listed d (s.chain p) ≡ false

pub listed-append : (d c : ℕ) (xs : List ℕ) → listed d (xs ++ c ∷ []) ≡ (listed d xs || c == d)
listed-append d c [] = ground arith
listed-append d c (x ∷ xs) = ground (arith, listed-append d c xs)

pub listed-enqueue :
    (d c : ℕ) (p q : Text) (chain : Text → List ℕ)
    → (c == d) ≡ false
    → listed d (enqueue p c chain q) ≡ listed d (chain q)
unfolding enqueue
listed-enqueue d c p q chain other = ground (arith, listed-append d c (chain q))

pub head-enqueue :
    (d c : ℕ) (p q : Text) (chain : Text → List ℕ) (b : List ℕ)
    → chain q ≡ d ∷ b
    → (b' : List ℕ) × (enqueue p c chain q ≡ d ∷ b')
unfolding enqueue
head-enqueue d c p q chain b h = elim (Bool-cases (text_eq p q)) [
  | inl e ↦ (b ++ c ∷ [], rw (e, h) refl)
  | inr e ↦ (b, rw (e, h) refl)
]

-- A place taken by another call changes nothing for this one.
pub enqueue-CallValid :
    (k : Call) (chain : Text → List ℕ) (c d : ℕ) (p : Text)
    → (c == d) ≡ false
    → CallValid k chain d
    → CallValid k (enqueue p c chain) d
enqueue-CallValid k chain c d p other v = record {
  holds = λ q m. head-enqueue d c p q chain (v.holds q m).0 (v.holds q m).1;
  queued = λ q w. listed-enqueue d c p q chain other ∙ v.queued q w;
  owned = λ q l. v.owned q (sym (listed-enqueue d c p q chain other) ∙ l);
  above = v.above;
  coming = v.coming;
}

-- What the loop of a call needs before its next round.
pub record Ready (c : ℕ) (held rest : List Text) (chain : Text → List ℕ) : Type 0 where
  pub holds : (p : Text) → member p held ≡ true → (b : List ℕ) × (chain p ≡ c ∷ b)
  pub owned : (p : Text) → listed c (chain p) ≡ true → member p held ≡ true
  pub below : All (λ r. All (λ q. text_lt q r ≡ true) held) rest
  pub ascending : Ascending rest

pub listed-own : (c : ℕ) (p : Text) (chain : Text → List ℕ) → listed c (enqueue p c chain p) ≡ true
unfolding enqueue
listed-own c p chain = ground (arith, listed-append c c (chain p), text_eq_refl p)

owned-enqueue :
    (c : ℕ) (p q : Text) (chain : Text → List ℕ)
    → listed c (enqueue p c chain q) ≡ true
    → (listed c (chain q) ≡ true) ⊎ (p ≡ q)
unfolding enqueue
owned-enqueue c p q chain l = elim (Bool-cases (text_eq p q)) [
  | inl e ↦ inr (text_eq-eq p q e)
  | inr e ↦ inl (rw e at l)
]

pub waiting-CallValid :
    (c : ℕ) (held rest : List Text) (p : Text) (chain : Text → List ℕ)
    → Ready c held (p ∷ rest) chain
    → CallValid (record { held = held; waits = some p; rest = rest }) (enqueue p c chain) c
waiting-CallValid c held rest p chain r = record {
  holds = λ q m. head-enqueue c c p q chain (r.holds q m).0 (r.holds q m).1;
  queued = λ q w.
      let same : p ≡ q = cc in
      subst (λ q. listed c (enqueue p c chain q) ≡ true) same (listed-own c p chain);
  owned = λ q l. elim (owned-enqueue c p q chain l) [
    | inl m ↦ inl (r.owned q m)
    | inr e ↦ inr (ap some e)
  ];
  above = λ q w.
      let same : p ≡ q = cc in subst (λ q. All (λ u. text_lt u q ≡ true) held) same r.below.0;
  coming = λ q w. let same : p ≡ q = cc in subst (λ q. Ascending (q ∷ rest)) same r.ascending;
}

pub running-CallValid :
    (c : ℕ) (held : List Text) (chain : Text → List ℕ)
    → Ready c held [] chain
    → CallValid (record { held = held; waits = none; rest = [] }) chain c
running-CallValid c held chain r = record {
  holds = r.holds;
  queued = λ q w. cc;
  owned = λ q l. inl (r.owned q l);
  above = λ q w. cc;
  coming = λ q w. cc;
}

-- ===== src/Storage/WriteGate/Progress.antt =====
-- src/storage/write-gate.ts: no deadlock, since every call asks for its paths in sorted order.
use brainstem_mcp.Prelude.{
  Bool-cases, List, Option-cases, Text, [], ap, arith, false, inl, inr, none, refl, some, subst,
  sym, true, ℕ, ◌==◌, ◌∙◌, ◌∷◌, ◌≡◌, ◌⊎◌,
}
use brainstem_mcp.Prelude.Order.{text_lt_trans}
use brainstem_mcp.Prelude.Sort.{All-member, text_lt}
use brainstem_mcp.Storage.WriteGate.{Reachable, State, listed}
use brainstem_mcp.Storage.WriteGate.Keeps.{Reachable-Valid}
use brainstem_mcp.Storage.WriteGate.Valid.{Valid}

text_lt_irrefl : (s : Text) → text_lt s s ≡ false
unfolding text_lt
text_lt_irrefl [] = refl
text_lt_irrefl (a ∷ s) = ground (arith, text_lt_irrefl s)

-- A call can go on: its function runs and may end, or the path that it waits for is its own.
abbrev pub CanMove : State → ℕ → Type 0
CanMove s d =
    ((s.call d).waits ≡ none)
    ⊎ ((p : Text) × (b : List ℕ) × ((s.call d).waits ≡ some p) × (s.chain p ≡ d ∷ b))

module _ (s : State) where
  -- The call waits for no path above this one.
  abbrev AtMost : Text → ℕ → Type 0
  AtMost p e =
      ((s.call e).waits ≡ none) ⊎ ((q : Text) × ((s.call e).waits ≡ some q) × (text_lt p q ≡ false))

  -- Of some calls one runs, or one waits for a path that none of the others waits above.
  abbrev Highest : List ℕ → Type 0
  Highest xs =
      (d : ℕ) × (listed d xs ≡ true)
      × (((s.call d).waits ≡ none)
          ⊎ ((p : Text) × ((s.call d).waits ≡ some p)
              × ((e : ℕ) → listed e xs ≡ true → AtMost p e)))

  raise : (p q : Text) (e : ℕ) → text_lt p q ≡ true → AtMost p e → AtMost q e
  raise p q e lt (inl n) = inl n
  raise p q e lt (inr (u, w, h)) = inr (
    u,
    w,
    elim (Bool-cases (text_lt q u)) [
      | inr k ↦ k
      | inl k ↦ let no : true ≡ false = sym (text_lt_trans p q u lt k) ∙ h in cc
    ],
  )

  split_listed : (x e : ℕ) (xs : List ℕ) → listed e (x ∷ xs) ≡ true → (x ≡ e) ⊎ (listed e xs ≡ true)
  split_listed x e xs h = elim (Bool-cases (x == e)) [
    | inl k ↦ inl (ground arith)
    | inr k ↦ inr (ground arith)
  ]

  listed-first : (x : ℕ) (xs : List ℕ) → listed x (x ∷ xs) ≡ true
  listed-first x xs = ground arith

  listed-later : (x e : ℕ) (xs : List ℕ) → listed e xs ≡ true → listed e (x ∷ xs) ≡ true
  listed-later x e xs h = ground arith

  own_path : (x : ℕ) (q : Text) → (s.call x).waits ≡ some q → (e : ℕ) → x ≡ e → AtMost q e
  own_path x q w e same = inr (q, subst (λ e. (s.call e).waits ≡ some q) same w, text_lt_irrefl q)

  highest : (x : ℕ) (xs : List ℕ) → Highest (x ∷ xs)
  highest x [] = (
    x,
    listed-first x [],
    elim (Option-cases (s.call x).waits) [
      | inl n ↦ inl n
      | inr (q, w) ↦ inr (
        q,
        w,
        λ e l. elim (split_listed x e [] l) [ inl same ↦ own_path x q w e same | inr bad ↦ cc ],
      )
    ],
  )
  highest x (y ∷ ys) =
      let (d, l, h) = highest y ys in
      elim h [
        | inl n ↦ (d, listed-later x d (y ∷ ys) l, inl n)
        | inr (p, w, top) ↦ elim (Option-cases (s.call x).waits) [
          | inl n ↦ (x, listed-first x (y ∷ ys), inl n)
          | inr (q, w') ↦ elim (Bool-cases (text_lt p q)) [
            | inl lt ↦ (
              x,
              listed-first x (y ∷ ys),
              inr (
                q,
                w',
                λ e m. elim (split_listed x e (y ∷ ys) m) [
                  | inl same ↦ own_path x q w' e same
                  | inr m ↦ raise p q e lt (top e m)
                ],
              ),
            )
            | inr ge ↦ (
              d,
              listed-later x d (y ∷ ys) l,
              inr (
                p,
                w,
                λ e m. elim (split_listed x e (y ∷ ys) m) [
                  | inl same ↦ inr (q, subst (λ e. (s.call e).waits ≡ some q) same w', ge)
                  | inr m ↦ top e m
                ],
              ),
            )
          ]
        ]
      ]

  head_of : (d : ℕ) (xs : List ℕ) → listed d xs ≡ true → (h : ℕ) × (b : List ℕ) × (xs ≡ h ∷ b)
  head_of d [] l = cc
  head_of d (x ∷ xs) l = (x, xs, refl)

  -- The call at the head of the highest path that is waited for.
  head-CanMove :
      (p : Text) (d h : ℕ) (b : List ℕ)
      → Valid s
      → s.chain p ≡ h ∷ b
      → ((e : ℕ) → listed e s.active ≡ true → AtMost p e)
      → (listed h s.active ≡ true) × CanMove s h
  head-CanMove p d h b v e top =
      let queued : listed h (s.chain p) ≡ true = ap (listed h) e ∙ listed-first h b in
      let active : listed h s.active ≡ true = elim (Bool-cases (listed h s.active)) [
        | inl a ↦ a
        | inr n ↦ let no : true ≡ false = sym queued ∙ v.strangers h n p in cc
      ] in
      let k = v.calls h active in
      (
        active,
        elim (k.owned p queued) [
          | inr w ↦ inr (p, b, w, e)
          | inl m ↦ elim (top h active) [
            | inl n ↦ inl n
            | inr (q, w, ge) ↦
                let no : true ≡ false =
                  sym (All-member (λ u. text_lt u q ≡ true) (s.call h).held (k.above q w) p m)
                  ∙ ge in
                cc
          ]
        ],
      )

  go_on :
      Valid s
      → (xs : List ℕ) → s.active ≡ xs
      → (c : ℕ) → listed c xs ≡ true
      → (d : ℕ) × (listed d s.active ≡ true) × CanMove s d
  go_on v [] e c l = cc
  go_on v (x ∷ xs) e c l =
      let (d, m, h) = highest x xs in
      let m' : listed d s.active ≡ true = ap (listed d) e ∙ m in
      elim h [
        | inl n ↦ (d, m', inl n)
        | inr (p, w, top) ↦
            let (f, b, q) = head_of d (s.chain p) ((v.calls d m').queued p w) in
            let (a, k) = head-CanMove p d f b v q (λ u a. top u (ap (listed u) (sym e) ∙ a)) in
            (f, a, k)
      ]

-- In every state that the gate can reach while some call is under way, one of the calls can go
-- on: its function is running, or it stands at the head of the queue that it waits in.
pub no_deadlock :
    (s : State) (c : ℕ)
    → Reachable s
    → listed c s.active ≡ true
    → (d : ℕ) × (listed d s.active ≡ true) × CanMove s d
no_deadlock s c r l = go_on s (Reachable-Valid s r) s.active refl c l

-- ===== src/Vault/SafeRegex/Matcher/Decides.antt =====
-- src/vault/safe-regex.ts: the matcher decides whether the pattern matches.
use brainstem_mcp.Prelude.{
  All, Bool-cases, List, Option, [], ap, false, get_elem?, inl, inr, none, refl, some, subst, suc,
  sym, true, zero, ℕ, ◌++◌, ◌∙◌, ◌∷◌, ◌≡◌,
}
use brainstem_mcp.Vault.SafeRegex.{CharSet, set_matches}
use brainstem_mcp.Vault.SafeRegex.Language.{Texts}
use brainstem_mcp.Vault.SafeRegex.Matcher.{
  Visit, add_target, follow, follow_all, marked, nothing_seen, step,
}
use brainstem_mcp.Vault.SafeRegex.Matcher.Closure.{Settled, add_state-Closes}
use brainstem_mcp.Vault.SafeRegex.Matcher.Marks.{Settles, marked_cons, marked_here, marked_there}
use brainstem_mcp.Vault.SafeRegex.Matcher.Stops.{IsStop}
use brainstem_mcp.Vault.SafeRegex.Nfa.{NfaState, States, char_state, match_state, split_state}
use brainstem_mcp.Vault.SafeRegex.Nfa.Accepts.{Accepts, Accepts-at, Accepts_none, Through}

pub All-marked : (P : ℕ → Type 0) (xs : List ℕ) (i : ℕ) → All P xs → marked xs i ≡ true → P i
All-marked P [] i h m = cc
All-marked P (x ∷ xs) i h m = elim (marked_cons i x xs m) [
  | inl e ↦ subst P e h.0
  | inr e ↦ All-marked P xs i h.1 e
]

pub All-from : (P : ℕ → Type 0) (xs : List ℕ) → ((i : ℕ) → marked xs i ≡ true → P i) → All P xs
All-from P [] h = tt
All-from P (x ∷ xs) h = (h x (marked_here x xs), All-from P xs (λ i m. h i (marked_there i x xs m)))

module _ (variants : ℕ → List ℕ) (states : States) where
  -- A state of the list accepts the rest of the subject.
  abbrev pub Alive : List ℕ → Texts
  Alive list w = (i : ℕ) × (marked list i ≡ true) × (n : ℕ) × Accepts variants states n i w

  alive_through :
      (n i : ℕ) (w : List ℕ) (v : Visit) (o : Option NfaState)
      → ((j : ℕ) → marked v.seen j ≡ true → Accepts variants states n j w → Alive v.list w)
      → get_elem? states i ≡ o
      → Settles o i v []
      → Through variants (Accepts variants states n) o w
      → Accepts variants states (suc n) i w
      → Alive v.list w
  alive_through n i w v none next e s h d = absurd h
  alive_through n i w v (some match_state) next e s h d = (i, s, suc n, d)
  alive_through n i w v (some (char_state chars to)) next e s h d = (i, s, suc n, d)
  alive_through n i w v (some (split_state none b)) next e s (inl h) d = absurd h
  alive_through n i w v (some (split_state (some a) b)) next e (inl m, _) (inl h) d = next a m h
  alive_through n i w v (some (split_state (some a) b)) next e (inr m, _) (inl h) d = cc
  alive_through n i w v (some (split_state a none)) next e s (inr h) d = absurd h
  alive_through n i w v (some (split_state a (some b))) next e (_, inl m) (inr h) d = next b m h
  alive_through n i w v (some (split_state a (some b))) next e (_, inr m) (inr h) d = cc

  pub alive_at :
      (n i : ℕ) (w : List ℕ) (v : Visit)
      → Settled states v []
      → marked v.seen i ≡ true
      → Accepts variants states n i w
      → Alive v.list w
  alive_at zero i w v s m d = absurd (Accepts_none variants states i w d)
  alive_at (suc n) i w v s m d =
      alive_through n i w v (get_elem? states i) (λ j mj dj. alive_at n j w v s mj dj) refl (s i m)
        (Accepts-at variants states n i w _ refl d) d

  -- What a character leads to.
  abbrev pub Leads : List ℕ → ℕ → ℕ → Type 0
  Leads vs i j =
      (chars : CharSet) × (get_elem? states i ≡ some (char_state chars (some j)))
      × (set_matches chars vs ≡ true)

  same_char :
      (chars chars' : CharSet) (next next' : Option ℕ)
      → some (char_state chars next) ≡ some (char_state chars' next')
      → (chars ≡ chars') × (next ≡ next')
  same_char chars chars' next next' e = (cc, cc)

  record Follows (vs current : List ℕ) (v v' : Visit) : Type 0 where
    settled : Settled states v' []
    keeps : (j : ℕ) → marked v.seen j ≡ true → marked v'.seen j ≡ true
    leads : (i j : ℕ) → marked current i ≡ true → Leads vs i j → marked v'.seen j ≡ true

  follow-Follows :
      (vs : List ℕ) (i : ℕ) (v : Visit) (o : Option NfaState)
      → get_elem? states i ≡ o
      → Settled states v []
      → Settled states (follow states vs o v) []
        × ((j : ℕ) → marked v.seen j ≡ true → marked (follow states vs o v).seen j ≡ true)
        × ((j : ℕ) → Leads vs i j → marked (follow states vs o v).seen j ≡ true)
  unfolding follow add_target
  follow-Follows vs i v none e s = (s, λ j h. h, λ j l. cc)
  follow-Follows vs i v (some match_state) e s = (s, λ j h. h, λ j l. cc)
  follow-Follows vs i v (some (split_state a b)) e s = (s, λ j h. h, λ j l. cc)
  follow-Follows vs i v (some (char_state chars none)) e s =
      elim (Bool-cases (set_matches chars vs)) [
        | inl m ↦ rw m (
          s,
          λ j h. h,
          λ j (chars', at, m'). let other = same_char chars chars' none (some j) (sym e ∙ at) in cc,
        )
        | inr m ↦ rw m (
          s,
          λ j h. h,
          λ j (chars', at, m'). let other = same_char chars chars' none (some j) (sym e ∙ at) in cc,
        )
      ]
  follow-Follows vs i v (some (char_state chars (some k))) e s =
      elim (Bool-cases (set_matches chars vs)) [
        | inl m ↦
            let c = add_state-Closes false states k v s in
            rw m (
              c.settled,
              c.keeps_seen,
              λ j (chars', at, m').
                  let (_, to) = same_char chars chars' (some k) (some j) (sym e ∙ at) in
                  let same : k ≡ j = cc in
                  c.takes j (subst (λ x. marked (k ∷ []) x ≡ true) same (marked_here k [])),
            )
        | inr m ↦ rw m (
          s,
          λ j h. h,
          λ j (chars', at, m').
              let (both, _) = same_char chars chars' (some k) (some j) (sym e ∙ at) in
              let no : false ≡ true = sym m ∙ ap (λ x. set_matches x vs) both ∙ m' in cc,
        )
      ]

  follow_all-Follows :
      (vs current : List ℕ) (v : Visit)
      → Settled states v []
      → Follows vs current v (follow_all states vs current v)
  unfolding follow_all
  follow_all-Follows vs [] v s = record {
    settled = s;
    keeps = λ j h. h;
    leads = λ i j m l. let no : false ≡ true = m in cc;
  }
  follow_all-Follows vs (i ∷ current) v s =
      let (s', keeps', leads') = follow-Follows vs i v (get_elem? states i) refl s in
      let f = follow_all-Follows vs current (follow states vs (get_elem? states i) v) s' in
      record {
        settled = f.settled;
        keeps = λ j h. f.keeps j (keeps' j h);
        leads = λ k j m l. elim (marked_cons k i current m) [
          | inl e ↦ f.keeps j (leads' j (subst (λ x. Leads vs x j) (sym e) l))
          | inr later ↦ f.leads k j later l
        ];
      }

  pub nothing-Settled : Settled states nothing_seen []
  nothing-Settled i h = let no : false ≡ true = h in cc

  pub led :
      (n i c : ℕ) (w : List ℕ) (o : Option NfaState)
      → get_elem? states i ≡ o
      → IsStop o
      → Through variants (Accepts variants states n) o (c ∷ w)
      → (j : ℕ) × Leads (variants c) i j × Accepts variants states n j w
  led n i c w none e s d = absurd s
  led n i c w (some (split_state a b)) e s d = absurd s
  led n i c w (some match_state) e s d = cc
  led n i c w (some (char_state chars none)) e s (u, v, parts, one, d) = absurd d
  led n i c w (some (char_state chars (some j))) e s (u, v, parts, (c', alone, m), d) =
      let whole : c ∷ w ≡ c' ∷ v = parts ∙ ap (λ z. z ++ v) alone in
      let first : c' ≡ c = cc in
      let rest : v ≡ w = cc in
      (
        j,
        (chars, e, subst (λ x. set_matches chars (variants x) ≡ true) first m),
        subst (Accepts variants states n j) rest d,
      )

  pub step-complete :
      (c : ℕ) (current w : List ℕ)
      → All (λ i. IsStop (get_elem? states i)) current
      → Alive current (c ∷ w)
      → Alive (step states (variants c) current) w
  unfolding step
  step-complete c current w stops (i, m, zero, d) =
      absurd (Accepts_none variants states i (c ∷ w) d)
  step-complete c current w stops (i, m, suc n, d) =
      let stop = All-marked (λ k. IsStop (get_elem? states k)) current i stops m in
      let (j, l, after) =
        led n i c w (get_elem? states i) refl stop
          (Accepts-at variants states n i (c ∷ w) _ refl d) in
      let f = follow_all-Follows (variants c) current nothing_seen nothing-Settled in
      alive_at n j w (follow_all states (variants c) current nothing_seen) f.settled
        (f.leads i j m l) after

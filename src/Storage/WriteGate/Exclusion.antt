-- ===== src/Storage/WriteGate/Exclusion.antt =====
-- src/storage/write-gate.ts: who may hold a path, and what is left when nobody does.
use brainstem_mcp.Prelude.{
  List, Text, [], ap, arith, false, is_empty, not, refl, sym, true, ℕ, ◌==◌, ◌||◌, ◌∙◌, ◌∷◌, ◌≡◌,
}
use brainstem_mcp.Prelude.Sort.{member}
use brainstem_mcp.Storage.WriteGate.{Reachable, State, listed, pending}
use brainstem_mcp.Storage.WriteGate.Keeps.{Reachable-Valid}

-- In every state that the gate can reach, two calls that hold the same path are the same call.
pub mutual_exclusion :
    (s : State) (c d : ℕ) (p : Text)
    → Reachable s
    → listed c s.active ≡ true
    → listed d s.active ≡ true
    → member p (s.call c).held ≡ true
    → member p (s.call d).held ≡ true
    → c ≡ d
mutual_exclusion s c d p r lc ld hc hd =
    let v = Reachable-Valid s r in
    let (b, e) = (v.calls c lc).holds p hc in
    let (b', e') = (v.calls d ld).holds p hd in
    let same : ◌≡◌ {A = List ℕ} (c ∷ b) (d ∷ b') = sym e ∙ e' in cc

not_queued : (xs : List ℕ) → ((d : ℕ) → listed d xs ≡ false) → xs ≡ []
not_queued [] h = refl
not_queued (x ∷ xs) h = let no : (x == x || listed x xs) ≡ false = h x in ground arith

-- When the last call has ended, no path has a queue left: `pendingCount` is 0.
nothing_pending : (s : State) (p : Text) → Reachable s → s.active ≡ [] → pending p s ≡ false
nothing_pending s p r e =
    let v = Reachable-Valid s r in
    let gone : s.chain p ≡ [] = not_queued (s.chain p) λ d. v.strangers d (ap (listed d) e) p in
    ap (λ xs. not (is_empty xs)) gone

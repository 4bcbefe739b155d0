-- ===== src/Storage/WriteGate.antt =====
-- src/storage/write-gate.ts: the keyed mutex as a step relation. The chain of promises of a path
-- is the queue of the calls that have taken a place in it: the first holds the path, and a call
-- behind it waits for it to release. A call is a number, and every `await` ends a step.
pub mod Valid
pub mod Keeps
pub mod Exclusion
pub mod Progress
mod Tests
use brainstem_mcp.Prelude.{
  Bool, List, Option, Text, [], any, false, filter, if◌then◌else◌, is_empty, none, not, some,
  text_eq, true, ℕ, ◌++◌, ◌==◌, ◌∷◌, ◌≡◌,
}
use brainstem_mcp.Prelude.Sort.{sort_texts, unique}

-- The paths held, the path whose predecessor is awaited, and the paths still to come.
pub record Call : Type 0 where
  pub held : List Text
  pub waits : Option Text
  pub rest : List Text

pub record State : Type 0 where
  pub active : List ℕ
  pub call : ℕ → Call
  pub chain : Text → List ℕ

abbrev pub no_call : Call
no_call = record { held = []; waits = none; rest = [] }

abbrev pub idle : State
idle = record { active = []; call = λ _. no_call; chain = λ _. [] }

abbrev pub listed : ℕ → List ℕ → Bool
listed c = any (λ d. d == c)

unfoldable pub set_call : ℕ → Call → (ℕ → Call) → ℕ → Call
set_call c k f d = if c == d then k else f d

-- A place at the end of the queue of a path.
unfoldable pub enqueue : Text → ℕ → (Text → List ℕ) → Text → List ℕ
enqueue p c chain q = if text_eq p q then chain q ++ c ∷ [] else chain q

-- The next round of the loop over the sorted paths: `acquire` up to its `await`, or the end of
-- the loop, where `fn` starts.
unfoldable pub acquire : ℕ → List Text → List Text → State → State
unfolding set_call enqueue
acquire c held [] s = record s {
  call = set_call c (record { held = held; waits = none; rest = [] }) s.call;
}
acquire c held (p ∷ rest) s = record s {
  call = set_call c (record { held = held; waits = some p; rest = rest }) s.call;
  chain = enqueue p c s.chain;
}

-- `withLock` is called.
unfoldable pub enter : ℕ → List Text → State → State
unfolding acquire
enter c paths s = acquire c [] (sort_texts (unique paths)) (record s { active = c ∷ s.active })

-- The `await` of a path ends.
unfoldable pub advance : ℕ → Text → State → State
unfolding acquire
advance c p s = acquire c (p ∷ (s.call c).held) (s.call c).rest s

-- `fn` has ended, well or not: every path is released.
unfoldable pub finish : ℕ → State → State
unfolding set_call
finish c s = record {
  active = filter (λ d. not (d == c)) s.active;
  call = set_call c no_call s.call;
  chain = λ q. filter (λ d. not (d == c)) (s.chain q);
}

-- `pendingCount` counts the paths whose queue is not empty.
abbrev pub pending : Text → State → Bool
pending p s = not (is_empty (s.chain p))

pub data Step : State → State → Type 0 where
  entered :
      (c : ℕ) (paths : List Text) (s : State) → listed c s.active ≡ false → Step s (enter c paths s)
  advanced :
      (c : ℕ) (p : Text) (s : State) (behind : List ℕ)
      → listed c s.active ≡ true
      → (s.call c).waits ≡ some p
      → s.chain p ≡ c ∷ behind
      → Step s (advance c p s)
  finished :
      (c : ℕ) (s : State) → listed c s.active ≡ true → (s.call c).waits ≡ none → Step s (finish c s)

pub data Reachable : State → Type 0 where
  start : Reachable idle
  next : (s t : State) → Reachable s → Step s t → Reachable t

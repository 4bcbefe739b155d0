-- ===== src/Tools/CallTracker.antt =====
-- src/tools/call-tracker.ts: the calls that are running, and the drain of a server that stops. One
-- drain is asked for. The readings of the clock between two waits are one instant.
pub mod Laws
mod Tests
use brainstem_mcp.Prelude.{
  Bool, Option, false, if◌then◌else◌, ltb, none, some, true, ℕ, ◌&&◌, ◌+◌, ◌-◌, ◌==◌, ◌≡◌, ◌≤◌,
}

-- Where the drain stands: each constructor is an `await` of it. `admitting` has the count of calls
-- that was seen, the deadline, the quiet time, and the time its timer is due; `waiting` says
-- whether its waiter has been woken.
pub data Drain : Type 0 where
  not_asked : Drain
  admitting : (seen deadline quiet due : ℕ) → Drain
  waiting : (woken : Bool) → Drain
  last_turn resolved : Drain

pub record Tracker : Type 0 where
  pub running : ℕ
  pub started : ℕ
  pub draining : Bool
  pub announced : Bool
  pub drain : Drain

abbrev pub new_tracker : Tracker
new_tracker = record {
  running = 0;
  started = 0;
  draining = false;
  announced = false;
  drain = not_asked;
}

-- The start of `run`.
unfoldable pub begin : Tracker → Tracker
begin s = record s { running = s.running + 1; started = s.started + 1 }

-- A call of a tool: refused when the tracker is closed.
unfoldable pub call_tool : Tracker → Option Tracker
unfolding begin
call_tool s = if s.draining then none else some (begin s)

-- The waiters are woken.
unfoldable pub wake : Drain → Drain
wake not_asked = not_asked
wake (admitting seen deadline quiet due) = admitting seen deadline quiet due
wake (waiting woken) = waiting true
wake last_turn = last_turn
wake resolved = resolved

-- The `finally` of `run`.
unfoldable pub finish : Tracker → Tracker
unfolding wake
finish s = record s {
  running = s.running - 1;
  drain = if s.running - 1 == 0 then wake s.drain else s.drain;
}

-- The test of the last loop.
unfoldable pub wait_idle : Tracker → Tracker
wait_idle s = record s { drain = if ltb 0 s.running then waiting false else last_turn }

unfoldable pub close : Tracker → Tracker
unfolding wait_idle
close s = wait_idle (record s { draining = true })

-- The head of the first loop.
unfoldable pub admit : ℕ → ℕ → ℕ → Tracker → Tracker
unfolding close
admit now deadline quiet s =
    let left = deadline - now in
    if ltb now deadline
    then record s {
      drain = admitting s.started deadline quiet (now + (if ltb left quiet then left else quiet));
    }
    else close s

unfoldable pub drain_asked : ℕ → ℕ → ℕ → Tracker → Tracker
unfolding admit
drain_asked now quiet admit_max s =
    admit now (now + admit_max) quiet (record s { announced = true })

-- The timer of the first loop has fired.
unfoldable pub timer_fired : ℕ → Tracker → Tracker
unfolding admit close
timer_fired now s = elim s.drain [
  | admitting seen deadline quiet due ↦
      if s.running == 0 && s.started == seen then close s else admit now deadline quiet s
  | _ ↦ s
]

-- A waiter that has been woken goes on with the test of the last loop.
unfoldable pub woken_up : Tracker → Tracker
unfolding wait_idle
woken_up s = elim s.drain [ waiting true ↦ wait_idle s | _ ↦ s ]

-- What `setImmediate` was waiting for.
unfoldable pub immediate : Tracker → Tracker
immediate s = record s { drain = resolved }

pub data Step : Tracker → Tracker → Type 0 where
  called : (s t : Tracker) → call_tool s ≡ some t → Step s t
  finished : (s : Tracker) → 1 ≤ s.running → Step s (finish s)
  asked :
      (now quiet admit_max : ℕ) (s : Tracker)
      → s.drain ≡ not_asked
      → Step s (drain_asked now quiet admit_max s)
  fired :
      (now seen deadline quiet due : ℕ) (s : Tracker)
      → s.drain ≡ admitting seen deadline quiet due
      → due ≤ now
      → Step s (timer_fired now s)
  resumed : (s : Tracker) → s.drain ≡ waiting true → Step s (woken_up s)
  turned : (s : Tracker) → s.drain ≡ last_turn → Step s (immediate s)

pub data Reachable : Tracker → Type 0 where
  start : Reachable new_tracker
  next : (s t : Tracker) → Reachable s → Step s t → Reachable t

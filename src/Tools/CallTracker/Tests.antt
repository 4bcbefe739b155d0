-- ===== src/Tools/CallTracker/Tests.antt =====
-- src/tools/call-tracker.ts on concrete runs.
use brainstem_mcp.Prelude.{arith, false, none, refl, true, ℕ, ◌<◌, ◌≡◌, ◌≤◌, ◌⊎◌}
use brainstem_mcp.Tools.CallTracker.{
  Reachable, Tracker, admitting, asked, call_tool, called, drain_asked, finish, finished, fired,
  immediate, last_turn, new_tracker, next, resolved, resumed, start, timer_fired, turned, waiting,
  woken_up,
}
use brainstem_mcp.Tools.CallTracker.Laws.{
  finish_all, finish_all-ends, resolved_idle, timer_fired-progress,
}

abbrev one_call : Tracker
one_call = record new_tracker { running = 1; started = 1 }

abbrev asked_at_0 : Tracker
asked_at_0 = record one_call { announced = true; drain = admitting 1 1000 250 250 }

-- The call runs beyond the deadline.
abbrev late : Tracker
late = record asked_at_0 { draining = true; drain = waiting false }

abbrev ended : Tracker
ended = record late { running = 0; drain = waiting true }

abbrev over : Tracker
over = record ended { drain = resolved }

asked_at_0-Reachable : Reachable asked_at_0
unfolding call_tool drain_asked
asked_at_0-Reachable =
    next one_call asked_at_0 (next new_tracker one_call start (called new_tracker one_call refl))
      (asked 0 250 1000 one_call refl)

late-Reachable : Reachable late
unfolding timer_fired
late-Reachable =
    next asked_at_0 late asked_at_0-Reachable
      (fired 1000 1 1000 250 250 asked_at_0 refl (omega arith))

ended-Reachable : Reachable ended
unfolding finish
ended-Reachable = next late ended late-Reachable (finished late (omega arith))

over-Reachable : Reachable over
unfolding woken_up immediate
over-Reachable =
    next (record ended { drain = last_turn }) over
      (next ended (record ended { drain = last_turn }) ended-Reachable (resumed ended refl))
      (turned (record ended { drain = last_turn }) refl)

resolved_idle_example : (over.running ≡ 0) × (call_tool over ≡ none)
resolved_idle_example = resolved_idle over over-Reachable refl

timer_fired-progress_example :
    ((timer_fired 250 asked_at_0).draining ≡ true)
    ⊎ ((later : ℕ) × ((timer_fired 250 asked_at_0).drain ≡ admitting 1 1000 250 later)
        × (250 < later)
        × (later ≤ 1000))
timer_fired-progress_example =
    timer_fired-progress 250 1 1000 250 250 asked_at_0 asked_at_0-Reachable refl (omega arith)
      (omega arith)

finish_all-ends_example : (woken_up (finish_all late.running late)).drain ≡ last_turn
finish_all-ends_example = finish_all-ends late false late-Reachable refl

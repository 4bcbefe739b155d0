-- ===== src/Storage/WriteGate/Tests.antt =====
-- src/storage/write-gate.ts: two calls that want the same two paths in opposite orders.
use brainstem_mcp.Prelude.{[], codes, none, refl, some, true, ℕ, ◌∷◌, ◌≡◌}
use brainstem_mcp.Prelude.Sort.{insert_text, member, sort_texts, text_lt, unique, without}
use brainstem_mcp.Storage.WriteGate.{
  Reachable, State, acquire, advance, advanced, enqueue, enter, entered, finish, finished, idle,
  listed, next, set_call, start,
}
use brainstem_mcp.Storage.WriteGate.Exclusion.{mutual_exclusion}
use brainstem_mcp.Storage.WriteGate.Progress.{CanMove, no_deadlock}

abbrev first_in : State
first_in = enter 1 (codes "a" ∷ codes "b" ∷ []) idle

abbrev both_in : State
both_in = enter 2 (codes "b" ∷ codes "a" ∷ []) first_in

abbrev one_held : State
one_held = advance 1 (codes "a") both_in

abbrev all_held : State
all_held = advance 1 (codes "b") one_held

in-Reachable : Reachable both_in
unfolding enter acquire sort_texts unique
in-Reachable =
    next first_in both_in
      (next idle first_in start (entered 1 (codes "a" ∷ codes "b" ∷ []) idle refl))
      (entered 2 (codes "b" ∷ codes "a" ∷ []) first_in refl)

held-Reachable : Reachable all_held
unfolding enter acquire advance set_call enqueue sort_texts unique insert_text without text_lt
held-Reachable =
    next one_held all_held
      (next both_in one_held in-Reachable (advanced 1 (codes "a") both_in (2 ∷ []) refl refl refl))
      (advanced 1 (codes "b") one_held [] refl refl refl)

-- The second call waits for the first path in order, and for no other.
orders :
    (all_held.chain (codes "a") ≡ 1 ∷ 2 ∷ [])
    × (all_held.chain (codes "b") ≡ 1 ∷ [])
    × ((all_held.call 1).waits ≡ none)
    × ((all_held.call 2).waits ≡ some (codes "a"))
unfolding enter acquire advance set_call enqueue sort_texts unique insert_text without text_lt
orders = (refl, refl, refl, refl)

abbrev holder : ℕ
holder = 1

mutual_exclusion_example : holder ≡ holder
unfolding enter acquire advance set_call enqueue sort_texts unique insert_text without text_lt
    member
mutual_exclusion_example =
    mutual_exclusion all_held 1 1 (codes "a") held-Reachable refl refl refl refl

no_deadlock_example : (d : ℕ) × (listed d both_in.active ≡ true) × CanMove both_in d
unfolding enter acquire sort_texts unique
no_deadlock_example = no_deadlock both_in 2 in-Reachable refl

abbrev alone : State
alone = enter 1 [] idle

ended-Reachable : Reachable (finish 1 alone)
unfolding enter acquire set_call sort_texts unique
ended-Reachable =
    next alone (finish 1 alone) (next idle alone start (entered 1 [] idle refl))
      (finished 1 alone refl refl)

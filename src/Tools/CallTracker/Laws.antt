-- ===== src/Tools/CallTracker/Laws.antt =====
-- src/tools/call-tracker.ts: what stopping promises.
use brainstem_mcp.Prelude.{
  Bool, Bool-cases, arith, false, if◌then◌else◌, inl, inr, ltb, none, refl, some, subst, suc, true,
  zero, ℕ, ◌&&◌, ◌+◌, ◌-◌, ◌<◌, ◌==◌, ◌≡◌, ◌≤◌, ◌⊎◌,
}
use brainstem_mcp.Tools.CallTracker.{
  Drain, Reachable, Step, Tracker, admit, admitting, asked, begin, call_tool, called, close,
  drain_asked, finish, finished, fired, immediate, last_turn, next, not_asked, resolved, resumed,
  start, timer_fired, turned, wait_idle, waiting, wake, woken_up,
}

-- What holds of each place of the drain: intake goes on until the last loop, whose waiter is there
-- while calls run and is woken when none does, and nothing runs after it.
At : Drain → Bool → ℕ → Type 0
At not_asked draining running = draining ≡ false
At (admitting seen deadline quiet due) draining running = (draining ≡ false) × (due ≤ deadline)
At (waiting woken) draining running = (draining ≡ true) × (woken ≡ (running == 0))
At last_turn draining running = (draining ≡ true) × (running ≡ 0)
At resolved draining running = (draining ≡ true) × (running ≡ 0)

Valid : Tracker → Type 0
Valid s = At s.drain s.draining s.running

wait_idle-Valid : (s : Tracker) → s.draining ≡ true → Valid (wait_idle s)
unfolding Valid wait_idle At
wait_idle-Valid s d = elim (Bool-cases (ltb 0 s.running)) [
  | inl e ↦ rw e (d, ground arith)
  | inr e ↦ rw e (d, ground arith)
]

admit-Valid :
    (now deadline quiet : ℕ) (s : Tracker) → s.draining ≡ false → Valid (admit now deadline quiet s)
unfolding admit close Valid At
admit-Valid now deadline quiet s d = elim (Bool-cases (ltb now deadline)) [
  | inl e ↦ rw e (d, ground arith)
  | inr e ↦ rw e (wait_idle-Valid (record s { draining = true }) refl)
]

At-more :
    (d : Drain) (draining : Bool) (n : ℕ)
    → draining ≡ false
    → At d draining n
    → At d draining (n + 1)
unfolding At
At-more not_asked b n e v = v
At-more (admitting seen deadline quiet due) b n e v = v
At-more (waiting woken) b n e v = ground (arith, v.0)
At-more last_turn b n e v = ground (arith, v.0)
At-more resolved b n e v = ground (arith, v.0)

At-woken :
    (d : Drain) (draining : Bool) (n : ℕ)
    → 1 ≤ n
    → n - 1 ≡ 0
    → At d draining n
    → At (wake d) draining (n - 1)
unfolding At wake
At-woken not_asked b n r z v = v
At-woken (admitting seen deadline quiet due) b n r z v = v
At-woken (waiting woken) b n r z v = (v.0, ground arith)
At-woken last_turn b n r z v = (v.0, omega (arith, v.1))
At-woken resolved b n r z v = (v.0, omega (arith, v.1))

At-kept : (d : Drain) (draining : Bool) (n : ℕ) → 1 < n → At d draining n → At d draining (n - 1)
unfolding At
At-kept not_asked b n r v = v
At-kept (admitting seen deadline quiet due) b n r v = v
At-kept (waiting woken) b n r v = (v.0, ground (arith, v.1))
At-kept last_turn b n r v = (v.0, omega (arith, v.1))
At-kept resolved b n r v = (v.0, omega (arith, v.1))

At-less :
    (d : Drain) (draining : Bool) (n : ℕ)
    → 1 ≤ n
    → At d draining n
    → At (if n - 1 == 0 then wake d else d) draining (n - 1)
At-less d b n r v = elim (Bool-cases (n - 1 == 0)) [
  | inl e ↦ rw e (At-woken d b n r (ground arith) v)
  | inr e ↦ rw e (At-kept d b n (ground arith) v)
]

begin-Valid : (s : Tracker) → s.draining ≡ false → Valid s → Valid (begin s)
unfolding begin Valid
begin-Valid s d v = At-more s.drain s.draining s.running d v

finish-Valid : (s : Tracker) → 1 ≤ s.running → Valid s → Valid (finish s)
unfolding finish Valid
finish-Valid s r v = At-less s.drain s.draining s.running r v

timer_fired-Valid :
    (now seen deadline quiet due : ℕ) (s : Tracker)
    → s.drain ≡ admitting seen deadline quiet due
    → Valid s
    → Valid (timer_fired now s)
unfolding timer_fired close Valid At
timer_fired-Valid now seen deadline quiet due s e v =
    let at : At (admitting seen deadline quiet due) s.draining s.running = rw e at v in
    elim (Bool-cases (s.running == 0 && s.started == seen)) [
      | inl f ↦ rw (e, f) (wait_idle-Valid (record s { draining = true }) refl)
      | inr f ↦ rw (e, f) (admit-Valid now deadline quiet s at.0)
    ]

woken_up-Valid : (s : Tracker) → s.drain ≡ waiting true → Valid s → Valid (woken_up s)
unfolding woken_up Valid At
woken_up-Valid s e v =
    let at : At (waiting true) s.draining s.running = rw e at v in rw e (wait_idle-Valid s at.0)

Step-Valid : (s t : Tracker) → Step s t → Valid s → Valid t
unfolding call_tool drain_asked immediate Valid At
Step-Valid s t (called _ _ e) v = elim (Bool-cases s.draining) [
  | inl d ↦ let no : none ≡ some t = ground arith in cc
  | inr d ↦ let same : begin s ≡ t = ground arith in subst Valid same (begin-Valid s d v)
]
Step-Valid s t (finished _ r) v = finish-Valid s r v
Step-Valid s t (asked now quiet admit_max _ e) v =
    let at : At not_asked s.draining s.running = rw e at v in
    admit-Valid now (now + admit_max) quiet (record s { announced = true }) at
Step-Valid s t (fired now seen deadline quiet due _ e _) v =
    timer_fired-Valid now seen deadline quiet due s e v
Step-Valid s t (resumed _ e) v = woken_up-Valid s e v
Step-Valid s t (turned _ e) v = let at : At last_turn s.draining s.running = rw e at v in at

Reachable-Valid : (s : Tracker) → Reachable s → Valid s
unfolding Valid At
Reachable-Valid s start = refl
Reachable-Valid s (next r _ h st) = Step-Valid r s st (Reachable-Valid r h)

-- When the drain has resolved, no call of a tool runs, and none is let in any more.
pub resolved_idle :
    (s : Tracker) → Reachable s → s.drain ≡ resolved → (s.running ≡ 0) × (call_tool s ≡ none)
unfolding Valid At call_tool
resolved_idle s h e =
    let at : At resolved s.draining s.running = rw e at (Reachable-Valid s h) in
    (at.1, ground (arith, at.0))

-- A round of the intake, when its timer fires: it is over, or the next timer is due later than
-- this one and by the deadline, which stays, for a quiet time that is not 0.
pub timer_fired-progress :
    (now seen deadline quiet due : ℕ) (s : Tracker)
    → Reachable s
    → s.drain ≡ admitting seen deadline quiet due
    → due ≤ now
    → 1 ≤ quiet
    → ((timer_fired now s).draining ≡ true)
      ⊎ ((later : ℕ) × ((timer_fired now s).drain ≡ admitting s.started deadline quiet later)
          × (due < later)
          × (later ≤ deadline))
unfolding timer_fired close admit wait_idle
timer_fired-progress now seen deadline quiet due s h e d q =
    elim (Bool-cases (s.running == 0 && s.started == seen)) [
      | inl f ↦ inl (rw (e, f) refl)
      | inr f ↦ elim (Bool-cases (ltb now deadline)) [
        | inl g ↦
            let left = deadline - now in
            inr (
              now + (if ltb left quiet then left else quiet),
              rw (e, f, g) refl,
              ground arith,
              ground arith,
            )
        | inr g ↦ inl (rw (e, f, g) refl)
      ]
    ]

-- As many calls as run end.
pub finish_all : ℕ → Tracker → Tracker
finish_all zero s = s
finish_all (suc n) s = finish_all n (finish s)

finish_all-wakes :
    (n : ℕ) (s : Tracker) (woken : Bool)
    → s.running ≡ n
    → s.drain ≡ waiting woken
    → Valid s
    → (woken_up (finish_all n s)).drain ≡ last_turn
unfolding finish_all finish wake woken_up wait_idle Valid At
finish_all-wakes zero s woken r e v =
    let at : At (waiting woken) s.draining s.running = rw e at v in
    let up : woken ≡ true = ground (arith, at.1) in rw (e, up, r) refl
finish_all-wakes (suc n) s woken r e v =
    let rest = finish-Valid s (omega (arith, r)) v in
    elim (Bool-cases (s.running - 1 == 0)) [
      | inl z ↦ finish_all-wakes n (finish s) true (omega (arith, r)) (rw (z, e) refl) rest
      | inr z ↦ finish_all-wakes n (finish s) woken (omega (arith, r)) (rw z e) rest
    ]

-- No wake-up is lost: a drain in its last loop goes on to its last turn when the calls that run
-- have ended.
pub finish_all-ends :
    (s : Tracker) (woken : Bool)
    → Reachable s
    → s.drain ≡ waiting woken
    → (woken_up (finish_all s.running s)).drain ≡ last_turn
finish_all-ends s woken h e = finish_all-wakes s.running s woken refl e (Reachable-Valid s h)

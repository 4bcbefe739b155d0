-- ===== src/Auth/Owner.antt =====
-- src/auth/owner.ts: the owner's secret, with a lockout. `matches` is the comparison of the two
-- SHA-256 digests; times are milliseconds, in the order in which `verify` reads them.
mod Tests
use brainstem_mcp.Prelude.{
  All, All-append, Bool, List, [], ap, arith, false, filter, if◌then◌else◌, leb, length,
  length-append, ltb, map, refl, true, ℕ, ◌*◌, ◌++◌, ◌+◌, ◌-◌, ◌/◌, ◌<◌, ◌↔◌, ◌∙◌, ◌∷◌, ◌≡◌, ◌≤◌,
}

pub record Options : Type 0 where
  pub max_attempts : ℕ
  pub window_ms : ℕ
  pub lockout_ms : ℕ

abbrev pub default_options : Options
default_options = record { max_attempts = 5; window_ms = 60000; lockout_ms = 15 * 60000 }

pub record OwnerAuth : Type 0 where
  pub failures : List ℕ
  pub locked_until : ℕ

abbrev pub new_owner : OwnerAuth
new_owner = record { failures = []; locked_until = 0 }

pub data Verdict : Type 0 where
  granted : Verdict
  invalid : Verdict
  locked : ℕ → Verdict

-- `Math.ceil(ms / 1000)`
unfoldable pub ceil_s : ℕ → ℕ
ceil_s ms = (ms + 999) / 1000

unfoldable pub is_locked : OwnerAuth → ℕ → Bool
is_locked s now = ltb now s.locked_until

-- `failures.filter((f) => t - f < windowMs)`, where t - f may be negative.
unfoldable pub recent : ℕ → ℕ → List ℕ → List ℕ
recent window t = filter (λ f. ltb t (f + window))

unfoldable pub verify : Options → OwnerAuth → ℕ → Bool → OwnerAuth × Verdict
unfolding ceil_s recent is_locked
verify o s t matches =
    if is_locked s t
    then (s, locked (ceil_s (s.locked_until - t)))
    else if matches
    then (record s { failures = [] }, granted)
    else (let failures = recent o.window_ms t s.failures ++ t ∷ [] in
        if leb o.max_attempts (length failures)
        then (
          record { failures = []; locked_until = t + o.lockout_ms },
          locked (ceil_s o.lockout_ms),
        )
        else (record s { failures = failures }, invalid))

-- The failures that are held are fewer than a lockout takes.
pub record IsValid (o : Options) (s : OwnerAuth) : Type 0 where
  pub room : length s.failures < o.max_attempts

-- A run of attempts: the time of each, and whether its secret is right.
unfoldable pub attempts : Options → OwnerAuth → List (ℕ × Bool) → OwnerAuth
attempts o s [] = s
attempts o s ((t, m) ∷ rest) = attempts o (verify o s t m).0 rest

-- Every attempt keeps fewer failures than `maxAttempts`, if one attempt alone is allowed.
pub verify-IsValid :
    (o : Options) (s : OwnerAuth) (t : ℕ) (m : Bool)
    → 0 < o.max_attempts
    → IsValid o s
    → IsValid o (verify o s t m).0
unfolding verify
verify-IsValid o s t m h v = ground arith

verify_locked :
    (o : Options) (s : OwnerAuth) (t : ℕ) (m : Bool)
    → t < s.locked_until
    → verify o s t m ≡ (s, locked (ceil_s (s.locked_until - t)))
unfolding verify
verify_locked o s t m h = ground arith

-- While the lock lasts no attempt is granted and the lock does not move, whatever is tried.
locked_out :
    (o : Options) (s : OwnerAuth) (tries : List (ℕ × Bool)) (t : ℕ) (m : Bool)
    → All (λ a. a.0 < s.locked_until) tries
    → t < s.locked_until
    → (attempts o s tries ≡ s) × ((verify o s t m).1 ≡ locked (ceil_s (s.locked_until - t)))
unfolding attempts
locked_out o s [] t m a h = (refl, ap (λ r. r.1) (verify_locked o s t m h))
locked_out o s ((u, n) ∷ tries) t m a h =
    rw (verify_locked o s u n a.0) (locked_out o s tries t m a.1 h)

filter-All : (p : ℕ → Bool) (xs : List ℕ) → All (λ x. p x ≡ true) xs → filter p xs ≡ xs
filter-All p [] h = refl
filter-All p (x ∷ xs) h = rw h.0 (ap (◌∷◌ x) (filter-All p xs h.1))

still_recent :
    (t0 t window : ℕ) (fs : List ℕ)
    → All (λ f. t0 ≤ f) fs
    → t < t0 + window
    → recent window t fs ≡ fs
unfolding recent
still_recent t0 t window fs h lt = filter-All (λ f. ltb t (f + window)) fs (within fs h)
  where
    within : (gs : List ℕ) → All (λ f. t0 ≤ f) gs → All (λ f. ltb t (f + window) ≡ true) gs
    within [] a = tt
    within (g ∷ gs) a = (ground arith, within gs a.1)

verify_wrong :
    (o : Options) (s : OwnerAuth) (t : ℕ)
    → s.locked_until ≤ t
    → length (recent o.window_ms t s.failures) + 1 < o.max_attempts
    → verify o s t false
      ≡ (record s { failures = recent o.window_ms t s.failures ++ t ∷ [] }, invalid)
unfolding verify
verify_wrong o s t u h = ground (arith, length-append (recent o.window_ms t s.failures) (t ∷ []))

verify_last :
    (o : Options) (s : OwnerAuth) (t : ℕ)
    → s.locked_until ≤ t
    → o.max_attempts ≤ length (recent o.window_ms t s.failures) + 1
    → verify o s t false
      ≡ (record { failures = []; locked_until = t + o.lockout_ms }, locked (ceil_s o.lockout_ms))
unfolding verify
verify_last o s t u h = ground (arith, length-append (recent o.window_ms t s.failures) (t ∷ []))

abbrev pub wrong : List ℕ → List (ℕ × Bool)
wrong = map (λ t. (t, false))

-- The attempts at a wrong secret that fill up the allowance inside one window lock the owner out:
-- the last of them starts a lock of `lockoutMs`, whatever their order in the window.
pub wrong-attempts_lock :
    (o : Options) (s : OwnerAuth) (t0 t : ℕ) (ts : List ℕ)
    → s.locked_until ≤ t0
    → All (λ f. t0 ≤ f) s.failures
    → All (λ u. (t0 ≤ u) × (u < t0 + o.window_ms)) (t ∷ ts)
    → length s.failures + length ts + 1 ≡ o.max_attempts
    → verify o (attempts o s (wrong ts)) t false
      ≡ (record { failures = []; locked_until = t + o.lockout_ms }, locked (ceil_s o.lockout_ms))
unfolding attempts
wrong-attempts_lock o s t0 t [] unlocked old win n =
    let same = still_recent t0 t o.window_ms s.failures old win.0.1 in
    verify_last o s t (omega arith) (rw same (omega arith))
wrong-attempts_lock o s t0 t (u ∷ ts) unlocked old win n =
    let same = still_recent t0 u o.window_ms s.failures old win.1.0.1 in
    let next : verify o s u false ≡ (record s { failures = s.failures ++ u ∷ [] }, invalid) =
      rw same at (verify_wrong o s u (omega arith) (rw same (omega arith))) in
    ap (λ (r : OwnerAuth × Verdict). verify o (attempts o r.0 (wrong ts)) t false) next
    ∙ wrong-attempts_lock o (record s { failures = s.failures ++ u ∷ [] }) t0 t ts unlocked
        (All-append _ s.failures (u ∷ []) old (win.1.0.0, tt)) (win.0, win.1.1)
        (omega (arith, length-append s.failures (u ∷ [])))

-- A grant means exactly that no lock was running and that the secret was right.
granted_iff :
    (o : Options) (s : OwnerAuth) (t : ℕ) (m : Bool)
    → ((verify o s t m).1 ≡ granted) ↔ ((s.locked_until ≤ t) × (m ≡ true))
unfolding verify
granted_iff o s t m = ground arith

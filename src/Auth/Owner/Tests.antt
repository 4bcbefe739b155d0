-- ===== src/Auth/Owner/Tests.antt =====
-- src/auth/owner.ts on concrete attempts.
use brainstem_mcp.Auth.Owner.{
  IsValid, OwnerAuth, attempts, ceil_s, default_options, locked, new_owner, verify, verify-IsValid,
  wrong, wrong-attempts_lock,
}
use brainstem_mcp.Prelude.{[], arith, false, refl, ◌+◌, ◌∷◌, ◌≡◌}

abbrev locked_owner : OwnerAuth
locked_owner = record { failures = []; locked_until = 901000 }

verify-IsValid_example : IsValid default_options (verify default_options new_owner 1000 false).0
verify-IsValid_example =
    verify-IsValid default_options new_owner 1000 false (omega arith)
      (record { room = omega arith })

wrong-attempts_lock_example :
    verify default_options
      (attempts default_options new_owner (wrong (1000 ∷ 2000 ∷ 3000 ∷ 4000 ∷ [])))
      5000
      false
    ≡ (record { failures = []; locked_until = 5000 + 900000 }, locked (ceil_s 900000))
wrong-attempts_lock_example =
    wrong-attempts_lock default_options new_owner 1000 5000 (1000 ∷ 2000 ∷ 3000 ∷ 4000 ∷ [])
      (omega arith) tt
      (
        (omega arith, omega arith),
        (
          (omega arith, omega arith),
          (
            (omega arith, omega arith),
            ((omega arith, omega arith), ((omega arith, omega arith), tt)),
          ),
        ),
      )
      refl

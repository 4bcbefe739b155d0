-- ===== src/Storage/Types.antt =====
-- The error codes of src/storage/types.ts, and the result of code that may throw a VaultError.
-- The message of an error is not modelled; its code is.
use brainstem_mcp.Prelude.{Bool, false, refl, true, ◌≡◌}

pub data ErrorCode : Type 0 where
  invalid_path not_found already_exists too_large confirm_required invalid_input encoding
        unsupported io conflict :
      ErrorCode

-- What such code gives: a value, or the code of the error that it throws.
pub data Result {ℓ} (V : Type ℓ) : Type ℓ where
  err : ErrorCode → Result V
  ok : V → Result V

infixl 5 ◌>>=◌ ◌>>◌
abbrev pub ◌>>=◌ {κ ℓ} : {U : Type κ} {V : Type ℓ} → Result U → (U → Result V) → Result V
err code >>= next = err code
ok u >>= next = next u

-- Throws when the test holds.
abbrev pub reject_if : Bool → ErrorCode → Result (Unit {0})
reject_if false code = ok tt
reject_if true code = err code

abbrev pub ◌>>◌ {ℓ} : {V : Type ℓ} → Result (Unit {0}) → Result V → Result V
check >> rest = check >>= λ _. rest

-- Code that returns has returned from its first step.
pub >>=-eq-ok {κ ℓ} :
    {U : Type κ} {V : Type ℓ} (step : Result U) (next : U → Result V) {v : V}
    → (step >>= next) ≡ ok v
    → (u : U) × (step ≡ ok u) × (next u ≡ ok v)
>>=-eq-ok (err code) next returned = cc
>>=-eq-ok (ok u) next returned = (u, refl, returned)

pub reject_if-eq-ok {ℓ} :
    {B : Type ℓ} (t : Bool) (e : ErrorCode) (k : Result B) {b : B}
    → (reject_if t e >> k) ≡ ok b
    → (t ≡ false) × (k ≡ ok b)
reject_if-eq-ok true e k h = cc
reject_if-eq-ok false e k h = (refl, h)

-- What holds of the value, if the code returns one.
abbrev pub Ensures {ℓ κ} : {A : Type ℓ} → (A → Type κ) → Result A → Type κ
Ensures P (ok a) = P a
Ensures P (err _) = Unit

pub Ensures-bind {ℓ κ ν} :
    {A : Type ℓ} {B : Type κ} (P : A → Type ν) (Q : B → Type ν) (m : Result A) (f : A → Result B)
    → Ensures P m
    → ((a : A) → P a → Ensures Q (f a))
    → Ensures Q (m >>= f)
Ensures-bind P Q (ok a) f h k = k a h
Ensures-bind P Q (err e) f h k = tt

-- What follows a test may use that it did not hold.
pub Ensures-reject_if {ℓ ν} :
    {B : Type ℓ} (Q : B → Type ν) (t : Bool) (e : ErrorCode) (k : Result B)
    → (t ≡ false → Ensures Q k)
    → Ensures Q (reject_if t e >> k)
Ensures-reject_if Q true e k h = tt
Ensures-reject_if Q false e k h = h refl

pub Ensures-eq {ℓ κ} :
    {A : Type ℓ} (P : A → Type κ) (m : Result A) (a : A) → m ≡ ok a → Ensures P m → P a
Ensures-eq P m a e h = rw e at h

pub Ensures-any {ℓ} : {A : Type ℓ} (m : Result A) → Ensures (λ _. Unit {0}) m
Ensures-any (ok a) = tt
Ensures-any (err e) = tt

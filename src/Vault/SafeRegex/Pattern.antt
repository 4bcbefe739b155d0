-- ===== src/Vault/SafeRegex/Pattern.antt =====
-- src/vault/safe-regex.ts: what a parser comes to, and what is left of a pattern.
pub mod Classes
pub mod Quantifiers
use brainstem_mcp.Prelude.{Bool, List, [], any, false, ℕ, ◌==◌, ◌∷◌}

-- What a parser comes to: every refusal is INVALID_INPUT.
pub data Parse {ℓ} (A : Type ℓ) : Type ℓ where
  parsed : A → Parse A
  invalid out_of_fuel : Parse A

infixl 5 ◌>>=◌
abbrev pub ◌>>=◌ {κ ℓ} : {A : Type κ} {B : Type ℓ} → Parse A → (A → Parse B) → Parse B
parsed a >>= next = next a
invalid >>= next = invalid
out_of_fuel >>= next = out_of_fuel

abbrev pub Source : Type 0
Source = List ℕ

-- `peek() === c`
abbrev pub starts : ℕ → Source → Bool
starts c [] = false
starts c (a ∷ s) = a == c

abbrev pub starts_any : List ℕ → Source → Bool
starts_any cs [] = false
starts_any cs (a ∷ s) = any (λ c. a == c) cs

abbrev pub rest_of : Source → Source
rest_of [] = []
rest_of (c ∷ s) = s

abbrev pub backslash : ℕ
backslash = 92

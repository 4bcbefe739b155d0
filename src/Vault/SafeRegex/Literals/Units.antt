-- ===== src/Vault/SafeRegex/Literals/Units.antt =====
-- src/vault/safe-regex.ts: the characters of a text give back its code units.
use brainstem_mcp.Prelude.{
  All, Bool-cases, Text, [], ap, ap₂, arith, false, inl, inr, ltb, refl, true, ℕ, ◌%◌, ◌&&◌, ◌*◌,
  ◌++◌, ◌+◌, ◌-◌, ◌/◌, ◌<◌, ◌∷◌, ◌≡◌, ◌≤◌,
}
use brainstem_mcp.Vault.SafeRegex.Literals.{char_text}
use brainstem_mcp.Vault.SafeRegex.Literals.Held.{units}
use brainstem_mcp.Vault.SafeRegex.Matcher.{code_points, high_surrogate, low_surrogate}

pair_units :
    (h l : ℕ)
    → 0xd800 ≤ h
    → h ≤ 0xdbff
    → 0xdc00 ≤ l
    → l ≤ 0xdfff
    → char_text (0x10000 + (h - 0xd800) * 0x400 + (l - 0xdc00)) ≡ h ∷ l ∷ []
unfolding char_text
pair_units h l a b c d =
    let p = 0x10000 + (h - 0xd800) * 0x400 + (l - 0xdc00) in
    let upper : 0xd800 + (p - 0x10000) / 0x400 ≡ h = omega (arith, a, b, c, d) in
    let lower : 0xdc00 + (p - 0x10000) % 0x400 ≡ l = omega (arith, a, b, c, d) in
    let past : ltb p 0x10000 ≡ false = ground arith in rw (past, upper, lower) refl

single_units : (h : ℕ) → h < 0x10000 → char_text h ≡ h ∷ []
unfolding char_text
single_units h b = let within : ltb h 0x10000 ≡ true = ground arith in rw within refl

-- A text of 16-bit code units is given back.
pub units-code_points : (s : Text) → All (λ u. u < 0x10000) s → units (code_points s) ≡ s
unfolding units code_points
units-code_points [] b = refl
units-code_points (u ∷ []) (b, _) = ap (λ t. t ++ []) (single_units u b)
units-code_points (h ∷ l ∷ s) (b, k) = elim (Bool-cases (high_surrogate h && low_surrogate l)) [
  | inl e ↦
      let a1 : 0xd800 ≤ h = ground arith in
      let a2 : h ≤ 0xdbff = ground arith in
      let a3 : 0xdc00 ≤ l = ground arith in
      let a4 : l ≤ 0xdfff = ground arith in
      rw e (ap₂ ◌++◌ (pair_units h l a1 a2 a3 a4) (units-code_points s k.1))
  | inr e ↦ rw e (ap₂ ◌++◌ (single_units h b) (units-code_points (l ∷ s) k))
]

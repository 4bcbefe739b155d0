-- ===== src/Prelude/Pieces.antt =====
-- Splitting and joining text by one character.
use Prim.Native.Nat.{ℕ}
use brainstem_mcp.Prelude.Lists.{All}
use brainstem_mcp.Prelude.Strings.{Avoids, Text, extend, join, split}
use brainstem_mcp.Prelude.Tests.{Bool-cases, ◌==◌}
use mathlib.Core.Bool.{false}
use mathlib.Core.List.{List, [], ◌++◌, ◌∷◌}
use mathlib.Core.Logic.{inl, inr}
use mathlib.Core.Path.{ap, refl, ◌∙◌, ◌≡◌}
use native.Mathlib.Omega.{arith}

extend-All :
    (sep c : ℕ) (ps : List Text)
    → (c == sep) ≡ false
    → All (Avoids sep) ps
    → All (Avoids sep) (extend c ps)
extend-All sep c [] h a = (ground arith, tt)
extend-All sep c (p ∷ ps) h a = (ground (arith, a.0), a.1)

-- No piece of a split holds the separator.
pub split-Avoids : (sep : ℕ) (s : Text) → All (Avoids sep) (split sep s)
split-Avoids sep [] = (refl, tt)
split-Avoids sep (c ∷ s) = elim (Bool-cases (c == sep)) [
  | inl same ↦ rw same (refl, split-Avoids sep s)
  | inr other ↦ rw other (extend-All sep c (split sep s) other (split-Avoids sep s))
]

-- A text with no separator is one piece.
pub split_of_Avoids : (sep : ℕ) (s : Text) → Avoids sep s → split sep s ≡ s ∷ []
split_of_Avoids sep [] h = refl
split_of_Avoids sep (c ∷ s) h = ground (arith, split_of_Avoids sep s)

-- A piece with no separator, the separator, and more.
pub split-append :
    (sep : ℕ) (p s : Text) → Avoids sep p → split sep (p ++ (sep ∷ s)) ≡ p ∷ split sep s
split-append sep [] s h = ground arith
split-append sep (c ∷ p) s h = ground (arith, split-append sep p s)

-- Splitting what was joined gives the pieces back.
pub split-join :
    (sep : ℕ) (p : Text) (ps : List Text)
    → All (Avoids sep) (p ∷ ps)
    → split sep (join sep (p ∷ ps)) ≡ p ∷ ps
split-join sep p [] h = split_of_Avoids sep p h.0
split-join sep p (q ∷ ps) h =
    split-append sep p (join sep (q ∷ ps)) h.0 ∙ ap (◌∷◌ p) (split-join sep q ps h.1)

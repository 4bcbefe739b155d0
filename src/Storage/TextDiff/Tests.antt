-- ===== src/Storage/TextDiff/Tests.antt =====
-- src/storage/text-diff.ts on concrete patches.
use brainstem_mcp.Prelude.{[], codes, refl, ◌++◌, ◌∷◌, ◌≡◌}
use brainstem_mcp.Storage.TextDiff.{TextPatch, apply_patch, apply_text_patches}
use brainstem_mcp.Storage.TextDiff.Laws.{apply_patch-replaces}
use brainstem_mcp.Storage.Types.{err, invalid_input, ok}

abbrev patch : TextPatch
patch = record { find = codes "b"; replace = codes "xyz" }

apply_patch-replaces_example : codes "axyzc" ≡ codes "a" ++ (patch.replace ++ codes "c")
unfolding apply_patch
apply_patch-replaces_example =
    apply_patch-replaces (codes "abc") (codes "axyzc") (codes "a") (codes "c") patch refl refl

-- An ambiguous text, overlaps included, and an absent one are refused.
refusals :
    (apply_text_patches (codes "aba b") (patch ∷ []) ≡ err invalid_input)
    × (apply_text_patches (codes "aaa") (record { find = codes "aa"; replace = [] } ∷ [])
        ≡ err invalid_input)
    × (apply_text_patches (codes "ac") (patch ∷ []) ≡ err invalid_input)
    × (apply_text_patches (codes "ac") [] ≡ err invalid_input)
    × (apply_text_patches (codes "abc") (patch ∷ record { find = codes "yz"; replace = [] } ∷ [])
        ≡ ok (codes "axc", 2))
unfolding apply_text_patches
refusals = (refl, refl, refl, refl, refl)

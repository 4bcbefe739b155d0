-- ===== src/Storage/TextDiff.antt =====
-- src/storage/text-diff.ts: patches that must find their text exactly once.
pub mod Laws
mod Tests
use brainstem_mcp.Prelude.{
  List, Text, [], drop, if◌then◌else◌, is_empty, length, not, starts_with, ℕ, ◌++◌, ◌+◌, ◌==◌, ◌∷◌,
}
use brainstem_mcp.Storage.Types.{Result, invalid_input, ok, reject_if, ◌>>=◌, ◌>>◌}

pub record TextPatch : Type 0 where
  pub find : Text
  pub replace : Text

-- The number of positions of a text at which another text starts, overlaps included: the loop of
-- `indexOf(needle, idx + 1)`.
unfoldable pub count_occurrences : Text → Text → ℕ
count_occurrences needle [] = if is_empty needle then 1 else 0
count_occurrences needle (c ∷ s) =
    (if starts_with (c ∷ s) needle then 1 else 0) + count_occurrences needle s

-- `current.replace(find, () => replace)`: the first occurrence.
unfoldable pub replace_first : Text → Text → Text → Text
replace_first needle by [] = if is_empty needle then by else []
replace_first needle by (c ∷ s) =
    let later = c ∷ replace_first needle by s in
    if starts_with (c ∷ s) needle then by ++ drop (length needle) (c ∷ s) else later

unfoldable pub apply_patch : Text → TextPatch → Result Text
unfolding count_occurrences replace_first
apply_patch current patch = do
  reject_if (is_empty patch.find) invalid_input
  reject_if (not (count_occurrences patch.find current == 1)) invalid_input
  ok (replace_first patch.find patch.replace current)

apply_each : Text → List TextPatch → Result Text
unfolding apply_patch
apply_each current [] = ok current
apply_each current (patch ∷ patches) = do next ← apply_patch current patch; apply_each next patches

-- The new content and the number of patches.
unfoldable pub apply_text_patches : Text → List TextPatch → Result (Text × ℕ)
unfolding apply_each
apply_text_patches content patches = do
  reject_if (is_empty patches) invalid_input
  current ← apply_each content patches
  ok (current, length patches)

-- ===== src/Storage/PathPolicy/Tests.antt =====
-- path-policy.ts on concrete paths.
use brainstem_mcp.Prelude.{Text, [], codes, false, refl, some, true, ◌≡◌}
use brainstem_mcp.Storage.PathPolicy.{base_name, normalize_vault_path, parent_dir}
use brainstem_mcp.Storage.PathPolicy.Safe.{IsContained, normalize_vault_path-IsContained}
use brainstem_mcp.Storage.Types.{err, invalid_path, ok}

abbrev same : Text → Text
same s = s

paths :
    (normalize_vault_path same false (some (codes " notes//a\\./b.md "))
      ≡ ok (codes "notes/a/b.md"))
    × (normalize_vault_path same false (some (codes "a/../b")) ≡ err invalid_path)
    × (normalize_vault_path same false (some (codes "/etc/passwd")) ≡ err invalid_path)
    × (normalize_vault_path same false (some (codes "/")) ≡ ok [])
    × (normalize_vault_path same false (some (codes "C:/x")) ≡ err invalid_path)
    × (normalize_vault_path same false (some (codes "http://x")) ≡ err invalid_path)
    × (normalize_vault_path same false (some (codes "_brainstem/x")) ≡ err invalid_path)
    × (normalize_vault_path same true (some (codes ".trash/x")) ≡ ok (codes ".trash/x"))
    × (normalize_vault_path same false (some (codes "a/.hidden")) ≡ err invalid_path)
    × (normalize_vault_path same false (some (codes "./ a")) ≡ ok (codes " a"))
    × (normalize_vault_path same false (some (codes " a")) ≡ ok (codes "a"))
unfolding normalize_vault_path
paths = (refl, refl, refl, refl, refl, refl, refl, refl, refl, refl, refl)

pieces :
    (base_name (codes "a/b/c.md") ≡ codes "c.md")
    × (parent_dir (codes "a/b/c.md") ≡ codes "a/b")
    × (base_name (codes "c.md") ≡ codes "c.md")
    × (parent_dir (codes "c.md") ≡ codes "")
    × (base_name (codes "x/") ≡ codes "")
unfolding base_name parent_dir
pieces = (refl, refl, refl, refl, refl)

normalize_vault_path-IsContained_example : IsContained (codes "notes/b.md")
unfolding normalize_vault_path
normalize_vault_path-IsContained_example =
    normalize_vault_path-IsContained same (some (codes " notes//.\\b.md ")) (codes "notes/b.md")
      refl

-- ===== src/Vault/Canvas/Tests.antt =====
-- src/vault/canvas.ts on a concrete board.
use brainstem_mcp.Prelude.{Bool, List, Text, [], codes, none, refl, some, true, ℕ, ◌∷◌, ◌≡◌}
use brainstem_mcp.Prelude.Dict.{get}
use brainstem_mcp.Prelude.Sort.{member}
use brainstem_mcp.Storage.Types.{err, invalid_input}
use brainstem_mcp.Vault.Canvas.{
  Canvas, Edge, Kind, Node, add_edge, file, remove_nodes_and_edges, rewrite_file_nodes, text,
  update_node,
}
use brainstem_mcp.Vault.Canvas.Laws.{Step-IsWellFormed, removed}
use brainstem_mcp.Vault.Canvas.WellFormed.{IsWellFormed}

abbrev plain : Text → Text
plain s = s

abbrev any_fields : Kind → List (Text × ℕ) → Bool
any_fields k fs = true

abbrev any_edge : List (Text × ℕ) → Bool
any_edge fs = true

abbrev note : Node ℕ
note = record { id = codes "n"; kind = file (codes "a.md"); fields = [] }

abbrev label : Node ℕ
label = record { id = codes "l"; kind = text; fields = [] }

abbrev arrow : Edge ℕ
arrow = record { id = codes "e"; from_node = codes "n"; to_node = codes "l"; fields = [] }

abbrev board : Canvas ℕ
board = record { nodes = note ∷ label ∷ []; edges = arrow ∷ [] }

board-IsWellFormed : IsWellFormed board
unfolding member
board-IsWellFormed = record {
  unique_nodes = (refl, (refl, tt));
  unique_edges = (refl, tt);
  ends_exist = (refl, tt);
}

Step-IsWellFormed_example : IsWellFormed (remove_nodes_and_edges board (codes "n" ∷ []) []).canvas
Step-IsWellFormed_example =
    Step-IsWellFormed plain plain any_fields any_edge board
      (remove_nodes_and_edges board (codes "n" ∷ []) []).canvas (removed board (codes "n" ∷ []) [])
      board-IsWellFormed

operations :
    ((remove_nodes_and_edges board (codes "n" ∷ codes "q" ∷ []) []).removed_edges ≡ codes "e" ∷ [])
    × ((remove_nodes_and_edges board (codes "n" ∷ codes "q" ∷ []) []).missing ≡ codes "q" ∷ [])
    × (add_edge any_edge board
          (record { id = none; from_node = codes "n"; to_node = codes "q"; fields = [] })
          (codes "z")
        ≡ err invalid_input)
    × (update_node plain any_fields board
          (codes "l")
          (record { file = some (codes "b.md"); rest = [] })
        ≡ err invalid_input)
    × ((rewrite_file_nodes plain ((codes "a.md", codes "b.md") ∷ []) board).1 ≡ 1)
unfolding remove_nodes_and_edges add_edge update_node rewrite_file_nodes member get
operations = (refl, refl, refl, refl, refl)

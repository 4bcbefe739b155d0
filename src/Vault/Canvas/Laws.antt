-- ===== src/Vault/Canvas/Laws.antt =====
-- src/vault/canvas.ts: a board stays well-formed.
use brainstem_mcp.Prelude.{
  Bool, List, Option-cases, Text, [], any, arith, inl, inr, not, refl, true, ◌&&◌, ◌∷◌, ◌≡◌,
}
use brainstem_mcp.Prelude.Sort.{member}
use brainstem_mcp.Storage.Types.{
  Ensures, Ensures-any, Ensures-bind, Ensures-eq, Ensures-reject_if, Result, ok,
}
use brainstem_mcp.Vault.Canvas.{
  Canvas, Edge, EdgeInput, Kind, Node, NodeInput, NodePatch, add_edge, add_node, edge_ids,
  find_node, is_foreign, node_ids, normal_kind, patch_keys, patch_node, patched_kind,
  remove_nodes_and_edges, rewrite_file_nodes, spread, update_node, without_ids,
}
use brainstem_mcp.Vault.Canvas.Removing.{removed-IsWellFormed}
use brainstem_mcp.Vault.Canvas.WellFormed.{
  IsWellFormed, edge_added-IsWellFormed, find_node-id, node_added-IsWellFormed, replaced-ids,
  rewritten-IsWellFormed, same_ids-IsWellFormed,
}

-- One operation on a board that returns.
pub data Step {V : Type 0} (nfc lower : Text → Text) (validate : Kind → List (Text × V) → Bool)
    (validate_edge : List (Text × V) → Bool) : Canvas V → Canvas V → Type 0 where
  node_added :
      (c d : Canvas V) (i : NodeInput V) (new_id : Text) (n : Node V)
      → add_node nfc validate c i new_id ≡ ok (d, n)
      → Step nfc lower validate validate_edge c d
  node_updated :
      (c d : Canvas V) (id : Text) (p : NodePatch V) (n : Node V)
      → update_node nfc validate c id p ≡ ok (d, n)
      → Step nfc lower validate validate_edge c d
  edge_added :
      (c d : Canvas V) (i : EdgeInput V) (new_id : Text) (e : Edge V)
      → add_edge validate_edge c i new_id ≡ ok (d, e)
      → Step nfc lower validate validate_edge c d
  files_rewritten :
      (c : Canvas V) (m : List (Text × Text))
      → Step nfc lower validate validate_edge c (rewrite_file_nodes lower m c).0
  removed :
      (c : Canvas V) (ns es : List Text)
      → Step nfc lower validate validate_edge c (remove_nodes_and_edges c ns es).canvas

module _ {V : Type 0} (nfc lower : Text → Text) (validate : Kind → List (Text × V) → Bool)
    (validate_edge : List (Text × V) → Bool) where
  abbrev Fine : {A : Type 0} → Result (Canvas V × A) → Type 0
  Fine = Ensures λ r. IsWellFormed r.0

  add_node-Fine :
      (c : Canvas V) (i : NodeInput V) (new_id : Text)
      → IsWellFormed c
      → Fine (add_node nfc validate c i new_id)
  unfolding add_node
  add_node-Fine c i new_id h = Ensures-reject_if _ (not (validate i.kind i.fields)) _ _ λ _.
      Ensures-reject_if _ (member _ (node_ids c)) _ _ λ m.
        Ensures-bind (λ _. Unit {0}) _ (normal_kind nfc validate i.kind) _ (Ensures-any _)
          λ k _. node_added-IsWellFormed c _ m h

  patch_node-Fine :
      (c : Canvas V) (id : Text) (p : NodePatch V) (n : Node V)
      → n.id ≡ id
      → IsWellFormed c
      → Fine (patch_node nfc validate c id p n)
  unfolding patch_node
  patch_node-Fine c id p n same h =
      Ensures-reject_if _
        (any (is_foreign n.kind) (patch_keys nfc validate (without_ids nfc validate p))) _ _
        λ _.
          Ensures-bind (λ _. Unit {0}) _ (patched_kind nfc validate n.kind p.file) _ (Ensures-any _)
            λ k _.
              Ensures-reject_if _
                (not (validate k (spread n.fields (without_ids nfc validate p).rest))) _ _
                λ _. same_ids-IsWellFormed c _ (replaced-ids id _ c.nodes same) refl h

  update_node-Fine :
      (c : Canvas V) (id : Text) (p : NodePatch V)
      → IsWellFormed c
      → Fine (update_node nfc validate c id p)
  unfolding update_node
  update_node-Fine c id p h = elim (Option-cases (find_node id c.nodes)) [
    | inl e ↦ rw (e, update_node) tt
    | inr (n, e) ↦ rw (e, update_node) (patch_node-Fine c id p n (find_node-id id c.nodes n e) h)
  ]

  add_edge-Fine :
      (c : Canvas V) (i : EdgeInput V) (new_id : Text)
      → IsWellFormed c
      → Fine (add_edge validate_edge c i new_id)
  unfolding add_edge
  add_edge-Fine c i new_id h = Ensures-reject_if _ (not (validate_edge i.fields)) _ _ λ _.
      Ensures-reject_if _
        (any (λ (p : Text). not (member p (node_ids c))) (i.from_node ∷ i.to_node ∷ [])) _ _
        λ ends. Ensures-reject_if _ (member _ (edge_ids c)) _ _ λ m.
          let both : (member i.from_node (node_ids c) && member i.to_node (node_ids c)) ≡ true =
            ground arith in
          edge_added-IsWellFormed c _ m both h

  -- An operation that returns leaves a well-formed board well-formed.
  pub Step-IsWellFormed :
      (c d : Canvas V) → Step nfc lower validate validate_edge c d → IsWellFormed c → IsWellFormed d
  Step-IsWellFormed c d (node_added _ _ i new_id n e) h =
      Ensures-eq (λ r. IsWellFormed r.0) _ _ e (add_node-Fine c i new_id h)
  Step-IsWellFormed c d (node_updated _ _ id p n e) h =
      Ensures-eq (λ r. IsWellFormed r.0) _ _ e (update_node-Fine c id p h)
  Step-IsWellFormed c d (edge_added _ _ i new_id n e) h =
      Ensures-eq (λ r. IsWellFormed r.0) _ _ e (add_edge-Fine c i new_id h)
  Step-IsWellFormed c d (files_rewritten _ m) h = rewritten-IsWellFormed lower m c h
  Step-IsWellFormed c d (removed _ ns es) h = removed-IsWellFormed c ns es h

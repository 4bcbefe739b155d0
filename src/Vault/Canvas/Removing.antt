-- ===== src/Vault/Canvas/Removing.antt =====
-- src/vault/canvas.ts: removing nodes leaves a well-formed board.
use brainstem_mcp.Prelude.{
  All, Bool-cases, List, Text, [], ap, arith, false, filter, inl, inr, map, not, sym, text_eq,
  text_eq-eq, true, ◌&&◌, ◌∙◌, ◌∷◌, ◌≡◌,
}
use brainstem_mcp.Prelude.Sort.{NoDup-filter, member}
use brainstem_mcp.Vault.Canvas.{Canvas, Edge, Node, goes, node_ids, remove_nodes_and_edges}
use brainstem_mcp.Vault.Canvas.WellFormed.{IsWellFormed}

module _ {V : Type 0} where
  -- A node that is not listed stays.
  kept_node :
      (p : Text) (gone : List Text) (ns : List (Node V))
      → member p gone ≡ false
      → member p (map (λ (n : Node V). n.id) ns) ≡ true
      → member p (map (λ (n : Node V). n.id) (filter (λ (n : Node V). not (member n.id gone)) ns))
        ≡ true
  unfolding member
  kept_node p gone [] out h = h
  kept_node p gone (n ∷ ns) out h = elim (Bool-cases (member n.id gone)) [
    | inl e ↦ rw e (
        kept_node p gone ns out (elim (Bool-cases (text_eq n.id p)) [
          | inl same ↦
              let no : true ≡ false =
                sym e ∙ (ap (λ q. member q gone) (text_eq-eq n.id p same) ∙ out) in
              cc
          | inr other ↦ rw other at h
        ]))
    | inr e ↦ rw e (ground (arith, kept_node p gone ns out))
  ]

  goes-false :
      (ns es : List Text) (e : Edge V)
      → goes ns es e ≡ false
      → (member e.from_node ns ≡ false) × (member e.to_node ns ≡ false)
  unfolding goes
  goes-false ns es e g = ground arith

  pub removed-IsWellFormed :
      (c : Canvas V) (ns es : List Text)
      → IsWellFormed c
      → IsWellFormed (remove_nodes_and_edges c ns es).canvas
  unfolding remove_nodes_and_edges
  removed-IsWellFormed c ns es h = record {
    unique_nodes =
        NoDup-filter (λ (n : Node V). n.id) (λ (n : Node V). not (member n.id ns)) c.nodes
          h.unique_nodes;
    unique_edges =
        NoDup-filter (λ (e : Edge V). e.id) (λ e. not (goes ns es e)) c.edges h.unique_edges;
    ends_exist = left c.edges h.ends_exist;
  }
    where
      left :
          (edges : List (Edge V))
          → All
              (λ (e : Edge V).
                (member e.from_node (node_ids c) && member e.to_node (node_ids c)) ≡ true)
              edges
          → All
              (λ (e : Edge V).
                (member e.from_node (
                    map
                      (λ (n : Node V). n.id)
                      (filter (λ (n : Node V). not (member n.id ns)) c.nodes))
                  && member e.to_node (
                      map
                        (λ (n : Node V). n.id)
                        (filter (λ (n : Node V). not (member n.id ns)) c.nodes)))
                ≡ true)
              (filter (λ e. not (goes ns es e)) edges)
      left [] h = tt
      left (e ∷ edges) h = elim (Bool-cases (goes ns es e)) [
        | inl g ↦ rw g (left edges h.1)
        | inr g ↦ rw g (
          ground (
            arith,
            goes-false ns es e g,
            kept_node e.from_node ns c.nodes,
            kept_node e.to_node ns c.nodes,
            h.0,
          ),
          left edges h.1,
        )
      ]

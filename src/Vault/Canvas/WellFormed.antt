-- ===== src/Vault/Canvas/WellFormed.antt =====
-- src/vault/canvas.ts: well-formed boards, and the operations that add or rename.
use brainstem_mcp.Prelude.{
  All, All-append, All-map, Bool-cases, List, Option-cases, Text, [], ap, ap₂, arith, false,
  if◌then◌else◌, inl, inr, ltb, map, map-append, refl, some, subst, sym, text_eq, text_eq-eq, true,
  ◌&&◌, ◌++◌, ◌∙◌, ◌∷◌, ◌≡◌,
}
use brainstem_mcp.Prelude.Sort.{NoDup, NoDup-snoc, member, member-append}
use brainstem_mcp.Vault.Canvas.{
  Canvas, Edge, Node, edge_ids, find_node, new_file, node_ids, rewrite_file_nodes, rewrite_node,
  rewrite_nodes,
}

-- Identifiers are unique, and both ends of an edge are nodes of the board.
pub record IsWellFormed {V : Type 0} (c : Canvas V) : Type 0 where
  pub unique_nodes : NoDup (node_ids c)
  pub unique_edges : NoDup (edge_ids c)
  pub ends_exist :
      All
        (λ (e : Edge V). (member e.from_node (node_ids c) && member e.to_node (node_ids c)) ≡ true)
        c.edges

module _ {V : Type 0} where
  -- Boards with the same identifiers of nodes and the same edges.
  pub same_ids-IsWellFormed :
      (c d : Canvas V)
      → node_ids d ≡ node_ids c
      → d.edges ≡ c.edges
      → IsWellFormed c
      → IsWellFormed d
  same_ids-IsWellFormed c d ids edges h = record {
    unique_nodes = subst NoDup (sym ids) h.unique_nodes;
    unique_edges =
        subst (λ (es : List (Edge V)). NoDup (map (λ e. e.id) es)) (sym edges) h.unique_edges;
    ends_exist =
        subst
          (λ (es : List (Edge V)).
            All
              (λ (e : Edge V).
                (member e.from_node (node_ids d) && member e.to_node (node_ids d)) ≡ true)
              es)
          (sym edges)
          (subst
            (λ ids.
              All (λ (e : Edge V). (member e.from_node ids && member e.to_node ids) ≡ true) c.edges)
            (sym ids) h.ends_exist);
  }

  pub node_added-IsWellFormed :
      (c : Canvas V) (n : Node V)
      → member n.id (node_ids c) ≡ false
      → IsWellFormed c
      → IsWellFormed (record c { nodes = c.nodes ++ (n ∷ []) })
  node_added-IsWellFormed c n fresh_id h =
      let ids : map (λ (m : Node V). m.id) (c.nodes ++ (n ∷ [])) ≡ node_ids c ++ (n.id ∷ []) =
        map-append (λ (m : Node V). m.id) c.nodes (n ∷ []) in
      record {
        unique_nodes = subst NoDup (sym ids) (NoDup-snoc (node_ids c) n.id h.unique_nodes fresh_id);
        unique_edges = h.unique_edges;
        ends_exist =
            subst
              (λ ids.
                All (λ (e : Edge V). (member e.from_node ids && member e.to_node ids) ≡ true)
                  c.edges)
              (sym ids)
              (All-map c.edges
                (λ e k. ground (
                  arith,
                  member-append e.from_node (node_ids c) (n.id ∷ []),
                  member-append e.to_node (node_ids c) (n.id ∷ []),
                  k,
                ))
                h.ends_exist);
      }

  pub edge_added-IsWellFormed :
      (c : Canvas V) (e : Edge V)
      → member e.id (edge_ids c) ≡ false
      → (member e.from_node (node_ids c) && member e.to_node (node_ids c)) ≡ true
      → IsWellFormed c
      → IsWellFormed (record c { edges = c.edges ++ (e ∷ []) })
  edge_added-IsWellFormed c e fresh_id ends h =
      let ids : map (λ (m : Edge V). m.id) (c.edges ++ (e ∷ [])) ≡ edge_ids c ++ (e.id ∷ []) =
        map-append (λ (m : Edge V). m.id) c.edges (e ∷ []) in
      record {
        unique_nodes = h.unique_nodes;
        unique_edges = subst NoDup (sym ids) (NoDup-snoc (edge_ids c) e.id h.unique_edges fresh_id);
        ends_exist =
            All-append
              (λ (e : Edge V).
                (member e.from_node (node_ids c) && member e.to_node (node_ids c)) ≡ true)
              c.edges (e ∷ []) h.ends_exist (ends, tt);
      }

  pub find_node-id :
      (id : Text) (ns : List (Node V)) (n : Node V) → find_node id ns ≡ some n → n.id ≡ id
  unfolding find_node
  find_node-id id [] n h = cc
  find_node-id id (m ∷ ns) n h = elim (Bool-cases (text_eq m.id id)) [
    | inl e ↦
        let q : some m ≡ some n = rw e at h in
        let r : m ≡ n = cc in sym (ap (λ (n : Node V). n.id) r) ∙ text_eq-eq m.id id e
    | inr e ↦ find_node-id id ns n (rw e at h)
  ]

  pub replaced-ids :
      (id : Text) (u : Node V) (ns : List (Node V))
      → u.id ≡ id
      → map (λ (n : Node V). n.id) (map (λ (n : Node V). if text_eq n.id id then u else n) ns)
        ≡ map (λ (n : Node V). n.id) ns
  replaced-ids id u [] h = refl
  replaced-ids id u (n ∷ ns) h = elim (Bool-cases (text_eq n.id id)) [
    | inl e ↦ rw e (ap₂ ◌∷◌ (h ∙ sym (text_eq-eq n.id id e)) (replaced-ids id u ns h))
    | inr e ↦ rw e (ap (◌∷◌ n.id) (replaced-ids id u ns h))
  ]

  rewrite_node-id :
      (lower : Text → Text) (m : List (Text × Text)) (n : Node V)
      → (rewrite_node lower m n).0.id ≡ n.id
  unfolding rewrite_node
  rewrite_node-id lower m n = elim (Option-cases (new_file lower m n.kind)) [
    | inl e ↦ rw (e, rewrite_node) refl
    | inr (q, e) ↦ rw (e, rewrite_node) refl
  ]

  rewrite_nodes-ids :
      (lower : Text → Text) (m : List (Text × Text)) (ns : List (Node V))
      → map (λ (n : Node V). n.id) (rewrite_nodes lower m ns).0 ≡ map (λ (n : Node V). n.id) ns
  unfolding rewrite_nodes
  rewrite_nodes-ids lower m [] = refl
  rewrite_nodes-ids lower m (n ∷ ns) =
      ap₂ ◌∷◌ (rewrite_node-id lower m n) (rewrite_nodes-ids lower m ns)

  pub rewritten-IsWellFormed :
      (lower : Text → Text) (m : List (Text × Text)) (c : Canvas V)
      → IsWellFormed c
      → IsWellFormed (rewrite_file_nodes lower m c).0
  unfolding rewrite_file_nodes
  rewritten-IsWellFormed lower m c h = elim (Bool-cases (ltb 0 (rewrite_nodes lower m c.nodes).1)) [
    | inl e ↦ rw e (
        same_ids-IsWellFormed c (record c { nodes = (rewrite_nodes lower m c.nodes).0 })
          (rewrite_nodes-ids lower m c.nodes) refl h)
    | inr e ↦ rw e h
  ]

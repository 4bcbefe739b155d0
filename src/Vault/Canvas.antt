-- ===== src/Vault/Canvas.antt =====
-- src/vault/canvas.ts: the operations on a board. A JSON value is opaque; `validate` says whether
-- the schema of a node type accepts the fields, and `new_id` is the identifier drawn at random.
pub mod WellFormed
pub mod Removing
pub mod Laws
mod Tests
use brainstem_mcp.Prelude.{
  Bool, List, Option, Text, [], any, codes, false, filter, if◌then◌else◌, ltb, map, none, not, some,
  text_eq, ℕ, ◌&&◌, ◌++◌, ◌+◌, ◌||◌, ◌∷◌,
}
use brainstem_mcp.Prelude.Dict.{delete_all, get, keys, put}
use brainstem_mcp.Prelude.Sort.{member}
use brainstem_mcp.Storage.PathPolicy.{normalize_vault_path}
use brainstem_mcp.Storage.Types.{Result, err, invalid_input, not_found, ok, reject_if, ◌>>=◌, ◌>>◌}

-- The node type. A file node has its path besides.
pub data Kind : Type 0 where
  text link group : Kind
  file : Text → Kind

pub record Node (V : Type 0) : Type 0 where
  pub id : Text
  pub kind : Kind
  pub fields : List (Text × V)

pub record Edge (V : Type 0) : Type 0 where
  pub id : Text
  pub from_node : Text
  pub to_node : Text
  pub fields : List (Text × V)

pub record Canvas (V : Type 0) : Type 0 where
  pub nodes : List (Node V)
  pub edges : List (Edge V)

pub record NodeInput (V : Type 0) : Type 0 where
  pub id : Option Text
  pub kind : Kind
  pub fields : List (Text × V)

pub record EdgeInput (V : Type 0) : Type 0 where
  pub id : Option Text
  pub from_node : Text
  pub to_node : Text
  pub fields : List (Text × V)

pub record NodePatch (V : Type 0) : Type 0 where
  pub file : Option Text
  pub rest : List (Text × V)

pub record Removal (V : Type 0) : Type 0 where
  pub canvas : Canvas V
  pub removed_nodes : List Text
  pub removed_edges : List Text
  pub missing : List Text

-- `TYPE_SPECIFIC_FIELDS`
unfoldable pub specific_fields : Kind → List Text
specific_fields text = codes "text" ∷ []
specific_fields (file _) = codes "file" ∷ codes "subpath" ∷ []
specific_fields link = codes "url" ∷ []
specific_fields group = codes "label" ∷ codes "background" ∷ codes "backgroundStyle" ∷ []

abbrev pub all_specific_fields : List Text
all_specific_fields =
    map codes
      ("text" ∷ "file" ∷ "subpath" ∷ "url" ∷ "label" ∷ "background" ∷ "backgroundStyle" ∷ [])

abbrev pub common_fields : List Text
common_fields = map codes ("x" ∷ "y" ∷ "width" ∷ "height" ∷ "color" ∷ [])

-- A key that belongs to another node type only.
unfoldable pub is_foreign : Kind → Text → Bool
unfolding specific_fields
is_foreign kind key =
    member key all_specific_fields && not (member key (common_fields ++ specific_fields kind))

-- `{ ...fields, ...patch }`
unfoldable pub spread : {V : Type 0} → List (Text × V) → List (Text × V) → List (Text × V)
spread fields [] = fields
spread fields ((k, v) ∷ patch) = spread (put k v fields) patch

abbrev pub node_ids : {V : Type 0} → Canvas V → List Text
node_ids c = map (λ n. n.id) c.nodes

abbrev pub edge_ids : {V : Type 0} → Canvas V → List Text
edge_ids c = map (λ e. e.id) c.edges

unfoldable pub find_node : {V : Type 0} → Text → List (Node V) → Option (Node V)
find_node id [] = none
find_node id (n ∷ ns) = if text_eq n.id id then some n else find_node id ns

module _ {V : Type 0} (nfc : Text → Text) (validate : Kind → List (Text × V) → Bool) where
  abbrev normalized : Text → Result Text
  normalized p = normalize_vault_path nfc false (some p)

  unfoldable pub normal_kind : Kind → Result Kind
  normal_kind (file p) = do q ← normalized p; ok (file q)
  normal_kind kind = ok kind

  unfoldable pub add_node : Canvas V → NodeInput V → Text → Result (Canvas V × Node V)
  unfolding normal_kind
  add_node canvas input new_id = do
    reject_if (not (validate input.kind input.fields)) invalid_input
    let id : Text = elim input.id [ none ↦ new_id | some id ↦ id ]
    reject_if (member id (node_ids canvas)) invalid_input
    kind ← normal_kind input.kind
    let node : Node V = record { id = id; kind = kind; fields = input.fields }
    ok (record canvas { nodes = canvas.nodes ++ (node ∷ []) }, node)

  -- The kind after the patch: only a file node takes a new path.
  unfoldable pub patched_kind : Kind → Option Text → Result Kind
  patched_kind (file old) (some p) = do q ← normalized p; ok (file q)
  patched_kind kind _ = ok kind

  -- `{ type: _type, id: _id, ...rest } = patch`
  unfoldable pub without_ids : NodePatch V → NodePatch V
  without_ids patch = record patch { rest = delete_all (codes "type" ∷ codes "id" ∷ []) patch.rest }

  unfoldable pub patch_keys : NodePatch V → List Text
  patch_keys patch = elim patch.file [
    | none ↦ keys patch.rest
    | some _ ↦ codes "file" ∷ keys patch.rest
  ]

  -- The update once the node is found.
  unfoldable pub patch_node : Canvas V → Text → NodePatch V → Node V → Result (Canvas V × Node V)
  unfolding is_foreign patched_kind without_ids patch_keys spread
  patch_node canvas id patch node = do
    reject_if (any (is_foreign node.kind) (patch_keys (without_ids patch))) invalid_input
    kind ← patched_kind node.kind patch.file
    let fields = spread node.fields (without_ids patch).rest
    reject_if (not (validate kind fields)) invalid_input
    let updated : Node V = record { id = node.id; kind = kind; fields = fields }
    ok (
      record canvas {
        nodes = map (λ (n : Node V). if text_eq n.id id then updated else n) canvas.nodes;
      },
      updated,
    )

  unfoldable pub update_node : Canvas V → Text → NodePatch V → Result (Canvas V × Node V)
  unfolding find_node patch_node
  update_node canvas id patch = elim (find_node id canvas.nodes) [
    | none ↦ err not_found
    | some node ↦ patch_node canvas id patch node
  ]

-- The path that `rewriteFileNodes` gives a node.
unfoldable pub new_file : (Text → Text) → List (Text × Text) → Kind → Option Text
new_file lower mapping (file p) = get (lower p) mapping
new_file lower mapping _ = none

module _ {V : Type 0} where
  unfoldable pub add_edge :
      (List (Text × V) → Bool) → Canvas V → EdgeInput V → Text → Result (Canvas V × Edge V)
  add_edge validate canvas input new_id = do
    reject_if (not (validate input.fields)) invalid_input
    reject_if
        (any (λ (p : Text). not (member p (node_ids canvas)))
          (input.from_node ∷ input.to_node ∷ []))
        invalid_input
    let id : Text = elim input.id [ none ↦ new_id | some id ↦ id ]
    reject_if (member id (edge_ids canvas)) invalid_input
    let edge : Edge V = record {
      id = id;
      from_node = input.from_node;
      to_node = input.to_node;
      fields = input.fields;
    }
    ok (record canvas { edges = canvas.edges ++ (edge ∷ []) }, edge)

  unfoldable pub rewrite_node : (Text → Text) → List (Text × Text) → Node V → Node V × ℕ
  unfolding new_file
  rewrite_node lower mapping node = elim (new_file lower mapping node.kind) [
    | none ↦ (node, 0)
    | some q ↦ (record node { kind = file q }, 1)
  ]

  unfoldable pub rewrite_nodes :
      (Text → Text) → List (Text × Text) → List (Node V) → List (Node V) × ℕ
  unfolding rewrite_node
  rewrite_nodes lower mapping [] = ([], 0)
  rewrite_nodes lower mapping (n ∷ ns) =
      let one = rewrite_node lower mapping n in
      let rest = rewrite_nodes lower mapping ns in (one.0 ∷ rest.0, one.1 + rest.1)

  unfoldable pub rewrite_file_nodes : (Text → Text) → List (Text × Text) → Canvas V → Canvas V × ℕ
  unfolding rewrite_nodes
  rewrite_file_nodes lower mapping canvas =
      let done = rewrite_nodes lower mapping canvas.nodes in
      if ltb 0 done.1 then (record canvas { nodes = done.0 }, done.1) else (canvas, done.1)

  unfoldable pub goes : List Text → List Text → Edge V → Bool
  goes node_list edge_list e =
      member e.id edge_list || member e.from_node node_list || member e.to_node node_list

  unfoldable pub remove_nodes_and_edges : Canvas V → List Text → List Text → Removal V
  unfolding goes
  remove_nodes_and_edges canvas node_list edge_list = record {
    canvas = record {
      nodes = filter (λ (n : Node V). not (member n.id node_list)) canvas.nodes;
      edges = filter (λ e. not (goes node_list edge_list e)) canvas.edges;
    };
    removed_nodes =
        map (λ (n : Node V). n.id) (filter (λ (n : Node V). member n.id node_list) canvas.nodes);
    removed_edges = map (λ (e : Edge V). e.id) (filter (goes node_list edge_list) canvas.edges);
    missing =
        filter (λ (p : Text). not (member p (node_ids canvas))) node_list
        ++ filter (λ (p : Text). not (member p (edge_ids canvas))) edge_list;
  }

-- ===== src/Graph/Edges.antt =====
-- `link`, `unlink`, the references of nodes and edges to spaces, and the derived sensitivity, of
-- repository/graph.py. A race with another transaction is not part of the model, and the
-- nodes, edges, spaces and accounts of a reference are taken to exist.
use semantics_toolchain.Prelude.{
  ℕ, ◌+◌, String, Bool, true, false, Option, none, some, List, [], ◌∷◌, ◌++◌, ◌==◌, eqb,
  if◌then◌else◌, contains, Result, ok, err, ◌&&◌, ◌||◌,
}
use semantics_toolchain.Json.{Fields}
use semantics_toolchain.Graph.Tables.{
  Node, Edge, Graph, find_node, find_edge, write_edge, assoc, has_row, drop_row,
}
use semantics_toolchain.Graph.Nodes.{GraphError, container_conflict, integrity_error, or_empty}

abbrev pub high : List String
high = "high" ∷ "critical" ∷ []

-- `if node.sensitivity`: the empty text is no sensitivity.
unfoldable pub effective_sensitivity : Graph → Node → String
effective_sensitivity g n =
    let by_type : String = elim (assoc n.type g.node_types) [ none ↦ "normal" | some s ↦ s ] in
    elim n.sensitivity [ none ↦ by_type | some s ↦ if s == "" then by_type else s ]

unfoldable pub is_high : Graph → ℕ → Bool
is_high g id = elim (find_node id g.nodes) [
  | none ↦ false
  | some n ↦ contains high (effective_sensitivity g n)
]

unfoldable pub derive_sensitive : Graph → String → ℕ → ℕ → Bool
derive_sensitive g type src dst =
    elim (assoc type g.edge_types) [ none ↦ false | some flag ↦ flag ]
    || (is_high g src || is_high g dst)

unfoldable pub is_active_edge : String → ℕ → ℕ → Edge → Bool
is_active_edge type src dst e =
    (e.type == type) && (eqb e.src_node src && (eqb e.dst_node dst && e.active))

unfoldable pub active_edge : String → ℕ → ℕ → List Edge → Option Edge
active_edge type src dst [] = none
active_edge type src dst (e ∷ es) =
    if is_active_edge type src dst e then some e else active_edge type src dst es

abbrev pub contained_in : String
contained_in = "contained_in"

-- An active container of the node `src`: the rows of the index uq_one_container.
unfoldable pub is_container_of : ℕ → Edge → Bool
is_container_of src e = (e.type == contained_in) && (eqb e.src_node src && e.active)

unfoldable pub has_container : ℕ → List Edge → Bool
has_container src [] = false
has_container src (e ∷ es) = if is_container_of src e then true else has_container src es

-- The arguments of `link`.
pub record NewEdge : Type 0 where
  pub type : String
  pub src_node : ℕ
  pub dst_node : ℕ
  pub account_id : ℕ
  pub properties : Option Fields
  pub sensitive : Option Bool

exists_row : ℕ → List Node → Bool
exists_row id ns = elim (find_node id ns) [ none ↦ false | some n ↦ true ]

-- The foreign keys of an edge.
unfoldable pub endpoints_exist : Graph → NewEdge → Bool
unfolding exists_row
endpoints_exist g a =
    elim (assoc a.type g.edge_types) [ none ↦ false | some flag ↦ true ]
    && (exists_row a.src_node g.nodes && exists_row a.dst_node g.nodes)

abbrev pub edge_row : Graph → NewEdge → Edge
edge_row g a = record {
  id = g.next_id;
  type = a.type;
  src_node = a.src_node;
  dst_node = a.dst_node;
  properties = or_empty a.properties;
  sensitive = elim a.sensitive [
    | none ↦ derive_sensitive g a.type a.src_node a.dst_node
    | some flag ↦ flag
  ];
  created_by = a.account_id;
  active = true;
}

unfoldable pub insert_edge : Graph → NewEdge → Result GraphError (Edge × Graph)
insert_edge g a =
    if (a.type == contained_in) && has_container a.src_node g.edges
    then err container_conflict
    else if endpoints_exist g a
    then ok
        (edge_row g a, record g { edges = g.edges ++ edge_row g a ∷ []; next_id = g.next_id + 1 })
    else err integrity_error

unfoldable pub link : Graph → NewEdge → Result GraphError (Edge × Graph)
link g a = elim (active_edge a.type a.src_node a.dst_node g.edges) [
  | some e ↦ ok (e, g)
  | none ↦ insert_edge g a
]

unfoldable pub unlink : Graph → ℕ → Bool × Graph
unlink g id = elim (find_edge id g.edges) [
  | none ↦ (false, g)
  | some e ↦
      if e.active
      then (true, record g { edges = write_edge (record e { active = false }) g.edges })
      else (false, g)
]

unfoldable pub share_node : Graph → ℕ → ℕ → Bool × Graph
share_node g node space =
    if has_row node space g.node_spaces
    then (false, g)
    else (true, record g { node_spaces = g.node_spaces ++ (node, space) ∷ [] })

unfoldable pub unshare_node : Graph → ℕ → ℕ → Bool × Graph
unshare_node g node space =
    (has_row node space g.node_spaces, record g { node_spaces = drop_row node space g.node_spaces })

unfoldable pub share_edge : Graph → ℕ → ℕ → Bool × Graph
share_edge g edge space =
    if has_row edge space g.edge_spaces
    then (false, g)
    else (true, record g { edge_spaces = g.edge_spaces ++ (edge, space) ∷ [] })

unfoldable pub unshare_edge : Graph → ℕ → ℕ → Bool × Graph
unshare_edge g edge space =
    (has_row edge space g.edge_spaces, record g { edge_spaces = drop_row edge space g.edge_spaces })

-- ===== src/Graph/Operations.antt =====
-- The functions of repository/graph.py that change the graph, as one type, and a run of several. A
-- call that raises leaves the graph as it was.
use semantics_toolchain.Prelude.{ℕ, Option, List, [], ◌∷◌, Result, ok, err}
use semantics_toolchain.Graph.Tables.{Graph}
use semantics_toolchain.Graph.Nodes.{
  GraphError, NewNode, Update, create_node, update_node, delete_node,
}
use semantics_toolchain.Graph.Edges.{
  NewEdge, link, unlink, share_node, unshare_node, share_edge, unshare_edge,
}

pub data Operation : Type 0 where
  create : NewNode → Operation
  update : Update → Operation
  delete : ℕ → Option ℕ → Operation
  connect : NewEdge → Operation
  disconnect : ℕ → Operation
  share unshare : ℕ → ℕ → Operation
  include exclude : ℕ → ℕ → Operation

unfoldable pub after : {A : Type 0} → Graph → Result GraphError (A × Graph) → Graph
after g (ok (a, h)) = h
after g (err e) = g

unfoldable pub perform : Graph → Operation → Graph
unfolding after
perform g (create a) = after g (create_node g a)
perform g (update u) = after g (update_node g u)
perform g (delete id expected) = after g (delete_node g id expected)
perform g (connect a) = after g (link g a)
perform g (disconnect id) = (unlink g id).1
perform g (share node space) = (share_node g node space).1
perform g (unshare node space) = (unshare_node g node space).1
perform g (include edge space) = (share_edge g edge space).1
perform g (exclude edge space) = (unshare_edge g edge space).1

unfoldable pub perform_all : Graph → List Operation → Graph
perform_all g [] = g
perform_all g (op ∷ ops) = perform_all (perform g op) ops

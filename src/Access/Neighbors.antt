-- ===== src/Access/Neighbors.antt =====
-- Lemmas on `neighbors` of access.py.
use semantics_toolchain.Prelude.{
  ℕ, true, false, Option, some, List, [], ◌∷◌, ◌≡◌, refl, inl, inr, arith, Bool-cases, Option-cases,
  ◌&&◌, All, String,
}
use semantics_toolchain.Graph.{Edge, Graph, Node, find_node, live}
use semantics_toolchain.Access.Reading.{
  Access, Direction, get_node, neighbors, reached, in_view, is_open, candidate, touches, other_end,
  refers, space_ids, is_node_visible,
}
use semantics_toolchain.Access.Scopes.{get_node-refers}

-- What holds of each edge and node that is reported.
pub record IsNeighbor (g : Graph) (a : Access) (d : Direction) (id : ℕ) (e : Edge) (n : Node)
    : Type 0 where
  pub active : e.active ≡ true
  pub touching : touches d id e ≡ true
  pub readable : get_node g a (other_end id e) ≡ some n
  pub open_edge : e.sensitive ≡ true → refers (space_ids g a) e.id g.edge_spaces ≡ true

in_view-get_node :
    (g : Graph) (a : Access) (i : ℕ) {n : Node}
    → in_view g a i ≡ true
    → find_node i g.nodes ≡ some n
    → get_node g a i ≡ some n
unfolding in_view live
in_view-get_node g a i {n} h e = ground (arith, get_node-refers g a i)

abbrev pub IsNeighborOf : Graph → Access → Direction → ℕ → Edge × Node → Type 0
IsNeighborOf g a d id p = IsNeighbor g a d id p.0 p.1

edge-IsNeighbor :
    (g : Graph) (a : Access) (d : Direction) (types : Option (List String)) (id : ℕ) (e : Edge)
    (n : Node)
    → (candidate d types id e && (in_view g a (other_end id e) && is_open g a e)) ≡ true
    → find_node (other_end id e) g.nodes ≡ some n
    → IsNeighbor g a d id e n
unfolding candidate is_open
edge-IsNeighbor g a d types id e n h f = record {
  active = ground arith;
  touching = ground arith;
  readable = in_view-get_node g a (other_end id e) (ground arith) f;
  open_edge = λ s. ground arith;
}

reached-AllNeighbors :
    (g : Graph) (a : Access) (d : Direction) (types : Option (List String)) (id : ℕ)
    (es : List Edge)
    → All (IsNeighborOf g a d id) (reached g a d types id es)
unfolding reached
reached-AllNeighbors g a d types id [] = tt
reached-AllNeighbors g a d types id (e ∷ es) =
    let rest = reached-AllNeighbors g a d types id es in
    elim (Bool-cases (candidate d types id e && (in_view g a (other_end id e) && is_open g a e))) [
      | inr shut ↦ rw shut rest
      | inl given ↦ elim (Option-cases (find_node (other_end id e) g.nodes)) [
        | inl gone ↦ rw (given, gone) rest
        | inr (n, found) ↦ rw (given, found) (edge-IsNeighbor g a d types id e n given found, rest)
      ]
    ]

-- Every edge that `neighbors` reports is active, touches the node on the asked side, leads to a node
-- that the account can read itself, and, when sensitive, is shared into a space it reaches.
pub neighbors-AllNeighbors :
    (g : Graph) (a : Access) (id : ℕ) (d : Direction) (types : Option (List String))
    → All (IsNeighborOf g a d id) (neighbors g a id d types)
unfolding neighbors
neighbors-AllNeighbors g a id d types = elim (Bool-cases (is_node_visible g a id)) [
  | inl seen ↦ rw seen (reached-AllNeighbors g a d types id g.edges)
  | inr hidden ↦ rw hidden tt
]

-- No neighbor is given away of a node that the account does not see.
neighbors-hidden :
    (g : Graph) (a : Access) (id : ℕ) (d : Direction) (types : Option (List String))
    → is_node_visible g a id ≡ false
    → neighbors g a id d types ≡ []
unfolding neighbors
neighbors-hidden g a id d types h = rw h refl

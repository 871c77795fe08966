-- ===== src/Graph/Sharing.antt =====
-- Lemmas on `link`, its derived sensitivity, `share_node` and `unshare_node` of repository/graph.py.
use semantics_toolchain.Prelude.{
  ℕ, String, true, false, none, some, List, [], ◌∷◌, ◌++◌, ◌≡◌, refl, subst, inl, inr, arith,
  Result, ok, err, Bool-cases, Option-cases, eqb, eqb_iff, ◌==◌, ◌&&◌, eq_refl, if◌then◌else◌,
}
use semantics_toolchain.Graph.Tables.{Edge, Graph, has_row, drop_row}
use semantics_toolchain.Graph.Nodes.{GraphError}
use semantics_toolchain.Graph.Edges.{
  NewEdge, link, insert_edge, endpoints_exist, has_container, contained_in, active_edge,
  is_active_edge, edge_row, share_node, unshare_node,
}

active_edge-append :
    (type : String) (s d : ℕ) (es : List Edge) (x : Edge)
    → active_edge type s d es ≡ none
    → is_active_edge type s d x ≡ true
    → active_edge type s d (es ++ x ∷ []) ≡ some x
unfolding active_edge
active_edge-append type s d [] x h k = ground arith
active_edge-append type s d (e ∷ es) x h k = ground (arith, active_edge-append type s d es x)

eqb_refl : (n : ℕ) → eqb n n ≡ true
eqb_refl n = (eqb_iff n n).1 refl

edge_row-is_active_edge :
    (g : Graph) (a : NewEdge) → is_active_edge a.type a.src_node a.dst_node (edge_row g a) ≡ true
unfolding is_active_edge
edge_row-is_active_edge g a = rw (eq_refl a.type, eqb_refl a.src_node, eqb_refl a.dst_node) refl

-- A call that succeeded returned an edge that is active in the graph it left.
abbrev Linked : NewEdge → Result GraphError (Edge × Graph) → Type 0
Linked a (ok (e, h)) = active_edge a.type a.src_node a.dst_node h.edges ≡ some e
Linked a (err e) = Unit

insert_edge-Linked :
    (g : Graph) (a : NewEdge)
    → active_edge a.type a.src_node a.dst_node g.edges ≡ none
    → Linked a (insert_edge g a)
unfolding insert_edge
insert_edge-Linked g a new =
    let made =
      active_edge-append a.type a.src_node a.dst_node g.edges (edge_row g a) new
        (edge_row-is_active_edge g a) in
    elim (Bool-cases ((a.type == contained_in) && has_container a.src_node g.edges)) [
      | inl taken ↦ rw taken tt
      | inr free ↦ elim (Bool-cases (endpoints_exist g a)) [
        | inl good ↦ rw (free, good) made
        | inr bad ↦ rw (free, bad) tt
      ]
    ]

link-Linked : (g : Graph) (a : NewEdge) → Linked a (link g a)
unfolding link
link-Linked g a = elim (Option-cases (active_edge a.type a.src_node a.dst_node g.edges)) [
  | inl new ↦ rw (new, link) (insert_edge-Linked g a new)
  | inr (x, old) ↦ rw (old, link) old
]

link-active :
    (g : Graph) (a : NewEdge) (e : Edge)
    → active_edge a.type a.src_node a.dst_node g.edges ≡ some e
    → link g a ≡ ok (e, g)
unfolding link
link-active g a e old = rw (old, link) refl

-- After a link there is an active edge of its type between its nodes, the returned one.
pub active_edge-link :
    (g : Graph) (a : NewEdge) {e : Edge} {h : Graph}
    → link g a ≡ ok (e, h)
    → active_edge a.type a.src_node a.dst_node h.edges ≡ some e
active_edge-link g a {e} {h} p = subst (Linked a) p (link-Linked g a)

-- A link that succeeded succeeds again with the same edge, and changes nothing the second time.
link-link :
    (g : Graph) (a : NewEdge) {e : Edge} {h : Graph} → link g a ≡ ok (e, h) → link h a ≡ ok (e, h)
link-link g a {e} {h} p = link-active h a e (subst (Linked a) p (link-Linked g a))

has_row-append : (n s : ℕ) (rows : List (ℕ × ℕ)) → has_row n s (rows ++ (n, s) ∷ []) ≡ true
unfolding has_row
has_row-append n s [] = rw (eqb_refl n, eqb_refl s) refl
has_row-append n s ((x, y) ∷ rows) = ground (arith, has_row-append n s rows)

has_row-other :
    (n s i j : ℕ) (rows : List (ℕ × ℕ))
    → (eqb n i && eqb s j) ≡ false
    → has_row i j (rows ++ (n, s) ∷ []) ≡ has_row i j rows
unfolding has_row
has_row-other n s i j [] h = ground arith
has_row-other n s i j ((x, y) ∷ rows) h = ground (arith, has_row-other n s i j rows)

has_row-drop_row :
    (n s i j : ℕ) (rows : List (ℕ × ℕ))
    → has_row i j (drop_row n s rows) ≡ (if eqb n i && eqb s j then false else has_row i j rows)
unfolding has_row drop_row
has_row-drop_row n s i j [] = ground arith
has_row-drop_row n s i j ((x, y) ∷ rows) = ground (
  arith,
  has_row-drop_row n s i j rows,
  eqb_iff n i,
  eqb_iff s j,
  eqb_iff x i,
  eqb_iff y j,
  eqb_iff x n,
  eqb_iff y s,
)

-- Sharing a node makes that node visible in that space and changes no other reference; unsharing
-- takes back exactly that reference.
share_node-unshare_node :
    (g : Graph) (n s i j : ℕ)
    → (has_row i j (share_node g n s).1.node_spaces
        ≡ (if eqb n i && eqb s j then true else has_row i j g.node_spaces))
      × (has_row i j (unshare_node g n s).1.node_spaces
          ≡ (if eqb n i && eqb s j then false else has_row i j g.node_spaces))
unfolding share_node unshare_node
share_node-unshare_node g n s i j = (
  ground (
    arith,
    has_row-append n s g.node_spaces,
    has_row-other n s i j g.node_spaces,
    eqb_iff n i,
    eqb_iff s j,
  ),
  has_row-drop_row n s i j g.node_spaces,
)

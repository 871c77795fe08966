-- ===== src/Graph/Containment.antt =====
-- Lemmas on the containers of a node under the functions of repository/graph.py.
use semantics_toolchain.Prelude.{
  ℕ, ◌+◌, ◌≤◌, false, Option, List, [], ◌∷◌, ◌++◌, ◌≡◌, refl, sym, subst, inl, inr, if◌then◌else◌,
  arith, Option-cases, eqb_iff, ◌==◌, ◌&&◌,
}
use semantics_toolchain.Graph.Tables.{Edge, Graph, find_edge, write_edge}
use semantics_toolchain.Graph.Nodes.{
  NewNode, Update, create_node, update_node, delete_node, write_version,
}
use semantics_toolchain.Graph.Edges.{
  NewEdge, link, insert_edge, unlink, share_node, unshare_node, share_edge, unshare_edge,
  active_edge, contained_in, is_container_of, has_container, edge_row,
}
use semantics_toolchain.Graph.Operations.{Operation, after, perform, perform_all}

-- How many active containers the node has.
unfoldable pub containers : ℕ → List Edge → ℕ
containers s [] = 0
containers s (e ∷ es) = (if is_container_of s e then 1 else 0) + containers s es

containers-append :
    (s : ℕ) (xs ys : List Edge) → containers s (xs ++ ys) ≡ containers s xs + containers s ys
unfolding containers
containers-append s [] ys = omega arith
containers-append s (x ∷ xs) ys = omega (arith, containers-append s xs ys)

containers-has_container :
    (s : ℕ) (es : List Edge) → has_container s es ≡ false → containers s es ≡ 0
unfolding containers has_container
containers-has_container s [] h = refl
containers-has_container s (e ∷ es) h = ground (arith, containers-has_container s es)

is_container_of-inactive :
    (s : ℕ) (e : Edge) → is_container_of s (record e { active = false }) ≡ false
unfolding is_container_of
is_container_of-inactive s e = ground arith

containers-write_edge :
    (s : ℕ) (m : Edge) (es : List Edge)
    → is_container_of s m ≡ false
    → containers s (write_edge m es) ≤ containers s es
unfolding containers write_edge
containers-write_edge s m [] h = omega arith
containers-write_edge s m (e ∷ es) h = ground (arith, containers-write_edge s m es)

abbrev pub SingleContainers : List Edge → Type 0
SingleContainers es = (s : ℕ) → containers s es ≤ 1

-- The new edge is a container of its own source only, and only if it is of that type.
containers-edge_row :
    (g : Graph) (a : NewEdge) (s : ℕ)
    → ((a.type == contained_in) && has_container a.src_node g.edges) ≡ false
    → containers s g.edges ≤ 1
    → containers s (g.edges ++ edge_row g a ∷ []) ≤ 1
unfolding containers is_container_of
containers-edge_row g a s h k =
    rw containers-append
      (ground (arith, containers-has_container a.src_node g.edges, eqb_iff a.src_node s))

insert_edge-SingleContainers :
    (g : Graph) (a : NewEdge)
    → SingleContainers g.edges
    → SingleContainers (after g (insert_edge g a)).edges
unfolding after insert_edge
insert_edge-SingleContainers g a h s = ground (arith, h s, containers-edge_row g a s)

link-SingleContainers :
    (g : Graph) (a : NewEdge)
    → SingleContainers g.edges
    → SingleContainers (after g (link g a)).edges
unfolding link after
link-SingleContainers g a h =
    elim (Option-cases (active_edge a.type a.src_node a.dst_node g.edges)) [
      | inl e ↦ rw (e, link) (insert_edge-SingleContainers g a h)
      | inr (x, e) ↦ rw (e, link, after) h
    ]

unlink-SingleContainers :
    (g : Graph) (id : ℕ) → SingleContainers g.edges → SingleContainers (unlink g id).1.edges
unfolding unlink
unlink-SingleContainers g id h s = elim (Option-cases (find_edge id g.edges)) [
  | inl e ↦ ground (arith, h s)
  | inr (x, e) ↦ ground (
    arith,
    h s,
    containers-write_edge s (record x { active = false }) g.edges (is_container_of-inactive s x),
  )
]

share_node-edges : (g : Graph) (n s : ℕ) → (share_node g n s).1.edges ≡ g.edges
unfolding share_node
share_node-edges g n s = ground arith

share_edge-edges : (g : Graph) (e s : ℕ) → (share_edge g e s).1.edges ≡ g.edges
unfolding share_edge
share_edge-edges g e s = ground arith

create_node-edges : (g : Graph) (a : NewNode) → (after g (create_node g a)).edges ≡ g.edges
unfolding after create_node
create_node-edges g a = ground arith

update_node-edges : (g : Graph) (u : Update) → (after g (update_node g u)).edges ≡ g.edges
unfolding after update_node write_version
update_node-edges g u = ground arith

delete_node-edges :
    (g : Graph) (id : ℕ) (x : Option ℕ) → (after g (delete_node g id x)).edges ≡ g.edges
unfolding after delete_node
delete_node-edges g id x = ground arith

perform-SingleContainers :
    (g : Graph) (op : Operation) → SingleContainers g.edges → SingleContainers (perform g op).edges
unfolding perform unshare_node unshare_edge
perform-SingleContainers g (Operation.create a) h =
    subst SingleContainers (sym (create_node-edges g a)) h
perform-SingleContainers g (Operation.update u) h =
    subst SingleContainers (sym (update_node-edges g u)) h
perform-SingleContainers g (Operation.delete id x) h =
    subst SingleContainers (sym (delete_node-edges g id x)) h
perform-SingleContainers g (Operation.connect a) h = link-SingleContainers g a h
perform-SingleContainers g (Operation.disconnect id) h = unlink-SingleContainers g id h
perform-SingleContainers g (Operation.share n s) h =
    subst SingleContainers (sym (share_node-edges g n s)) h
perform-SingleContainers g (Operation.unshare n s) h = h
perform-SingleContainers g (Operation.include e s) h =
    subst SingleContainers (sym (share_edge-edges g e s)) h
perform-SingleContainers g (Operation.exclude e s) h = h

-- From a graph in which every node has one active container at most, no run of operations leads to
-- a node with two.
pub perform_all-SingleContainers :
    (ops : List Operation) (g : Graph)
    → SingleContainers g.edges
    → SingleContainers (perform_all g ops).edges
unfolding perform_all
perform_all-SingleContainers [] g h = h
perform_all-SingleContainers (op ∷ ops) g h =
    perform_all-SingleContainers ops (perform g op) (perform-SingleContainers g op h)

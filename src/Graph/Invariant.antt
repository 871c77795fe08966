-- ===== src/Graph/Invariant.antt =====
-- Lemmas on runs of the functions of repository/graph.py: well-formedness and history.
use mathlib.Core.List.{append-nil, append_assoc}
use semantics_toolchain.Prelude.{
  ℕ, ◌≤◌, Option, some, List, [], ◌∷◌, ◌++◌, ◌≡◌, refl, sym, ap, ◌∙◌, inl, inr, arith, Bool-cases,
  Option-cases, contains,
}
use semantics_toolchain.Graph.Tables.{Node, Version, Graph}
use semantics_toolchain.Graph.Nodes.{
  is_acceptable, NewNode, Update, create_node, update_node, delete_node, get_node, with_node,
  with_version, without_node, write_version, node_statuses, same_id, or_old, first_version,
  next_version,
}
use semantics_toolchain.Graph.Edges.{
  NewEdge, link, insert_edge, unlink, share_node, unshare_node, share_edge, unshare_edge,
}
use semantics_toolchain.Graph.Operations.{Operation, after, perform, perform_all}
use semantics_toolchain.Graph.Versions.{
  IsWellFormed, grown, with_node-IsWellFormed, with_version-IsWellFormed, without_node-IsWellFormed,
  known_node,
}

-- What an operation can do to the nodes, the versions and the counter.
pub data Change (g : Graph) : Graph → Type 0 where
  same : Change g g
  added : (a : NewNode) → Change g (with_node g a)
  revised : (u : Update) (n : Node) → get_node g u.node_id ≡ some n → Change g (with_version g u n)
  removed : (id : ℕ) (n : Node) → get_node g id ≡ some n → Change g (without_node g n)
  other :
      (h : Graph) → h.nodes ≡ g.nodes → h.versions ≡ g.versions → g.next_id ≤ h.next_id → Change g h

module _ (g : Graph) where
  create_node-Change : (a : NewNode) → Change g (after g (create_node g a))
  unfolding after create_node
  create_node-Change a = elim (Bool-cases (is_acceptable g a)) [
    | inl e ↦ rw (e, after) (Change.added a)
    | inr e ↦ rw (e, after) Change.same
  ]

  update_node-Change : (u : Update) → Change g (after g (update_node g u))
  unfolding after update_node write_version
  update_node-Change u = elim (Option-cases (get_node g u.node_id)) [
    | inl e ↦ rw (e, after) Change.same
    | inr (n, e) ↦ elim (Bool-cases (same_id n.current_version u.expected_version)) [
      | inr s ↦ rw (e, s, after) Change.same
      | inl s ↦ elim (Bool-cases (contains node_statuses (or_old u.status n.status))) [
        | inr t ↦ rw (e, s, t, after) Change.same
        | inl t ↦ rw (e, s, t, after) (Change.revised u n e)
      ]
    ]
  ]

  delete_node-Change :
      (id : ℕ) (expected : Option ℕ) → Change g (after g (delete_node g id expected))
  unfolding after delete_node
  delete_node-Change id expected = elim (Option-cases (get_node g id)) [
    | inl e ↦ rw (e, after) Change.same
    | inr (n, e) ↦ elim (Bool-cases (same_id n.current_version expected)) [
      | inr s ↦ rw (e, s, after) Change.same
      | inl s ↦ rw (e, s, after) (Change.removed id n e)
    ]
  ]

  link-nodes :
      (a : NewEdge)
      → ((after g (link g a)).nodes ≡ g.nodes)
        × ((after g (link g a)).versions ≡ g.versions)
        × (g.next_id ≤ (after g (link g a)).next_id)
  unfolding after link insert_edge
  link-nodes a = ground arith

  unlink-nodes :
      (id : ℕ)
      → ((unlink g id).1.nodes ≡ g.nodes)
        × ((unlink g id).1.versions ≡ g.versions)
        × (g.next_id ≤ (unlink g id).1.next_id)
  unfolding unlink
  unlink-nodes id = ground arith

  share_node-nodes :
      (n s : ℕ)
      → ((share_node g n s).1.nodes ≡ g.nodes)
        × ((share_node g n s).1.versions ≡ g.versions)
        × (g.next_id ≤ (share_node g n s).1.next_id)
  unfolding share_node
  share_node-nodes n s = ground arith

  share_edge-nodes :
      (n s : ℕ)
      → ((share_edge g n s).1.nodes ≡ g.nodes)
        × ((share_edge g n s).1.versions ≡ g.versions)
        × (g.next_id ≤ (share_edge g n s).1.next_id)
  unfolding share_edge
  share_edge-nodes n s = ground arith

  pub perform-Change : (op : Operation) → Change g (perform g op)
  unfolding perform unshare_node unshare_edge
  perform-Change (Operation.create a) = create_node-Change a
  perform-Change (Operation.update u) = update_node-Change u
  perform-Change (Operation.delete id expected) = delete_node-Change id expected
  perform-Change (Operation.connect a) = let (en, ev, le) = link-nodes a in Change.other _ en ev le
  perform-Change (Operation.disconnect id) =
      let (en, ev, le) = unlink-nodes id in Change.other _ en ev le
  perform-Change (Operation.share n s) =
      let (en, ev, le) = share_node-nodes n s in Change.other _ en ev le
  perform-Change (Operation.unshare n s) = Change.other _ refl refl (omega arith)
  perform-Change (Operation.include n s) =
      let (en, ev, le) = share_edge-nodes n s in Change.other _ en ev le
  perform-Change (Operation.exclude n s) = Change.other _ refl refl (omega arith)

Change-IsWellFormed : {g h : Graph} → Change g h → IsWellFormed g → IsWellFormed h
Change-IsWellFormed Change.same w = w
Change-IsWellFormed {g} (Change.added a) w = with_node-IsWellFormed g w a
Change-IsWellFormed {g} (Change.revised u n e) w =
    with_version-IsWellFormed g w u n (known_node g w u.node_id n e).0
Change-IsWellFormed {g} (Change.removed id n e) w =
    let (below, current) = known_node g w id n e in without_node-IsWellFormed g w n below current
Change-IsWellFormed {g} (Change.other h en ev le) w = grown g w h en ev le

-- Whatever operations run on a well-formed graph, failing or not, each node's label, properties and
-- status are still those of its current version, and ids stay below the counter.
pub perform_all-IsWellFormed :
    (ops : List Operation) (g : Graph) → IsWellFormed g → IsWellFormed (perform_all g ops)
unfolding perform_all
perform_all-IsWellFormed [] g w = w
perform_all-IsWellFormed (op ∷ ops) g w =
    perform_all-IsWellFormed ops (perform g op) (Change-IsWellFormed (perform-Change g op) w)

Change-versions :
    {g h : Graph} → Change g h → (more : List Version) × (h.versions ≡ g.versions ++ more)
Change-versions {g} Change.same = ([], sym (append-nil g.versions))
Change-versions {g} (Change.added a) = (first_version a g.next_id ∷ [], refl)
Change-versions {g} (Change.revised u n e) = (next_version u g.next_id n ∷ [], refl)
Change-versions {g} (Change.removed id n e) = ([], sym (append-nil g.versions))
Change-versions {g} (Change.other h en ev le) = ([], ev ∙ sym (append-nil g.versions))

-- The history is append-only: no run of operations changes or drops a version that is there.
pub versions-perform_all :
    (ops : List Operation) (g : Graph)
    → (more : List Version) × ((perform_all g ops).versions ≡ g.versions ++ more)
unfolding perform_all
versions-perform_all [] g = ([], sym (append-nil g.versions))
versions-perform_all (op ∷ ops) g =
    let (first, e) = Change-versions (perform-Change g op) in
    let (rest, f) = versions-perform_all ops (perform g op) in
    (first ++ rest, f ∙ ap (λ l. l ++ rest) e ∙ append_assoc g.versions first rest)

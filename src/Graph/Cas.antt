-- ===== src/Graph/Cas.antt =====
-- Compare-and-swap on the version: what an update does, and what a second one with the same
-- expectation does.
use semantics_toolchain.Graph.Versions.{known_node, IsCurrent, get_node-found, IsWellFormed}
use semantics_toolchain.Graph.Nodes.{
  conflict, patched, live, or_old, with_version, node_statuses, updated_row, same_id, write_version,
  get_node, update_node, GraphError, Update,
}
use semantics_toolchain.Prelude.{
  subst, ◌<◌, ◌<◌, All, Option, ◌≢◌, ◌≢◌, false, contains, true, Option-cases, err, ok, Result, ℕ,
  none, some, List, [], ◌∷◌, ◌≡◌, sym, ap, ◌∙◌, inl, inr, if◌then◌else◌, arith, Bool-cases, eqb,
  eqb_iff, some_inj,
}
use semantics_toolchain.Graph.Tables.{Version, find_version, Graph, Node, find_node, write_node}

-- A row found under an id has that id.
pub find_node-id : (i : ℕ) (ns : List Node) {n : Node} → find_node i ns ≡ some n → n.id ≡ i
unfolding find_node
find_node-id i [] h = cc
find_node-id i (m ∷ ns) {n} h = elim (Bool-cases (eqb m.id i)) [
  | inl e ↦ ap (λ (x : Node). x.id) (sym (some_inj (rw e at h))) ∙ (eqb_iff m.id i).0 e
  | inr e ↦ find_node-id i ns (rw e at h)
]

-- Writing a row that is there and reading it back, and reading another.
pub find_node-write_node :
    (m : Node) (i : ℕ) (ns : List Node)
    → find_node i (write_node m ns) ≡ (
        if eqb m.id i
        then elim (find_node i ns) [ none ↦ none | some old ↦ some m ]
        else find_node i ns)
unfolding find_node write_node
find_node-write_node m i [] = ground arith
find_node-write_node m i (n ∷ ns) = ground (arith, find_node-write_node m i ns)

-- What a successful update found and what it made.
pub record IsUpdate (g : Graph) (u : Update) (m : Node) (h : Graph) : Type 0 where
  pub old : Node
  pub found : get_node g u.node_id ≡ some old
  pub expected : same_id old.current_version u.expected_version ≡ true
  pub acceptable : contains node_statuses (or_old u.status old.status) ≡ true
  pub row : m ≡ updated_row u g.next_id old
  pub graph : h ≡ with_version g u old

pub pair_of_ok :
    {m n : Node} {h k : Graph}
    → ◌≡◌ {A = Result GraphError (Node × Graph)} (ok (m, h)) (ok (n, k))
    → (m ≡ n) × (h ≡ k)
pair_of_ok {m} {n} {h} {k} e = (ap node_of e, ap graph_of e)
  where
    node_of : Result GraphError (Node × Graph) → Node
    node_of (ok (x, y)) = x
    node_of (err x) = m

    graph_of : Result GraphError (Node × Graph) → Graph
    graph_of (ok (x, y)) = y
    graph_of (err x) = h

pub update_node-fits :
    (g : Graph) (u : Update) (n : Node)
    → get_node g u.node_id ≡ some n
    → same_id n.current_version u.expected_version ≡ true
    → contains node_statuses (or_old u.status n.status) ≡ true
    → update_node g u ≡ ok (updated_row u g.next_id n, with_version g u n)
unfolding update_node write_version
update_node-fits g u n found fits good = ground arith

pub update_node-stale :
    (g : Graph) (u : Update) (n : Node)
    → get_node g u.node_id ≡ some n
    → same_id n.current_version u.expected_version ≡ false
    → update_node g u ≡ err conflict
unfolding update_node
update_node-stale g u n found stale = ground arith

pub update_node-IsUpdate :
    (g : Graph) (u : Update) {m : Node} {h : Graph} → update_node g u ≡ ok (m, h) → IsUpdate g u m h
unfolding update_node write_version
update_node-IsUpdate g u {m} {h} e = elim (Option-cases (get_node g u.node_id)) [
  | inl missing ↦ absurd (ground arith)
  | inr (n, found) ↦ elim (Bool-cases (same_id n.current_version u.expected_version)) [
    | inr stale ↦ absurd (ground arith)
    | inl fits ↦ elim (Bool-cases (contains node_statuses (or_old u.status n.status))) [
      | inr bad ↦ absurd (ground arith)
      | inl good ↦
          let (row, graph) = pair_of_ok (sym e ∙ update_node-fits g u n found fits good) in
          record {
            old = n;
            found = found;
            expected = fits;
            acceptable = good;
            row = row;
            graph = graph;
          }
    ]
  ]
]

-- The row that `get_node` reads after an update of one node.
pub get_node-with_version :
    (g : Graph) (u : Update) (n : Node)
    → get_node g u.node_id ≡ some n
    → (j : ℕ)
    → get_node (with_version g u n) j
      ≡ (if eqb u.node_id j then some (updated_row u g.next_id n) else get_node g j)
unfolding get_node live
get_node-with_version g u n found j =
    let same_row : n.id ≡ u.node_id =
      find_node-id u.node_id g.nodes (get_node-found g u.node_id n found) in
    ground (
      arith,
      find_node-write_node (updated_row u g.next_id n) j g.nodes,
      get_node-found g u.node_id n found,
      eqb_iff u.node_id j,
      same_row,
    )

-- After a successful update the node reads as the returned row, with the patch merged into its
-- properties, and every other node reads as before.
pub get_node-update_node :
    (g : Graph) (u : Update) {m : Node} {h : Graph}
    → update_node g u ≡ ok (m, h)
    → (n : Node) × (get_node g u.node_id ≡ some n)
      × (m.properties ≡ patched u.properties_patch n.properties)
      × (get_node h u.node_id ≡ some m)
      × ((j : ℕ) → j ≢ u.node_id → get_node h j ≡ get_node g j)
get_node-update_node g u {m} {h} e =
    let r = update_node-IsUpdate g u e in
    let reads = get_node-with_version g u r.old r.found in
    (
      r.old,
      r.found,
      ap (λ (x : Node). x.properties) r.row,
      rw r.graph (ground (arith, reads u.node_id, r.row)),
      λ j other. rw r.graph (ground (arith, reads j)),
    )

find_version-below :
    (k i : ℕ) (vs : List Version) {v : Version}
    → All (λ x. x.id < k) vs
    → find_version i vs ≡ some v
    → v.id < k
unfolding find_version
find_version-below k i [] h e = absurd (ground arith)
find_version-below k i (x ∷ vs) h e = elim (Bool-cases (eqb x.id i)) [
  | inl hit ↦ subst (λ (y : Version). y.id < k) (some_inj (rw hit at e)) h.0
  | inr miss ↦ find_version-below k i vs h.1 (rw miss at e)
]

-- The current version of a node is older than any that is still to be made.
fresh_differs :
    (g : Graph) (n : Node) (expected : Option ℕ)
    → IsWellFormed g
    → IsCurrent g.versions n
    → same_id n.current_version expected ≡ true
    → same_id (some g.next_id) expected ≡ false
unfolding same_id
fresh_differs g n expected w c h =
    let below = find_version-below g.next_id c.version.id g.versions w.version_ids c.found in
    ground (arith, c.current)

-- Two updates of one node that expect the same version do not both succeed: after the first the
-- second is refused as a conflict, whatever it writes.
pub second_update_conflict :
    (g : Graph) (u v : Update) {m : Node} {h : Graph}
    → IsWellFormed g
    → update_node g u ≡ ok (m, h)
    → v.node_id ≡ u.node_id
    → v.expected_version ≡ u.expected_version
    → update_node h v ≡ err conflict
second_update_conflict g u v {m} {h} w e same expects =
    let r = update_node-IsUpdate g u e in
    let current = (known_node g w u.node_id r.old r.found).1 in
    let differs = fresh_differs g r.old u.expected_version w current r.expected in
    let reads = get_node-with_version g u r.old r.found u.node_id in
    rw r.graph (
      update_node-stale (with_version g u r.old) v (updated_row u g.next_id r.old)
        (rw same (ground (arith, reads))) (rw expects differs))

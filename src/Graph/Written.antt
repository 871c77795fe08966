-- ===== src/Graph/Written.antt =====
-- Runs of creations and updates of nodes, the writes that the scheduler makes.
use semantics_toolchain.Prelude.{
  ℕ, true, some, ◌≡◌, refl, sym, ◌∙◌, inl, inr, arith, contains, Bool-cases, ok, eqb,
}
use semantics_toolchain.Graph.Tables.{Graph, Node}
use semantics_toolchain.Graph.Nodes.{
  NewNode, Update, new_row, with_node, with_version, updated_row, node_statuses, or_old, get_node,
  live, is_acceptable, create_node, update_node,
}
use semantics_toolchain.Graph.Versions.{find_node-append, get_node-found}
use semantics_toolchain.Graph.Cas.{
  update_node-IsUpdate, get_node-with_version, get_node-update_node, pair_of_ok,
}

pub data Written : Graph → Graph → Type 0 where
  nothing : {g : Graph} → Written g g
  added : {g h : Graph} (a : NewNode) → Written (with_node g a) h → Written g h
  revised :
      {g h : Graph} (u : Update) (n : Node)
      → get_node g u.node_id ≡ some n
      → contains node_statuses (or_old u.status n.status) ≡ true
      → Written (with_version g u n) h
      → Written g h

pub Written-trans : {g h k : Graph} → Written g h → Written h k → Written g k
Written-trans nothing w = w
Written-trans (added a first) w = added a (Written-trans first w)
Written-trans (revised u n e s first) w = revised u n e s (Written-trans first w)

-- A node that can be updated: it is there, with one of the known statuses.
pub record IsLive (g : Graph) (i : ℕ) : Type 0 where
  pub row : Node
  pub found : get_node g i ≡ some row
  pub status : contains node_statuses row.status ≡ true

get_node-with_node :
    (g : Graph) (a : NewNode) (i : ℕ) {n : Node}
    → get_node g i ≡ some n
    → get_node (with_node g a) i ≡ some n
unfolding get_node live
get_node-with_node g a i {n} e =
    ground (arith, find_node-append i g.nodes (new_row a g.next_id), get_node-found g i n e)

with_version-IsLive :
    (g : Graph) (u : Update) (n : Node) (i : ℕ)
    → get_node g u.node_id ≡ some n
    → contains node_statuses (or_old u.status n.status) ≡ true
    → IsLive g i
    → IsLive (with_version g u n) i
with_version-IsLive g u n i e s l = elim (Bool-cases (eqb u.node_id i)) [
  | inl same ↦ record {
    row = updated_row u g.next_id n;
    found = get_node-with_version g u n e i ∙ rw same refl;
    status = s;
  }
  | inr other ↦ record {
    row = l.row;
    found = get_node-with_version g u n e i ∙ rw other l.found;
    status = l.status;
  }
]

pub Written-IsLive : {g h : Graph} (i : ℕ) → Written g h → IsLive g i → IsLive h i
Written-IsLive i nothing l = l
Written-IsLive {g} i (added a next) l =
    Written-IsLive i next
      (record { row = l.row; found = get_node-with_node g a i l.found; status = l.status })
Written-IsLive {g} i (revised u n e s next) l =
    Written-IsLive i next (with_version-IsLive g u n i e s l)

pub create_node-Written :
    (g : Graph) (a : NewNode) {m : Node} {h : Graph} → create_node g a ≡ ok (m, h) → Written g h
unfolding create_node
create_node-Written g a {m} {h} e = elim (Bool-cases (is_acceptable g a)) [
  | inl good ↦
      let made : create_node g a ≡ ok (new_row a g.next_id, with_node g a) = ground arith in
      let (row, graph) = pair_of_ok (sym e ∙ made) in rw graph (added a nothing)
  | inr bad ↦ absurd (ground arith)
]

pub update_node-Written :
    (g : Graph) (u : Update) {m : Node} {h : Graph} → update_node g u ≡ ok (m, h) → Written g h
update_node-Written g u e =
    let r = update_node-IsUpdate g u e in rw r.graph (revised u r.old r.found r.acceptable nothing)

-- The updated node stays one that can be updated.
pub update_node-IsLive :
    (g : Graph) (u : Update) {m : Node} {h : Graph}
    → update_node g u ≡ ok (m, h)
    → IsLive h u.node_id
update_node-IsLive g u {m} {h} e =
    let r = update_node-IsUpdate g u e in
    let (old, found, merged, reads, others) = get_node-update_node g u e in
    record { row = m; found = reads; status = rw r.row r.acceptable }

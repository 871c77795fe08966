-- ===== src/Proposals/Applying.antt =====
-- `apply_proposal`, `_staged_version` and `_attach_parent`. The embedding index, which no result
-- depends on, is left out; the operations on the profile are a parameter.
use semantics_toolchain.Prelude.{
  ℕ, String, Option, none, some, List, [], ◌∷◌, ◌==◌, eqb, if◌then◌else◌, Result, ok, err, ◌>>=◌,
}
use semantics_toolchain.Json.{Fields, obj, get}
use semantics_toolchain.Graph.{
  Graph, Node, GraphError, not_found, NewNode, NewEdge, contained_in, find_node, live, create_node,
  update_node, delete_node, link, share_node, share_edge,
}
use semantics_toolchain.Proposals.Staged.{
  Proposal, ProposalError, no_parent, approved_apart, parent_gone, missing_version_token, key_error,
  unknown_op, repository, any_uuid, true_value, ref_uuid, ref_text, payload_text, payload_object,
  payload_properties, status_or_current,
}

-- An error of the repository passes through.
unfoldable pub lifted : {A : Type 0} → Result GraphError A → Result ProposalError A
lifted (ok a) = ok a
lifted (err e) = err (repository e)

-- `_staged_version`
unfoldable pub staged_version : Fields → Result ProposalError ℕ
unfolding true_value any_uuid
staged_version payload = elim (true_value "expected_version" payload) [
  | none ↦ err missing_version_token
  | some raw ↦ any_uuid raw
]

-- `session.get(Proposal, id)`
unfoldable pub find_proposal : ℕ → List Proposal → Option Proposal
find_proposal i [] = none
find_proposal i (p ∷ ps) = if eqb p.id i then some p else find_proposal i ps

-- The node that the sibling proposal created, while the two are approved together.
unfoldable pub sibling_node : List Proposal → ℕ → Result ProposalError ℕ
unfolding find_proposal
sibling_node table i = elim (find_proposal i table) [
  | none ↦ err no_parent
  | some sibling ↦ elim sibling.created_node_id [
    | none ↦ err no_parent
    | some node ↦ if sibling.status == "pending" then ok node else err approved_apart
  ]
]

-- `uuid.UUID(str(parent["proposal_id"]))`
unfoldable pub parent_proposal : Fields → Result ProposalError ℕ
unfolding any_uuid get
parent_proposal parent = elim (get "proposal_id" parent) [
  | none ↦ err key_error
  | some raw ↦ any_uuid raw
]

unfoldable pub parent_id : List Proposal → Fields → Result ProposalError ℕ
unfolding sibling_node parent_proposal true_value any_uuid
parent_id table parent = elim (true_value "node_id" parent) [
  | some raw ↦ any_uuid raw
  | none ↦ parent_proposal parent >>= λ i. sibling_node table i
]

abbrev pub containment : ℕ → ℕ → ℕ → NewEdge
containment child parent actor = record {
  type = contained_in;
  src_node = child;
  dst_node = parent;
  account_id = actor;
  properties = none;
  sensitive = none;
}

unfoldable pub link_parent : Graph → ℕ → ℕ → ℕ → Result ProposalError Graph
unfolding lifted live find_node link
link_parent g child actor parent = elim (live (find_node parent g.nodes)) [
  | none ↦ err parent_gone
  | some n ↦ lifted (link g (containment child parent actor)) >>= λ made. ok made.1
]

-- `_attach_parent`
unfoldable pub attach_parent : Graph → List Proposal → Fields → ℕ → ℕ → Result ProposalError Graph
unfolding link_parent parent_id true_value
attach_parent g table payload child actor = elim (true_value "parent" payload) [
  | none ↦ ok g
  | some (obj parent) ↦ parent_id table parent >>= λ p. link_parent g child actor p
  | some v ↦ err ProposalError.wrong_type
]

unfoldable pub new_node : Fields → Fields → ℕ → Result ProposalError NewNode
unfolding ref_text ref_uuid payload_text payload_properties status_or_current
new_node ref payload actor = do
  type ← ref_text "type" ref
  space ← ref_uuid "space" ref
  label ← payload_text "label" payload
  properties ← payload_properties payload
  sensitivity ← payload_text "sensitivity" payload
  status ← status_or_current payload
  ok (record {
    type = type;
    space_id = space;
    account_id = actor;
    label = label;
    properties = properties;
    sensitivity = sensitivity;
    source_ref = none;
    status = status;
  })

-- The graph, and the node that the proposal created.
abbrev pub Applied : Type 0
Applied = Graph × Option ℕ

-- `proposal.created_node_id = node.id`, in the table that `session.get` reads.
unfoldable pub recorded : ℕ → ℕ → List Proposal → List Proposal
recorded i node [] = []
recorded i node (p ∷ ps) =
    (if eqb p.id i then record p { created_node_id = some node } else p) ∷ recorded i node ps

unfoldable pub create_fresh : Graph → List Proposal → Proposal → ℕ → Result ProposalError Applied
unfolding new_node attach_parent lifted create_node recorded
create_fresh g table p actor = new_node p.target_ref p.payload actor >>= λ a.
    lifted (create_node g a) >>= λ made.
    attach_parent made.1 (recorded p.id made.0.id table) p.payload made.0.id actor >>= λ h.
    ok (h, some made.0.id)

-- A proposal that was applied is not applied again.
unfoldable pub apply_create : Graph → List Proposal → Proposal → ℕ → Result ProposalError Applied
unfolding create_fresh
apply_create g table p actor = elim p.created_node_id [
  | some done ↦ ok (g, some done)
  | none ↦ create_fresh g table p actor
]

-- `node is None or node.deleted_at is not None`
unfoldable pub live_target : Graph → Fields → Result ProposalError Node
unfolding ref_uuid live find_node
live_target g ref = ref_uuid "node_id" ref >>= λ id. elim (live (find_node id g.nodes)) [
  | none ↦ err (repository not_found)
  | some n ↦ ok n
]

-- `_UNSET if v is None else v`
abbrev pub set_label : Option String → Option (Option String)
set_label none = none
set_label (some s) = some (some s)

unfoldable pub apply_update : Graph → Proposal → ℕ → Result ProposalError Applied
unfolding live_target payload_text payload_object staged_version lifted update_node
apply_update g p actor = do
  n ← live_target g p.target_ref
  label ← payload_text "label" p.payload
  status ← payload_text "status" p.payload
  token ← staged_version p.payload
  patch ← payload_object "patch" p.payload
  made ← lifted (
      update_node g (record {
        node_id = n.id;
        account_id = actor;
        expected_version = some token;
        label = set_label label;
        properties_patch = patch;
        source_ref = none;
        status = status;
      }))
  ok (made.1, p.created_node_id)

unfoldable pub apply_delete : Graph → Proposal → Result ProposalError Applied
unfolding live_target staged_version lifted delete_node
apply_delete g p = do
  n ← live_target g p.target_ref
  token ← staged_version p.payload
  made ← lifted (delete_node g n.id (some token))
  ok (made.1, p.created_node_id)

unfoldable pub apply_link : Graph → Proposal → ℕ → Result ProposalError Applied
unfolding ref_text ref_uuid payload_properties lifted link
apply_link g p actor = do
  type ← ref_text "type" p.target_ref
  src ← ref_uuid "src" p.target_ref
  dst ← ref_uuid "dst" p.target_ref
  properties ← payload_properties p.payload
  made ← lifted (
      link g (record {
        type = type;
        src_node = src;
        dst_node = dst;
        account_id = actor;
        properties = properties;
        sensitive = none;
      }))
  ok (made.1, p.created_node_id)

unfoldable pub apply_share_node : Graph → Proposal → Result ProposalError Applied
unfolding ref_uuid share_node
apply_share_node g p = do
  node ← ref_uuid "node_id" p.target_ref
  space ← ref_uuid "space" p.target_ref
  ok ((share_node g node space).1, p.created_node_id)

unfoldable pub apply_share_edge : Graph → Proposal → Result ProposalError Applied
unfolding ref_uuid share_edge
apply_share_edge g p = do
  edge ← ref_uuid "edge_id" p.target_ref
  space ← ref_uuid "space" p.target_ref
  ok ((share_edge g edge space).1, p.created_node_id)

abbrev pub actor_of : Proposal → ℕ → ℕ
actor_of p fallback = elim p.proposer [ none ↦ fallback | some account ↦ account ]

-- The parameter applies an operation on the profile, if the proposal has one.
unfoldable pub apply_proposal :
    (Graph → Proposal → Option (Result ProposalError Applied))
    → Graph
    → List Proposal
    → Proposal
    → ℕ
    → Result ProposalError Applied
unfolding apply_create apply_update apply_delete apply_link apply_share_node apply_share_edge
apply_proposal profile g table p fallback =
    let actor = actor_of p fallback in
    if p.op == "create_node"
    then apply_create g table p actor
    else if p.op == "update_node"
    then apply_update g p actor
    else if p.op == "delete_node"
    then apply_delete g p
    else if p.op == "link"
    then apply_link g p actor
    else if p.op == "share_nodes"
    then apply_share_node g p
    else if p.op == "share_edge"
    then apply_share_edge g p
    else elim (profile g p) [ none ↦ err unknown_op | some r ↦ r ]

-- ===== src/Proposals/Examples.antt =====
-- A batch with a child staged before its parent, a cycle, and changes applied to a small graph.
use semantics_toolchain.Prelude.{
  is_ok, ℕ, String, true, false, Option, none, some, List, [], ◌∷◌, ◌≡◌, ◌≢◌, ◌≤◌, refl, length,
  All, Result, ok, err,
}
use semantics_toolchain.Json.{Fields, bool, str, obj, end, field, get, truthy, put, merge}
use semantics_toolchain.Json.Convert.{uuid_of}
use semantics_toolchain.Access.{is_member}
use semantics_toolchain.Graph.{
  Graph, Node, get_node, live, find_node, create_node, update_node, write_version, write_node,
  same_id, is_acceptable, is_registered, assoc, link, insert_edge, active_edge, has_container,
  endpoints_exist, derive_sensitive, is_high, patched, conflict,
}
use semantics_toolchain.Proposals.Staged.{
  Proposal, ProposalError, outside_batch, circular, missing_version_token, approved_apart,
  no_parent, repository, any_uuid, object_or_empty, true_value, ref_uuid, ref_text, payload_text,
  payload_object, payload_properties, status_or_current,
}
use semantics_toolchain.Proposals.Ordering.{
  uuid_if_given, dependency, dependencies, rounds, batch_ids, order_pending, order_proposals,
}
use semantics_toolchain.Proposals.Applying.{
  Applied, lifted, staged_version, find_proposal, sibling_node, parent_proposal, parent_id,
  link_parent, attach_parent, recorded, new_node, create_fresh, apply_create, live_target,
  apply_update, apply_proposal,
}
use semantics_toolchain.Proposals.Order.{InOrder, order_proposals-InOrder}
use semantics_toolchain.Proposals.Cycles.{Waits, order_proposals-circular}
use semantics_toolchain.Proposals.Tokens.{apply_proposal-token}
use semantics_toolchain.Proposals.Parents.{IsInside, apply_proposal-IsInside}

program : Unit {0}
unfolding uuid_if_given dependency dependencies rounds batch_ids order_pending order_proposals
    is_member get truthy put merge any_uuid object_or_empty true_value ref_uuid ref_text
    payload_text payload_object uuid_of lifted staged_version find_proposal sibling_node
    parent_proposal parent_id link_parent attach_parent status_or_current payload_properties
    recorded new_node create_fresh apply_create live_target apply_update apply_proposal get_node
    live find_node create_node update_node write_version write_node same_id is_acceptable
    is_registered assoc link insert_edge active_edge has_container endpoints_exist derive_sensitive
    is_high
program = tt

abbrev inside : String → Fields
inside id = field "parent" (obj (field "proposal_id" (str id) end)) end

abbrev staged : ℕ → Fields → Proposal
staged id payload = record {
  id = id;
  op = "create_node";
  target_ref =
      field "type" (str "Item") (field "space" (str "00000000-0000-0000-0000-000000000003") end);
  payload = payload;
  status = "pending";
  proposer = none;
  created_node_id = none;
}

abbrev child : Proposal
child = staged 11 (inside "0000000000000000000000000000000a")

abbrev parent : Proposal
parent = staged 10 end

abbrev batch : List Proposal
batch = child ∷ parent ∷ []

batch_ordered : order_proposals batch ≡ ok (parent ∷ child ∷ [])
unfolding program
batch_ordered = refl

order_proposals-InOrder_example :
    InOrder [] (parent ∷ child ∷ [])
    × ((i : ℕ) → (is_member i (batch_ids (parent ∷ child ∷ [])) ≡ is_member i (batch_ids batch)))
    × (2 ≤ length batch)
order_proposals-InOrder_example = order_proposals-InOrder batch batch_ordered

abbrev cycle : List Proposal
cycle = staged 10 (inside "0000000000000000000000000000000b") ∷ child ∷ staged 12 end ∷ []

cycle_refused :
    (order_proposals cycle ≡ err circular) × (order_proposals (child ∷ []) ≡ err outside_batch)
unfolding program
cycle_refused = (refl, refl)

order_proposals-circular_example :
    (stuck : List Proposal) × (stuck ≢ []) × All (Waits cycle stuck) stuck
order_proposals-circular_example = order_proposals-circular cycle cycle_refused.0

abbrev list_node : Node
list_node = record {
  id = 1;
  type = "Item";
  label = none;
  properties = end;
  status = "current";
  sensitivity = none;
  origin_space = some 3;
  created_by = some 7;
  deleted = false;
  current_version = some 2;
}

abbrev board : Graph
board = record {
  nodes = list_node ∷ [];
  versions = [];
  edges = [];
  node_spaces = [];
  edge_spaces = [];
  memberships = [];
  node_types = ("Item", "normal") ∷ [];
  edge_types = ("contained_in", false) ∷ [];
  next_id = 3;
}

abbrev no_profile : Graph → Proposal → Option (Result ProposalError Applied)
no_profile g p = none

abbrev revision : Fields → Proposal
revision payload = record {
  id = 12;
  op = "update_node";
  target_ref = field "node_id" (str "00000000-0000-0000-0000-000000000001") end;
  payload = payload;
  status = "pending";
  proposer = some 7;
  created_node_id = none;
}

abbrev against : String → Fields
against version =
    field "expected_version" (str version) (field "patch" (obj (field "done" (bool true) end)) end)

abbrev result_of : Result ProposalError Applied → Applied
result_of (ok r) = r
result_of (err e) = (board, none)

abbrev revised : Applied
unfolding program
revised =
    result_of
      (apply_proposal no_profile board [] (revision (against "00000000000000000000000000000002")) 9)

revision_applied :
    apply_proposal no_profile board [] (revision (against "00000000000000000000000000000002")) 9
    ≡ ok revised
unfolding program
revision_applied = refl

stale_revisions :
    (apply_proposal no_profile board [] (revision (against "00000000000000000000000000000001")) 9
      ≡ err (repository conflict))
    × (apply_proposal no_profile board [] (revision end) 9 ≡ err missing_version_token)
unfolding program
stale_revisions = (refl, refl)

apply_proposal-token_example :
    (n m : Node) × (token : ℕ) × (patch : Option Fields) × (ref_uuid "node_id"
        (revision end).target_ref
      ≡ ok n.id)
    × (staged_version (against "00000000000000000000000000000002") ≡ ok token)
    × (payload_object "patch" (against "00000000000000000000000000000002") ≡ ok patch)
    × (get_node board n.id ≡ some n)
    × (n.current_version ≡ some token)
    × (get_node revised.0 n.id ≡ some m)
    × (m.properties ≡ patched patch n.properties)
    × ((j : ℕ) → j ≢ n.id → get_node revised.0 j ≡ get_node board j)
apply_proposal-token_example =
    apply_proposal-token no_profile board [] (revision (against "00000000000000000000000000000002"))
      9 refl revision_applied

-- The parent is applied, and its node recorded.
abbrev applied_parent : Proposal
applied_parent = record parent { created_node_id = some 1 }

abbrev nested : Applied
unfolding program
nested = result_of (apply_proposal no_profile board (applied_parent ∷ []) child 9)

child_applied : apply_proposal no_profile board (applied_parent ∷ []) child 9 ≡ ok nested
unfolding program
child_applied = refl

lost_parents :
    (apply_proposal no_profile board [] child 9 ≡ err no_parent)
    × (apply_proposal no_profile board (record applied_parent { status = "approved" } ∷ []) child 9
        ≡ err approved_apart)
unfolding program
lost_parents = (refl, refl)

-- A creation that names itself as its parent.
abbrev own_parent : Proposal
own_parent = record child { id = 10 }

own_parent_linked : is_ok (apply_proposal no_profile board (own_parent ∷ []) own_parent 9) ≡ true
unfolding program
own_parent_linked = refl

parent_given :
    true_value "parent" child.payload
    ≡ some (obj (field "proposal_id" (str "0000000000000000000000000000000a") end))
unfolding program
parent_given = refl

apply_proposal-IsInside_example :
    (fields : Fields) × (node container : ℕ) × (obj
        (field "proposal_id" (str "0000000000000000000000000000000a") end)
      ≡ obj fields)
    × (parent_id (recorded child.id node (applied_parent ∷ [])) fields ≡ ok container)
    × (nested.1 ≡ some node)
    × IsInside nested.0 node container
apply_proposal-IsInside_example =
    apply_proposal-IsInside no_profile board (applied_parent ∷ []) child 9
      (obj (field "proposal_id" (str "0000000000000000000000000000000a") end)) refl refl
      parent_given child_applied

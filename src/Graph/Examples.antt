-- ===== src/Graph/Examples.antt =====
-- A graph with a space, two nodes and a link, and the theorems about it.
use semantics_toolchain.Prelude.{
  ℕ, true, false, some, none, List, [], ◌∷◌, ◌++◌, ◌≡◌, ◌≢◌, refl, arith, ok, err,
}
use semantics_toolchain.Json.{end, field, str}
use semantics_toolchain.Graph.{
  is_acceptable, new_row, edge_row, patched, updated_row, Node, Version, Edge, Graph, Permission,
  NewNode, Update, NewEdge, Operation, create_node, update_node, delete_node, link, insert_edge,
  unlink, share_node, unshare_node, get_node, perform, perform_all, after, find_node, write_node,
  write_edge, find_edge, assoc, has_row, drop_row, live, is_registered, write_version, same_id,
  effective_sensitivity, is_high, derive_sensitive, active_edge, is_active_edge, has_container,
  is_container_of, endpoints_exist, conflict, container_conflict, find_version,
}
use semantics_toolchain.Graph.Versions.{IsWellFormed}
use semantics_toolchain.Graph.Invariant.{perform_all-IsWellFormed, versions-perform_all}
use semantics_toolchain.Graph.Cas.{get_node-update_node, second_update_conflict}
use semantics_toolchain.Graph.Containment.{
  containers, SingleContainers, perform_all-SingleContainers,
}

program : Unit {0}
unfolding create_node update_node delete_node link insert_edge unlink share_node unshare_node
    get_node perform perform_all after find_node write_node write_edge find_edge assoc has_row
    drop_row live is_registered is_acceptable write_version same_id effective_sensitivity is_high
    derive_sensitive active_edge is_active_edge has_container is_container_of endpoints_exist
    find_version containers
program = tt

abbrev empty_graph : Graph
empty_graph = record {
  nodes = [];
  versions = [];
  edges = [];
  node_spaces = [];
  edge_spaces = [];
  memberships = record { account_id = 7; space_id = 3; permission = Permission.admin } ∷ [];
  node_types = ("Fact", "normal") ∷ ("Health", "high") ∷ [];
  edge_types = ("contained_in", false) ∷ ("about", false) ∷ [];
  next_id = 10;
}

abbrev fact : NewNode
fact = record {
  type = "Fact";
  space_id = 3;
  account_id = 7;
  label = some "a";
  properties = none;
  sensitivity = none;
  source_ref = none;
  status = "current";
}

abbrev health : NewNode
health = record fact { type = "Health" }

abbrev revision : Update
revision = record {
  node_id = 10;
  account_id = 7;
  expected_version = some 11;
  label = none;
  properties_patch = some (field "k" (str "v") end);
  source_ref = none;
  status = none;
}

abbrev containment : NewEdge
containment = record {
  type = "contained_in";
  src_node = 10;
  dst_node = 12;
  account_id = 7;
  properties = none;
  sensitive = none;
}

abbrev setup : List Operation
setup = Operation.create fact ∷ Operation.create health ∷ []

abbrev stocked : Graph
unfolding program
stocked = perform_all empty_graph setup

empty-IsWellFormed : IsWellFormed empty_graph
empty-IsWellFormed = record { version_ids = tt; node_ids = tt; current = tt }

perform_all-IsWellFormed_example : IsWellFormed (perform_all empty_graph setup)
perform_all-IsWellFormed_example = perform_all-IsWellFormed setup empty_graph empty-IsWellFormed

versions-perform_all_example :
    (more : List Version) × ((perform_all stocked (Operation.update revision ∷ [])).versions
      ≡ stocked.versions ++ more)
versions-perform_all_example = versions-perform_all (Operation.update revision ∷ []) stocked

abbrev fact_row : Node
fact_row = updated_row revision 14 (new_row fact 10)

abbrev revised : Graph
unfolding program
revised = after stocked (update_node stocked revision)

revision_accepted : update_node stocked revision ≡ ok (fact_row, revised)
unfolding program
revision_accepted = refl

get_node-update_node_example :
    (n : Node) × (get_node stocked 10 ≡ some n)
    × (fact_row.properties ≡ patched (some (field "k" (str "v") end)) n.properties)
    × (get_node revised 10 ≡ some fact_row)
    × ((j : ℕ) → j ≢ 10 → get_node revised j ≡ get_node stocked j)
get_node-update_node_example = get_node-update_node stocked revision revision_accepted

stocked-IsWellFormed : IsWellFormed stocked
unfolding program
stocked-IsWellFormed = perform_all-IsWellFormed setup empty_graph empty-IsWellFormed

second_update_conflict_example : update_node revised revision ≡ err conflict
second_update_conflict_example =
    second_update_conflict stocked revision revision stocked-IsWellFormed revision_accepted refl
      refl

single_at_first : SingleContainers stocked.edges
unfolding program
single_at_first s = omega arith

perform_all-SingleContainers_example :
    SingleContainers
      (perform_all stocked
        (Operation.connect containment ∷ Operation.connect containment ∷ [])).edges
perform_all-SingleContainers_example =
    perform_all-SingleContainers
      (Operation.connect containment ∷ Operation.connect containment ∷ []) stocked single_at_first

abbrev linked : Graph
unfolding program
linked = after stocked (link stocked containment)

abbrev link_row : Edge
unfolding program
link_row = edge_row stocked containment

link_accepted : link stocked containment ≡ ok (link_row, linked)
unfolding program
link_accepted = refl

second_container : link linked (record containment { dst_node = 10 }) ≡ err container_conflict
unfolding program
second_container = refl

insertion_accepted : insert_edge stocked containment ≡ ok (link_row, linked)
unfolding program
insertion_accepted = refl

high_end : link_row.sensitive ≡ true
unfolding program
high_end = refl

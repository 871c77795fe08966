-- ===== src/Scheduler/Act/Examples.antt =====
-- A plan with a message, a creation and two updates of one node, executed.
use semantics_toolchain.Json.Convert.{uuid_of}
use semantics_toolchain.Scheduler.Act.Confined.{execute_actions-confined}
use semantics_toolchain.Prelude.{
  contains, refl, ◌&&◌, ◌≡◌, map, Result, ℕ, String, true, false, some, none, List, [], ◌∷◌, ok,
  err,
}
use semantics_toolchain.Json.{
  merge, put, get, is_text, truthy, to_list, is_nonempty_str, unknown_keys, Value, Fields, bool,
  str, arr, obj, nil, cons, end, field,
}
use semantics_toolchain.Graph.{
  is_acceptable, assoc, is_registered, same_id, write_node, live, get_node, write_version,
  update_node, create_node, find_node, Graph, Node,
}
use semantics_toolchain.Scheduler.Plan.{Action, Kind}
use semantics_toolchain.Scheduler.Act.Fence.{
  payload_of, is_update, target_id, target_node, malformed_id, has_malformed_id, fence_target,
  fence_update_target, fence_create, fence_action, fence_all, writes_list, writes_types,
  writes_not_a_list, in_space, type_outside, target_outside, parse_writes_scope, ActError,
}
use semantics_toolchain.Scheduler.Act.Execution.{
  summaries, raised, text_field, object_field, label_field, take_text, put_present,
  delivery_properties, delivery_node, message_node, question_node, created_node, target_update,
  update_target, execute_action, execute_all, Context, execute_actions,
}

abbrev place : Context
place = record { account_id = 7; space_id = 3; delivery_target = str "me" }

abbrev fact : ℕ → ℕ → Node
fact id space = record {
  id = id;
  type = "Fact";
  label = none;
  properties = end;
  status = "current";
  sensitivity = none;
  origin_space = some space;
  created_by = none;
  deleted = false;
  current_version = some 1;
}

abbrev board : Graph
board = record {
  nodes = fact 15 3 ∷ fact 16 4 ∷ [];
  versions = [];
  edges = [];
  node_spaces = [];
  edge_spaces = [];
  memberships = [];
  node_types = ("Fact", "normal") ∷ ("Delivery", "normal") ∷ [];
  edge_types = [];
  next_id = 30;
}

abbrev action : String → Kind → Fields → Action
action key kind payload = record { key = key; kind = kind; payload = obj payload }

abbrev revision : String → String → Fields
revision id value = field "op" (str "update") (
    field "type" (str "Fact")
      (field "node_id" (str id) (field "patch" (obj (field value (bool true) end)) end)))

abbrev inner : String
inner = "00000000-0000-0000-0000-00000000000f"

abbrev foreign : String
foreign = "00000000-0000-0000-0000-000000000010"

abbrev plan : List Action
plan =
    action "o:0" Kind.deliver (field "text" (str "done") end)
    ∷ action "o:1" Kind.write (revision inner "a")
    ∷ action "o:2" Kind.write (revision inner "b")
    ∷ []

abbrev scope : Value
scope = arr (cons (str "Fact") nil)

program : Unit {0}
unfolding execute_actions execute_all execute_action update_target target_update created_node
    question_node message_node delivery_node delivery_properties put_present take_text label_field
    object_field text_field raised summaries parse_writes_scope writes_types writes_list fence_all
    fence_action fence_create has_malformed_id fence_target fence_update_target in_space target_node
    target_id is_update payload_of create_node update_node write_version get_node live find_node
    write_node same_id is_registered is_acceptable assoc uuid_of unknown_keys is_nonempty_str
    to_list truthy is_text get put merge
program = tt

abbrev graph_after : Result ActError (List (String × Kind) × Graph) → Graph
graph_after (ok (r, h)) = h
graph_after (err e) = board

abbrev acted : Graph
unfolding program
acted = graph_after (execute_actions board (some scope) place plan)

abbrev reports : List (String × Kind)
reports = ("o:0", Kind.deliver) ∷ ("o:1", Kind.write) ∷ ("o:2", Kind.write) ∷ []

plan_accepted : execute_actions board (some scope) place plan ≡ ok (reports, acted)
unfolding program
plan_accepted = refl

-- The second update of the node sees what the first one wrote.
both_updates :
    map (λ n. n.properties) acted.nodes
    ≡ field "a" (bool true) (field "b" (bool true) end)
      ∷ end
      ∷ field "text" (str "done") (
          field "kind" (str "message") (
            field "target"
              (str "me")
              (field "key" (str "o:0") (field "status" (str "pending") end))))
      ∷ []
unfolding program
both_updates = refl

refusals :
    (execute_actions board (some scope) place (action "o:0" Kind.write (revision foreign "a") ∷ [])
      ≡ err target_outside)
    × (execute_actions board none place
          (action "o:0" Kind.write (field "op" (str "create") (field "type" (str "Fact") end)) ∷ [])
        ≡ err type_outside)
    × (execute_actions board (some (str "Fact")) place [] ≡ err writes_not_a_list)
    × (execute_actions board (some scope) place (
          action "o:0" Kind.write (field "op" (str "update") (field "node_id" (str "one") end))
          ∷ [])
        ≡ err malformed_id)
unfolding program
refusals = (refl, refl, refl, refl)

execute_actions-confined_example :
    (allowed : List String) × (parse_writes_scope (some scope) ≡ ok allowed)
    × (reports ≡ map (λ a. (a.key, a.kind)) plan)
    × ((i : ℕ) (n : Node)
        → find_node i board.nodes ≡ some n
        → (in_space 3 n && contains allowed n.type) ≡ false
        → find_node i acted.nodes ≡ some n)
execute_actions-confined_example =
    execute_actions-confined board (some scope) place plan plan_accepted

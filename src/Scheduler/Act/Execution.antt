-- ===== src/Scheduler/Act/Execution.antt =====
-- The second loop of `execute_actions`, and `_record_delivery`.
use semantics_toolchain.Prelude.{
  ℕ, zero, suc, String, Option, none, some, List, [], ◌∷◌, ◌==◌, if◌then◌else◌, Result, ok, err,
  ◌>>=◌, ◌>>◌,
}
use semantics_toolchain.Json.{Value, Fields, null, str, obj, end, field, get, put}
use semantics_toolchain.Graph.{
  Graph, Node, GraphError, NewNode, Update, create_node, update_node, get_node,
}
use semantics_toolchain.Scheduler.Plan.{Action, Kind}
use semantics_toolchain.Scheduler.Act.Fence.{
  ActError, repository, parse_writes_scope, payload_of, is_update, target_id, target_not_found,
  fence_all,
}

-- Where a job runs: its account and space, and the target of its deliveries.
pub record Context : Type 0 where
  pub account_id : ℕ
  pub space_id : ℕ
  pub delivery_target : Value

unfoldable pub raised : {A : Type 0} → Result GraphError (A × Graph) → Result ActError Graph
raised (ok (a, h)) = ok h
raised (err e) = err (repository e)

-- `d.get(key, "")` where the value is a text.
unfoldable pub text_field : String → Fields → String
text_field k p = elim (get k p) [ some (str s) ↦ s | _ ↦ "" ]

-- `d.get(key) or {}` where the value is an object.
unfoldable pub object_field : String → Fields → Fields
object_field k p = elim (get k p) [ some (obj fs) ↦ fs | _ ↦ end ]

unfoldable pub label_field : Fields → Option String
label_field p = elim (get "label" p) [ some (str s) ↦ some s | _ ↦ none ]

-- `text[:n]`
unfoldable pub take_text : ℕ → String → String
take_text zero s = ""
take_text (suc n) String.[] = ""
take_text (suc n) (String.◌∷◌ c s) = String.◌∷◌ c (take_text n s)

unfoldable pub put_present : String → Option Value → Fields → Fields
unfolding put
put_present k none props = props
put_present k (some null) props = props
put_present k (some v) props = put k v props

unfoldable pub delivery_properties : Context → String → String → String → Fields
delivery_properties c key text kind = field "text" (str text) (
    field "kind" (str kind) (
      field "target" c.delivery_target
        (field "key" (str key) (field "status" (str "pending") end))))

abbrev pub delivery_type : String
delivery_type = "Delivery"

unfoldable pub delivery_node : Context → String → String → Fields → NewNode
unfolding take_text
delivery_node c text kind props = record {
  type = delivery_type;
  space_id = c.space_id;
  account_id = c.account_id;
  label = some (if take_text 60 text == "" then kind else take_text 60 text);
  properties = some props;
  sensitivity = none;
  source_ref = none;
  status = "current";
}

unfoldable pub message_node : Context → Action → NewNode
message_node c a =
    let text = text_field "text" (payload_of a) in
    delivery_node c text "message" (delivery_properties c a.key text "message")

unfoldable pub question_node : Context → Action → NewNode
question_node c a =
    let p = payload_of a in
    let text = text_field "question" p in
    delivery_node c text "question" (
      put_present "default" (get "default" p) (
        put_present "target_field" (get "target_field" p) (
          put_present "target_node" (get "target_node" p)
            (delivery_properties c a.key text "question"))))

unfoldable pub created_node : Context → Fields → NewNode
created_node c p = record {
  type = text_field "type" p;
  space_id = c.space_id;
  account_id = c.account_id;
  label = label_field p;
  properties = some (object_field "properties" p);
  sensitivity = none;
  source_ref = none;
  status = "current";
}

-- The fenced target is the session's own object of the node, so its version is the one that an
-- earlier action of the plan left.
unfoldable pub target_update : Context → Fields → Node → Update
target_update c p n = record {
  node_id = n.id;
  account_id = c.account_id;
  expected_version = n.current_version;
  label = none;
  properties_patch = some (object_field "patch" p);
  source_ref = none;
  status = none;
}

unfoldable pub update_target : Graph → Context → Fields → Result ActError Graph
update_target g c p = elim (target_id p) [
  | none ↦ err target_not_found
  | some id ↦ elim (get_node g id) [
    | none ↦ err target_not_found
    | some n ↦ raised (update_node g (target_update c p n))
  ]
]

unfoldable pub execute_action : Graph → Context → Action → Result ActError Graph
execute_action g c a = elim a.kind [
  | Kind.deliver ↦ raised (create_node g (message_node c a))
  | Kind.elicit ↦ raised (create_node g (question_node c a))
  | Kind.write ↦
      if is_update (payload_of a)
      then update_target g c (payload_of a)
      else raised (create_node g (created_node c (payload_of a)))
]

unfoldable pub execute_all : Graph → Context → List Action → Result ActError Graph
execute_all g c [] = ok g
execute_all g c (a ∷ actions) = execute_action g c a >>= λ h. execute_all h c actions

-- The summary of each executed action.
unfoldable pub summaries : List Action → List (String × Kind)
summaries [] = []
summaries (a ∷ actions) = (a.key, a.kind) ∷ summaries actions

-- `writes` is the property of the job that declares its fence.
unfoldable pub execute_actions :
    Graph → Option Value → Context → List Action → Result ActError (List (String × Kind) × Graph)
execute_actions g writes c actions = parse_writes_scope writes >>= λ allowed.
    fence_all g allowed c.space_id actions
    >> (execute_all g c actions >>= λ h. ok (summaries actions, h))

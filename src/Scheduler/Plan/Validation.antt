-- ===== src/Scheduler/Plan/Validation.antt =====
-- `validate_final_plan` of plan.py.
use semantics_toolchain.Prelude.{
  String, Bool, false, not, Option, none, some, List, [], ◌∷◌, if◌then◌else◌, contains, is_empty,
  Result, ok, err, ◌>>◌, require,
}
use semantics_toolchain.Json.{
  Value, Items, Fields, null, str, arr, obj, nil, cons, get, has, unknown_keys, is_str, is_bool,
  is_obj, is_nonempty_str, absent_or, is_text,
}

-- The raise statements of `validate_final_plan`, each a PlanError, and the TypeError that an
-- unhashable `op` raises in the test against a set.
pub data PlanError : Type 0 where
  not_an_object read_request bad_type act_flag unknown_fields : PlanError
  deliver_shape deliver_text deliver_keys deliver_urgent : PlanError
  writes_not_a_list write_not_an_object write_forbidden write_op write_type write_label : PlanError
  write_properties write_node_id write_patch write_keys : PlanError
  elicit_shape elicit_target_field elicit_question elicit_target_node elicit_keys : PlanError
  elicit_default rationale_summary : PlanError
  type_error : PlanError

abbrev pub allowed_top : List String
allowed_top = "type" ∷ "deliver" ∷ "writes" ∷ "elicit" ∷ "rationale_summary" ∷ []

abbrev pub allowed_deliver : List String
allowed_deliver = "text" ∷ "urgent" ∷ []

abbrev pub allowed_create : List String
allowed_create = "op" ∷ "type" ∷ "label" ∷ "properties" ∷ []

abbrev pub allowed_update : List String
allowed_update = "op" ∷ "type" ∷ "node_id" ∷ "patch" ∷ []

abbrev pub allowed_elicit : List String
allowed_elicit = "target_field" ∷ "question" ∷ "target_node" ∷ "default" ∷ []

abbrev pub Check : Type 0
Check = Result PlanError Unit

-- A value that is there and satisfies the test.
unfoldable pub present : (Value → Bool) → Option Value → Bool
present test none = false
present test (some v) = test v

unfoldable pub check_deliver : Value → Check
check_deliver (obj fs) = do
  require (has "text" fs) deliver_shape
  require (present is_str (get "text" fs)) deliver_text
  require (is_empty (unknown_keys allowed_deliver fs)) deliver_keys
  require (absent_or is_bool (get "urgent" fs)) deliver_urgent
check_deliver v = err deliver_shape

-- The tests on `op`: a list or a dict cannot be looked up in a set.
unfoldable pub check_op : Option Value → Check
check_op (some (str op)) = do
  require (not (contains ("share" ∷ "unshare" ∷ "delete" ∷ []) op)) write_forbidden
  require (contains ("create" ∷ "update" ∷ []) op) write_op
check_op (some (arr vs)) = err type_error
check_op (some (obj fs)) = err type_error
check_op op = err write_op

unfoldable pub check_update : Fields → Check
check_update fs = do
  require (present is_nonempty_str (get "node_id" fs)) write_node_id
  require (present is_obj (get "patch" fs)) write_patch
  require (is_empty (unknown_keys allowed_update fs)) write_keys

unfoldable pub check_create : Fields → Check
check_create fs = require (is_empty (unknown_keys allowed_create fs)) write_keys

unfoldable pub check_write : Value → Check
check_write (obj fs) = do
  check_op (get "op" fs)
  require (present is_nonempty_str (get "type" fs)) write_type
  require (absent_or is_str (get "label" fs)) write_label
  require (absent_or is_obj (get "properties" fs)) write_properties
  if is_text "update" (get "op" fs) then check_update fs else check_create fs
check_write v = err write_not_an_object

unfoldable pub check_each : Items → Check
check_each nil = ok tt
check_each (cons v vs) = check_write v >> check_each vs

unfoldable pub check_writes : Option Value → Check
check_writes none = ok tt
check_writes (some null) = ok tt
check_writes (some (arr vs)) = check_each vs
check_writes (some v) = err writes_not_a_list

unfoldable pub check_elicit : Value → Check
check_elicit (obj fs) = do
  require (has "target_field" fs) elicit_shape
  require (present is_str (get "target_field" fs)) elicit_target_field
  require (absent_or is_str (get "question" fs)) elicit_question
  require (absent_or is_str (get "target_node" fs)) elicit_target_node
  require (is_empty (unknown_keys allowed_elicit fs)) elicit_keys
  require (absent_or is_str (get "default" fs)) elicit_default
check_elicit v = err elicit_shape

-- A part that is missing or null is not checked.
unfoldable pub check_part : (Value → Check) → Option Value → Check
check_part check none = ok tt
check_part check (some null) = ok tt
check_part check (some v) = check v

unfoldable pub validate_final_plan : Value → Result PlanError Fields
validate_final_plan (obj fs) = do
  require (not (is_text "read_request" (get "type" fs))) read_request
  require (is_text "final_plan" (get "type" fs)) bad_type
  require (not (has "act" fs)) act_flag
  require (is_empty (unknown_keys allowed_top fs)) unknown_fields
  check_part check_deliver (get "deliver" fs)
  check_writes (get "writes" fs)
  check_part check_elicit (get "elicit" fs)
  require (absent_or is_str (get "rationale_summary" fs)) rationale_summary
  ok fs
validate_final_plan v = err not_an_object

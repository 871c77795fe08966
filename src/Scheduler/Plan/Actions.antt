-- ===== src/Scheduler/Plan/Actions.antt =====
-- `Action` and `canonical_actions` of plan.py.
use Prim.Native.String.{◌++◌ as str_append}
use semantics_toolchain.Prelude.{ℕ, String, Option, none, some, List, [], ◌∷◌, ◌++◌, length}
use semantics_toolchain.Json.{Value, Fields, null, arr, get, to_list}
use semantics_toolchain.Scheduler.Plan.Decimal.{decimal}

pub data Kind : Type 0 where
  deliver write elicit : Kind

pub record Action : Type 0 where
  pub key : String
  pub kind : Kind
  pub payload : Value

-- `f"{occurrence_id}:{index}"`
unfoldable pub action_key : String → ℕ → String
action_key occurrence index = str_append occurrence (str_append ":" (decimal index))

unfoldable pub append_action : String → Kind → Value → List Action → List Action
append_action occurrence kind payload actions =
    actions
    ++ record { key = action_key occurrence (length actions); kind = kind; payload = payload } ∷ []

-- `plan.get(key) is not None`
abbrev pub given : Option Value → Option Value
given none = none
given (some null) = none
given (some v) = some v

unfoldable pub append_given : String → Kind → Option Value → List Action → List Action
append_given occurrence kind none actions = actions
append_given occurrence kind (some v) actions = append_action occurrence kind v actions

unfoldable pub append_writes : String → List Value → List Action → List Action
append_writes occurrence [] actions = actions
append_writes occurrence (v ∷ vs) actions =
    append_writes occurrence vs (append_action occurrence Kind.write v actions)

-- `plan.get("writes") or []` of an accepted plan, where it is a list if it is there.
unfoldable pub planned_writes : Option Value → List Value
unfolding to_list
planned_writes (some (arr vs)) = to_list vs
planned_writes _ = []

unfoldable pub canonical_actions : Fields → String → List Action
canonical_actions plan occurrence =
    let delivered = append_given occurrence Kind.deliver (given (get "deliver" plan)) [] in
    let written = append_writes occurrence (planned_writes (get "writes" plan)) delivered in
    append_given occurrence Kind.elicit (given (get "elicit" plan)) written

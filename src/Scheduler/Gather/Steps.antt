-- ===== src/Scheduler/Gather/Steps.antt =====
-- `validate_gather_steps` with its registry and validators, and `gather_budget_chars`. Python's
-- reading of an ISO date is a parameter.
use semantics_toolchain.Prelude.{
  ℕ, pos, pos_part, ltb_ℤ, String, Bool, true, false, not, Option, none, some, List, [], ◌∷◌, ◌==◌,
  if◌then◌else◌, contains, all, is_empty, Result, ok, err, ◌>>=◌, ◌>>◌, require,
}
use semantics_toolchain.Json.{
  Value, Fields, Items, null, int, str, arr, obj, nil, cons, end, field, get, has, unknown_keys,
  is_str, is_bool, is_obj, to_list,
}
use semantics_toolchain.Json.Convert.{Integer, uuid_of, int_of}

-- The GatherErrors, the TypeError of an unhashable tool name, and a KeyError.
pub data GatherError : Type 0 where
  not_a_list step_not_an_object unknown_tool args_not_an_object unknown_args missing_args :
      GatherError
  bad_argument step_keys bad_budget step_failed no_creator no_space : GatherError
  type_error key_error : GatherError

-- `_v_uuid`, `_v_int` with its minimum, and so on.
pub data Validator : Type 0 where
  uuid boolean text object texts direction date : Validator
  at_least : ℕ → Validator

unfoldable pub lookup {ℓ} : {A : Type ℓ} → String → List (String × A) → Option A
lookup k [] = none
lookup k ((j, v) ∷ rows) = if k == j then some v else lookup k rows

-- The allowed and the required arguments of each tool.
abbrev pub registry : List (String × (List String × List String))
registry =
    ("get", ("node_id" ∷ [], "node_id" ∷ []))
    ∷ ("search", ("query" ∷ "filters" ∷ "limit" ∷ [], []))
    ∷ ("traverse", ("start" ∷ "edges" ∷ "direction" ∷ "depth" ∷ [], "start" ∷ []))
    ∷ ("timeline", ("entity_id" ∷ "since" ∷ "limit" ∷ [], []))
    ∷ ("explain", ("node_id" ∷ [], "node_id" ∷ []))
    ∷ ("recent_nodes_context", ("hours" ∷ "neighbors_k" ∷ "include_properties" ∷ "limit" ∷ [], []))
    ∷ []

abbrev pub validators : List (String × List (String × Validator))
validators =
    ("get", ("node_id", uuid) ∷ [])
    ∷ ("search", ("query", text) ∷ ("filters", object) ∷ ("limit", at_least 1) ∷ [])
    ∷ (
      "traverse",
      ("start", uuid) ∷ ("edges", texts) ∷ ("direction", direction) ∷ ("depth", at_least 1) ∷ [],
    )
    ∷ ("timeline", ("entity_id", uuid) ∷ ("since", date) ∷ ("limit", at_least 1) ∷ [])
    ∷ ("explain", ("node_id", uuid) ∷ [])
    ∷ (
      "recent_nodes_context",
      ("hours", at_least 1)
          ∷ ("neighbors_k", at_least 0)
          ∷ ("include_properties", boolean)
          ∷ ("limit", at_least 1)
          ∷ [],
    )
    ∷ []

unfoldable pub is_at_least : ℕ → Value → Bool
is_at_least m v = elim (int_of v) [ Integer.number z ↦ not (ltb_ℤ z (pos m)) | _ ↦ false ]

unfoldable pub is_text_list : Value → Bool
unfolding to_list is_str
is_text_list (arr vs) = all is_str (to_list vs)
is_text_list v = false

unfoldable pub is_direction : Value → Bool
is_direction (str s) = contains ("in" ∷ "out" ∷ "both" ∷ []) s
is_direction v = false

-- `step.get("args")`, and `{}` for None.
unfoldable pub step_args : Fields → Result GatherError Fields
step_args fs = elim (get "args" fs) [
  | none ↦ ok end
  | some null ↦ ok end
  | some (obj args) ↦ ok args
  | some v ↦ err args_not_an_object
]

module _ (is_date : Value → Bool) where
  unfoldable pub passes : Validator → Value → Bool
  unfolding is_at_least is_text_list is_direction is_str is_bool is_obj
  passes Validator.uuid v = elim (uuid_of v) [ none ↦ false | some i ↦ true ]
  passes Validator.boolean v = is_bool v
  passes Validator.text v = is_str v
  passes Validator.object v = is_obj v
  passes Validator.texts v = is_text_list v
  passes Validator.direction v = is_direction v
  passes Validator.date v = is_date v
  passes (Validator.at_least m) v = is_at_least m v

  -- `checks[arg](value)` for each argument.
  unfoldable pub check_args : List (String × Validator) → Fields → Result GatherError Unit
  unfolding lookup
  check_args checks end = ok tt
  check_args checks (field k v args) = elim (lookup k checks) [
    | none ↦ err key_error
    | some c ↦ require (passes c v) bad_argument >> check_args checks args
  ]

  unfoldable pub check_values : String → Fields → Result GatherError Unit
  unfolding lookup
  check_values tool args = elim (lookup tool validators) [
    | none ↦ err key_error
    | some checks ↦ check_args checks args
  ]

  unfoldable pub check_contract :
      String → List String → List String → Fields → Fields → Result GatherError Unit
  unfolding unknown_keys has
  check_contract tool allowed required fs args =
      require (is_empty (unknown_keys allowed args)) unknown_args
      >> require (all (λ k. has k args) required) missing_args
      >> check_values tool args
      >> require (is_empty (unknown_keys ("tool" ∷ "args" ∷ []) fs)) step_keys

  unfoldable pub check_tool : String → Fields → Result GatherError Unit
  unfolding lookup
  check_tool tool fs = elim (lookup tool registry) [
    | none ↦ err unknown_tool
    | some (allowed, required) ↦
        step_args fs >>= λ args. check_contract tool allowed required fs args
  ]

  unfoldable pub check_step : Value → Result GatherError Unit
  check_step (obj fs) = elim (get "tool" fs) [
    | some (str tool) ↦ check_tool tool fs
    | some (arr vs) ↦ err type_error
    | some (obj gs) ↦ err type_error
    | _ ↦ err unknown_tool
  ]
  check_step v = err step_not_an_object

  unfoldable pub check_steps : Items → Result GatherError Unit
  check_steps nil = ok tt
  check_steps (cons v vs) = check_step v >> check_steps vs

  unfoldable pub validate_gather_steps : Value → Result GatherError Unit
  validate_gather_steps (arr vs) = check_steps vs
  validate_gather_steps v = err not_a_list

abbrev pub default_gather_chars : ℕ
default_gather_chars = 24000

unfoldable pub budget_chars : Value → Result GatherError ℕ
budget_chars v = elim (int_of v) [
  | Integer.number z ↦ ok (if ltb_ℤ z (pos 1) then 1 else pos_part z)
  | _ ↦ err bad_budget
]

unfoldable pub gather_budget_chars : Fields → Result GatherError ℕ
unfolding budget_chars
gather_budget_chars props = elim (get "budget" props) [
  | none ↦ ok default_gather_chars
  | some null ↦ ok default_gather_chars
  | some (obj fs) ↦
      budget_chars
        (elim (get "gather_chars" fs) [ none ↦ int (pos default_gather_chars) | some v ↦ v ])
  | some v ↦ err bad_budget
]

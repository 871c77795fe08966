-- ===== src/Scheduler/Plan/Examples.antt =====
-- Runs of the plan code, and the theorems about it at a concrete plan.
use semantics_toolchain.Prelude.{true, some, [], ◌∷◌, map, ◌≡◌, refl, ok, err, get_elem?}
use semantics_toolchain.Json.{
  Value, Fields, null, bool, str, arr, obj, nil, cons, end, field, get, has, unknown_keys, is_str,
  is_bool, is_obj, is_nonempty_str, absent_or, is_text,
}
use semantics_toolchain.Scheduler.Plan.{
  validate_final_plan, check_part, check_deliver, check_writes, check_each, check_write, check_op,
  check_update, check_create, check_elicit, present, canonical_actions, append_given, append_writes,
  append_action, planned_writes, Kind, action_key, decimal, unknown_fields, write_keys, type_error,
  read_request,
}
use semantics_toolchain.Scheduler.Plan.Contract.{AllSound, canonical_actions-AllSound}

abbrev message : Value
message = obj (field "text" (str "done") (field "urgent" (bool true) end))

abbrev creation : Value
creation = obj (field "op" (str "create") (field "type" (str "Fact") (field "label" (str "a") end)))

abbrev revision : Value
revision = obj (
    field "op" (str "update") (
      field "type" (str "Fact") (
        field "node_id" (str "00000000-0000-0000-0000-000000000001")
          (field "patch" (obj end) end))))

abbrev question : Value
question = obj (field "target_field" (str "due") (field "question" (str "when?") end))

abbrev sample : Fields
sample = field "type" (str "final_plan") (
    field "deliver" message
      (field "writes" (arr (cons creation (cons revision nil))) (field "elicit" question end)))

program : Unit {0}
unfolding validate_final_plan check_part check_deliver check_writes check_each check_write check_op
    check_update check_create check_elicit present get has unknown_keys is_str is_bool is_obj
    is_nonempty_str absent_or is_text canonical_actions append_given append_writes append_action
    planned_writes action_key decimal
program = tt

sample_accepted : validate_final_plan (obj sample) ≡ ok sample
unfolding program
sample_accepted = refl

sample_keys :
    map (λ a. a.key) (canonical_actions sample "n:t") ≡ "n:t:0" ∷ "n:t:1" ∷ "n:t:2" ∷ "n:t:3" ∷ []
unfolding program
sample_keys = refl

abbrev with_writes : Value → Value
with_writes w = obj (field "type" (str "final_plan") (field "writes" (arr (cons w nil)) end))

refusals :
    (validate_final_plan (obj (field "type" (str "read_request") end)) ≡ err read_request)
    × (validate_final_plan (obj (field "type" (str "final_plan") (field "to" null end)))
        ≡ err unknown_fields)
    × (validate_final_plan (
          with_writes
            (obj (field "op" (str "create") (field "type" (str "F") (field "node_id" null end)))))
        ≡ err write_keys)
    × (validate_final_plan (with_writes (obj (field "op" (arr nil) end))) ≡ err type_error)
unfolding program
refusals = (refl, refl, refl, refl)

canonical_actions-AllSound_example : AllSound (canonical_actions sample "n:t")
canonical_actions-AllSound_example = canonical_actions-AllSound (obj sample) "n:t" sample_accepted

second_action :
    get_elem? (canonical_actions sample "n:t") 1
    ≡ some (record { key = "n:t:1"; kind = Kind.write; payload = creation })
unfolding program
second_action = refl

third_action :
    get_elem? (canonical_actions sample "n:t") 2
    ≡ some (record { key = "n:t:2"; kind = Kind.write; payload = revision })
unfolding program
third_action = refl

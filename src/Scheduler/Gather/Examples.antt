-- ===== src/Scheduler/Gather/Examples.antt =====
-- Gather steps that are accepted and refused, and the theorem about them.
use semantics_toolchain.Prelude.{
  ◌+◌, ◌+◌, ◌<◌, ◌<◌, ◌≤◌, ◌≤◌, length, [], ◌++◌, ◌∷◌, ◌++◌, ◌∷◌, List, some, Option, pos, negsuc,
  String, Bool, false, ◌≡◌, refl, ok, err, All,
}
use semantics_toolchain.Json.{
  truthy, Value, Fields, Items, int, str, arr, obj, nil, cons, end, field, get, has, keys,
  unknown_keys, to_list, is_str, is_bool, is_obj,
}
use semantics_toolchain.Json.Convert.{uuid_of, int_of}
use semantics_toolchain.Scheduler.Gather.{
  lookup, step_args, passes, is_at_least, is_text_list, is_direction, check_args, check_values,
  check_contract, check_tool, check_step, check_steps, validate_gather_steps, missing_args,
  bad_argument, type_error, unknown_tool, gather_budget_chars, budget_chars, text_length, cost,
  joined, kept_blocks, truncation_note, with_note, assembled, run_step, run_each, run_blocks,
  run_steps, block_text, effective_principal, declared_steps, run_gather, Stats,
}
use semantics_toolchain.Scheduler.Gather.Budget.{run_steps-fits, total}
use semantics_toolchain.Scheduler.Plan.{decimal}
use semantics_toolchain.Access.{Access}
use semantics_toolchain.Scheduler.Gather.Contract.{IsRunnable, validate_gather_steps-AllRunnable}

program : Unit {0}
unfolding lookup step_args passes is_at_least is_text_list is_direction check_args check_values
    check_contract check_tool check_step check_steps validate_gather_steps get has keys unknown_keys
    to_list is_str is_bool is_obj uuid_of int_of gather_budget_chars budget_chars text_length cost
    joined kept_blocks truncation_note with_note assembled run_step run_each run_blocks run_steps
    block_text effective_principal declared_steps run_gather truthy decimal
program = tt

abbrev no_date : Value → Bool
no_date v = false

abbrev gather_step : String → Fields → Value
gather_step tool args = obj (field "tool" (str tool) (field "args" (obj args) end))

abbrev start : Fields
start = field "start" (str "00000000-0000-0000-0000-00000000000f") end

abbrev steps : Items
steps =
    cons (gather_step "search" (field "limit" (str "5") end))
      (cons (gather_step "traverse" start) nil)

steps_accepted : validate_gather_steps no_date (arr steps) ≡ ok tt
unfolding program
steps_accepted = refl

refusals :
    (validate_gather_steps no_date (arr (cons (gather_step "traverse" end) nil)) ≡ err missing_args)
    × (validate_gather_steps no_date
          (arr (cons (gather_step "search" (field "limit" (int (pos 0)) end)) nil))
        ≡ err bad_argument)
    × (validate_gather_steps no_date (arr (cons (gather_step "write" end) nil)) ≡ err unknown_tool)
    × (validate_gather_steps no_date (arr (cons (obj (field "tool" (arr nil) end)) nil))
        ≡ err type_error)
    × (gather_budget_chars (field "budget" (obj (field "gather_chars" (int (negsuc 4)) end)) end)
        ≡ ok 1)
unfolding program
refusals = (refl, refl, refl, refl, refl)

validate_gather_steps-AllRunnable_example : All (IsRunnable no_date) (to_list steps)
validate_gather_steps-AllRunnable_example =
    validate_gather_steps-AllRunnable no_date steps steps_accepted

abbrev ten_letters : Access → String → Fields → Option String
ten_letters a name args = some "abcdefghij"

abbrev no_text : Value → String
no_text v = ""

abbrev reading_as : Access
reading_as = record { account_id = 7; scopes = some (3 ∷ []) }

abbrev gathered : String × Stats
gathered = (
  "## gather step 0: search \nabcdefghij\n\n[gather truncated: 1 step result(s) dropped to fit the context budget]",
  record { steps = 2; chars = 108; budget_chars = 60; dropped_blocks = 1 },
)

gather_made : run_steps ten_letters no_text no_date reading_as (arr steps) 60 ≡ ok gathered
unfolding program
gather_made = refl

run_steps-fits_example :
    (blocks kept rest : List String) × (blocks ≡ kept ++ rest)
    × (run_each ten_letters no_text no_date reading_as 0 steps ≡ ok blocks)
    × (length blocks ≡ length (to_list steps))
    × (gathered.0 ≡ joined (with_note (length rest) kept))
    × (text_length (joined kept) ≤ 60)
    × ((b : String) (more : List String) → rest ≡ b ∷ more → 60 < total kept + cost b)
    × (1 ≡ length rest)
run_steps-fits_example = run_steps-fits ten_letters no_text no_date reading_as steps 60 gather_made

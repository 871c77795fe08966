-- ===== src/Scheduler/Runner/Examples.antt =====
-- A job whose plan delivers a message, processed and left out of the next pass.
use semantics_toolchain.Prelude.{
  length, ℕ, ◌+◌, ◌*◌, String, true, false, Option, none, some, [], ◌∷◌, ◌≡◌, refl, arith, pos,
  Result, ok, err, ◌⊎◌,
}
use semantics_toolchain.Json.{
  Value, Fields, bool, int, str, arr, obj, nil, cons, end, field, get, has, put, merge, truthy,
  keys, unknown_keys, is_text, is_str, is_none, absent_or, to_list, is_bool, is_obj,
}
use semantics_toolchain.Json.Convert.{int_of}
use semantics_toolchain.Graph.{
  Graph, Node, Version, GraphError, update_node, create_node, write_version, get_node, live,
  find_node, find_version, write_node, same_id, is_acceptable, is_registered, assoc,
}
use semantics_toolchain.Graph.Versions.{IsWellFormed}
use semantics_toolchain.Scheduler.Job.{
  iso, as_text, is_enabled, at_most, is_unclaimed, is_due, take_nodes, all_due, due_jobs,
  with_object, attached, patch_node, claimed, claim_job, finish_patch, next_run_patch, finish_job,
  kind, is_kind, trigger, spec, seconds_of, plus_seconds, advance, supported_kind, is_recurring,
  has_predicate, predicate,
}
use semantics_toolchain.Scheduler.Plan.{
  validate_final_plan, canonical_actions, present, check_op, check_update, check_create,
  check_write, check_each, check_writes, check_deliver, check_elicit, check_part, append_action,
  append_given, append_writes, planned_writes, action_key,
}
use semantics_toolchain.Scheduler.Act.{
  execute_actions, parse_writes_scope, execute_all, execute_action, message_node, delivery_node,
  delivery_properties, take_text, text_field, raised, summaries, writes_types, writes_list,
  fence_all, fence_action, payload_of,
}
use semantics_toolchain.Scheduler.Reasoning.{output}
use semantics_toolchain.Scheduler.Runner.Summary.{run_source_ref}
use semantics_toolchain.Scheduler.Runner.Execution.{Outside, Escape, type_error, execute}
use semantics_toolchain.Scheduler.Runner.Processing.{uuid_text, process, tick, sleep_time}
use semantics_toolchain.Scheduler.Runner.Containment.{Outlying, execute-confined}
use semantics_toolchain.Scheduler.Runner.Endings.{Ending, process-Ends}
use semantics_toolchain.Scheduler.Runner.Handlers.{is_unhandled}

program : Unit {0}
unfolding process tick execute sleep_time uuid_text kind is_kind trigger spec seconds_of
    plus_seconds advance supported_kind is_recurring has_predicate predicate is_none int_of as_text
    is_enabled at_most is_unclaimed is_due take_nodes all_due due_jobs with_object attached
    patch_node claimed claim_job finish_patch next_run_patch finish_job update_node create_node
    write_version get_node live find_node write_node same_id is_acceptable is_registered assoc get
    has put merge truthy keys unknown_keys is_text is_str is_bool is_obj absent_or to_list present
    check_op check_update check_create check_write check_each check_writes check_deliver
    check_elicit check_part validate_final_plan append_action append_given append_writes
    planned_writes action_key canonical_actions execute_actions execute_all execute_action
    message_node delivery_node delivery_properties take_text text_field raised summaries
    parse_writes_scope writes_types writes_list fence_all fence_action payload_of run_source_ref iso
    is_unhandled
program = tt

abbrev hourly : Fields
hourly =
    field "kind" (str "interval") (field "spec" (obj (field "seconds" (int (pos 3600)) end)) end)

abbrev job_properties : Fields
job_properties =
    field "enabled" (bool true)
      (field "trigger" (obj hourly) (field "next_run" (str "2022-03-01T01:01:01.000000+00:00") end))

abbrev job : Node
job = record {
  id = 1;
  type = "ScheduledJob";
  label = none;
  properties = job_properties;
  status = "current";
  sensitivity = none;
  origin_space = some 3;
  created_by = some 7;
  deleted = false;
  current_version = some 2;
}

abbrev job_version : Version
job_version = record {
  id = 2;
  node_id = 1;
  label = none;
  properties = job_properties;
  status = "current";
  source_ref = none;
  author = some 7;
}

abbrev schedule : Graph
schedule = record {
  nodes = job ∷ [];
  versions = job_version ∷ [];
  edges = [];
  node_spaces = [];
  edge_spaces = [];
  memberships = [];
  node_types = ("Delivery", "") ∷ [];
  edge_types = [];
  next_id = 3;
}

-- 2022-03-01T01:01:01
abbrev fire_time : ℕ
fire_time = 738214 * (86400 * 1000000) + 3661000000

abbrev answering : Value → Outside
answering v = record {
  reasoner = λ context. output v;
  tool_text = λ a name args. none;
  dumps = λ w. "";
  is_date = λ w. false;
  croniter = λ expr now. none;
  message = λ f. "";
}

abbrev greeting : Value
greeting =
    obj
      (field "type" (str "final_plan") (field "deliver" (obj (field "text" (str "hello") end)) end))

abbrev listed_op : Value
listed_op = obj (
    field "type" (str "final_plan")
      (field "writes" (arr (cons (obj (field "op" (arr nil) end)) nil)) end))

abbrev blank : Value → String
blank v = ""

fired_once : (tick (answering greeting) 9 fire_time blank 600 schedule).1 ≡ 1
unfolding program
fired_once = refl

abbrev passed : Graph
unfolding program
passed = (tick (answering greeting) 9 fire_time blank 600 schedule).0

-- In the pass a delivery is made, and an hour later the job is due again.
passes :
    (length passed.nodes ≡ 2)
    × ((tick (answering greeting) 9 (fire_time + 1) blank 600 passed).1 ≡ 0)
    × ((tick (answering greeting) 9 (fire_time + 3600 * 1000000) blank 600 passed).1 ≡ 1)
unfolding program
passes = (refl, refl, refl)

-- A plan with a list for an operation raises, and the job stays claimed.
stays_claimed :
    ((process (answering listed_op) 9 fire_time schedule job).1 ≡ err type_error)
    × (length (process (answering listed_op) 9 fire_time schedule job).0.versions ≡ 2)
unfolding program
stays_claimed = (refl, refl)

pauses :
    (sleep_time 30 100 none ≡ 30000000)
    × (sleep_time 30 100 (some 50) ≡ 1000000)
    × (sleep_time 30 100 (some 2000100) ≡ 2000000)
    × (uuid_text 255 ≡ "00000000-0000-0000-0000-0000000000ff")
unfolding program
pauses = (refl, refl, refl, refl)

schedule-IsWellFormed : IsWellFormed schedule
unfolding find_version
schedule-IsWellFormed = record {
  version_ids = (omega arith, tt);
  node_ids = (omega arith, tt);
  current = (
    record {
      version = job_version;
      current = refl;
      found = refl;
      node_id = refl;
      label = refl;
      properties = refl;
      status = refl;
    },
    tt,
  );
}

abbrev row_after : Result GraphError (Option (Node × Graph)) → Node
row_after (ok (some (m, h))) = m
row_after _ = job

abbrev graph_after : Result GraphError (Option (Node × Graph)) → Graph
graph_after (ok (some (m, h))) = h
graph_after _ = schedule

abbrev claimed_job : Node
unfolding program
claimed_job = row_after (claim_job schedule job 9 fire_time)

abbrev taken : Graph
unfolding program
taken = graph_after (claim_job schedule job 9 fire_time)

claim_accepted : claim_job schedule job 9 fire_time ≡ ok (some (claimed_job, taken))
unfolding program
claim_accepted = refl

supported : supported_kind job_properties ≡ true
unfolding program
supported = refl

process-Ends_example :
    ((e : Escape) × ((process (answering greeting) 9 fire_time schedule job).1 ≡ err e)
      × (is_unhandled e ≡ true))
    ⊎ (fired : ℕ) × ((process (answering greeting) 9 fire_time schedule job).1 ≡ ok fired)
      × Ending
          (answering greeting)
          9
          fire_time
          schedule
          job
          claimed_job
          taken
          fired
          (process (answering greeting) 9 fire_time schedule job).0
process-Ends_example =
    process-Ends (answering greeting) 9 fire_time schedule job supported claim_accepted

abbrev ended : Result Escape (Fields × Graph) → Fields × Graph
ended (ok e) = e
ended (err e) = (end, schedule)

abbrev run : Fields × Graph
unfolding program
run = ended (execute (answering greeting) taken job_properties claimed_job 9 "o")

run_ends : execute (answering greeting) taken job_properties claimed_job 9 "o" ≡ ok run
unfolding program
run_ends = refl

execute-confined_example :
    (has "error" run.0 ≡ true → run.1 ≡ taken)
    × ((i : ℕ) (x : Node)
        → find_node i taken.nodes ≡ some x
        → Outlying (answering greeting) taken job_properties claimed_job 9 "o" x
        → find_node i run.1.nodes ≡ some x)
execute-confined_example =
    execute-confined (answering greeting) taken job_properties claimed_job 9 "o" run_ends

-- ===== src/Scheduler/Job/Examples.antt =====
-- A job that is claimed, run and finished, and the theorems about it.
use semantics_toolchain.Prelude.{
  Result, arith, ℕ, ◌+◌, ◌-◌, ◌*◌, pos, String, true, false, some, none, [], ◌∷◌, ◌≡◌, refl, ok,
  err, Option,
}
use semantics_toolchain.Json.{
  Value, Fields, null, bool, int, str, obj, end, field, get, has, put, merge, truthy,
}
use semantics_toolchain.Json.Convert.{int_of}
use semantics_toolchain.Graph.{
  find_version, Graph, Node, Version, GraphError, update_node, write_version, get_node, live,
  find_node, write_node, same_id,
}
use semantics_toolchain.Graph.Versions.{IsWellFormed}
use semantics_toolchain.Scheduler.Job.{
  iso, as_text, is_enabled, at_most, is_unclaimed, is_due, take_nodes, all_due, due_jobs, next_due,
  with_object, attached, patch_node, claimed, claim_job, next_run_patch, finish_patch, finish_job,
  overflow_error, kind, is_kind, trigger, spec, seconds_of, plus_seconds, advance,
}
use semantics_toolchain.Scheduler.Job.Claims.{finish_job-releases}

program : Unit {0}
unfolding as_text is_enabled at_most is_unclaimed is_due take_nodes all_due due_jobs next_due
    with_object attached patch_node claimed claim_job next_run_patch finish_patch finish_job get has
    put merge truthy int_of update_node write_version get_node live find_node write_node same_id
    kind is_kind trigger spec seconds_of plus_seconds advance iso
program = tt

abbrev hourly : Fields
hourly =
    field "kind" (str "interval") (field "spec" (obj (field "seconds" (int (pos 3600)) end)) end)

abbrev job_properties : Fields
job_properties =
    field "enabled" (bool true)
      (field "trigger" (obj hourly) (field "next_run" (str "2022-03-01T01:01:01.000000+00:00") end))

abbrev job : Node
job = record {
  id = 1;
  type = "ScheduledJob";
  label = none;
  properties = job_properties;
  status = "current";
  sensitivity = none;
  origin_space = some 3;
  created_by = some 7;
  deleted = false;
  current_version = some 2;
}

abbrev job_version : Version
job_version = record {
  id = 2;
  node_id = 1;
  label = none;
  properties = job_properties;
  status = "current";
  source_ref = none;
  author = some 7;
}

abbrev schedule : Graph
schedule = record {
  nodes = job ∷ [];
  versions = job_version ∷ [];
  edges = [];
  node_spaces = [];
  edge_spaces = [];
  memberships = [];
  node_types = [];
  edge_types = [];
  next_id = 3;
}

-- 2022-03-01T01:01:01, and an hour later.
abbrev fire_time : ℕ
fire_time = 738214 * (86400 * 1000000) + 3661000000

abbrev hour_later : ℕ
hour_later = 738214 * (86400 * 1000000) + 7261000000

abbrev blank : Value → String
blank v = ""

due_now :
    (is_due blank fire_time 600 job ≡ true)
    × (is_due blank (fire_time - 1) 600 job ≡ false)
    × (next_due blank (job ∷ []) ≡ some "2022-03-01T01:01:01.000000+00:00")
unfolding program
due_now = (refl, refl, refl)

schedule-IsWellFormed : IsWellFormed schedule
unfolding find_version
schedule-IsWellFormed = record {
  version_ids = (omega arith, tt);
  node_ids = (omega arith, tt);
  current = (
    record {
      version = job_version;
      current = refl;
      found = refl;
      node_id = refl;
      label = refl;
      properties = refl;
      status = refl;
    },
    tt,
  );
}

abbrev row_after : Result GraphError (Option (Node × Graph)) → Node
row_after (ok (some (m, h))) = m
row_after _ = job

abbrev graph_after : Result GraphError (Option (Node × Graph)) → Graph
graph_after (ok (some (m, h))) = h
graph_after _ = schedule

abbrev claimed_job : Node
unfolding program
claimed_job = row_after (claim_job schedule job 7 fire_time)

abbrev taken : Graph
unfolding program
taken = graph_after (claim_job schedule job 7 fire_time)

claim_accepted : claim_job schedule job 7 fire_time ≡ ok (some (claimed_job, taken))
unfolding program
claim_accepted = refl

lease_passed :
    (is_due blank hour_later 600 claimed_job ≡ true)
    × (is_due blank hour_later 7200 claimed_job ≡ false)
unfolding program
lease_passed = (refl, refl)

abbrev finished : Result GraphError (Node × Graph) → Result GraphError (Option (Node × Graph))
finished (ok p) = ok (some p)
finished (err e) = err e

abbrev finished_job : Node
unfolding program
finished_job = row_after (finished (finish_job taken claimed_job 7 hour_later none true end none))

abbrev released : Graph
unfolding program
released = graph_after (finished (finish_job taken claimed_job 7 hour_later none true end none))

finish_accepted :
    finish_job taken claimed_job 7 hour_later none true end none ≡ ok (finished_job, released)
unfolding program
finish_accepted = refl

plain_end :
    (has "claimed_at" end ≡ false) × (has "enabled" end ≡ false) × (has "next_run" end ≡ false)
unfolding program
plain_end = (refl, refl, refl)

finish_job-releases_example :
    (get "claimed_at" finished_job.properties ≡ some null)
    × (true ≡ true → (later lease : ℕ) → is_due blank later lease finished_job ≡ false)
    × (true ≡ false → get "next_run" finished_job.properties ≡ some (next_run_patch none))
finish_job-releases_example =
    finish_job-releases blank taken claimed_job 7 hour_later none true end none plain_end
      finish_accepted

abbrev daily : String → ℕ → Option ℕ
daily expr now = some (now + 86400 * 1000000)

interval_reads :
    (is_kind "interval" (kind job_properties) ≡ true)
    × (spec job_properties ≡ ok (field "seconds" (int (pos 3600)) end))
    × (seconds_of (field "seconds" (int (pos 3600)) end) ≡ ok (pos 3600))
unfolding program
interval_reads = (refl, refl, refl)

abbrev endless : Fields
endless =
    field "kind" (str "interval")
      (field "spec" (obj (field "seconds" (int (pos 400000000000)) end)) end)

-- An interval of more than ten thousand years is a number of seconds like any other.
endless_overflows : advance daily (field "trigger" (obj endless) end) fire_time ≡ err overflow_error
unfolding program
endless_overflows = refl

-- ===== src/Scheduler/Authoring/Examples.antt =====
-- New jobs that are accepted and refused, and the theorem about them.
use semantics_toolchain.Prelude.{
  ◌*◌, ◌*◌, ℕ, ◌+◌, pos, String, true, false, some, none, [], ◌∷◌, ◌≡◌, refl, ok, err, Option,
}
use semantics_toolchain.Json.{Value, Fields, bool, int, str, obj, end, field, get, has, put, truthy}
use semantics_toolchain.Json.Convert.{int_of}
use semantics_toolchain.Scheduler.Job.{is_kind, kind, trigger, advance, iso}
use semantics_toolchain.Scheduler.Authoring.{
  spec_of, forward_seconds, parse_time, or_now, time_given, first_cron, first_run, initial_next_run,
  build_job_properties, no_time, small_seconds, unsupported_kind, no_instruction,
}
use semantics_toolchain.Scheduler.Authoring.Schedulable.{Advances, initial_next_run-Advances}

program : Unit {0}
unfolding spec_of forward_seconds parse_time or_now time_given first_cron first_run initial_next_run
    build_job_properties is_kind kind trigger get has put truthy int_of
program = tt

abbrev daily : String → ℕ → Option ℕ
daily expr now = some (now + 86400 * 1000000)

abbrev unreadable : String → Option ℕ
unreadable s = none

abbrev interval : Value → Fields
interval seconds =
    field "kind" (str "interval") (field "spec" (obj (field "seconds" seconds end)) end)

abbrev job : Fields
job = field "trigger" (obj (interval (str "3600"))) end

accepted : initial_next_run daily unreadable (obj (interval (str "3600"))) 5 ≡ ok 5
unfolding program
accepted = refl

built :
    build_job_properties daily unreadable "look"
      (obj (interval (str "3600")))
      5
      true
      (("tools", none) ∷ ("agency", some (str "autonomous")) ∷ [])
    ≡ ok (
        field "enabled" (bool true) (
          field "trigger" (obj (interval (str "3600"))) (
            field "instruction"
              (str "look")
              (field "next_run" (str (iso 5)) (field "agency" (str "autonomous") end)))))
unfolding program
built = refl

refusals :
    (initial_next_run daily unreadable (obj (interval (int (pos 0)))) 5 ≡ err small_seconds)
    × (initial_next_run daily unreadable (obj (field "kind" (str "one_shot") end)) 5 ≡ err no_time)
    × (initial_next_run daily unreadable (obj (field "kind" (str "event") end)) 5
        ≡ err unsupported_kind)
    × (build_job_properties daily unreadable "" (obj (interval (int (pos 1)))) 5 true []
        ≡ err no_instruction)
unfolding program
refusals = (refl, refl, refl, refl)

job_reads : (trigger job ≡ interval (str "3600")) × (is_kind "cron" (kind job) ≡ false)
unfolding program
job_reads = (refl, refl)

initial_next_run-Advances_example : Advances (advance daily job 7)
initial_next_run-Advances_example =
    initial_next_run-Advances daily unreadable job (interval (str "3600")) 5 7 5 job_reads.0
      accepted job_reads.1

-- ===== src/Scheduler/Runner/Summary.antt =====
-- The run summary that an occurrence leaves in its job, and `_run_source_ref`. The text of an error,
-- which the code formats from the offending values, is a parameter.
use Prim.Native.String.{◌++◌ as str_append}
use semantics_toolchain.Prelude.{ℕ, String, Option, none, some, List, [], ◌∷◌, length, pos}
use semantics_toolchain.Json.{
  Value, Fields, Items, null, int, str, arr, obj, nil, cons, end, field, get, to_list,
}
use semantics_toolchain.Scheduler.Predicate.{Malformed}
use semantics_toolchain.Scheduler.Plan.{PlanError, Kind, decimal}
use semantics_toolchain.Scheduler.Act.{ActError, take_text}
use semantics_toolchain.Scheduler.Gather.{GatherError, Stats}
use semantics_toolchain.Scheduler.Job.{AdvanceError, iso}

-- Why an occurrence failed, each recorded in its job.
pub data Failure : Type 0 where
  autonomous : Failure
  gather : GatherError → Failure
  reason reason_transport : String → Failure
  plan : PlanError → Failure
  no_space : Failure
  bad_delivery : Value → Failure
  fence act : ActError → Failure
  one_shot_predicate unscoped unknown_op : Failure
  malformed : Malformed → Failure
  cannot_advance : AdvanceError → Failure

unfoldable pub stage : Failure → String
stage autonomous = "agency"
stage (gather e) = "gather"
stage (reason s) = "reason"
stage (reason_transport s) = "reason_transport"
stage (plan e) = "plan"
stage no_space = "space"
stage (bad_delivery v) = "delivery"
stage (fence e) = "fence"
stage (act e) = "act"
stage one_shot_predicate = "predicate"
stage unscoped = "predicate"
stage unknown_op = "predicate"
stage (malformed e) = "predicate"
stage (cannot_advance e) = "advance"

-- `_failed`
unfoldable pub failed : (Failure → String) → String → Failure → Fields
unfolding stage take_text
failed message occurrence f = field "occurrence_id" (str occurrence) (
    field "error"
      (obj (field "stage" (str (stage f)) (field "detail" (str (take_text 300 (message f))) end)))
      end)

unfoldable pub kind_text : Kind → String
kind_text Kind.deliver = "deliver"
kind_text Kind.write = "write"
kind_text Kind.elicit = "elicit"

-- The summaries that `execute_actions` returns.
unfoldable pub executed : List (String × Kind) → Items
unfolding kind_text
executed [] = nil
executed ((key, kind) ∷ rest) =
    cons (obj (field "key" (str key) (field "kind" (str (kind_text kind)) end))) (executed rest)

unfoldable pub stats_fields : Stats → Fields
stats_fields s = field "steps" (int (pos s.steps)) (
    field "chars" (int (pos s.chars)) (
      field "budget_chars" (int (pos s.budget_chars))
        (field "dropped_blocks" (int (pos s.dropped_blocks)) end)))

unfoldable pub gather_entry : Option Stats → Fields
unfolding stats_fields
gather_entry none = end
gather_entry (some s) = field "gather" (obj (stats_fields s)) end

unfoldable pub idle_summary : String → Option Stats → Fields
unfolding gather_entry
idle_summary occurrence stats =
    field "occurrence_id" (str occurrence) (field "actions" (arr nil) (gather_entry stats))

unfoldable pub executed_summary : String → List (String × Kind) → Fields → Option Stats → Fields
unfolding executed gather_entry
executed_summary occurrence report plan_fields stats = field "occurrence_id" (str occurrence) (
    field "actions" (arr (executed report)) (
      field "rationale" (elim (get "rationale_summary" plan_fields) [ none ↦ null | some v ↦ v ])
        (gather_entry stats)))

-- `a.get(key, default)` of a summary that the runner made, where the value is a text.
unfoldable pub text_at : String → String → Fields → String
text_at key default fs = elim (get key fs) [ some (str s) ↦ s | _ ↦ default ]

unfoldable pub kinds_of : List Value → List String
unfolding text_at
kinds_of [] = []
kinds_of (obj fs ∷ vs) = text_at "kind" "?" fs ∷ kinds_of vs
kinds_of (v ∷ vs) = "?" ∷ kinds_of vs

-- `", ".join(kinds)`
unfoldable pub comma_joined : List String → String
comma_joined [] = ""
comma_joined (k ∷ []) = k
comma_joined (k ∷ l ∷ ks) = str_append k (str_append ", " (comma_joined (l ∷ ks)))

unfoldable pub summary_actions : Fields → List Value
unfolding to_list
summary_actions summary = elim (get "actions" summary) [ some (arr vs) ↦ to_list vs | _ ↦ [] ]

unfoldable pub ran_text : List Value → String
unfolding kinds_of comma_joined
ran_text [] = "0 action(s) [no-op]"
ran_text (v ∷ vs) =
    str_append (decimal (length (v ∷ vs)))
      (str_append " action(s) [" (str_append (comma_joined (kinds_of (v ∷ vs))) "]"))

unfoldable pub result_text : Fields → String
unfolding text_at take_text summary_actions ran_text
result_text summary = elim (get "error" summary) [
  | some (obj error) ↦ str_append "FAILED at " (
      str_append (text_at "stage" "?" error)
        (str_append ": " (take_text 80 (text_at "detail" "" error))))
  | _ ↦ ran_text (summary_actions summary)
]

-- `_run_source_ref`; no summary is the case of a predicate that was false.
unfoldable pub run_source_ref : ℕ → Option Fields → String
unfolding result_text iso
run_source_ref now none = str_append "run " (str_append (iso now) ": skipped (predicate false)")
run_source_ref now (some summary) =
    str_append "run " (str_append (iso now) (str_append ": " (result_text summary)))

-- ===== src/Scheduler/Runner/Execution.antt =====
-- `execute` of runner.py: gather, reason, check the plan, act. A record holds what the repository
-- does not define, and the texts that it formats.
use semantics_toolchain.Prelude.{
  ℕ, String, Bool, Option, none, some, List, [], ◌∷◌, if◌then◌else◌, Result, ok, err, ◌>>=◌,
}
use semantics_toolchain.Json.{Value, Fields, null, str, obj, end, field, get, is_text, truthy}
use semantics_toolchain.Graph.{Graph, Node, GraphError}
use semantics_toolchain.Access.{Access}
use semantics_toolchain.Scheduler.Plan.{
  PlanError, Action, Kind, validate_final_plan, canonical_actions,
}
use semantics_toolchain.Scheduler.Act.{ActError, repository, malformed_id, execute_actions}
use semantics_toolchain.Scheduler.Gather.{GatherError, Stats, run_gather}
use semantics_toolchain.Scheduler.Reasoning.{Reasoned, output, unusable, unreachable}
use semantics_toolchain.Scheduler.Runner.Summary.{
  Failure, autonomous, gather, reason, reason_transport, plan, no_space, bad_delivery, fence, act,
  failed, idle_summary, executed_summary,
}

pub record Outside : Type 0 where
  pub reasoner : Fields → Reasoned
  pub tool_text : Access → String → Fields → Option String
  pub dumps : Value → String
  pub is_date : Value → Bool
  pub croniter : String → ℕ → Option ℕ
  pub message : Failure → String

-- The exceptions that no handler of a job turns into a record: TypeError and KeyError, the
-- OverflowError of a date, one of the repository, and one of a predicate that is no ValueError.
pub data Escape : Type 0 where
  type_error key_error overflow_error predicate_fault : Escape
  repository_error : GraphError → Escape

-- What a step of an occurrence comes to: a value, or a failure to record.
pub data Step {ℓ} (A : Type ℓ) : Type ℓ where
  done : A → Step A
  fails : Failure → Step A

unfoldable pub is_autonomous : Fields → Bool
unfolding is_text get
is_autonomous props = is_text "autonomous" (get "agency" props)

-- `except GatherError`
unfoldable pub caught_gather :
    Result GatherError (String × Stats) → Result Escape (Step (String × Stats))
caught_gather (ok r) = ok (done r)
caught_gather (err GatherError.type_error) = err Escape.type_error
caught_gather (err GatherError.key_error) = err Escape.key_error
caught_gather (err e) = ok (fails (gather e))

-- `job.instruction`
unfoldable pub instruction : Fields → Value
unfolding get
instruction props = elim (get "instruction" props) [ none ↦ str "" | some v ↦ v ]

abbrev pub Gathered : Type 0
Gathered = Fields × Option Stats

unfoldable pub with_context : Fields → Step (String × Stats) → Step Gathered
with_context context (done (text, stats)) = done (merged, some stats)
  where
    merged : Fields
    merged = field "instruction" (instruction context) (field "context" (str text) end)
with_context context (fails f) = fails f

-- `except PlanError`
unfoldable pub caught_plan : Result PlanError Fields → Result Escape (Step Fields)
caught_plan (ok fs) = ok (done fs)
caught_plan (err PlanError.type_error) = err Escape.type_error
caught_plan (err e) = ok (fails (plan e))

unfoldable pub planned : Reasoned → Result Escape (Step Fields)
unfolding validate_final_plan caught_plan
planned (output v) = caught_plan (validate_final_plan v)
planned (unusable s) = ok (fails (reason s))
planned (unreachable s) = ok (fails (reason_transport s))

-- `delivery.get("target")`, where `delivery` is an object or None.
unfoldable pub delivery_target : Fields → Step Value
unfolding get
delivery_target props = elim (get "delivery" props) [
  | none ↦ done null
  | some null ↦ done null
  | some (obj fs) ↦ done (elim (get "target" fs) [ none ↦ null | some v ↦ v ])
  | some v ↦ fails (bad_delivery v)
]

-- `except FenceError`, and any other exception.
unfoldable pub act_failure : ActError → Failure
act_failure (repository e) = act (repository e)
act_failure malformed_id = act malformed_id
act_failure e = fence e

-- The summary of an occurrence and the graph after it.
abbrev pub Ended : Type 0
Ended = Fields × Graph

module _ (o : Outside) where
  -- The context of the reasoner, and the figures of the gather, if the job declares steps.
  unfoldable pub gathered : Fields → Node → Result Escape (Step Gathered)
  unfolding truthy get caught_gather with_context run_gather instruction
  gathered props n = elim (get "tools" props) [
    | none ↦ ok (done (field "instruction" (instruction props) end, none))
    | some v ↦
        if truthy v
        then caught_gather (run_gather o.tool_text o.dumps o.is_date props n)
          >>= (λ r. ok (with_context props r))
        else ok (done (field "instruction" (instruction props) end, none))
  ]

  module _ (g : Graph) (props : Fields) (n : Node) (account : ℕ) (occurrence : String) where
    unfoldable pub refused : Failure → Ended
    unfolding failed
    refused f = (failed o.message occurrence f, g)

    -- The savepoint: actions that raise leave the graph as it was before them.
    unfoldable pub acted :
        Fields → Option Stats → Result ActError (List (String × Kind) × Graph) → Ended
    unfolding refused act_failure executed_summary
    acted plan_fields stats (ok (report, h)) =
        (executed_summary occurrence report plan_fields stats, h)
    acted plan_fields stats (err e) = refused (act_failure e)

    unfoldable pub delivered : Fields → Option Stats → List Action → ℕ → Step Value → Ended
    unfolding acted refused execute_actions get
    delivered plan_fields stats actions space (fails f) = refused f
    delivered plan_fields stats actions space (done target) = acted plan_fields stats (
        execute_actions g (get "writes" props)
          (record { account_id = account; space_id = space; delivery_target = target }) actions)

    unfoldable pub in_origin : Fields → Option Stats → List Action → Option ℕ → Ended
    unfolding delivered delivery_target refused
    in_origin plan_fields stats actions none = refused no_space
    in_origin plan_fields stats actions (some space) =
        delivered plan_fields stats actions space (delivery_target props)

    -- An empty plan is a no-op, not a failure.
    unfoldable pub act_on : Fields → Option Stats → List Action → Ended
    unfolding in_origin idle_summary
    act_on plan_fields stats [] = (idle_summary occurrence stats, g)
    act_on plan_fields stats (a ∷ actions) =
        in_origin plan_fields stats (a ∷ actions) n.origin_space

    unfoldable pub after_plan : Option Stats → Step Fields → Ended
    unfolding act_on refused canonical_actions
    after_plan stats (fails f) = refused f
    after_plan stats (done plan_fields) =
        act_on plan_fields stats (canonical_actions plan_fields occurrence)

    unfoldable pub after_gather : Step Gathered → Result Escape Ended
    unfolding after_plan refused planned
    after_gather (fails f) = ok (refused f)
    after_gather (done (context, stats)) =
        planned (o.reasoner context) >>= λ step. ok (after_plan stats step)

    unfoldable pub execute : Result Escape Ended
    unfolding after_gather refused gathered is_autonomous
    execute =
        if is_autonomous props
        then ok (refused autonomous)
        else gathered props n >>= λ step. after_gather step

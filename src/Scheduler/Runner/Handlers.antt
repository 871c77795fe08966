-- ===== src/Scheduler/Runner/Handlers.antt =====
-- Lemmas on what the handlers of `_process` and `execute` of runner.py catch.
use semantics_toolchain.Prelude.{
  String, Bool, true, false, some, [], ◌∷◌, ◌≡◌, refl, inl, inr, Bool-cases, Option-cases, Result,
  ok, err, ◌>>=◌,
}
use semantics_toolchain.Json.{Value, Fields}
use semantics_toolchain.Graph.{Graph, Node}
use semantics_toolchain.Scheduler.Predicate.{Malformed, Fault, validate, evaluate}
use semantics_toolchain.Scheduler.Predicate.Soundness.{validate-evaluate}
use semantics_toolchain.Scheduler.Plan.{PlanError, validate_final_plan}
use semantics_toolchain.Scheduler.Gather.{GatherError, Stats}
use semantics_toolchain.Scheduler.Job.{has_predicate, is_recurring}
use semantics_toolchain.Scheduler.Reasoning.{Reasoned, output, unusable, unreachable}
use semantics_toolchain.Scheduler.Runner.Summary.{one_shot_predicate, unscoped}
use semantics_toolchain.Scheduler.Runner.Execution.{
  Escape, type_error, key_error, overflow_error, Step, done, fails, caught_gather, caught_plan,
  planned,
}
use semantics_toolchain.Scheduler.Runner.Processing.{
  predicate_verdict, judged, raw_predicate, reader, gate,
}

-- A predicate never raises past its handler: what the check accepts is evaluated to a truth value.
pub predicate_verdict-done :
    (v : Value) (r : Result Malformed Unit) (b : Result Fault Bool)
    → (r ≡ ok tt → (x : Bool) × (b ≡ ok x))
    → (step : Step Bool) × (predicate_verdict r b ≡ ok step)
unfolding predicate_verdict
predicate_verdict-done v (err e) b h = (_, refl)
predicate_verdict-done v (ok u) b h =
    let (x, e) = h refl in (done x, rw (e, predicate_verdict) refl)

pub judged-done : (g : Graph) (n : Node) (v : Value) → (step : Step Bool) × (judged g n v ≡ ok step)
unfolding judged
judged-done g n v = elim (Option-cases n.created_by) [
  | inl nobody ↦ (fails unscoped, rw (nobody, judged) refl)
  | inr (a, by) ↦ elim (Option-cases n.origin_space) [
    | inl nowhere ↦ (fails unscoped, rw (by, nowhere, judged) refl)
    | inr (s, at) ↦
        let (step, e) =
          predicate_verdict-done v (validate v)
            (evaluate (reader g (record { account_id = a; scopes = some (s ∷ []) })) v)
            (validate-evaluate _ v) in
        (step, rw (by, at, judged) e)
  ]
]

pub gate-done : (g : Graph) (n : Node) → (step : Step Bool) × (gate g n ≡ ok step)
unfolding gate
gate-done g n = elim (Bool-cases (has_predicate n.properties)) [
  | inr free ↦ (done true, rw (free, gate) refl)
  | inl gated ↦ elim (Bool-cases (is_recurring n.properties)) [
    | inr once ↦ (fails one_shot_predicate, rw (gated, once, gate) refl)
    | inl again ↦
        let (step, e) = judged-done g n (raw_predicate n.properties) in
        (step, rw (gated, again, gate) e)
  ]
]

-- The exceptions that no handler of the runner names.
unfoldable pub is_unhandled : Escape → Bool
is_unhandled type_error = true
is_unhandled key_error = true
is_unhandled overflow_error = true
is_unhandled e = false

abbrev pub Unhandled : {A : Type 0} → Result Escape A → Type 0
Unhandled (ok a) = Unit
Unhandled (err e) = is_unhandled e ≡ true

pub bind-Unhandled :
    {A B : Type 0} (r : Result Escape A) (f : A → Result Escape B)
    → Unhandled r
    → ((a : A) → Unhandled (f a))
    → Unhandled (r >>= f)
bind-Unhandled (ok a) f u v = v a
bind-Unhandled (err e) f u v = u

pub caught_gather-Unhandled :
    (r : Result GatherError (String × Stats)) → Unhandled (caught_gather r)
unfolding caught_gather is_unhandled
caught_gather-Unhandled (ok r) = tt
caught_gather-Unhandled (err GatherError.type_error) = refl
caught_gather-Unhandled (err GatherError.key_error) = refl
caught_gather-Unhandled (err e) = tt

pub caught_plan-Unhandled : (r : Result PlanError Fields) → Unhandled (caught_plan r)
unfolding caught_plan is_unhandled
caught_plan-Unhandled (ok r) = tt
caught_plan-Unhandled (err PlanError.type_error) = refl
caught_plan-Unhandled (err e) = tt

pub planned-Unhandled : (r : Reasoned) → Unhandled (planned r)
unfolding planned
planned-Unhandled (output v) = caught_plan-Unhandled (validate_final_plan v)
planned-Unhandled (unusable s) = tt
planned-Unhandled (unreachable s) = tt

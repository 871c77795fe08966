-- ===== src/Scheduler/Runner/Processing.antt =====
-- `_process` and `tick` of runner.py, and the pause before the next tick.
use Prim.Native.String.{◌++◌ as str_append}
use semantics_toolchain.Prelude.{
  ◌^◌, ◌^◌, ℕ, zero, suc, ◌+◌, ◌-◌, ◌*◌, ◌/◌, ◌%◌, String, Bool, true, Option, none, some, List, [],
  ◌∷◌, if◌then◌else◌, ltb, get_elem?, Result, ok, err,
}
use semantics_toolchain.Json.{Value, Fields, null, obj, end, field}
use semantics_toolchain.Graph.{Graph, Node, GraphError, find_node}
use semantics_toolchain.Access.{Access, get_node as visible_node}
use semantics_toolchain.Scheduler.Predicate.{
  Malformed, Fault, value_error, other_error, Reader, validate, evaluate,
}
use semantics_toolchain.Scheduler.Job.{
  AdvanceError, iso, second, supported_kind, has_predicate, predicate, is_recurring, advance,
  due_jobs, due_limit, claim_job, finish_job,
}
use semantics_toolchain.Scheduler.Runner.Summary.{
  Failure, one_shot_predicate, unscoped, unknown_op, malformed, cannot_advance, failed,
  run_source_ref,
}
use semantics_toolchain.Scheduler.Runner.Execution.{
  Outside, Escape, predicate_fault, repository_error, Step, done, fails, Ended, execute,
}

hex_digits : List String
hex_digits =
    "0" ∷ "1" ∷ "2" ∷ "3" ∷ "4" ∷ "5" ∷ "6" ∷ "7" ∷ "8" ∷ "9" ∷ "a" ∷ "b" ∷ "c" ∷ "d" ∷ "e" ∷ "f"
    ∷ []

hex_digit : ℕ → String
unfolding hex_digits
hex_digit d = elim (get_elem? hex_digits d) [ none ↦ "" | some s ↦ s ]

-- The lowest hexadecimal digits of a number, to a width.
hex_padded : ℕ → ℕ → String
unfolding hex_digit
hex_padded zero n = ""
hex_padded (suc width) n = str_append (hex_padded width (n / 16)) (hex_digit (n % 16))

-- `str(id)` of a UUID.
unfoldable pub uuid_text : ℕ → String
unfolding hex_padded
uuid_text n = str_append (hex_padded 8 (n / 16 ^ 24)) (
    str_append "-" (
      str_append (hex_padded 4 (n / 16 ^ 20)) (
        str_append "-" (
          str_append (hex_padded 4 (n / 16 ^ 16)) (
            str_append "-"
              (str_append (hex_padded 4 (n / 16 ^ 12)) (str_append "-" (hex_padded 12 n))))))))

unfoldable pub occurrence_id : ℕ → ℕ → String
unfolding uuid_text iso
occurrence_id id now = str_append (uuid_text id) (str_append ":" (iso now))

-- What a predicate reads: the properties of a node that the access sees.
unfoldable pub reader : Graph → Access → Reader
reader g a id = elim (visible_node g a id) [ none ↦ none | some n ↦ some n.properties ]

-- `except ValueError` around the check and the evaluation.
unfoldable pub predicate_verdict :
    Result Malformed Unit → Result Fault Bool → Result Escape (Step Bool)
predicate_verdict (err e) holds = ok (fails (malformed e))
predicate_verdict (ok u) (ok b) = ok (done b)
predicate_verdict (ok u) (err value_error) = ok (fails unknown_op)
predicate_verdict (ok u) (err other_error) = err predicate_fault

unfoldable pub raw_predicate : Fields → Value
unfolding predicate
raw_predicate props = elim (predicate props) [ none ↦ null | some v ↦ v ]

-- The predicate of a job under its creator's access, confined to its space.
unfoldable pub judged : Graph → Node → Value → Result Escape (Step Bool)
unfolding predicate_verdict reader validate evaluate
judged g n v = elim n.created_by [
  | none ↦ ok (fails unscoped)
  | some account ↦ elim n.origin_space [
    | none ↦ ok (fails unscoped)
    | some space ↦
        predicate_verdict (validate v)
          (evaluate (reader g (record { account_id = account; scopes = some (space ∷ []) })) v)
  ]
]

-- `should_execute`, or the error of the predicate.
unfoldable pub gate : Graph → Node → Result Escape (Step Bool)
unfolding judged raw_predicate has_predicate is_recurring
gate g n =
    if has_predicate n.properties
    then (if is_recurring n.properties
        then judged g n (raw_predicate n.properties)
        else ok (fails one_shot_predicate))
    else ok (done true)

-- The session's object of a row, which an action of the plan may have updated since.
unfoldable pub current_row : Graph → Node → Node
current_row g n = elim (find_node n.id g.nodes) [ none ↦ n | some row ↦ row ]

-- The graph after a job was processed, with the number of jobs fired or the exception that left
-- `_process`; an exception leaves what was written before it.
abbrev pub Processed : Type 0
Processed = Graph × Result Escape ℕ

-- A finish that raises leaves the graph as it was.
unfoldable pub finished : Graph → ℕ → Result GraphError (Node × Graph) → Processed
finished g fired (ok (m, h)) = (h, ok fired)
finished g fired (err e) = (g, err (repository_error e))

module _ (o : Outside) (account now : ℕ) where
  unfoldable pub record_run :
      Graph → Node → Option ℕ → Bool → Option Fields → Result GraphError (Node × Graph)
  unfolding finish_job run_source_ref current_row
  record_run g m next_run disable none =
      finish_job g (current_row g m) account now next_run disable end
        (some (run_source_ref now none))
  record_run g m next_run disable (some summary) =
      finish_job g (current_row g m) account now next_run disable
        (field "last_plan" (obj summary) end) (some (run_source_ref now (some summary)))

  -- A failure that turns the job off.
  unfoldable pub give_up : Graph → Node → Failure → Processed
  unfolding finished record_run failed occurrence_id
  give_up g m f =
      finished g 0 (record_run g m none true (some (failed o.message (occurrence_id m.id now) f)))

  unfoldable pub after_execute : Graph → Node → Option ℕ → Bool → Result Escape Ended → Processed
  unfolding finished record_run
  after_execute g m next_run disable (err e) = (g, err e)
  after_execute g m next_run disable (ok (summary, h)) =
      finished h 1 (record_run h m next_run disable (some summary))

  unfoldable pub run_or_skip : Graph → Fields → Node → Option ℕ → Bool → Bool → Processed
  unfolding after_execute execute finished record_run occurrence_id
  run_or_skip g props m next_run disable should_execute =
      if should_execute
      then after_execute g m next_run disable (execute o g props m account (occurrence_id m.id now))
      else finished g 0 (record_run g m next_run disable none)

  -- `except (KeyError, TypeError, ValueError)` around `job.advance`.
  unfoldable pub after_advance :
      Graph → Fields → Node → Bool → Result AdvanceError (Option ℕ × Bool) → Processed
  unfolding run_or_skip give_up
  after_advance g props m should_execute (ok (next_run, disable)) =
      run_or_skip g props m next_run disable should_execute
  after_advance g props m should_execute (err AdvanceError.overflow_error) =
      (g, err Escape.overflow_error)
  after_advance g props m should_execute (err e) = give_up g m (cannot_advance e)

  unfoldable pub after_claim : Graph → Fields → Node → Step Bool → Processed
  unfolding after_advance give_up advance
  after_claim g props m (fails f) = give_up g m f
  after_claim g props m (done should_execute) =
      after_advance g props m should_execute (advance o.croniter props now)

  unfoldable pub claim_for :
      Graph → Fields → Step Bool → Result GraphError (Option (Node × Graph)) → Processed
  unfolding after_claim
  claim_for g props step (err e) = (g, err (repository_error e))
  claim_for g props step (ok none) = (g, ok 0)
  claim_for g props step (ok (some (m, h))) = after_claim h props m step

  unfoldable pub after_gate : Graph → Node → Result Escape (Step Bool) → Processed
  unfolding claim_for claim_job
  after_gate g n (err e) = (g, err e)
  after_gate g n (ok step) = claim_for g n.properties step (claim_job g n account now)

  -- `_process`
  unfoldable pub process : Graph → Node → Processed
  unfolding after_gate gate supported_kind
  process g n = if supported_kind n.properties then after_gate g n (gate g n) else (g, ok 0)

  -- `fired += ...` under the `try` of the loop.
  unfoldable pub add_fired : ℕ → Result Escape ℕ → ℕ
  add_fired fired (ok k) = fired + k
  add_fired fired (err e) = fired

  -- The loop of `tick` over the jobs that were due at its start, as the session now has them.
  unfoldable pub process_all : Graph → ℕ → List Node → Graph × ℕ
  unfolding process add_fired current_row
  process_all g fired [] = (g, fired)
  process_all g fired (n ∷ ns) =
      let (h, result) = process g (current_row g n) in process_all h (add_fired fired result) ns

  unfoldable pub tick : (Value → String) → ℕ → Graph → Graph × ℕ
  unfolding process_all due_jobs
  tick render lease_seconds g =
      process_all g 0 (due_jobs render now lease_seconds due_limit g.nodes)

-- `_sleep_seconds`, in microseconds, from the time and the next due time.
unfoldable pub sleep_time : ℕ → ℕ → Option ℕ → ℕ
sleep_time rescan_seconds now none = rescan_seconds * second
sleep_time rescan_seconds now (some next) =
    let wait =
      if ltb (next - now) (rescan_seconds * second) then next - now else rescan_seconds * second in
    if ltb wait second then second else wait

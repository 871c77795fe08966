-- ===== src/Scheduler/Runner/Endings.antt =====
-- Lemmas on how `_process` of runner.py ends for a job that was claimed.
use semantics_toolchain.Prelude.{
  ℕ, String, Bool, true, false, Option, none, some, ◌≡◌, refl, sym, ap, ◌∙◌, subst, inl, inr, ◌⊎◌,
  Bool-cases, Option-cases, Result, ok, err,
}
use semantics_toolchain.Json.{truthy, get, Fields}
use semantics_toolchain.Graph.{Graph, Node}
use semantics_toolchain.Graph.Versions.{get_node-found}
use semantics_toolchain.Graph.Cas.{update_node-IsUpdate, find_node-id}
use semantics_toolchain.Graph.Written.{IsLive, Written-IsLive, update_node-IsLive}
use semantics_toolchain.Scheduler.Gather.{run_gather}
use semantics_toolchain.Scheduler.Job.{
  AdvanceError, advance, supported_kind, claim_job, claim_patch, patch_node, attached,
}
use semantics_toolchain.Scheduler.Job.Claims.{claimed-some}
use semantics_toolchain.Scheduler.Runner.Summary.{Failure, cannot_advance, failed}
use semantics_toolchain.Scheduler.Runner.Execution.{
  Outside, Escape, overflow_error, Step, done, fails, Gathered, Ended, caught_gather, planned,
  gathered, after_gather, execute, is_autonomous,
}
use semantics_toolchain.Scheduler.Runner.Processing.{
  occurrence_id, gate, Processed, give_up, after_execute, run_or_skip, after_advance, after_claim,
  claim_for, after_gate, process,
}
use semantics_toolchain.Scheduler.Runner.Finishing.{IsFinished, finished-IsFinished}
use semantics_toolchain.Scheduler.Runner.Containment.{execute-IsContained}
use semantics_toolchain.Scheduler.Runner.Handlers.{
  gate-done, is_unhandled, Unhandled, bind-Unhandled, caught_gather-Unhandled, planned-Unhandled,
}

module _ (o : Outside) where
  gathered-Unhandled : (props : Fields) (n : Node) → Unhandled (gathered o props n)
  unfolding gathered
  gathered-Unhandled props n = elim (Option-cases (get "tools" props)) [
    | inl none_declared ↦ rw (none_declared, gathered) tt
    | inr (v, declared) ↦ elim (Bool-cases (truthy v)) [
      | inr empty ↦ rw (declared, empty, gathered) tt
      | inl full ↦
          rw (declared, full, gathered)
            (bind-Unhandled (caught_gather (run_gather o.tool_text o.dumps o.is_date props n)) _
              (caught_gather-Unhandled (run_gather o.tool_text o.dumps o.is_date props n))
              (λ r. tt))
    ]
  ]

  module _ (g : Graph) (props : Fields) (n : Node) (account : ℕ) (occurrence : String) where
    after_gather-Unhandled :
        (step : Step Gathered) → Unhandled (after_gather o g props n account occurrence step)
    unfolding after_gather
    after_gather-Unhandled (fails f) = tt
    after_gather-Unhandled (done (context, stats)) =
        bind-Unhandled (planned (o.reasoner context)) _ (planned-Unhandled (o.reasoner context))
          (λ r. tt)

    execute-Unhandled : Unhandled (execute o g props n account occurrence)
    unfolding execute
    execute-Unhandled = elim (Bool-cases (is_autonomous props)) [
      | inl alone ↦ rw (alone, execute) tt
      | inr judging ↦
          rw (judging, execute)
            (bind-Unhandled (gathered o props n) _ (gathered-Unhandled props n)
              after_gather-Unhandled)
    ]

  module _ (account now : ℕ) where
    -- How the processing of a job ends whose claim succeeded, with the number of jobs fired: with a
    -- failure that turns it off, with a false predicate, or with a run.
    pub data Ending (g : Graph) (n m : Node) (claimed_graph : Graph) : ℕ → Graph → Type 0 where
      gave_up :
          (f : Failure) (k : Graph)
          → IsFinished claimed_graph m.id none true
              (some (failed o.message (occurrence_id m.id now) f))
              k
          → Ending g n m claimed_graph 0 k
      skipped :
          (next : Option ℕ) (disable : Bool) (k : Graph)
          → gate g n ≡ ok (done false)
          → advance o.croniter n.properties now ≡ ok (next, disable)
          → IsFinished claimed_graph m.id next disable none k
          → Ending g n m claimed_graph 0 k
      ran :
          (next : Option ℕ) (disable : Bool) (summary : Fields) (h k : Graph)
          → advance o.croniter n.properties now ≡ ok (next, disable)
          → execute o claimed_graph n.properties m account (occurrence_id m.id now)
            ≡ ok (summary, h)
          → IsFinished h m.id next disable (some summary) k
          → Ending g n m claimed_graph 1 k

    module _ (g : Graph) (n m : Node) (h : Graph) (l : IsLive h m.id) where
      abbrev pub Ends : Processed → Type 0
      Ends p =
          ((e : Escape) × (p.1 ≡ err e) × (is_unhandled e ≡ true))
          ⊎ (fired : ℕ) × (p.1 ≡ ok fired) × Ending g n m h fired p.0

      give_up-Ends : (f : Failure) → Ends (give_up o account now h m f)
      unfolding give_up
      give_up-Ends f =
          let (fired, finish) = finished-IsFinished o account now h m none true _ 0 l in
          inr (0, fired, Ending.gave_up f _ finish)

      after_execute-Ends :
          (next : Option ℕ) (disable : Bool)
          → advance o.croniter n.properties now ≡ ok (next, disable)
          → (r : Result Escape Ended)
          → execute o h n.properties m account (occurrence_id m.id now) ≡ r
          → Ends (after_execute o account now h m next disable r)
      unfolding after_execute
      after_execute-Ends next disable a (err e) ends = inl (
        e,
        refl,
        subst Unhandled ends (execute-Unhandled h n.properties m account (occurrence_id m.id now)),
      )
      after_execute-Ends next disable a (ok (summary, k)) ends =
          let contained =
            execute-IsContained o h n.properties m account (occurrence_id m.id now) ends in
          let still = Written-IsLive m.id contained.written l in
          let (fired, finish) =
            finished-IsFinished o account now k m next disable (some summary) 1 still in
          inr (1, fired, Ending.ran next disable summary k _ a ends finish)

      run_or_skip-Ends :
          (next : Option ℕ) (disable : Bool) (should : Bool)
          → gate g n ≡ ok (done should)
          → advance o.croniter n.properties now ≡ ok (next, disable)
          → Ends (run_or_skip o account now h n.properties m next disable should)
      unfolding run_or_skip
      run_or_skip-Ends next disable true decided a = after_execute-Ends next disable a _ refl
      run_or_skip-Ends next disable false decided a =
          let (fired, finish) = finished-IsFinished o account now h m next disable none 0 l in
          inr (0, fired, Ending.skipped next disable _ decided a finish)

      after_advance-Ends :
          (should : Bool)
          → gate g n ≡ ok (done should)
          → (r : Result AdvanceError (Option ℕ × Bool)) → advance o.croniter n.properties now ≡ r
          → Ends (after_advance o account now h n.properties m should r)
      unfolding after_advance is_unhandled
      after_advance-Ends should decided (ok (next, disable)) a =
          run_or_skip-Ends next disable should decided a
      after_advance-Ends should decided (err AdvanceError.overflow_error) a =
          inl (overflow_error, refl, refl)
      after_advance-Ends should decided (err AdvanceError.value_error) a =
          give_up-Ends (cannot_advance AdvanceError.value_error)
      after_advance-Ends should decided (err AdvanceError.type_error) a =
          give_up-Ends (cannot_advance AdvanceError.type_error)

      after_claim-Ends :
          (step : Step Bool)
          → gate g n ≡ ok step
          → Ends (after_claim o account now h n.properties m step)
      unfolding after_claim
      after_claim-Ends (done should) decided = after_advance-Ends should decided _ refl
      after_claim-Ends (fails f) decided = give_up-Ends f

    claim_job-IsLive :
        (g : Graph) (n : Node) {m : Node} {h : Graph}
        → claim_job g n account now ≡ ok (some (m, h))
        → IsLive h m.id
    unfolding claim_job patch_node
    claim_job-IsLive g n {m} {h} e =
        let made = claimed-some (patch_node g n account (claim_patch now) none) m h e in
        let view = attached n g in
        let r = update_node-IsUpdate view _ made in
        let same : m.id ≡ n.id =
          ap (λ (x : Node). x.id) r.row
          ∙ find_node-id n.id view.nodes (get_node-found view n.id r.old r.found) in
        subst (IsLive h) (sym same) (update_node-IsLive view _ made)

    process-after_claim :
        (g : Graph) (n : Node) {m : Node} {h : Graph} (step : Step Bool)
        → supported_kind n.properties ≡ true
        → gate g n ≡ ok step
        → claim_job g n account now ≡ ok (some (m, h))
        → process o account now g n ≡ after_claim o account now h n.properties m step
    unfolding process after_gate claim_for
    process-after_claim g n step supported decided claims =
        rw (supported, process) (rw (decided, after_gate) (rw (claims, claim_for) refl))

    -- A job of a supported kind that was claimed does not stay claimed: its node is finished, with the
    -- summary of its run or of its failure, unless one of three exceptions leaves the code. The
    -- reasoner, the tools and the errors of the plan and of the predicate are whatever they are.
    pub process-Ends :
        (g : Graph) (n : Node) {m : Node} {h : Graph}
        → supported_kind n.properties ≡ true
        → claim_job g n account now ≡ ok (some (m, h))
        → ((e : Escape) × ((process o account now g n).1 ≡ err e) × (is_unhandled e ≡ true))
          ⊎ (fired : ℕ) × ((process o account now g n).1 ≡ ok fired)
            × Ending g n m h fired (process o account now g n).0
    process-Ends g n {m} {h} supported claims =
        let (step, decided) = gate-done g n in
        subst (Ends g n m h (claim_job-IsLive g n claims))
          (sym (process-after_claim g n step supported decided claims))
          (after_claim-Ends g n m h (claim_job-IsLive g n claims) step decided)

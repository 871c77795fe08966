-- ===== src/Scheduler/Runner/Finishing.antt =====
-- Lemmas on the finish of a claimed occurrence in runner.py.
use semantics_toolchain.Prelude.{
  ℕ, String, Bool, true, false, Option, none, some, ◌≡◌, refl, ap, ◌∙◌, subst, arith, ok, contains,
}
use semantics_toolchain.Json.{Value, Fields, null, obj, end, field, get, has, put, merge}
use semantics_toolchain.Graph.{Graph, Node, get_node, update_node, node_statuses}
use semantics_toolchain.Graph.Versions.{get_node-found}
use semantics_toolchain.Graph.Cas.{find_node-id, update_node-fits, get_node-update_node}
use semantics_toolchain.Graph.Written.{Written, IsLive, update_node-Written}
use semantics_toolchain.Scheduler.Job.{
  job_update, is_due, patch_node, finish_patch, finish_job, next_run_patch,
}
use semantics_toolchain.Scheduler.Job.Claims.{
  same_id_refl, attached_same, last, patched_key, Plain, finish_job-releases,
}
use semantics_toolchain.Scheduler.Runner.Summary.{run_source_ref}
use semantics_toolchain.Scheduler.Runner.Execution.{Outside}
use semantics_toolchain.Scheduler.Runner.Processing.{current_row, finished, record_run}

current_row-live :
    (g : Graph) (m : Node) (l : IsLive g m.id) → (current_row g m ≡ l.row) × (l.row.id ≡ m.id)
unfolding current_row
current_row-live g m l =
    let there = get_node-found g m.id l.row l.found in
    (rw (there, current_row) refl, find_node-id m.id g.nodes there)

patch_node-fits :
    (g : Graph) (n : Node) (account : ℕ) (patch : Fields) (ref : Option String)
    → get_node g n.id ≡ some n
    → contains node_statuses n.status ≡ true
    → (m : Node) × (h : Graph) × (patch_node g n account patch ref ≡ ok (m, h))
unfolding patch_node
patch_node-fits g n account patch ref found status =
    rw (attached_same g n found)
      (_, _, update_node-fits g _ n found (same_id_refl n.current_version) status)

-- A job's row after a finish.
pub record IsFinished (g : Graph) (id : ℕ) (next : Option ℕ) (disable : Bool)
    (summary : Option Fields) (h : Graph) : Type 0 where
  pub row : Node
  pub found : get_node h id ≡ some row
  pub unclaimed : get "claimed_at" row.properties ≡ some null
  pub off :
      disable ≡ true
      → (render : Value → String) (later lease : ℕ) → is_due render later lease row ≡ false
  pub next_run : disable ≡ false → get "next_run" row.properties ≡ some (next_run_patch next)
  pub plan : (fs : Fields) → summary ≡ some fs → get "last_plan" row.properties ≡ some (obj fs)
  pub written : Written g h

abbrev extra_of : Option Fields → Fields
extra_of none = end
extra_of (some fs) = field "last_plan" (obj fs) end

extra_of-Plain : (summary : Option Fields) → Plain (extra_of summary)
unfolding has
extra_of-Plain none = (refl, refl, refl)
extra_of-Plain (some fs) = (refl, refl, refl)

last_plan-kept :
    (now : ℕ) (next : Option ℕ) (disable : Bool) (fs : Fields)
    → last "last_plan" (finish_patch now next disable (extra_of (some fs))) ≡ some (obj fs)
unfolding finish_patch last merge put
last_plan-kept now next true fs = refl
last_plan-kept now next false fs = refl

record_run-finish :
    (o : Outside) (account now : ℕ) (g : Graph) (m : Node) (next : Option ℕ) (disable : Bool)
    (summary : Option Fields)
    → record_run o account now g m next disable summary
      ≡ finish_job g
          (current_row g m)
          account
          now
          next
          disable
          (extra_of summary)
          (some (run_source_ref now summary))
unfolding record_run
record_run-finish o account now g m next disable none = refl
record_run-finish o account now g m next disable (some fs) = refl

finish_job-IsFinished :
    (g : Graph) (n : Node) (account now : ℕ) (next : Option ℕ) (disable : Bool)
    (summary : Option Fields) (ref : Option String) {m : Node} {h : Graph}
    → get_node g n.id ≡ some n
    → finish_job g n account now next disable (extra_of summary) ref ≡ ok (m, h)
    → IsFinished g n.id next disable summary h
unfolding finish_job patch_node
finish_job-IsFinished g n account now next disable summary ref {m} {h} current e =
    let plain = extra_of-Plain summary in
    let made =
      subst
        (λ k.
          update_node k
            (job_update n account (finish_patch now next disable (extra_of summary)) ref)
          ≡ ok (m, h))
        (attached_same g n current) e in
    let (old, found, merged, reads, others) = get_node-update_node g _ made in
    record {
      row = m;
      found = reads;
      unclaimed =
          (finish_job-releases (λ v. "") g n account now next disable (extra_of summary) ref plain
            e).0;
      off = λ d render.
          (finish_job-releases render g n account now next disable (extra_of summary) ref plain e).1
            d;
      next_run =
          (finish_job-releases (λ v. "") g n account now next disable (extra_of summary) ref plain
            e).2;
      plan = λ fs given.
          patched_key g n account (finish_patch now next disable (extra_of summary)) ref "last_plan"
            (obj fs) e (rw given (last_plan-kept now next disable fs));
      written = update_node-Written g _ made;
    }

finish_job-fits :
    (g : Graph) (n : Node) (account now : ℕ) (next : Option ℕ) (disable : Bool) (extra : Fields)
    (ref : Option String)
    → get_node g n.id ≡ some n
    → contains node_statuses n.status ≡ true
    → (m : Node) × (h : Graph) × (finish_job g n account now next disable extra ref ≡ ok (m, h))
unfolding finish_job
finish_job-fits g n account now next disable extra ref found status =
    patch_node-fits g n account (finish_patch now next disable extra) ref found status

-- A claimed job whose node is still there is finished without an error.
pub finished-IsFinished :
    (o : Outside) (account now : ℕ) (g : Graph) (m : Node) (next : Option ℕ) (disable : Bool)
    (summary : Option Fields) (fired : ℕ)
    → IsLive g m.id
    → let result = finished g fired (record_run o account now g m next disable summary) in
      (result.1 ≡ ok fired) × IsFinished g m.id next disable summary result.0
unfolding finished
finished-IsFinished o account now g m next disable summary fired l =
    let (row, id) = current_row-live g m l in
    let n = current_row g m in
    let found : get_node g n.id ≡ some n = ground (arith, l.found) in
    let status : contains node_statuses n.status ≡ true = rw row l.status in
    let (m', h, made) =
      finish_job-fits g n account now next disable (extra_of summary)
        (some (run_source_ref now summary)) found status in
    let same : record_run o account now g m next disable summary ≡ ok (m', h) =
      record_run-finish o account now g m next disable summary ∙ made in
    let end =
      finish_job-IsFinished g n account now next disable summary (some (run_source_ref now summary))
        found made in
    let same_id : n.id ≡ m.id = ap (λ (x : Node). x.id) row ∙ id in
    rw (same, finished) (refl, subst (λ i. IsFinished g i next disable summary h) same_id end)

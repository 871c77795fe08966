-- ===== src/Scheduler/Job/Lease.antt =====
-- repository.py: which jobs are due, the claim, and the finish. The database's text of a JSON value
-- that is neither a text nor a Boolean is a parameter.
use semantics_toolchain.Prelude.{
  ℕ, zero, suc, eqb, ◌-◌, ◌*◌, String, Bool, true, false, not, Option, none, some, List, [], ◌∷◌,
  ◌==◌, if◌then◌else◌, ◌&&◌, str_leb, str_ltb, Result, ok, err,
}
use semantics_toolchain.Json.{Value, Fields, null, bool, str, end, field, get, merge}
use semantics_toolchain.Graph.{Graph, Node, GraphError, conflict, Update, update_node}
use semantics_toolchain.Scheduler.Job.Time.{iso, second}

-- `LIMIT`
unfoldable pub take_nodes : ℕ → List Node → List Node
take_nodes zero ns = []
take_nodes (suc k) [] = []
take_nodes (suc k) (n ∷ ns) = n ∷ take_nodes k ns

-- The default of `limit`.
abbrev pub due_limit : ℕ
due_limit = 100

abbrev pub job_type : String
job_type = "ScheduledJob"

module _ (render : Value → String) where
  -- `properties[key].astext`
  unfoldable pub as_text : Option Value → Option String
  as_text none = none
  as_text (some null) = none
  as_text (some (bool true)) = some "true"
  as_text (some (bool false)) = some "false"
  as_text (some (str s)) = some s
  as_text (some v) = some (render v)

  -- `enabled` reads as true.
  unfoldable pub is_enabled : Fields → Bool
  unfolding as_text
  is_enabled props = elim (as_text (get "enabled" props)) [ none ↦ false | some s ↦ s == "true" ]

  -- `<=` of texts in SQL, false on NULL.
  unfoldable pub at_most : Option String → String → Bool
  at_most none limit = false
  at_most (some s) limit = str_leb s limit

  unfoldable pub is_unclaimed : Fields → String → Bool
  unfolding as_text
  is_unclaimed props cutoff = elim (as_text (get "claimed_at" props)) [
    | none ↦ true
    | some s ↦ str_leb s cutoff
  ]

  unfoldable pub is_due : ℕ → ℕ → Node → Bool
  unfolding at_most is_enabled is_unclaimed
  is_due now lease_seconds n =
      (n.type == job_type)
      && (not n.deleted
          && (is_enabled n.properties
              && (at_most (as_text (get "next_run" n.properties)) (iso now)
                  && is_unclaimed n.properties (iso (now - lease_seconds * second)))))

  unfoldable pub all_due : ℕ → ℕ → List Node → List Node
  unfolding is_due
  all_due now lease_seconds [] = []
  all_due now lease_seconds (n ∷ ns) =
      let rest = all_due now lease_seconds ns in
      if is_due now lease_seconds n then n ∷ rest else rest

  -- The database may return any `limit` of the due jobs, in any order; here the first ones.
  unfoldable pub due_jobs : ℕ → ℕ → ℕ → List Node → List Node
  unfolding all_due take_nodes
  due_jobs now lease_seconds limit ns = take_nodes limit (all_due now lease_seconds ns)

  least : Option String → Option String → Option String
  least none b = b
  least (some a) none = some a
  least (some a) (some b) = if str_ltb b a then some b else some a

  -- The text that `next_due` parses.
  unfoldable pub next_due : List Node → Option String
  unfolding least is_enabled as_text
  next_due [] = none
  next_due (n ∷ ns) =
      let rest = next_due ns in
      if (n.type == job_type) && (not n.deleted && is_enabled n.properties)
      then least (as_text (get "next_run" n.properties)) rest
      else rest

unfoldable pub with_object : Node → List Node → List Node
with_object m [] = []
with_object m (n ∷ ns) = if eqb n.id m.id then m ∷ ns else n ∷ with_object m ns

-- The graph as the session of the node sees it. `session.get` gives the session's own object of a
-- row that it holds, and does not read the table again: whatever others wrote since, `update_node`
-- works on this object.
unfoldable pub attached : Node → Graph → Graph
unfolding with_object
attached n g = record g { nodes = with_object n g.nodes }

abbrev pub job_update : Node → ℕ → Fields → Option String → Update
job_update n account patch source_ref = record {
  node_id = n.id;
  account_id = account;
  expected_version = n.current_version;
  label = none;
  properties_patch = some patch;
  source_ref = source_ref;
  status = none;
}

unfoldable pub patch_node :
    Graph → Node → ℕ → Fields → Option String → Result GraphError (Node × Graph)
unfolding attached
patch_node g n account patch source_ref =
    update_node (attached n g) (job_update n account patch source_ref)

abbrev pub claim_patch : ℕ → Fields
claim_patch now = field "claimed_at" (str (iso now)) end

-- `except ConflictError: return None`
unfoldable pub claimed :
    Result GraphError (Node × Graph) → Result GraphError (Option (Node × Graph))
claimed (ok (m, h)) = ok (some (m, h))
claimed (err conflict) = ok none
claimed (err e) = err e

unfoldable pub claim_job : Graph → Node → ℕ → ℕ → Result GraphError (Option (Node × Graph))
unfolding claimed patch_node
claim_job g n account now = claimed (patch_node g n account (claim_patch now) none)

unfoldable pub next_run_patch : Option ℕ → Value
next_run_patch none = null
next_run_patch (some t) = str (iso t)

unfoldable pub finish_patch : ℕ → Option ℕ → Bool → Fields → Fields
unfolding next_run_patch
finish_patch now next_run disable extra =
    merge
      (field "last_run" (str (iso now)) (
        field "finished_at" (str (iso now)) (
          field "claimed_at" null (
            if disable
            then field "enabled" (bool false) (field "next_run" null end)
            else field "next_run" (next_run_patch next_run) end))))
      extra

unfoldable pub finish_job :
    Graph
    → Node
    → ℕ
    → ℕ
    → Option ℕ
    → Bool
    → Fields
    → Option String
    → Result GraphError (Node × Graph)
unfolding patch_node finish_patch
finish_job g n account now next_run disable extra source_ref =
    patch_node g n account (finish_patch now next_run disable extra) source_ref

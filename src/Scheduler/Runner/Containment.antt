-- ===== src/Scheduler/Runner/Containment.antt =====
-- Lemmas on what `execute` of runner.py does to the graph.
use semantics_toolchain.Prelude.{
  ℕ, String, true, false, Option, none, some, List, [], ◌∷◌, ◌≡◌, refl, subst, inl, inr, arith,
  ◌&&◌, contains, Bool-cases, Result, ok, err, ◌>>=◌,
}
use semantics_toolchain.Json.{Value, Fields, get, has}
use semantics_toolchain.Graph.{Graph, Node, find_node}
use semantics_toolchain.Graph.Written.{Written}
use semantics_toolchain.Scheduler.Plan.{Action, Kind, canonical_actions}
use semantics_toolchain.Scheduler.Act.{ActError, execute_actions, parse_writes_scope, in_space}
use semantics_toolchain.Scheduler.Act.Confined.{execute_actions-confined}
use semantics_toolchain.Scheduler.Act.Trace.{execute_actions-Written}
use semantics_toolchain.Scheduler.Gather.{Stats}
use semantics_toolchain.Scheduler.Runner.Summary.{
  Failure, autonomous, no_space, failed, executed_summary, gather_entry,
}
use semantics_toolchain.Scheduler.Runner.Execution.{
  Outside, Escape, Step, done, fails, Gathered, Ended, act_failure, delivery_target, is_autonomous,
  planned, gathered, refused, acted, delivered, in_origin, act_on, after_plan, after_gather,
  execute,
}

has-failed :
    (message : Failure → String) (occurrence : String) (f : Failure)
    → has "error" (failed message occurrence f) ≡ true
unfolding failed has
has-failed message occurrence f = refl

has-executed_summary :
    (occurrence : String) (report : List (String × Kind)) (plan : Fields) (stats : Option Stats)
    → has "error" (executed_summary occurrence report plan stats) ≡ false
unfolding executed_summary gather_entry has
has-executed_summary occurrence report plan none = refl
has-executed_summary occurrence report plan (some s) = refl

module _ (o : Outside) (g : Graph) (props : Fields) (n : Node) (account : ℕ)
    (occurrence : String) where
  -- A node that the job's fence does not let it update.
  abbrev pub Outlying : Node → Type 0
  Outlying x =
      (allowed : List String) (space : ℕ)
      → parse_writes_scope (get "writes" props) ≡ ok allowed
      → n.origin_space ≡ some space
      → (in_space space x && contains allowed x.type) ≡ false

  -- A failed occurrence changes nothing, and any other only within the fence.
  pub record IsContained (e : Ended) : Type 0 where
    pub unchanged : has "error" e.0 ≡ true → e.1 ≡ g
    pub written : Written g e.1
    pub confined :
        (i : ℕ) (x : Node)
        → find_node i g.nodes ≡ some x
        → Outlying x
        → find_node i e.1.nodes ≡ some x

  same_graph : (summary : Fields) → IsContained (summary, g)
  same_graph summary = record {
    unchanged = λ e. refl;
    written = Written.nothing;
    confined = λ i x there out. there;
  }

  refused-IsContained : (f : Failure) → IsContained (refused o g props n account occurrence f)
  unfolding refused
  refused-IsContained f = same_graph _

  acted-IsContained :
      (plan : Fields) (stats : Option Stats) (actions : List Action) (space : ℕ) (target : Value)
      → n.origin_space ≡ some space
      → (r : Result ActError (List (String × Kind) × Graph))
      → execute_actions g
          (get "writes" props)
          (record { account_id = account; space_id = space; delivery_target = target })
          actions
        ≡ r
      → IsContained (acted o g props n account occurrence plan stats r)
  unfolding acted
  acted-IsContained plan stats actions space target origin (ok (report, h)) e =
      let (allowed, declared, reported, kept) =
        execute_actions-confined g (get "writes" props) _ actions e in
      record {
        unchanged =
            λ failed. absurd (ground (arith, has-executed_summary occurrence report plan stats));
        written = execute_actions-Written g (get "writes" props) _ actions e;
        confined = λ i x there out. kept i x there (out allowed space declared origin);
      }
  acted-IsContained plan stats actions space target origin (err x) e =
      refused-IsContained (act_failure x)

  delivered-IsContained :
      (plan : Fields) (stats : Option Stats) (actions : List Action) (space : ℕ)
      (target : Step Value)
      → n.origin_space ≡ some space
      → IsContained (delivered o g props n account occurrence plan stats actions space target)
  unfolding delivered
  delivered-IsContained plan stats actions space (done target) origin =
      acted-IsContained plan stats actions space target origin _ refl
  delivered-IsContained plan stats actions space (fails f) origin = refused-IsContained f

  in_origin-IsContained :
      (plan : Fields) (stats : Option Stats) (actions : List Action) (origin : Option ℕ)
      → n.origin_space ≡ origin
      → IsContained (in_origin o g props n account occurrence plan stats actions origin)
  unfolding in_origin
  in_origin-IsContained plan stats actions none e = refused-IsContained no_space
  in_origin-IsContained plan stats actions (some space) e =
      delivered-IsContained plan stats actions space (delivery_target props) e

  act_on-IsContained :
      (plan : Fields) (stats : Option Stats) (actions : List Action)
      → IsContained (act_on o g props n account occurrence plan stats actions)
  unfolding act_on
  act_on-IsContained plan stats [] = same_graph _
  act_on-IsContained plan stats (a ∷ actions) =
      in_origin-IsContained plan stats (a ∷ actions) n.origin_space refl

  after_plan-IsContained :
      (stats : Option Stats) (step : Step Fields)
      → IsContained (after_plan o g props n account occurrence stats step)
  unfolding after_plan
  after_plan-IsContained stats (done plan) =
      act_on-IsContained plan stats (canonical_actions plan occurrence)
  after_plan-IsContained stats (fails f) = refused-IsContained f

  -- What an occurrence that does not raise is, if it ends.
  abbrev Contained : Result Escape Ended → Type 0
  Contained (ok e) = IsContained e
  Contained (err x) = Unit

  after_plan-Contained :
      (stats : Option Stats) (r : Result Escape (Step Fields))
      → Contained (r >>= λ step. ok (after_plan o g props n account occurrence stats step))
  after_plan-Contained stats (ok step) = after_plan-IsContained stats step
  after_plan-Contained stats (err x) = tt

  after_gather-Contained :
      (step : Step Gathered) → Contained (after_gather o g props n account occurrence step)
  unfolding after_gather
  after_gather-Contained (done (context, stats)) =
      after_plan-Contained stats (planned (o.reasoner context))
  after_gather-Contained (fails f) = refused-IsContained f

  gathered-Contained :
      (r : Result Escape (Step Gathered))
      → Contained (r >>= λ step. after_gather o g props n account occurrence step)
  gathered-Contained (ok step) = after_gather-Contained step
  gathered-Contained (err x) = tt

  execute-Contained : Contained (execute o g props n account occurrence)
  unfolding execute
  execute-Contained = elim (Bool-cases (is_autonomous props)) [
    | inl yes_it_is ↦ rw (yes_it_is, execute) (refused-IsContained autonomous)
    | inr no_it_is_not ↦ rw (no_it_is_not, execute) (gathered-Contained (gathered o props n))
  ]

  pub execute-IsContained :
      {e : Ended} → execute o g props n account occurrence ≡ ok e → IsContained e
  execute-IsContained {e} ends = subst Contained ends execute-Contained

-- An occurrence that fails, at whatever stage, changes nothing; and one that does not leaves every
-- node that is not in the job's own space, or whose type the job does not declare, as it was.
pub execute-confined :
    (o : Outside) (g : Graph) (props : Fields) (n : Node) (account : ℕ) (occurrence : String)
    {summary : Fields} {h : Graph}
    → execute o g props n account occurrence ≡ ok (summary, h)
    → (has "error" summary ≡ true → h ≡ g)
      × ((i : ℕ) (x : Node)
          → find_node i g.nodes ≡ some x
          → Outlying o g props n account occurrence x
          → find_node i h.nodes ≡ some x)
execute-confined o g props n account occurrence ends =
    let contained = execute-IsContained o g props n account occurrence ends in
    (contained.unchanged, contained.confined)

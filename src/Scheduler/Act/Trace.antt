-- ===== src/Scheduler/Act/Trace.antt =====
-- Lemmas on the writes of `execute_actions` of act.py.
use semantics_toolchain.Prelude.{
  String, Option, List, [], ◌∷◌, ◌≡◌, refl, ap, subst, inl, inr, Bool-cases, Option-cases, Result,
  ok, err, >>=-eq-ok, ok_inj,
}
use semantics_toolchain.Json.{Value, Fields}
use semantics_toolchain.Graph.{
  Graph, Node, GraphError, NewNode, Update, create_node, update_node, get_node,
}
use semantics_toolchain.Graph.Written.{
  Written, Written-trans, create_node-Written, update_node-Written,
}
use semantics_toolchain.Scheduler.Plan.{Action, Kind}
use semantics_toolchain.Scheduler.Act.Fence.{
  ActError, payload_of, is_update, target_id, parse_writes_scope, fence_all,
}
use semantics_toolchain.Scheduler.Act.Execution.{
  Context, raised, update_target, target_update, execute_action, execute_all, execute_actions,
  message_node, question_node, created_node, summaries,
}

-- What a step that succeeds has written.
abbrev Writes : Graph → Result ActError Graph → Type 0
Writes g (ok h) = Written g h
Writes g (err e) = Unit

raised-Writes :
    (g : Graph) (r : Result GraphError (Node × Graph))
    → ((m : Node) (h : Graph) → r ≡ ok (m, h) → Written g h)
    → Writes g (raised r)
unfolding raised
raised-Writes g (ok (m, h)) w = w m h refl
raised-Writes g (err e) w = tt

create-Writes : (g : Graph) (a : NewNode) → Writes g (raised (create_node g a))
create-Writes g a = raised-Writes g (create_node g a) (λ m h e. create_node-Written g a e)

update-Writes : (g : Graph) (u : Update) → Writes g (raised (update_node g u))
update-Writes g u = raised-Writes g (update_node g u) (λ m h e. update_node-Written g u e)

update_target-Writes : (g : Graph) (c : Context) (p : Fields) → Writes g (update_target g c p)
unfolding update_target
update_target-Writes g c p = elim (Option-cases (target_id p)) [
  | inl missing ↦ rw (missing, update_target) tt
  | inr (t, at_t) ↦ elim (Option-cases (get_node g t)) [
    | inl gone ↦ rw (at_t, gone, update_target) tt
    | inr (m, found) ↦ rw (at_t, found, update_target) (update-Writes g (target_update c p m))
  ]
]

execute_action-Writes : (g : Graph) (c : Context) (a : Action) → Writes g (execute_action g c a)
unfolding execute_action
execute_action-Writes g c a = by_kind a.kind refl
  where
    by_kind : (k : Kind) → a.kind ≡ k → Writes g (execute_action g c a)
    by_kind Kind.deliver e = rw (e, execute_action) (create-Writes g (message_node c a))
    by_kind Kind.elicit e = rw (e, execute_action) (create-Writes g (question_node c a))
    by_kind Kind.write e = elim (Bool-cases (is_update (payload_of a))) [
      | inl update ↦ rw (e, execute_action, update) (update_target-Writes g c (payload_of a))
      | inr create ↦
          rw (e, execute_action, create) (create-Writes g (created_node c (payload_of a)))
    ]

execute_all-Written :
    (g : Graph) (c : Context) (actions : List Action) {h : Graph}
    → execute_all g c actions ≡ ok h
    → Written g h
unfolding execute_all
execute_all-Written g c [] {h} e = subst (Written g) (ok_inj e) Written.nothing
execute_all-Written g c (a ∷ actions) e =
    let (k, first, rest) = >>=-eq-ok (execute_action g c a) (λ k. execute_all k c actions) e in
    Written-trans (subst (Writes g) first (execute_action-Writes g c a))
      (execute_all-Written k c actions rest)

pub execute_actions-Written :
    (g : Graph) (writes : Option Value) (c : Context) (actions : List Action)
    {report : List (String × Kind)} {h : Graph}
    → execute_actions g writes c actions ≡ ok (report, h)
    → Written g h
unfolding execute_actions
execute_actions-Written g writes c actions {report} {h} e =
    let (allowed, declared, after_fence) = >>=-eq-ok (parse_writes_scope writes) _ e in
    let (u, fenced, after_run) = >>=-eq-ok (fence_all g allowed c.space_id actions) _ after_fence in
    let (k, ran, made) = >>=-eq-ok (execute_all g c actions) _ after_run in
    let same : ◌≡◌ {A = List (String × Kind) × Graph} (summaries actions, k) (report, h) =
      ok_inj made in
    subst (Written g) (ap (λ p. p.1) same) (execute_all-Written g c actions ran)

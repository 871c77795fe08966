-- ===== src/Scheduler/Act/Confined.antt =====
-- Lemmas on `execute_actions` of act.py and the nodes outside a job's fence.
use semantics_toolchain.Prelude.{
  ℕ, String, true, false, Option, some, List, [], ◌∷◌, ◌≡◌, ◌≢◌, refl, sym, ap, ◌∙◌, subst, inl,
  inr, arith, ◌&&◌, contains, All, Bool-cases, Option-cases, some_inj, Result, ok, err, ◌>>=◌,
  >>=-eq-ok, ok_inj, map,
}
use semantics_toolchain.Json.{Value, Fields}
use semantics_toolchain.Graph.{
  is_acceptable, or_old, node_statuses, same_id, Graph, Node, NewNode, Update, find_node, get_node,
  create_node, update_node, write_version, new_row, updated_row,
}
use semantics_toolchain.Graph.Versions.{get_node-found, find_node-append}
use semantics_toolchain.Graph.Cas.{find_node-write_node, find_node-id}
use semantics_toolchain.Scheduler.Plan.{Action, Kind}
use semantics_toolchain.Scheduler.Act.Fence.{
  ActError, fence_target, payload_of, is_update, target_id, target_node, in_space,
  fence_update_target, fence_action, fence_all, parse_writes_scope,
}
use semantics_toolchain.Scheduler.Act.Execution.{
  Context, raised, update_target, target_update, execute_action, execute_all, execute_actions,
  message_node, question_node, created_node, summaries,
}

-- A node, by its row in the graph, that the fence does not let a plan update.
module _ (i : ℕ) (n : Node) where
  -- The result of a step, if it has one, has the same row.
  abbrev Keeps : Result ActError Graph → Type 0
  Keeps (ok h) = find_node i h.nodes ≡ some n
  Keeps (err e) = Unit

  create_node-Keeps :
      (h : Graph) (b : NewNode) → find_node i h.nodes ≡ some n → Keeps (raised (create_node h b))
  unfolding create_node raised
  create_node-Keeps h b there = elim (Bool-cases (is_acceptable h b)) [
    | inl good ↦ rw good (ground (arith, find_node-append i h.nodes (new_row b h.next_id)))
    | inr bad ↦ rw bad tt
  ]

  update_node-Keeps :
      (h : Graph) (u : Update)
      → u.node_id ≢ i
      → find_node i h.nodes ≡ some n
      → Keeps (raised (update_node h u))
  unfolding update_node raised write_version
  update_node-Keeps h u other there = elim (Option-cases (get_node h u.node_id)) [
    | inl gone ↦ rw (gone, update_node) tt
    | inr (m, found) ↦ elim (Bool-cases (same_id m.current_version u.expected_version)) [
      | inr stale ↦ rw (found, update_node, stale) tt
      | inl fits ↦ elim (Bool-cases (contains node_statuses (or_old u.status m.status))) [
        | inr bad ↦ rw (found, update_node, fits, bad) tt
        | inl good ↦
            let row : m.id ≡ u.node_id =
              find_node-id u.node_id h.nodes (get_node-found h u.node_id m found) in
            rw (found, update_node, fits, good)
              (ground (arith, find_node-write_node (updated_row u h.next_id m) i h.nodes, row))
      ]
    ]
  ]

  -- An update that the action makes is of another node.
  abbrev pub Elsewhere : Action → Type 0
  Elsewhere a =
      a.kind ≡ Kind.write → is_update (payload_of a) ≡ true → target_id (payload_of a) ≢ some i

  update_target-Keeps :
      (h : Graph) (c : Context) (p : Fields)
      → target_id p ≢ some i
      → find_node i h.nodes ≡ some n
      → Keeps (update_target h c p)
  unfolding update_target target_update
  update_target-Keeps h c p other there = elim (Option-cases (target_id p)) [
    | inl missing ↦ rw (missing, update_target) tt
    | inr (t, at_t) ↦ elim (Option-cases (get_node h t)) [
      | inl gone ↦ rw (at_t, gone, update_target) tt
      | inr (m, found) ↦
          let row : m.id ≡ t = find_node-id t h.nodes (get_node-found h t m found) in
          rw (at_t, found, update_target)
            (update_node-Keeps h (target_update c p m) (λ e. other (at_t ∙ ap some (sym row ∙ e)))
              there)
    ]
  ]

  execute_action-Keeps :
      (h : Graph) (c : Context) (a : Action)
      → Elsewhere a
      → find_node i h.nodes ≡ some n
      → Keeps (execute_action h c a)
  unfolding execute_action
  execute_action-Keeps h c a other there = by_kind a.kind refl
    where
      by_kind : (k : Kind) → a.kind ≡ k → Keeps (execute_action h c a)
      by_kind Kind.deliver e = rw (e, execute_action) (create_node-Keeps h (message_node c a) there)
      by_kind Kind.elicit e = rw (e, execute_action) (create_node-Keeps h (question_node c a) there)
      by_kind Kind.write e = elim (Bool-cases (is_update (payload_of a))) [
        | inl update ↦
            rw (e, execute_action, update)
              (update_target-Keeps h c (payload_of a) (other e update) there)
        | inr create ↦
            rw (e, execute_action, create)
              (create_node-Keeps h (created_node c (payload_of a)) there)
      ]

  bind-Keeps :
      (r : Result ActError Graph) (f : Graph → Result ActError Graph)
      → Keeps r
      → ((k : Graph) → find_node i k.nodes ≡ some n → Keeps (f k))
      → Keeps (r >>= f)
  bind-Keeps (ok k) f there next = next k there
  bind-Keeps (err e) f there next = tt

  execute_all-Keeps :
      (h : Graph) (c : Context) (actions : List Action)
      → All Elsewhere actions
      → find_node i h.nodes ≡ some n
      → Keeps (execute_all h c actions)
  unfolding execute_all
  execute_all-Keeps h c [] other there = there
  execute_all-Keeps h c (a ∷ actions) other there =
      bind-Keeps (execute_action h c a) (λ k. execute_all k c actions)
        (execute_action-Keeps h c a other.0 there)
        (λ k now. execute_all-Keeps k c actions other.1 now)

  module _ (g : Graph) (allowed : List String) (space : ℕ) where
    fence_action-update :
        (a : Action)
        → a.kind ≡ Kind.write
        → is_update (payload_of a) ≡ true
        → fence_action g allowed space a
          ≡ (fence_update_target g allowed space (payload_of a) >>= λ m. ok tt)
    unfolding fence_action payload_of
    fence_action-update a kind update = rw (kind, fence_action, update) refl

    fence_update_target-found :
        (p : Fields) (m : Node)
        → target_id p ≡ some i
        → fence_update_target g allowed space p ≡ ok m
        → (get_node g i ≡ some m) × ((in_space space m && contains allowed m.type) ≡ true)
    unfolding fence_target fence_update_target target_node
    fence_update_target-found p m target passed = elim (Option-cases (get_node g i)) [
      | inl gone ↦ absurd (ground arith)
      | inr (x, found) ↦ (ground arith, ground arith)
    ]

    fence_action-Elsewhere :
        (a : Action)
        → find_node i g.nodes ≡ some n
        → (in_space space n && contains allowed n.type) ≡ false
        → fence_action g allowed space a ≡ ok tt
        → Elsewhere a
    fence_action-Elsewhere a there outside passed kind update target =
        let (m, fenced, u) =
          >>=-eq-ok (fence_update_target g allowed space (payload_of a)) (λ x. ok tt)
            (sym (fence_action-update a kind update) ∙ passed) in
        let (found, inside) = fence_update_target-found (payload_of a) m target fenced in
        let same : m ≡ n = some_inj (sym (get_node-found g i m found) ∙ there) in
        absurd (ground arith)

    fence_all-Elsewhere :
        (actions : List Action)
        → find_node i g.nodes ≡ some n
        → (in_space space n && contains allowed n.type) ≡ false
        → fence_all g allowed space actions ≡ ok tt
        → All Elsewhere actions
    unfolding fence_all
    fence_all-Elsewhere [] there outside passed = tt
    fence_all-Elsewhere (a ∷ actions) there outside passed =
        let (u, first, rest) =
          >>=-eq-ok (fence_action g allowed space a) (λ x. fence_all g allowed space actions)
            passed in
        (
          fence_action-Elsewhere a there outside first,
          fence_all-Elsewhere actions there outside rest,
        )

summaries-map : (actions : List Action) → summaries actions ≡ map (λ a. (a.key, a.kind)) actions
unfolding summaries
summaries-map [] = refl
summaries-map (a ∷ actions) = ap (λ l. (a.key, a.kind) ∷ l) (summaries-map actions)

-- A plan that was executed left every node outside the fence, by its space or by its type, exactly
-- as it was, and it reports every action in its order.
pub execute_actions-confined :
    (g : Graph) (writes : Option Value) (c : Context) (actions : List Action)
    {report : List (String × Kind)} {h : Graph}
    → execute_actions g writes c actions ≡ ok (report, h)
    → (allowed : List String) × (parse_writes_scope writes ≡ ok allowed)
      × (report ≡ map (λ a. (a.key, a.kind)) actions)
      × ((i : ℕ) (n : Node)
          → find_node i g.nodes ≡ some n
          → (in_space c.space_id n && contains allowed n.type) ≡ false
          → find_node i h.nodes ≡ some n)
unfolding execute_actions
execute_actions-confined g writes c actions {report} {h} e =
    let (allowed, declared, after_fence) = >>=-eq-ok (parse_writes_scope writes) _ e in
    let (u, fenced, after_run) = >>=-eq-ok (fence_all g allowed c.space_id actions) _ after_fence in
    let (k, ran, made) = >>=-eq-ok (execute_all g c actions) _ after_run in
    let same : ◌≡◌ {A = List (String × Kind) × Graph} (summaries actions, k) (report, h) =
      ok_inj made in
    (
      allowed,
      declared,
      sym (ap (λ p. p.0) same) ∙ summaries-map actions,
      λ i n there outside.
          subst (λ x. find_node i x.nodes ≡ some n) (ap (λ p. p.1) same)
            (subst (Keeps i n) ran (
              execute_all-Keeps i n g c actions
                (fence_all-Elsewhere i n g allowed c.space_id actions there outside fenced) there)),
    )

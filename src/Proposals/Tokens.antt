-- ===== src/Proposals/Tokens.antt =====
-- Lemmas on the version tokens of `apply_proposal` of proposals.py.
use semantics_toolchain.Prelude.{
  ℕ, true, Option, none, some, List, ◌≡◌, ◌≢◌, refl, sym, ap, ◌∙◌, inl, inr, arith, Option-cases,
  Result, ok, err, ◌>>=◌, >>=-eq-ok, ok_inj, some_inj, eqb_iff,
}
use semantics_toolchain.Json.{Fields}
use semantics_toolchain.Graph.{
  Graph, Node, Update, GraphError, get_node, update_node, patched, same_id,
}
use semantics_toolchain.Graph.Cas.{update_node-IsUpdate, get_node-update_node, find_node-id}
use semantics_toolchain.Graph.Versions.{get_node-found}
use semantics_toolchain.Proposals.Staged.{
  Proposal, ProposalError, ref_uuid, payload_text, payload_object,
}
use semantics_toolchain.Proposals.Applying.{
  Applied, lifted, staged_version, live_target, actor_of, apply_update, apply_proposal,
}

same_id-some : (o : Option ℕ) (i : ℕ) → same_id o (some i) ≡ true → o ≡ some i
unfolding same_id
same_id-some none i h = absurd (ground arith)
same_id-some (some a) i h = ap some ((eqb_iff a i).0 h)

pub lifted-eq-ok : {A : Type 0} (r : Result GraphError A) {a : A} → lifted r ≡ ok a → r ≡ ok a
unfolding lifted
lifted-eq-ok (ok a) h = ap ok (ok_inj h)
lifted-eq-ok (err e) h = cc

live_target-found :
    (g : Graph) (ref : Fields) {n : Node}
    → live_target g ref ≡ ok n
    → (ref_uuid "node_id" ref ≡ ok n.id) × (get_node g n.id ≡ some n)
unfolding live_target get_node
live_target-found g ref {n} h =
    let (id, read, later) = >>=-eq-ok (ref_uuid "node_id" ref) _ h in
    elim (Option-cases (get_node g id)) [
      | inl gone ↦ absurd (ground arith)
      | inr (m, found) ↦
          let same : m ≡ n = ground arith in
          let id_eq : m.id ≡ id = find_node-id id g.nodes (get_node-found g id m found) in
          (ground arith, ground arith)
    ]

abbrev applied : Graph → Option ℕ → Result ProposalError Applied
applied h c = ok (h, c)

-- An operation of the repository and the pair that is made of its graph.
pub lifted-made :
    {A : Type 0} (r : Result GraphError (A × Graph)) (c : Option ℕ) {h : Graph} {created : Option ℕ}
    → (lifted r >>= λ made. applied made.1 c) ≡ ok (h, created)
    → (a : A) × (r ≡ ok (a, h))
lifted-made {A} r c {h} e =
    let ((a, k), done, made) = >>=-eq-ok (lifted r) (λ made. applied made.1 c) e in
    (a, lifted-eq-ok r done ∙ ap (λ (x : Graph × Option ℕ). ok (a, x.0)) (ok_inj made))

-- What an update that expects a version found, and what it made.
update-at :
    (g : Graph) (u : Update) (token : ℕ) {m : Node} {h : Graph}
    → u.expected_version ≡ some token
    → update_node g u ≡ ok (m, h)
    → (n : Node) × (get_node g u.node_id ≡ some n)
      × (n.current_version ≡ some token)
      × (get_node h u.node_id ≡ some m)
      × (m.properties ≡ patched u.properties_patch n.properties)
      × ((j : ℕ) → j ≢ u.node_id → get_node h j ≡ get_node g j)
update-at g u token expects e =
    let r = update_node-IsUpdate g u e in
    let (old, found, merged, reads, others) = get_node-update_node g u e in
    let same : r.old ≡ old = some_inj (sym r.found ∙ found) in
    (
      old,
      found,
      ap (λ (x : Node). x.current_version) (sym same)
          ∙ same_id-some r.old.current_version token
              (ap (same_id r.old.current_version) (sym expects) ∙ r.expected),
      reads,
      merged,
      others,
    )

apply_proposal-update :
    (profile : Graph → Proposal → Option (Result ProposalError Applied)) (g : Graph)
    (table : List Proposal) (p : Proposal) (fallback : ℕ)
    → p.op ≡ "update_node"
    → apply_proposal profile g table p fallback ≡ apply_update g p (actor_of p fallback)
unfolding apply_proposal
apply_proposal-update profile g table p fallback e = rw e refl

-- An approved update is applied only to the version it was written against: where it succeeds, the
-- node's current version was the staged one, the patch is merged into that version's properties,
-- and no other node reads differently. Without a staged version nothing is applied.
pub apply_proposal-token :
    (profile : Graph → Proposal → Option (Result ProposalError Applied)) (g : Graph)
    (table : List Proposal) (p : Proposal) (fallback : ℕ) {h : Graph} {created : Option ℕ}
    → p.op ≡ "update_node"
    → apply_proposal profile g table p fallback ≡ ok (h, created)
    → (n m : Node) × (token : ℕ) × (patch : Option Fields) × (ref_uuid "node_id" p.target_ref
        ≡ ok n.id)
      × (staged_version p.payload ≡ ok token)
      × (payload_object "patch" p.payload ≡ ok patch)
      × (get_node g n.id ≡ some n)
      × (n.current_version ≡ some token)
      × (get_node h n.id ≡ some m)
      × (m.properties ≡ patched patch n.properties)
      × ((j : ℕ) → j ≢ n.id → get_node h j ≡ get_node g j)
unfolding apply_update
apply_proposal-token profile g table p fallback {h} {created} op e =
    let performed = sym (apply_proposal-update profile g table p fallback op) ∙ e in
    let (n, target, e1) = >>=-eq-ok (live_target g p.target_ref) _ performed in
    let (label, l, e2) = >>=-eq-ok (payload_text "label" p.payload) _ e1 in
    let (status, s, e3) = >>=-eq-ok (payload_text "status" p.payload) _ e2 in
    let (token, t, e4) = >>=-eq-ok (staged_version p.payload) _ e3 in
    let (patch, q, e5) = >>=-eq-ok (payload_object "patch" p.payload) _ e4 in
    let (m, done) = lifted-made _ p.created_node_id e5 in
    let (named, found) = live_target-found g p.target_ref target in
    let (old, there, current, reads, merged, others) = update-at g _ token refl done in
    let same : old ≡ n = some_inj (sym there ∙ found) in
    (
      n,
      m,
      token,
      patch,
      named,
      t,
      q,
      found,
      ap (λ (x : Node). x.current_version) (sym same) ∙ current,
      reads,
      merged ∙ ap (λ (x : Node). patched patch x.properties) same,
      others,
    )

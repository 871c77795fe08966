-- ===== src/Proposals/Ordering.antt =====
-- `order_proposals`. The loop has the number of proposals as fuel: each round takes out one at least.
use semantics_toolchain.Prelude.{
  ℕ, zero, suc, Bool, true, not, Option, none, some, List, [], ◌∷◌, ◌++◌, map, length, filter,
  Result, ok, err, ◌>>=◌, ◌>>◌, require,
}
use semantics_toolchain.Json.{Value, get}
use semantics_toolchain.Access.{is_member}
use semantics_toolchain.Proposals.Staged.{
  Proposal, ProposalError, outside_batch, circular, any_uuid, object_or_empty, true_value,
}

-- `uuid.UUID(str(raw)) if raw else None`
unfoldable pub uuid_if_given : Option Value → Result ProposalError (Option ℕ)
unfolding any_uuid
uuid_if_given none = ok none
uuid_if_given (some raw) = any_uuid raw >>= λ id. ok (some id)

-- The sibling that the proposal's parent names.
unfoldable pub dependency : Proposal → Result ProposalError (Option ℕ)
unfolding object_or_empty true_value uuid_if_given get
dependency p = object_or_empty (get "parent" p.payload) >>= λ parent.
    uuid_if_given (true_value "proposal_id" parent)

-- A proposal and the sibling it depends on.
abbrev pub Pending : Type 0
Pending = Proposal × Option ℕ

abbrev pub pending_id : Pending → ℕ
pending_id e = e.0.id

abbrev pub ids : List Pending → List ℕ
ids es = map pending_id es

abbrev pub in_batch : List ℕ → Option ℕ → Bool
in_batch known none = true
in_batch known (some d) = is_member d known

-- The first loop: `depends`, with the test against `by_id`.
unfoldable pub dependencies : List ℕ → List Proposal → Result ProposalError (List Pending)
unfolding dependency is_member
dependencies known [] = ok []
dependencies known (p ∷ ps) = do
  d ← dependency p
  require (in_batch known d) outside_batch
  rest ← dependencies known ps
  ok ((p, d) ∷ rest)

abbrev pub is_ready : List ℕ → Pending → Bool
is_ready emitted e = in_batch emitted e.1

abbrev pub is_left : List ℕ → Pending → Bool
is_left emitted e = not (is_member e.0.id emitted)

-- `while remaining:`
unfoldable pub rounds : ℕ → List ℕ → List Pending → Result ProposalError (List Pending)
unfolding is_member
rounds fuel emitted [] = ok []
rounds zero emitted (e ∷ es) = err circular
rounds (suc fuel) emitted (e ∷ es) = elim (filter (is_ready emitted) (e ∷ es)) [
  | [] ↦ err circular
  | r ∷ rs ↦
      rounds fuel (ids (r ∷ rs) ++ emitted) (filter (is_left (ids (r ∷ rs) ++ emitted)) (e ∷ es))
      >>= λ rest. ok ((r ∷ rs) ++ rest)
]

unfoldable pub batch_ids : List Proposal → List ℕ
batch_ids ps = map (λ p. p.id) ps

unfoldable pub order_pending : List Proposal → Result ProposalError (List Pending)
unfolding dependencies rounds batch_ids
order_pending ps = dependencies (batch_ids ps) ps >>= λ es. rounds (length es) [] es

unfoldable pub order_proposals : List Proposal → Result ProposalError (List Proposal)
unfolding order_pending
order_proposals ps = order_pending ps >>= λ es. ok (map (λ e. e.0) es)

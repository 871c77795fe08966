-- ===== src/Proposals/Parents.antt =====
-- Lemmas on a node that `apply_proposal` of proposals.py creates inside another.
use semantics_toolchain.Prelude.{
  ℕ, Option, none, some, List, ◌≡◌, refl, sym, ap, ◌∙◌, subst, inl, inr, arith, ◌==◌, ◌&&◌,
  Option-cases, Bool-cases, Result, ok, err, ◌>>=◌, >>=-eq-ok, ok_inj,
}
use semantics_toolchain.Json.{Value, Fields, null, bool, int, float, str, arr, obj}
use semantics_toolchain.Graph.{
  Graph, Node, Edge, NewEdge, GraphError, get_node, live, find_node, link, insert_edge, active_edge,
  contained_in, has_container, endpoints_exist, create_node,
}
use semantics_toolchain.Graph.Sharing.{active_edge-link}
use semantics_toolchain.Proposals.Staged.{Proposal, ProposalError, true_value}
use semantics_toolchain.Proposals.Applying.{
  Applied, lifted, containment, link_parent, parent_id, attach_parent, new_node, actor_of, recorded,
  apply_create, create_fresh, apply_proposal,
}
use semantics_toolchain.Proposals.Tokens.{lifted-eq-ok}

-- The nodes after a link, if it succeeds.
abbrev SameNodes : Graph → Result GraphError (Edge × Graph) → Type 0
SameNodes g (ok (e, h)) = h.nodes ≡ g.nodes
SameNodes g (err x) = Unit

link-SameNodes : (g : Graph) (a : NewEdge) → SameNodes g (link g a)
unfolding link insert_edge
link-SameNodes g a = elim (Option-cases (active_edge a.type a.src_node a.dst_node g.edges)) [
  | inr (e, old) ↦ rw (link, old) refl
  | inl new ↦ elim (Bool-cases ((a.type == contained_in) && has_container a.src_node g.edges)) [
    | inl held ↦ rw (link, new, held) tt
    | inr free ↦ elim (Bool-cases (endpoints_exist g a)) [
      | inl good ↦ rw (link, new, free, good) refl
      | inr bad ↦ rw (link, new, free, bad) tt
    ]
  ]
]

-- The node `child` is inside the node `parent`, which is there.
pub record IsInside (h : Graph) (child parent : ℕ) : Type 0 where
  pub container : Node
  pub found : get_node h parent ≡ some container
  pub edge : Edge
  pub linked : active_edge contained_in child parent h.edges ≡ some edge

link_parent-IsInside :
    (g : Graph) (child actor parent : ℕ) {h : Graph}
    → link_parent g child actor parent ≡ ok h
    → IsInside h child parent
unfolding link_parent get_node
link_parent-IsInside g child actor parent {h} e = elim (Option-cases (get_node g parent)) [
  | inl gone ↦ absurd (ground arith)
  | inr (n, there) ↦
      let linked : (lifted (link g (containment child parent actor)) >>= λ made. ok made.1) ≡ ok h =
        ground arith in
      let (made, done, last) =
        >>=-eq-ok (lifted (link g (containment child parent actor)))
          (λ (made : Edge × Graph). ok made.1) linked in
      let ran = lifted-eq-ok (link g (containment child parent actor)) done in
      let same : made.1 ≡ h = ok_inj last in
      subst (λ k. IsInside k child parent) same
        (record {
          container = n;
          found =
              ap (λ ns. live (find_node parent ns))
                (subst (SameNodes g) ran (link-SameNodes g (containment child parent actor)))
              ∙ there;
          edge = made.0;
          linked = active_edge-link g (containment child parent actor) ran;
        })
]

attach_parent-IsInside :
    (g : Graph) (table : List Proposal) (payload : Fields) (child actor : ℕ) (v : Value) {h : Graph}
    → true_value "parent" payload ≡ some v
    → attach_parent g table payload child actor ≡ ok h
    → (fields : Fields) × (parent : ℕ) × (v ≡ obj fields)
      × (parent_id table fields ≡ ok parent)
      × IsInside h child parent
unfolding attach_parent
attach_parent-IsInside g table payload child actor (obj fields) {h} given e =
    let attached : (parent_id table fields >>= λ p. link_parent g child actor p) ≡ ok h =
      ground arith in
    let (parent, named, linked) =
      >>=-eq-ok (parent_id table fields) (λ p. link_parent g child actor p) attached in
    (fields, parent, refl, named, link_parent-IsInside g child actor parent linked)
attach_parent-IsInside g table payload child actor null given e = absurd (ground arith)
attach_parent-IsInside g table payload child actor (bool b) given e = absurd (ground arith)
attach_parent-IsInside g table payload child actor (int z) given e = absurd (ground arith)
attach_parent-IsInside g table payload child actor (float m k) given e = absurd (ground arith)
attach_parent-IsInside g table payload child actor (str s) given e = absurd (ground arith)
attach_parent-IsInside g table payload child actor (arr vs) given e = absurd (ground arith)

apply_create-fresh :
    (g : Graph) (table : List Proposal) (p : Proposal) (actor : ℕ)
    → p.created_node_id ≡ none
    → apply_create g table p actor ≡ create_fresh g table p actor
unfolding apply_create
apply_create-fresh g table p actor e = rw e refl

apply_proposal-create :
    (profile : Graph → Proposal → Option (Result ProposalError Applied)) (g : Graph)
    (table : List Proposal) (p : Proposal) (fallback : ℕ)
    → p.op ≡ "create_node"
    → apply_proposal profile g table p fallback ≡ apply_create g table p (actor_of p fallback)
unfolding apply_proposal
apply_proposal-create profile g table p fallback e = rw e refl

-- A creation that names a parent never leaves the node outside it: where it succeeds, the node that
-- it reports lies in the named node, or in the one that the named proposal created (the proposal's
-- own creation counts), and that one is there.
pub apply_proposal-IsInside :
    (profile : Graph → Proposal → Option (Result ProposalError Applied)) (g : Graph)
    (table : List Proposal) (p : Proposal) (fallback : ℕ) (v : Value) {h : Graph}
    {created : Option ℕ}
    → p.op ≡ "create_node"
    → p.created_node_id ≡ none
    → true_value "parent" p.payload ≡ some v
    → apply_proposal profile g table p fallback ≡ ok (h, created)
    → (fields : Fields) × (child parent : ℕ) × (v ≡ obj fields)
      × (parent_id (recorded p.id child table) fields ≡ ok parent)
      × (created ≡ some child)
      × IsInside h child parent
unfolding create_fresh
apply_proposal-IsInside profile g table p fallback v {h} {created} op fresh given e =
    let actor = actor_of p fallback in
    let performed : create_fresh g table p actor ≡ ok (h, created) =
      sym (
        apply_proposal-create profile g table p fallback op
        ∙ apply_create-fresh g table p actor fresh)
      ∙ e in
    let (a, read, e1) = >>=-eq-ok (new_node p.target_ref p.payload actor) _ performed in
    let (made, done, e2) = >>=-eq-ok (lifted (create_node g a)) _ e1 in
    let (k, attached, e3) =
      >>=-eq-ok (attach_parent made.1 (recorded p.id made.0.id table) p.payload made.0.id actor) _
        e2 in
    let (fields, parent, is_object, named, inside) =
      attach_parent-IsInside made.1 (recorded p.id made.0.id table) p.payload made.0.id actor v
        given attached in
    let same : ◌≡◌ {A = Applied} (k, some made.0.id) (h, created) = ok_inj e3 in
    (
      fields,
      made.0.id,
      parent,
      is_object,
      named,
      ap (λ (x : Applied). x.1) (sym same),
      subst (λ x. IsInside x made.0.id parent) (ap (λ (x : Applied). x.0) same) inside,
    )

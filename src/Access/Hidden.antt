-- ===== src/Access/Hidden.antt =====
-- Sensitive edges from their creation to what an account sees of them: `link` of repository/graph.py
-- and `neighbors` of access.py.
use semantics_toolchain.Prelude.{
  ℕ, String, true, false, Option, none, some, List, ◌≡◌, refl, ap, ◌∙◌, subst, inl, inr, ◌⊎◌, arith,
  Bool-cases, Result, ok, err, In, contains, ◌==◌, ◌&&◌, [], ◌∷◌, eqb, eqb_iff, and_true,
  All-member_of,
}
use semantics_toolchain.Graph.{
  Graph, Node, Edge, NewEdge, GraphError, find_node, assoc, link, insert_edge, edge_row,
  active_edge, endpoints_exist, has_row, has_container, contained_in, derive_sensitive, is_high,
  effective_sensitivity,
}
use semantics_toolchain.Access.Reading.{Access, Direction, neighbors, space_ids, refers, is_member}
use semantics_toolchain.Access.Neighbors.{IsNeighborOf, neighbors-AllNeighbors}

-- The sensitivities of a node whose edges are sensitive.
abbrev pub Grave : Option String → Type 0
Grave o = (o ≡ some "high") ⊎ (o ≡ some "critical")

own_sensitivity :
    (g : Graph) (n : Node) (s : String)
    → n.sensitivity ≡ some s
    → (s == "") ≡ false
    → effective_sensitivity g n ≡ s
unfolding effective_sensitivity
own_sensitivity g n s own filled = rw (own, effective_sensitivity) (rw filled refl)

high_found :
    (g : Graph) (i : ℕ) (n : Node)
    → find_node i g.nodes ≡ some n
    → is_high g i ≡ contains ("high" ∷ "critical" ∷ []) (effective_sensitivity g n)
unfolding is_high
high_found g i n there = rw (there, is_high) refl

Grave-is_high :
    (g : Graph) (i : ℕ) (n : Node)
    → find_node i g.nodes ≡ some n
    → Grave n.sensitivity
    → is_high g i ≡ true
Grave-is_high g i n there (inl high) =
    high_found g i n there
    ∙ ap (contains ("high" ∷ "critical" ∷ [])) (own_sensitivity g n "high" high refl)
Grave-is_high g i n there (inr critical) =
    high_found g i n there
    ∙ ap (contains ("high" ∷ "critical" ∷ [])) (own_sensitivity g n "critical" critical refl)

-- The edge that a link made, if there was none.
abbrev Made : Graph → NewEdge → Result GraphError (Edge × Graph) → Type 0
Made g a (ok (e, h)) = e ≡ edge_row g a
Made g a (err x) = Unit

link-Made :
    (g : Graph) (a : NewEdge)
    → active_edge a.type a.src_node a.dst_node g.edges ≡ none
    → Made g a (link g a)
unfolding link insert_edge
link-Made g a new =
    elim (Bool-cases ((a.type == contained_in) && has_container a.src_node g.edges)) [
      | inl held ↦ rw (link, new, held) tt
      | inr free ↦ elim (Bool-cases (endpoints_exist g a)) [
        | inl good ↦ rw (link, new, free, good) refl
        | inr bad ↦ rw (link, new, free, bad) tt
      ]
    ]

-- What makes a new edge sensitive: its type, or a node at one of its ends.
abbrev pub Sensitive : Graph → NewEdge → Type 0
Sensitive g a =
    (assoc a.type g.edge_types ≡ some true)
    ⊎ (n : Node) × ((find_node a.src_node g.nodes ≡ some n)
        ⊎ (find_node a.dst_node g.nodes ≡ some n))
      × Grave n.sensitivity

edge_row-sensitive :
    (g : Graph) (a : NewEdge) → a.sensitive ≡ none → Sensitive g a → (edge_row g a).sensitive ≡ true
unfolding derive_sensitive
edge_row-sensitive g a unset (inl by_type) = rw (unset, by_type) refl
edge_row-sensitive g a unset (inr (n, inl there, grave)) =
    rw unset (ground (arith, Grave-is_high g a.src_node n there grave))
edge_row-sensitive g a unset (inr (n, inr there, grave)) =
    rw unset (ground (arith, Grave-is_high g a.dst_node n there grave))

refers-row :
    (spaces : List ℕ) (i : ℕ) (rows : List (ℕ × ℕ))
    → refers spaces i rows ≡ true
    → (s : ℕ) × (is_member s spaces ≡ true) × (has_row i s rows ≡ true)
unfolding refers has_row
refers-row spaces i [] h = absurd (ground arith)
refers-row spaces i ((x, s) ∷ rows) h = elim (Bool-cases (eqb x i && is_member s spaces)) [
  | inl here ↦
      let (same, inside) = and_true (eqb x i) (is_member s spaces) here in
      (s, inside, ground (arith, same, eqb_iff s s))
  | inr later ↦
      let (t, inside, row) = refers-row spaces i rows (ground (arith, h, later)) in
      (t, inside, ground (arith, row))
]

-- A new edge of a type that is registered as sensitive, or at a node of high or critical sensitivity
-- of its own, is hidden, unless the caller set its flag: whatever the graph is by then, an account
-- whose neighbors of a node have this edge has a space into which the edge itself is shared.
pub link-neighbors :
    (g : Graph) (a : NewEdge) {e : Edge} {h : Graph}
    → active_edge a.type a.src_node a.dst_node g.edges ≡ none
    → a.sensitive ≡ none
    → Sensitive g a
    → link g a ≡ ok (e, h)
    → (k : Graph) (reader : Access) (id : ℕ) (d : Direction) (types : Option (List String))
      (m : Node)
    → In (e, m) (neighbors k reader id d types)
    → (s : ℕ) × (is_member s (space_ids k reader) ≡ true) × (has_row e.id s k.edge_spaces ≡ true)
link-neighbors g a {e} {h} new unset grave p k reader id d types m seen =
    let made : e ≡ edge_row g a = subst (Made g a) p (link-Made g a new) in
    refers-row (space_ids k reader) e.id k.edge_spaces (
      (All-member_of (IsNeighborOf k reader d id) _ (neighbors-AllNeighbors k reader id d types)
          (e, m) seen).open_edge
        (ap (λ (x : Edge). x.sensitive) made ∙ edge_row-sensitive g a unset grave))

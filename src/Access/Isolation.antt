-- ===== src/Access/Isolation.antt =====
-- `get_node` of access.py after a creation, and after a node is shared or unshared.
use semantics_toolchain.Prelude.{
  ok_inj, ℕ, ◌<◌, ◌≤◌, true, false, none, some, List, [], ◌∷◌, ◌++◌, ◌≡◌, refl, inl, inr, arith,
  Bool-cases, eqb, eqb_iff, if◌then◌else◌, ◌&&◌, All, subst, ok,
}
use semantics_toolchain.Graph.{
  is_acceptable, Graph, Node, NewNode, find_node, live, create_node, with_node, new_row, share_node,
  unshare_node, drop_row,
}
use semantics_toolchain.Graph.Versions.{find_node-append, IsWellFormed}
use semantics_toolchain.Access.Reading.{Access, get_node, refers, space_ids, is_member}
use semantics_toolchain.Access.Scopes.{get_node-refers}

refers-append :
    (xs : List ℕ) (i n s : ℕ) (rows : List (ℕ × ℕ))
    → refers xs i (rows ++ (n, s) ∷ [])
      ≡ (if eqb n i && is_member s xs then true else refers xs i rows)
unfolding refers
refers-append xs i n s [] = refl
refers-append xs i n s ((x, t) ∷ rows) = ground (arith, refers-append xs i n s rows)

find_node-above :
    (k i : ℕ) (ns : List Node) → All (λ n. n.id < k) ns → k ≤ i → find_node i ns ≡ none
unfolding find_node
find_node-above k i [] h le = refl
find_node-above k i (n ∷ ns) h le = ground (arith, h.0, find_node-above k i ns h.1 le)

-- No node is referred to before it exists.
abbrev pub RowsBelow : ℕ → List (ℕ × ℕ) → Type 0
RowsBelow k = All (λ r. r.0 < k)

refers-above :
    (xs : List ℕ) (k i : ℕ) (rows : List (ℕ × ℕ))
    → RowsBelow k rows
    → k ≤ i
    → refers xs i rows ≡ false
unfolding refers
refers-above xs k i [] h le = refl
refers-above xs k i ((x, s) ∷ rows) h le = ground (arith, h.0, refers-above xs k i rows h.1 le)

get_node-with_node :
    (g : Graph) (b : NewNode) (a : Access) (i : ℕ)
    → IsWellFormed g
    → RowsBelow g.next_id g.node_spaces
    → get_node (with_node g b) a i ≡ (
        if eqb g.next_id i
        then if is_member b.space_id (space_ids g a) then some (new_row b g.next_id) else none
        else get_node g a i)
unfolding live space_ids
get_node-with_node g b a i w rows = ground (
  arith,
  get_node-refers (with_node g b) a i,
  get_node-refers g a i,
  eqb_iff g.next_id i,
  refers-append (space_ids g a) i g.next_id b.space_id g.node_spaces,
  refers-above (space_ids g a) g.next_id i g.node_spaces rows,
  find_node-append i g.nodes (new_row b g.next_id),
  find_node-above g.next_id i g.nodes w.node_ids,
)

create_node-row :
    (g : Graph) (b : NewNode) {m : Node} {h : Graph}
    → create_node g b ≡ ok (m, h)
    → ◌≡◌ {A = Node × Graph} (new_row b g.next_id, with_node g b) (m, h)
unfolding create_node
create_node-row g b e = elim (Bool-cases (is_acceptable g b)) [
  | inl good ↦ ok_inj (rw good at e)
  | inr bad ↦ absurd (ground arith)
]

-- A new node is readable exactly by the accounts that reach the space it was created in, and no
-- account reads another node differently than before.
get_node-create_node :
    (g : Graph) (b : NewNode) (a : Access) (i : ℕ) {m : Node} {h : Graph}
    → IsWellFormed g
    → RowsBelow g.next_id g.node_spaces
    → create_node g b ≡ ok (m, h)
    → get_node h a i ≡ (
        if eqb m.id i
        then if is_member b.space_id (space_ids h a) then some m else none
        else get_node g a i)
unfolding space_ids
get_node-create_node g b a i {m} {h} w rows e =
    let same = create_node-row g b e in
    subst
      (λ (p : Node × Graph). get_node p.1 a i ≡ (
        if eqb p.0.id i
        then if is_member b.space_id (space_ids p.1 a) then some p.0 else none
        else get_node g a i))
      same (get_node-with_node g b a i w rows)

refers-drop_row :
    (xs : List ℕ) (i n s : ℕ) (rows : List (ℕ × ℕ))
    → is_member s xs ≡ false
    → refers xs i (drop_row n s rows) ≡ refers xs i rows
unfolding refers drop_row
refers-drop_row xs i n s [] h = refl
refers-drop_row xs i n s ((x, t) ∷ rows) h =
    ground (arith, refers-drop_row xs i n s rows h, eqb_iff t s)

-- Sharing a node into a space, or taking it out of one, changes nothing for an account that does not
-- reach that space: whatever it read it still reads, and nothing more.
pub get_node-share_node :
    (g : Graph) (a : Access) (n s i : ℕ)
    → is_member s (space_ids g a) ≡ false
    → (get_node (share_node g n s).1 a i ≡ get_node g a i)
      × (get_node (unshare_node g n s).1 a i ≡ get_node g a i)
unfolding share_node unshare_node space_ids
get_node-share_node g a n s i outside = (
  ground (
    arith,
    get_node-refers (share_node g n s).1 a i,
    get_node-refers g a i,
    refers-append (space_ids g a) i n s g.node_spaces,
  ),
  ground (
    arith,
    get_node-refers (unshare_node g n s).1 a i,
    get_node-refers g a i,
    refers-drop_row (space_ids g a) i n s g.node_spaces outside,
  ),
)

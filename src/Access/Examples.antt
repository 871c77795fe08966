-- ===== src/Access/Examples.antt =====
-- Two accounts at a shared graph, and the theorems about what they see.
use semantics_toolchain.Prelude.{
  inl, inr, sym, subst, In, ℕ, Bool, true, false, some, none, [], ◌∷◌, ◌≡◌, refl, ok, ◌&&◌, All,
}
use semantics_toolchain.Json.{end}
use semantics_toolchain.Graph.{
  NewEdge, edge_row, link, insert_edge, active_edge, endpoints_exist, has_container,
  derive_sensitive, is_high, effective_sensitivity, is_acceptable, with_node, new_row, Node, Edge,
  Graph, Permission, Membership, NewNode, create_node, share_node, unshare_node, find_node, assoc,
  has_row, drop_row, live, is_registered,
}
use semantics_toolchain.Graph.Versions.{IsWellFormed}
use semantics_toolchain.Access.Reading.{
  Access, Direction, is_member, in_scope, spaces_of, space_ids, refers, get_node, is_node_visible,
  has_type, is_listed, listed, limited, list_nodes, rank, grants, permissions, highest, maximum,
  effective_permission, touches, of_types, other_end, in_view, is_open, candidate, reached,
  neighbors,
}
use semantics_toolchain.Access.Scopes.{unscoped, get_node-scopes}
use semantics_toolchain.Access.Permissions.{Allows, AtMost, effective_permission-grants}
use semantics_toolchain.Access.Neighbors.{IsNeighborOf, neighbors-AllNeighbors}
use semantics_toolchain.Access.Hidden.{link-neighbors}
use semantics_toolchain.Access.Subtree.{extends, next_source, closure, containment_subtree}
use semantics_toolchain.Access.Descent.{Below, containment_subtree-Below}
use semantics_toolchain.Access.Isolation.{get_node-share_node}

program : Unit {0}
unfolding create_node share_node unshare_node find_node assoc has_row drop_row live is_registered
    is_acceptable is_member in_scope spaces_of space_ids refers get_node is_node_visible has_type
    is_listed listed limited list_nodes rank grants permissions highest maximum effective_permission
    touches of_types other_end in_view is_open candidate reached neighbors
program = tt

abbrev member : ℕ → ℕ → Permission → Membership
member account space permission = record {
  account_id = account;
  space_id = space;
  permission = permission;
}

abbrev plain : ℕ → Node
plain id = record {
  id = id;
  type = "Fact";
  label = none;
  properties = end;
  status = "current";
  sensitivity = none;
  origin_space = none;
  created_by = none;
  deleted = false;
  current_version = none;
}

abbrev edge : ℕ → ℕ → ℕ → Bool → Edge
edge id src dst sensitive = record {
  id = id;
  type = "about";
  src_node = src;
  dst_node = dst;
  properties = end;
  sensitive = sensitive;
  created_by = 7;
  active = true;
}

-- Account 7 reads space 3 and administers space 4; account 8 writes space 3.
abbrev shared : Graph
shared = record {
  nodes = plain 1 ∷ plain 2 ∷ plain 5 ∷ [];
  versions = [];
  edges = edge 20 1 2 false ∷ edge 21 5 1 true ∷ [];
  node_spaces = (1, 3) ∷ (1, 4) ∷ (2, 3) ∷ (5, 3) ∷ [];
  edge_spaces = (21, 4) ∷ [];
  memberships =
      member 7 3 Permission.read ∷ member 7 4 Permission.admin ∷ member 8 3 Permission.write ∷ [];
  node_types = ("Fact", "normal") ∷ [];
  edge_types = ("about", false) ∷ [];
  next_id = 30;
}

abbrev credential : Access
credential = record { account_id = 7; scopes = some (3 ∷ []) }

scoped_read : get_node shared credential 1 ≡ some (plain 1)
unfolding program
scoped_read = refl

get_node-scopes_example :
    ((s : ℕ)
      → is_member s (space_ids shared credential)
        ≡ (is_member s (space_ids shared (unscoped 7)) && in_scope (some (3 ∷ [])) s))
    × (get_node shared (unscoped 7) 1 ≡ some (plain 1))
get_node-scopes_example = get_node-scopes shared 7 (some (3 ∷ [])) 1 scoped_read

-- The admin grant of space 4 does not reach a credential that is scoped to space 3.
scoped_permission :
    (effective_permission shared credential 1 ≡ some Permission.read)
    × (effective_permission shared (unscoped 7) 1 ≡ some Permission.admin)
unfolding program
scoped_permission = (refl, refl)

effective_permission-grants_example :
    ((n : Node) × (get_node shared credential 1 ≡ some n))
    × ((m : Membership) × In m shared.memberships
        × Allows shared credential 1 m
        × (m.permission ≡ Permission.read))
    × ((m : Membership)
        → In m shared.memberships
        → Allows shared credential 1 m
        → AtMost m.permission Permission.read)
effective_permission-grants_example =
    effective_permission-grants shared credential 1 Permission.read scoped_permission.0

sensitive_edge :
    (neighbors shared (unscoped 7) 1 Direction.both none
      ≡ (edge 20 1 2 false, plain 2) ∷ (edge 21 5 1 true, plain 5) ∷ [])
    × (neighbors shared (unscoped 8) 1 Direction.both none ≡ (edge 20 1 2 false, plain 2) ∷ [])
unfolding program
sensitive_edge = (refl, refl)

neighbors-AllNeighbors_example :
    All
      (IsNeighborOf shared (unscoped 7) Direction.inward 1)
      (neighbors shared (unscoped 7) 1 Direction.inward none)
neighbors-AllNeighbors_example = neighbors-AllNeighbors shared (unscoped 7) 1 Direction.inward none

abbrev bare : Graph
bare = record shared { nodes = []; edges = []; node_spaces = []; edge_spaces = [] }

bare-IsWellFormed : IsWellFormed bare
bare-IsWellFormed = record { version_ids = tt; node_ids = tt; current = tt }

abbrev draft : NewNode
draft = record {
  type = "Fact";
  space_id = 4;
  account_id = 7;
  label = some "a";
  properties = none;
  sensitivity = none;
  source_ref = none;
  status = "current";
}

draft_created : create_node bare draft ≡ ok (new_row draft 30, with_node bare draft)
unfolding program
draft_created = refl

outside : is_member 4 (space_ids shared (unscoped 8)) ≡ false
unfolding program
outside = refl

get_node-share_node_example :
    (get_node (share_node shared 1 4).1 (unscoped 8) 1 ≡ get_node shared (unscoped 8) 1)
    × (get_node (unshare_node shared 1 4).1 (unscoped 8) 1 ≡ get_node shared (unscoped 8) 1)
get_node-share_node_example = get_node-share_node shared (unscoped 8) 1 4 1 outside

abbrev holds : ℕ → ℕ → ℕ → Edge
holds id down up = record (edge id down up false) { type = "contained_in" }

-- A cycle of two nodes, with one more below them and one apart.
abbrev forest : Graph
forest = record shared {
  edges = holds 20 1 2 ∷ holds 21 2 1 ∷ holds 22 5 2 ∷ edge 23 6 1 false ∷ [];
}

forest_below : containment_subtree forest 1 ≡ 5 ∷ 2 ∷ 1 ∷ []
unfolding program extends next_source closure containment_subtree
forest_below = refl

containment_subtree-Below_example :
    (is_member 5 (containment_subtree forest 1) ≡ true → Below forest.edges 1 5)
    × (Below forest.edges 1 5 → is_member 5 (containment_subtree forest 1) ≡ true)
containment_subtree-Below_example = containment_subtree-Below forest 1 5

-- An edge to a critical node, which account 7 sees once it is shared into space 4, and account 8 not.
abbrev critical : Node
critical = record (plain 6) { sensitivity = some "critical" }

abbrev unlinked : Graph
unlinked = record shared {
  nodes = plain 1 ∷ critical ∷ [];
  edges = [];
  node_spaces = (1, 3) ∷ (6, 3) ∷ [];
}

abbrev about_critical : NewEdge
about_critical = record {
  type = "about";
  src_node = 1;
  dst_node = 6;
  account_id = 7;
  properties = none;
  sensitive = none;
}

abbrev critical_edge : Edge
unfolding program derive_sensitive
critical_edge = edge_row unlinked about_critical

abbrev guarded : Graph
unfolding program derive_sensitive
guarded = record unlinked { edges = critical_edge ∷ []; next_id = 31 }

abbrev opened : Graph
unfolding program derive_sensitive
opened = record guarded { edge_spaces = (30, 4) ∷ [] }

edge_made :
    (link unlinked about_critical ≡ ok (critical_edge, guarded))
    × (active_edge "about" 1 6 unlinked.edges ≡ none)
    × (find_node 6 unlinked.nodes ≡ some critical)
unfolding program derive_sensitive link insert_edge active_edge endpoints_exist has_container
edge_made = (refl, refl, refl)

edge_seen :
    (neighbors opened (unscoped 7) 1 Direction.both none ≡ (critical_edge, critical) ∷ [])
    × (neighbors opened (unscoped 8) 1 Direction.both none ≡ [])
    × (neighbors guarded (unscoped 7) 1 Direction.both none ≡ [])
unfolding program derive_sensitive is_high effective_sensitivity
edge_seen = (refl, refl, refl)

link-neighbors_example :
    (s : ℕ) × (is_member s (space_ids opened (unscoped 7)) ≡ true)
    × (has_row critical_edge.id s opened.edge_spaces ≡ true)
link-neighbors_example =
    link-neighbors unlinked about_critical edge_made.1 refl
      (inr (critical, inr edge_made.2, inr refl)) edge_made.0 opened (unscoped 7) 1 Direction.both
      none critical (subst (In (critical_edge, critical)) (sym edge_seen.0) (inl refl))

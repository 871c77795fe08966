-- ===== src/Access/Reading.antt =====
-- The class `Access` over the tables of `Graph`. A set of ids is a list of them.
use semantics_toolchain.Prelude.{
  ℕ, zero, suc, String, Bool, true, false, not, Option, none, some, List, [], ◌∷◌, is_empty, ltb,
  eqb, if◌then◌else◌, ◌==◌, ◌&&◌, ◌||◌, contains,
}
use semantics_toolchain.Graph.{Node, Edge, Membership, Permission, Graph, find_node, live}

pub record Access : Type 0 where
  pub account_id : ℕ
  pub scopes : Option (List ℕ)

unfoldable pub is_member : ℕ → List ℕ → Bool
is_member i [] = false
is_member i (x ∷ xs) = if eqb x i then true else is_member i xs

unfoldable pub in_scope : Option (List ℕ) → ℕ → Bool
in_scope none s = true
in_scope (some scopes) s = is_member s scopes

unfoldable pub spaces_of : Access → List Membership → List ℕ
spaces_of a [] = []
spaces_of a (m ∷ ms) =
    let rest = spaces_of a ms in
    if eqb m.account_id a.account_id && in_scope a.scopes m.space_id
    then m.space_id ∷ rest
    else rest

unfoldable pub space_ids : Graph → Access → List ℕ
space_ids g a = spaces_of a g.memberships

-- `select(NodeSpace.node_id).where(node_id == ..., space_id.in_(space_ids))`, and the same for edges.
unfoldable pub refers : List ℕ → ℕ → List (ℕ × ℕ) → Bool
refers spaces i [] = false
refers spaces i ((x, s) ∷ rows) =
    if eqb x i && is_member s spaces then true else refers spaces i rows

-- Without a space no row refers, so the early returns on an empty set are kept as they stand.
unfoldable pub get_node : Graph → Access → ℕ → Option Node
get_node g a id =
    if is_empty (space_ids g a)
    then none
    else if refers (space_ids g a) id g.node_spaces
    then live (find_node id g.nodes)
    else none

unfoldable pub is_node_visible : Graph → Access → ℕ → Bool
is_node_visible g a id = elim (get_node g a id) [ none ↦ false | some n ↦ true ]

unfoldable pub has_type : Option String → Node → Bool
has_type none n = true
has_type (some type) n = n.type == type

unfoldable pub is_listed : Graph → List ℕ → Option String → Node → Bool
is_listed g spaces type n = refers spaces n.id g.node_spaces && (not n.deleted && has_type type n)

unfoldable pub listed : Graph → List ℕ → Option String → List Node → List Node
listed g spaces type [] = []
listed g spaces type (n ∷ ns) =
    let rest = listed g spaces type ns in if is_listed g spaces type n then n ∷ rest else rest

unfoldable pub limited : Option ℕ → List Node → List Node
limited none ns = ns
limited (some k) [] = []
limited (some zero) (n ∷ ns) = []
limited (some (suc k)) (n ∷ ns) = n ∷ limited (some k) ns

-- The database chooses the order; here it is that of the table.
unfoldable pub list_nodes : Graph → Access → Option String → Option ℕ → List Node
list_nodes g a type limit =
    if is_empty (space_ids g a) then [] else limited limit (listed g (space_ids g a) type g.nodes)

-- _PERMISSION_ORDER
unfoldable pub rank : Permission → ℕ
rank Permission.read = 0
rank Permission.write = 1
rank Permission.admin = 2

-- The memberships of the account, in its scope, whose space refers to the node.
unfoldable pub grants : Graph → Access → ℕ → Membership → Bool
grants g a id m =
    eqb m.account_id a.account_id
    && (is_member m.space_id (space_ids g a) && refers (m.space_id ∷ []) id g.node_spaces)

unfoldable pub permissions : Graph → Access → ℕ → List Membership → List Permission
permissions g a id [] = []
permissions g a id (m ∷ ms) =
    let rest = permissions g a id ms in if grants g a id m then m.permission ∷ rest else rest

unfoldable pub highest : Permission → List Permission → Permission
highest p [] = p
highest p (q ∷ qs) = highest (if ltb (rank p) (rank q) then q else p) qs

unfoldable pub maximum : List Permission → Option Permission
maximum [] = none
maximum (p ∷ ps) = some (highest p ps)

unfoldable pub effective_permission : Graph → Access → ℕ → Option Permission
effective_permission g a id =
    if is_node_visible g a id then maximum (permissions g a id g.memberships) else none

-- The argument `direction`: "out", "in", or anything else.
pub data Direction : Type 0 where
  outward inward both : Direction

unfoldable pub touches : Direction → ℕ → Edge → Bool
touches Direction.outward id e = eqb e.src_node id
touches Direction.inward id e = eqb e.dst_node id
touches Direction.both id e = eqb e.src_node id || eqb e.dst_node id

unfoldable pub of_types : Option (List String) → Edge → Bool
of_types none e = true
of_types (some types) e = contains types e.type

unfoldable pub other_end : ℕ → Edge → ℕ
other_end id e = if eqb e.src_node id then e.dst_node else e.src_node

-- `visible_ids`: the rows of node_spaces joined with the nodes that are not deleted.
unfoldable pub in_view : Graph → Access → ℕ → Bool
in_view g a id =
    refers (space_ids g a) id g.node_spaces
    && elim (live (find_node id g.nodes)) [ none ↦ false | some n ↦ true ]

unfoldable pub is_open : Graph → Access → Edge → Bool
is_open g a e = not e.sensitive || refers (space_ids g a) e.id g.edge_spaces

unfoldable pub candidate : Direction → Option (List String) → ℕ → Edge → Bool
candidate direction types id e = e.active && (touches direction id e && of_types types e)

unfoldable pub reached :
    Graph → Access → Direction → Option (List String) → ℕ → List Edge → List (Edge × Node)
reached g a direction types id [] = []
reached g a direction types id (e ∷ es) =
    let rest = reached g a direction types id es in
    if candidate direction types id e && (in_view g a (other_end id e) && is_open g a e)
    then elim (find_node (other_end id e) g.nodes) [ none ↦ rest | some n ↦ (e, n) ∷ rest ]
    else rest

unfoldable pub neighbors :
    Graph → Access → ℕ → Direction → Option (List String) → List (Edge × Node)
neighbors g a id direction types =
    if is_node_visible g a id then reached g a direction types id g.edges else []

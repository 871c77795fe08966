-- ===== src/Graph/Nodes.antt =====
-- `create_node`, `get_node`, `update_node` and `delete_node` of repository/graph.py.
use mathlib.Core.Bool.{◌&&◌}
use semantics_toolchain.Prelude.{
  ℕ, ◌+◌, String, Bool, true, false, Option, none, some, List, [], ◌∷◌, ◌++◌, eqb, if◌then◌else◌,
  contains, Result, ok, err,
}
use semantics_toolchain.Json.{Fields, end, merge}
use semantics_toolchain.Graph.Tables.{Node, Version, Graph, find_node, write_node, assoc}

-- repository/errors.py, and the IntegrityError of the database.
pub data GraphError : Type 0 where
  not_found conflict container_conflict integrity_error : GraphError

abbrev pub node_statuses : List String
node_statuses = "current" ∷ "provisional" ∷ "superseded" ∷ "disputed" ∷ "rejected" ∷ []

unfoldable pub is_registered : String → Graph → Bool
unfolding assoc
is_registered type g = elim (assoc type g.node_types) [ none ↦ false | some s ↦ true ]

abbrev pub or_empty : Option Fields → Fields
or_empty none = end
or_empty (some fs) = fs

-- The arguments of `create_node`.
pub record NewNode : Type 0 where
  pub type : String
  pub space_id : ℕ
  pub account_id : ℕ
  pub label : Option String
  pub properties : Option Fields
  pub sensitivity : Option String
  pub source_ref : Option String
  pub status : String

abbrev pub new_row : NewNode → ℕ → Node
new_row a id = record {
  id = id;
  type = a.type;
  label = a.label;
  properties = or_empty a.properties;
  status = a.status;
  sensitivity = a.sensitivity;
  origin_space = some a.space_id;
  created_by = some a.account_id;
  deleted = false;
  current_version = some (id + 1);
}

abbrev pub first_version : NewNode → ℕ → Version
first_version a id = record {
  id = id + 1;
  node_id = id;
  label = a.label;
  properties = or_empty a.properties;
  status = a.status;
  source_ref = a.source_ref;
  author = some a.account_id;
}

abbrev pub with_node : Graph → NewNode → Graph
with_node g a = record g {
  nodes = g.nodes ++ new_row a g.next_id ∷ [];
  versions = g.versions ++ first_version a g.next_id ∷ [];
  node_spaces = g.node_spaces ++ (g.next_id, a.space_id) ∷ [];
  next_id = g.next_id + 2;
}

abbrev pub sensitivities : List String
sensitivities = "low" ∷ "normal" ∷ "high" ∷ "critical" ∷ []

abbrev pub is_sensitivity : Option String → Bool
is_sensitivity none = true
is_sensitivity (some s) = contains sensitivities s

unfoldable pub is_acceptable : Graph → NewNode → Bool
unfolding is_registered
is_acceptable g a =
    is_registered a.type g && (is_sensitivity a.sensitivity && contains node_statuses a.status)

-- A type that is not registered breaks a foreign key, and an unknown sensitivity or status a check
-- constraint. The space and the account are taken to exist.
unfoldable pub create_node : Graph → NewNode → Result GraphError (Node × Graph)
create_node g a =
    if is_acceptable g a then ok (new_row a g.next_id, with_node g a) else err integrity_error

-- `node is None or node.deleted_at is not None`
unfoldable pub live : Option Node → Option Node
live none = none
live (some n) = if n.deleted then none else some n

unfoldable pub get_node : Graph → ℕ → Option Node
get_node g id = live (find_node id g.nodes)

-- The arguments of `update_node`; `none` stands for `_UNSET`, and for a patch of None.
pub record Update : Type 0 where
  pub node_id : ℕ
  pub account_id : ℕ
  pub expected_version : Option ℕ
  pub label : Option (Option String)
  pub properties_patch : Option Fields
  pub source_ref : Option String
  pub status : Option String

unfoldable pub same_id : Option ℕ → Option ℕ → Bool
same_id none none = true
same_id (some a) (some b) = eqb a b
same_id _ _ = false

abbrev pub or_old {ℓ} : {A : Type ℓ} → Option A → A → A
or_old none old = old
or_old (some new) old = new

abbrev pub patched : Option Fields → Fields → Fields
patched none old = old
patched (some patch) old = merge old patch

abbrev pub updated_row : Update → ℕ → Node → Node
updated_row u version n = record n {
  label = or_old u.label n.label;
  properties = patched u.properties_patch n.properties;
  status = or_old u.status n.status;
  current_version = some version;
}

abbrev pub next_version : Update → ℕ → Node → Version
next_version u id n = record {
  id = id;
  node_id = n.id;
  label = or_old u.label n.label;
  properties = patched u.properties_patch n.properties;
  status = or_old u.status n.status;
  source_ref = u.source_ref;
  author = some u.account_id;
}

abbrev pub with_version : Graph → Update → Node → Graph
with_version g u n = record g {
  nodes = write_node (updated_row u g.next_id n) g.nodes;
  versions = g.versions ++ next_version u g.next_id n ∷ [];
  next_id = g.next_id + 1;
}

-- The flush that inserts the version.
unfoldable pub write_version : Graph → Update → Node → Result GraphError (Node × Graph)
write_version g u n =
    if contains node_statuses (or_old u.status n.status)
    then ok (updated_row u g.next_id n, with_version g u n)
    else err integrity_error

unfoldable pub update_node : Graph → Update → Result GraphError (Node × Graph)
update_node g u = elim (get_node g u.node_id) [
  | none ↦ err not_found
  | some n ↦
      if same_id n.current_version u.expected_version then write_version g u n else err conflict
]

abbrev pub deleted_row : Node → Node
deleted_row n = record n { deleted = true }

abbrev pub without_node : Graph → Node → Graph
without_node g n = record g { nodes = write_node (deleted_row n) g.nodes }

unfoldable pub delete_node : Graph → ℕ → Option ℕ → Result GraphError (Node × Graph)
delete_node g id expected = elim (get_node g id) [
  | none ↦ err not_found
  | some n ↦
      if same_id n.current_version expected
      then ok (deleted_row n, without_node g n)
      else err conflict
]

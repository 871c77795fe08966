-- ===== src/Graph/Tables.antt =====
-- The tables of models/graph.py and the memberships of models/identity.py, as lists of rows. Ids
-- are numbers, drawn from a counter where the database draws a new UUID; a timestamp that is only
-- tested for NULL is a Boolean.
use semantics_toolchain.Prelude.{
  ℕ, String, Bool, true, false, Option, none, some, List, [], ◌∷◌, ◌==◌, eqb, if◌then◌else◌, ◌&&◌,
}
use semantics_toolchain.Json.{Fields}

pub record Node : Type 0 where
  pub id : ℕ
  pub type : String
  pub label : Option String
  pub properties : Fields
  pub status : String
  pub sensitivity : Option String
  pub origin_space : Option ℕ
  pub created_by : Option ℕ
  pub deleted : Bool
  pub current_version : Option ℕ

pub record Version : Type 0 where
  pub id : ℕ
  pub node_id : ℕ
  pub label : Option String
  pub properties : Fields
  pub status : String
  pub source_ref : Option String
  pub author : Option ℕ

pub record Edge : Type 0 where
  pub id : ℕ
  pub type : String
  pub src_node : ℕ
  pub dst_node : ℕ
  pub properties : Fields
  pub sensitive : Bool
  pub created_by : ℕ
  pub active : Bool

-- PERMISSIONS of models/base.py, to which a check constraint restricts the column.
pub data Permission : Type 0 where
  read write admin : Permission

pub record Membership : Type 0 where
  pub account_id : ℕ
  pub space_id : ℕ
  pub permission : Permission

-- node_types: type and default sensitivity; edge_types: type and flag.
pub record Graph : Type 0 where
  pub nodes : List Node
  pub versions : List Version
  pub edges : List Edge
  pub node_spaces : List (ℕ × ℕ)
  pub edge_spaces : List (ℕ × ℕ)
  pub memberships : List Membership
  pub node_types : List (String × String)
  pub edge_types : List (String × Bool)
  pub next_id : ℕ

-- `session.get(Node, id)`
unfoldable pub find_node : ℕ → List Node → Option Node
find_node i [] = none
find_node i (n ∷ ns) = if eqb n.id i then some n else find_node i ns

unfoldable pub find_version : ℕ → List Version → Option Version
find_version i [] = none
find_version i (v ∷ vs) = if eqb v.id i then some v else find_version i vs

unfoldable pub find_edge : ℕ → List Edge → Option Edge
find_edge i [] = none
find_edge i (e ∷ es) = if eqb e.id i then some e else find_edge i es

-- A row written back after its attributes were set.
unfoldable pub write_node : Node → List Node → List Node
write_node m [] = []
write_node m (n ∷ ns) = (if eqb n.id m.id then m else n) ∷ write_node m ns

unfoldable pub write_edge : Edge → List Edge → List Edge
write_edge m [] = []
write_edge m (e ∷ es) = (if eqb e.id m.id then m else e) ∷ write_edge m es

unfoldable pub assoc {ℓ} : {A : Type ℓ} → String → List (String × A) → Option A
assoc k [] = none
assoc k ((j, v) ∷ rows) = if j == k then some v else assoc k rows

-- Membership in a table of pairs.
unfoldable pub has_row : ℕ → ℕ → List (ℕ × ℕ) → Bool
has_row a b [] = false
has_row a b ((x, y) ∷ rows) = if eqb x a && eqb y b then true else has_row a b rows

unfoldable pub drop_row : ℕ → ℕ → List (ℕ × ℕ) → List (ℕ × ℕ)
drop_row a b [] = []
drop_row a b ((x, y) ∷ rows) =
    let rest = drop_row a b rows in if eqb x a && eqb y b then rest else (x, y) ∷ rest

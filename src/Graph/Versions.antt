-- ===== src/Graph/Versions.antt =====
-- Well-formed graphs: the rows of nodes beside the rows of their versions.
use semantics_toolchain.Prelude.{
  some_inj, none, if◌then◌else◌, ℕ, ◌<◌, ◌≤◌, some, List, [], ◌∷◌, ◌++◌, ◌≡◌, refl, subst, inl, inr,
  eqb, All, All-append, arith, Bool-cases,
}
use semantics_toolchain.Graph.Tables.{Node, Version, Graph, find_node, find_version, write_node}
use semantics_toolchain.Graph.Nodes.{
  without_node, deleted_row, with_version, with_node, NewNode, Update, get_node, live,
  first_version, updated_row, next_version,
}

-- The node's row repeats its current version.
pub record IsCurrent (vs : List Version) (n : Node) : Type 0 where
  pub version : Version
  pub current : n.current_version ≡ some version.id
  pub found : find_version version.id vs ≡ some version
  pub node_id : version.node_id ≡ n.id
  pub label : version.label ≡ n.label
  pub properties : version.properties ≡ n.properties
  pub status : version.status ≡ n.status

abbrev pub IdsBelow : ℕ → List Version → Type 0
IdsBelow k = All (λ v. v.id < k)

pub record IsWellFormed (g : Graph) : Type 0 where
  pub version_ids : IdsBelow g.next_id g.versions
  pub node_ids : All (λ n. n.id < g.next_id) g.nodes
  pub current : All (IsCurrent g.versions) g.nodes

find_version-append :
    (i : ℕ) (vs ws : List Version) {v : Version}
    → find_version i vs ≡ some v
    → find_version i (vs ++ ws) ≡ some v
unfolding find_version
find_version-append i [] ws h = cc
find_version-append i (w ∷ vs) ws {v} h = elim (Bool-cases (eqb w.id i)) [
  | inl e ↦ rw e (rw e at h)
  | inr e ↦ rw e (find_version-append i vs ws (rw e at h))
]

find_version-fresh :
    (k : ℕ) (vs : List Version) (v : Version)
    → IdsBelow k vs
    → k ≤ v.id
    → find_version v.id (vs ++ v ∷ []) ≡ some v
unfolding find_version
find_version-fresh k [] v h e = ground arith
find_version-fresh k (w ∷ vs) v h e = ground (arith, find_version-fresh k vs v h.1 e)

IsCurrent-append : (vs ws : List Version) (n : Node) → IsCurrent vs n → IsCurrent (vs ++ ws) n
IsCurrent-append vs ws n c = record {
  version = c.version;
  current = c.current;
  found = find_version-append _ vs ws c.found;
  node_id = c.node_id;
  label = c.label;
  properties = c.properties;
  status = c.status;
}

All-map {ℓ κ μ} :
    {A : Type ℓ} {P : A → Type κ} {Q : A → Type μ} (xs : List A)
    → ((x : A) → P x → Q x)
    → All P xs
    → All Q xs
All-map [] f h = tt
All-map (x ∷ xs) f h = (f x h.0, All-map xs f h.1)

All-write_node :
    (P : Node → Type 0) (m : Node) (ns : List Node) → P m → All P ns → All P (write_node m ns)
unfolding write_node
All-write_node P m [] h k = tt
All-write_node P m (n ∷ ns) h k = elim (Bool-cases (eqb n.id m.id)) [
  | inl e ↦ rw e (h, All-write_node P m ns h k.1)
  | inr e ↦ rw e (k.0, All-write_node P m ns h k.1)
]

find_node-All :
    (P : Node → Type 0) (i : ℕ) (ns : List Node) {n : Node}
    → All P ns
    → find_node i ns ≡ some n
    → P n
unfolding find_node
find_node-All P i [] h e = absurd (ground arith)
find_node-All P i (m ∷ ns) {n} h e = elim (Bool-cases (eqb m.id i)) [
  | inl same ↦ subst P (some_inj (rw same at e)) h.0
  | inr other ↦ find_node-All P i ns h.1 (rw other at e)
]

pub find_node-append :
    (i : ℕ) (ns : List Node) (m : Node)
    → find_node i (ns ++ m ∷ [])
      ≡ elim (find_node i ns) [ none ↦ if eqb m.id i then some m else none | some n ↦ some n ]
unfolding find_node
find_node-append i [] m = ground arith
find_node-append i (n ∷ ns) m = ground (arith, find_node-append i ns m)

pub get_node-found :
    (g : Graph) (id : ℕ) (n : Node) → get_node g id ≡ some n → find_node id g.nodes ≡ some n
unfolding get_node live
get_node-found g id n e = ground arith

IdsBelow-le : (k l : ℕ) (vs : List Version) → k ≤ l → IdsBelow k vs → IdsBelow l vs
IdsBelow-le k l [] h b = tt
IdsBelow-le k l (v ∷ vs) h b = (omega (arith, b.0), IdsBelow-le k l vs h b.1)

node_ids-le : (k l : ℕ) (ns : List Node) → k ≤ l → All (λ n. n.id < k) ns → All (λ n. n.id < l) ns
node_ids-le k l [] h b = tt
node_ids-le k l (n ∷ ns) h b = (omega (arith, b.0), node_ids-le k l ns h b.1)

-- A graph with the same versions and nodes and a larger counter.
module _ (g : Graph) (w : IsWellFormed g) where
  pub grown :
      (h : Graph)
      → h.nodes ≡ g.nodes
      → h.versions ≡ g.versions
      → g.next_id ≤ h.next_id
      → IsWellFormed h
  grown h en ev le = record {
    version_ids = rw ev (IdsBelow-le g.next_id h.next_id g.versions le w.version_ids);
    node_ids = rw en (node_ids-le g.next_id h.next_id g.nodes le w.node_ids);
    current = rw (en, ev) w.current;
  }

  pub with_node-IsWellFormed : (a : NewNode) → IsWellFormed (with_node g a)
  with_node-IsWellFormed a = record {
    version_ids =
        All-append _ g.versions _ (IdsBelow-le g.next_id _ g.versions (omega arith) w.version_ids)
          (omega arith);
    node_ids =
        All-append _ g.nodes _ (node_ids-le g.next_id _ g.nodes (omega arith) w.node_ids)
          (omega arith);
    current = All-append _ g.nodes _ (All-map g.nodes (IsCurrent-append g.versions _) w.current) (
      record {
        version = first_version a g.next_id;
        current = refl;
        found =
            find_version-fresh g.next_id g.versions (first_version a g.next_id) w.version_ids
              (omega arith);
        node_id = refl;
        label = refl;
        properties = refl;
        status = refl;
      },
      tt,
    );
  }

  pub with_version-IsWellFormed :
      (u : Update) (n : Node) → n.id < g.next_id → IsWellFormed (with_version g u n)
  with_version-IsWellFormed u n known = record {
    version_ids =
        All-append _ g.versions _ (IdsBelow-le g.next_id _ g.versions (omega arith) w.version_ids)
          (omega arith);
    node_ids =
        All-write_node _ (updated_row u g.next_id n) g.nodes (omega arith)
          (node_ids-le g.next_id _ g.nodes (omega arith) w.node_ids);
    current =
        All-write_node _ (updated_row u g.next_id n) g.nodes
          (record {
            version = next_version u g.next_id n;
            current = refl;
            found =
                find_version-fresh g.next_id g.versions (next_version u g.next_id n) w.version_ids
                  (omega arith);
            node_id = refl;
            label = refl;
            properties = refl;
            status = refl;
          })
          (All-map g.nodes (IsCurrent-append g.versions _) w.current);
  }

  IsCurrent-deleted : (n : Node) → IsCurrent g.versions n → IsCurrent g.versions (deleted_row n)
  IsCurrent-deleted n c = record {
    version = c.version;
    current = c.current;
    found = c.found;
    node_id = c.node_id;
    label = c.label;
    properties = c.properties;
    status = c.status;
  }

  pub without_node-IsWellFormed :
      (n : Node) → n.id < g.next_id → IsCurrent g.versions n → IsWellFormed (without_node g n)
  without_node-IsWellFormed n known c = record {
    version_ids = w.version_ids;
    node_ids = All-write_node _ (deleted_row n) g.nodes known w.node_ids;
    current = All-write_node _ (deleted_row n) g.nodes (IsCurrent-deleted n c) w.current;
  }

  pub known_node :
      (id : ℕ) (n : Node) → get_node g id ≡ some n → (n.id < g.next_id) × IsCurrent g.versions n
  known_node id n e =
      let found = get_node-found g id n e in
      (find_node-All _ id g.nodes w.node_ids found, find_node-All _ id g.nodes w.current found)

-- ===== src/Scheduler/Predicate/Grammar.antt =====
-- `validate` and `leaf_node_ids` of predicate.py.
use semantics_toolchain.Prelude.{
  String, Bool, true, false, Option, none, some, List, [], ◌∷◌, ◌++◌, ◌==◌, eqb, if◌then◌else◌,
  contains, is_empty, Result, ok, err, ◌>>◌, require,
}
use semantics_toolchain.Json.{
  Value, Items, Fields, null, str, arr, obj, nil, cons, end, field, get, has, count_fields,
  unknown_keys, is_str, absent_or,
}
use semantics_toolchain.Json.Convert.{uuid_of}

-- The raise statements of `validate`, each a ValueError.
pub data Malformed : Type 0 where
  not_an_object several_keys no_clauses unknown_leaf_keys unknown_op bad_node_id bad_path :
      Malformed

-- `[k for k in ("all", "any", "not") if k in predicate][0]`, if there is one.
unfoldable pub composite_key : Fields → Option String
composite_key fs =
    if has "all" fs
    then some "all"
    else if has "any" fs
    then some "any"
    else if has "not" fs
    then some "not"
    else none

abbrev pub leaf_keys : List String
leaf_keys = "node" ∷ "path" ∷ "op" ∷ "value" ∷ []

abbrev pub ops : List String
ops = "exists" ∷ "absent" ∷ "eq" ∷ "ne" ∷ "lt" ∷ "le" ∷ "gt" ∷ "ge" ∷ []

-- `op in ("exists", "absent", *_COMPARATORS)`
unfoldable pub is_op : Option Value → Bool
is_op (some (str s)) = contains ops s
is_op _ = false

-- `d.get(key)`, with Python's None for a missing key.
unfoldable pub get_or_null : String → Fields → Value
unfolding get
get_or_null k fs = elim (get k fs) [ none ↦ null | some v ↦ v ]

-- `uuid.UUID(str(v))` does not raise.
unfoldable pub is_uuid : Value → Bool
unfolding uuid_of
is_uuid v = elim (uuid_of v) [ none ↦ false | some i ↦ true ]

unfoldable pub validate_leaf : Fields → Result Malformed Unit
validate_leaf fs = do
  require (is_empty (unknown_keys leaf_keys fs)) unknown_leaf_keys
  require (is_op (get "op" fs)) unknown_op
  require (is_uuid (get_or_null "node" fs)) bad_node_id
  require (absent_or is_str (get "path" fs)) bad_path

-- `predicate[key]` is found by `validate_at` and `clauses_at`, which walk the fields.
unfoldable mutual
  unfolding composite_key

  pub validate : Value → Result Malformed Unit
  validate null = ok tt
  validate (obj fs) = elim (composite_key fs) [
    | none ↦ if eqb (count_fields fs) 0 then ok tt else validate_leaf fs
    | some key ↦ elim (eqb (count_fields fs) 1) [
      | false ↦ err several_keys
      | true ↦ elim (key == "not") [ true ↦ validate_at key fs | false ↦ clauses_at key fs ]
    ]
  ]
  validate _ = err not_an_object

  pub validate_at : String → Fields → Result Malformed Unit
  validate_at key end = ok tt
  validate_at key (field k v fs) = if k == key then validate v else validate_at key fs

  pub clauses_at : String → Fields → Result Malformed Unit
  clauses_at key end = ok tt
  clauses_at key (field k v fs) = if k == key then validate_clauses v else clauses_at key fs

  pub validate_clauses : Value → Result Malformed Unit
  validate_clauses (arr (cons v vs)) = validate v >> validate_all vs
  validate_clauses _ = err no_clauses

  pub validate_all : Items → Result Malformed Unit
  validate_all nil = ok tt
  validate_all (cons v vs) = validate v >> validate_all vs

-- How evaluation can raise: ValueError, or any other exception (TypeError, AttributeError).
pub data Fault : Type 0 where
  value_error other_error : Fault

unfoldable pub append_ids :
    Result Fault (List Value) → Result Fault (List Value) → Result Fault (List Value)
append_ids (ok xs) (ok ys) = ok (xs ++ ys)
append_ids (ok xs) (err e) = err e
append_ids (err e) ys = err e

unfoldable pub leaf_id : Fields → List Value
unfolding get
leaf_id fs = elim (get "node" fs) [ none ↦ [] | some v ↦ v ∷ [] ]

-- The values whose texts `leaf_node_ids` returns. A clause that is no dict has none, so the keys
-- of a dict and the characters of a text add nothing.
unfoldable mutual
  unfolding append_ids leaf_id

  pub leaf_node_ids : Value → Result Fault (List Value)
  leaf_node_ids (obj fs) = elim (has "not" fs) [
    | true ↦ ids_at fs
    | false ↦ elim (has "all" fs) [
      | true ↦ clause_ids_at "all" fs
      | false ↦ elim (has "any" fs) [ true ↦ clause_ids_at "any" fs | false ↦ ok (leaf_id fs) ]
    ]
  ]
  leaf_node_ids _ = ok []

  pub ids_at : Fields → Result Fault (List Value)
  ids_at end = ok []
  ids_at (field k v fs) = if k == "not" then leaf_node_ids v else ids_at fs

  pub clause_ids_at : String → Fields → Result Fault (List Value)
  clause_ids_at key end = ok []
  clause_ids_at key (field k v fs) = if k == key then clause_ids v else clause_ids_at key fs

  pub clause_ids : Value → Result Fault (List Value)
  clause_ids (arr vs) = item_ids vs
  clause_ids (obj fs) = ok []
  clause_ids (str s) = ok []
  clause_ids _ = err other_error

  pub item_ids : Items → Result Fault (List Value)
  item_ids nil = ok []
  item_ids (cons v vs) = append_ids (leaf_node_ids v) (item_ids vs)

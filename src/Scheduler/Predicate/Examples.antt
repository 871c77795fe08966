-- ===== src/Scheduler/Predicate/Examples.antt =====
-- Runs of the predicate code, and the theorems about it at concrete inputs.
use semantics_toolchain.Prelude.{
  ℕ, pos, String, Bool, true, false, none, some, [], ◌∷◌, ◌≡◌, refl, ok, err, eqb, if◌then◌else◌,
  arith,
}
use semantics_toolchain.Json.{
  Value, null, int, str, arr, obj, nil, cons, end, field, get, has, count_fields, unknown_keys,
  is_str, absent_or, is_none, is_text, truthy,
}
use semantics_toolchain.Json.Convert.{uuid_of}
use semantics_toolchain.Scheduler.Predicate.{
  validate, validate_leaf, leaf_node_ids, is_op, is_uuid, get_or_null, composite_key, Reader,
  evaluate, eval_leaf, decide_leaf, compare_with, actual_value, value_error, other_error,
  not_an_object, several_keys, bad_path,
}
use semantics_toolchain.Scheduler.Predicate.Soundness.{validate-evaluate}
use semantics_toolchain.Scheduler.Predicate.Reads.{leaf_node_ids-evaluate}
use semantics_toolchain.Scheduler.Predicate.Boolean.{
  all_object, any_object, not_object, leaf_object,
}

abbrev first_id : String
first_id = "00000000-0000-0000-0000-000000000001"

abbrev second_id : String
second_id = "00000000-0000-0000-0000-000000000002"

-- The first node has {"a": {"b": 4}}; no other node is visible.
abbrev graph : Reader
graph i = if eqb i 1 then some (field "a" (obj (field "b" (int (pos 4)) end)) end) else none

abbrev at_least_three : Value
at_least_three = obj (leaf_object (str first_id) "a.b" "ge" (int (pos 3)))

abbrev second_absent : Value
second_absent = obj (leaf_object (str second_id) "a" "absent" null)

abbrev gate : Value
gate =
    all_object (
      cons at_least_three
        (cons (not_object (any_object (cons (not_object second_absent) nil))) nil))

program : Unit {0}
unfolding validate validate_leaf leaf_node_ids is_op is_uuid get_or_null composite_key evaluate
    eval_leaf decide_leaf compare_with actual_value uuid_of get has count_fields unknown_keys is_str
    absent_or is_none is_text truthy
program = tt

gate_accepted : validate gate ≡ ok tt
unfolding program
gate_accepted = refl

gate_fires : evaluate graph gate ≡ ok true
unfolding program
gate_fires = refl

refusals :
    (validate (str "x") ≡ err not_an_object)
    × (validate (obj (field "all" (arr nil) (field "op" null end))) ≡ err several_keys)
    × (validate (obj (field "node" (str first_id) (field "path" null (field "op" (str "eq") end))))
        ≡ err bad_path)
    × (evaluate graph (str "x") ≡ err other_error)
    × (evaluate graph (obj (field "op" (str "eq") end)) ≡ err value_error)
unfolding program
refusals = (refl, refl, refl, refl, refl)

gate_ids : leaf_node_ids gate ≡ ok (str first_id ∷ str second_id ∷ [])
unfolding program
gate_ids = refl

validate-evaluate_example : (b : Bool) × (evaluate graph gate ≡ ok b)
validate-evaluate_example = validate-evaluate graph gate gate_accepted

-- A graph that differs at the third node only.
abbrev larger_graph : Reader
larger_graph i = if eqb i 3 then some end else graph i

same_at :
    (text : String) (n : ℕ)
    → eqb n 3 ≡ false
    → uuid_of (str text) ≡ some n
    → (i : ℕ) → uuid_of (str text) ≡ some i
    → graph i ≡ larger_graph i
same_at text n h u i e = ground arith

first_uuid : uuid_of (str first_id) ≡ some 1
unfolding uuid_of
first_uuid = refl

second_uuid : uuid_of (str second_id) ≡ some 2
unfolding uuid_of
second_uuid = refl

leaf_node_ids-evaluate_example : evaluate graph gate ≡ evaluate larger_graph gate
leaf_node_ids-evaluate_example =
    leaf_node_ids-evaluate graph larger_graph gate gate_accepted gate_ids
      (same_at first_id 1 refl first_uuid, (same_at second_id 2 refl second_uuid, tt))

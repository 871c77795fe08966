-- ===== src/Scheduler/Predicate/Soundness.antt =====
-- Lemmas on `evaluate` of predicate.py for predicates that `validate` accepts.
use semantics_toolchain.Prelude.{
  String, Bool, true, false, Option, none, some, ◌≡◌, refl, inl, inr, ◌==◌, arith, Result, ok, ap,
  Option-cases, is_ok, is_ok-bind, value_of_ok, ◌≢◌, contains,
}
use semantics_toolchain.Json.{
  Value, Items, Fields, null, bool, int, float, str, arr, obj, nil, cons, end, field, get, has,
  absent_or, is_str, is_none, is_text,
}
use semantics_toolchain.Json.Convert.{uuid_of}
use semantics_toolchain.Scheduler.Predicate.Grammar.{
  validate, validate_at, clauses_at, validate_clauses, validate_all, is_op, ops, ops, is_uuid,
  Fault, get_or_null,
}
use semantics_toolchain.Scheduler.Predicate.Evaluation.{
  Reader, evaluate, evaluate_at, all_at, any_at, all_of, any_of, all_items, any_items, eval_leaf,
  both, either, negated, actual_value, decide_leaf, compare_with, comparator,
}
use semantics_toolchain.Scheduler.Predicate.Shape.{
  Shape, validate-Shape, LeafParts, leaf_parts, evaluate-all, evaluate-any, evaluate-not,
  evaluate-leaf,
}
use semantics_toolchain.Scheduler.Predicate.Clauses.{
  validate_all-parts, has-field, has-end, validate_at-field, clauses_at-field, evaluate_at-field,
  all_at-field, any_at-field, all_of-arr, any_of-arr, all_items-nil, all_items-cons, any_items-nil,
  any_items-cons, clauses-arr, null-is_ok, not_object, clauses-other,
}

-- `_eval_leaf` does not raise on an accepted leaf.
node_given :
    (fs : Fields) → is_uuid (get_or_null "node" fs) ≡ true → is_none (get "node" fs) ≡ false
unfolding is_uuid get_or_null is_none uuid_of
node_given fs h = ground arith

comparator-is_some :
    (s : String)
    → contains ops s ≡ true
    → (s == "exists") ≡ false
    → (s == "absent") ≡ false
    → comparator s ≢ none
unfolding comparator
comparator-is_some s h ne na = ground arith

decide_leaf-is_ok :
    (actual o : Option Value) (expected : Value)
    → is_op o ≡ true
    → is_ok (decide_leaf actual expected o) ≡ true
unfolding decide_leaf is_op is_text compare_with
decide_leaf-is_ok actual (some (str s)) expected h = ground (arith, comparator-is_some s)
decide_leaf-is_ok actual _ expected h = cc

actual_value-is_ok :
    (props : Option Fields) (path : Option Value)
    → absent_or is_str path ≡ true
    → is_ok (actual_value props path) ≡ true
unfolding actual_value absent_or is_str
actual_value-is_ok props path h = ground arith

op_given : (o : Option Value) → is_op o ≡ true → is_none o ≡ false
unfolding is_op is_none
op_given o h = ground arith

eval_leaf-is_ok : (read : Reader) (fs : Fields) → LeafParts fs → is_ok (eval_leaf read fs) ≡ true
unfolding eval_leaf is_uuid
eval_leaf-is_ok read fs h = elim (Option-cases (uuid_of (get_or_null "node" fs))) [
  | inl e ↦ absurd (ground (arith, h.node))
  | inr (i, e) ↦
      rw (op_given (get "op" fs) h.op, node_given fs h.node, e)
        (is_ok-bind (actual_value (read i) (get "path" fs)) _
          (actual_value-is_ok (read i) (get "path" fs) h.path)
          (λ actual. decide_leaf-is_ok actual (get "op" fs) _ h.op))
]

both-is_ok : (a b : Result Fault Bool) → is_ok a ≡ true → is_ok b ≡ true → is_ok (both a b) ≡ true
both-is_ok a b h k = ground arith

either-is_ok :
    (a b : Result Fault Bool) → is_ok a ≡ true → is_ok b ≡ true → is_ok (either a b) ≡ true
either-is_ok a b h k = ground arith

negated-is_ok : (a : Result Fault Bool) → is_ok a ≡ true → is_ok (negated a) ≡ true
negated-is_ok a h = ground arith

mutual
  evaluate-is_ok : (read : Reader) (v : Value) → validate v ≡ ok tt → is_ok (evaluate read v) ≡ true
  evaluate-is_ok read null h = null-is_ok read
  evaluate-is_ok read (obj fs) h = elim (validate-Shape fs h) [
    | Shape.of_all a _ c ↦ rw (evaluate-all read fs a) (all_at-is_ok read fs a c)
    | Shape.of_any na b _ c ↦ rw (evaluate-any read fs na b) (any_at-is_ok read fs b c)
    | Shape.of_not na nb c d ↦
        rw (evaluate-not read fs na nb c)
          (negated-is_ok (evaluate_at read fs) (evaluate_at-is_ok read fs c d))
    | Shape.no_gate na nb nc e ↦ rw (evaluate-leaf read fs na nb nc, e) refl
    | Shape.leaf na nb nc e l ↦
        rw (evaluate-leaf read fs na nb nc, e) (eval_leaf-is_ok read fs (leaf_parts fs l))
  ]
  evaluate-is_ok read (bool b) h = absurd (not_object (bool b) tt h)
  evaluate-is_ok read (int z) h = absurd (not_object (int z) tt h)
  evaluate-is_ok read (float m k) h = absurd (not_object (float m k) tt h)
  evaluate-is_ok read (str s) h = absurd (not_object (str s) tt h)
  evaluate-is_ok read (arr vs) h = absurd (not_object (arr vs) tt h)

  evaluate_at-is_ok :
      (read : Reader) (fs : Fields)
      → has "not" fs ≡ true
      → validate_at "not" fs ≡ ok tt
      → is_ok (evaluate_at read fs) ≡ true
  evaluate_at-is_ok read end h c = cc (has-end "not")
  evaluate_at-is_ok read (field k v fs) h c = ground (
    arith,
    evaluate_at-field read k v fs,
    validate_at-field "not" k v fs,
    has-field "not" k v fs,
    evaluate-is_ok read v,
    evaluate_at-is_ok read fs,
  )

  all_at-is_ok :
      (read : Reader) (fs : Fields)
      → has "all" fs ≡ true
      → clauses_at "all" fs ≡ ok tt
      → is_ok (all_at read fs) ≡ true
  all_at-is_ok read end h c = cc (has-end "all")
  all_at-is_ok read (field k v fs) h c = ground (
    arith,
    all_at-field read k v fs,
    clauses_at-field "all" k v fs,
    has-field "all" k v fs,
    all_of-is_ok read v,
    all_at-is_ok read fs,
  )

  any_at-is_ok :
      (read : Reader) (fs : Fields)
      → has "any" fs ≡ true
      → clauses_at "any" fs ≡ ok tt
      → is_ok (any_at read fs) ≡ true
  any_at-is_ok read end h c = cc (has-end "any")
  any_at-is_ok read (field k v fs) h c = ground (
    arith,
    any_at-field read k v fs,
    clauses_at-field "any" k v fs,
    has-field "any" k v fs,
    any_of-is_ok read v,
    any_at-is_ok read fs,
  )

  all_of-is_ok :
      (read : Reader) (v : Value) → validate_clauses v ≡ ok tt → is_ok (all_of read v) ≡ true
  all_of-is_ok read (arr vs) h =
      rw (all_of-arr read vs) (all_items-is_ok read vs (clauses-arr vs h))
  all_of-is_ok read null h = absurd (clauses-other null tt h)
  all_of-is_ok read (bool b) h = absurd (clauses-other (bool b) tt h)
  all_of-is_ok read (int z) h = absurd (clauses-other (int z) tt h)
  all_of-is_ok read (float m k) h = absurd (clauses-other (float m k) tt h)
  all_of-is_ok read (str s) h = absurd (clauses-other (str s) tt h)
  all_of-is_ok read (obj fs) h = absurd (clauses-other (obj fs) tt h)

  any_of-is_ok :
      (read : Reader) (v : Value) → validate_clauses v ≡ ok tt → is_ok (any_of read v) ≡ true
  any_of-is_ok read (arr vs) h =
      rw (any_of-arr read vs) (any_items-is_ok read vs (clauses-arr vs h))
  any_of-is_ok read null h = absurd (clauses-other null tt h)
  any_of-is_ok read (bool b) h = absurd (clauses-other (bool b) tt h)
  any_of-is_ok read (int z) h = absurd (clauses-other (int z) tt h)
  any_of-is_ok read (float m k) h = absurd (clauses-other (float m k) tt h)
  any_of-is_ok read (str s) h = absurd (clauses-other (str s) tt h)
  any_of-is_ok read (obj fs) h = absurd (clauses-other (obj fs) tt h)

  all_items-is_ok :
      (read : Reader) (vs : Items) → validate_all vs ≡ ok tt → is_ok (all_items read vs) ≡ true
  all_items-is_ok read nil h = ap is_ok (all_items-nil read)
  all_items-is_ok read (cons v vs) h =
      let (hv, hvs) = validate_all-parts v vs h in
      rw (all_items-cons read v vs)
        (both-is_ok _ _ (evaluate-is_ok read v hv) (all_items-is_ok read vs hvs))

  any_items-is_ok :
      (read : Reader) (vs : Items) → validate_all vs ≡ ok tt → is_ok (any_items read vs) ≡ true
  any_items-is_ok read nil h = ap is_ok (any_items-nil read)
  any_items-is_ok read (cons v vs) h =
      let (hv, hvs) = validate_all-parts v vs h in
      rw (any_items-cons read v vs)
        (either-is_ok _ _ (evaluate-is_ok read v hv) (any_items-is_ok read vs hvs))

-- A predicate that `validate` accepts is evaluated to true or false, whatever the graph holds:
-- evaluation raises on no accepted predicate.
pub validate-evaluate :
    (read : Reader) (v : Value) → validate v ≡ ok tt → (b : Bool) × (evaluate read v ≡ ok b)
validate-evaluate read v h = value_of_ok (evaluate read v) (evaluate-is_ok read v h)

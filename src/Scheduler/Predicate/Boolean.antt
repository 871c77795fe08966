-- ===== src/Scheduler/Predicate/Boolean.antt =====
-- Composite predicates as Boolean operations, and what a leaf says of a node that is not visible.
use semantics_toolchain.Prelude.{
  ℕ, String, Bool, true, false, none, some, ◌≡◌, refl, ◌==◌, arith, Result, ok, contains, inl, inr,
  Bool-cases, eq_iff,
}
use semantics_toolchain.Json.{
  Value, Items, Fields, str, arr, obj, nil, cons, end, field, get, has, count_fields, is_none,
  is_text,
}
use semantics_toolchain.Json.Convert.{uuid_of}
use semantics_toolchain.Scheduler.Predicate.Grammar.{Fault, ops, get_or_null}
use semantics_toolchain.Scheduler.Predicate.Evaluation.{
  Reader, evaluate, all_items, any_items, eval_leaf, both, either, negated, decide_leaf,
  actual_value, compare_with, comparator,
}
use semantics_toolchain.Scheduler.Predicate.Clauses.{
  all_items-nil, all_items-cons, any_items-nil, any_items-cons,
}

-- {"all": [...]}, {"any": [...]}, {"not": ...}
abbrev pub all_object : Items → Value
all_object vs = obj (field "all" (arr vs) end)

abbrev pub any_object : Items → Value
any_object vs = obj (field "any" (arr vs) end)

abbrev pub not_object : Value → Value
not_object v = obj (field "not" v end)

-- Each clause negated.
abbrev pub negate_each : Items → Items
negate_each nil = nil
negate_each (cons v vs) = cons (not_object v) (negate_each vs)

module _ (read : Reader) where
  evaluate-all_object : (vs : Items) → evaluate read (all_object vs) ≡ all_items read vs
  unfolding evaluate has
  evaluate-all_object vs = refl

  evaluate-any_object : (vs : Items) → evaluate read (any_object vs) ≡ any_items read vs
  unfolding evaluate has
  evaluate-any_object vs = refl

  evaluate-not_object : (v : Value) → evaluate read (not_object v) ≡ negated (evaluate read v)
  unfolding evaluate has
  evaluate-not_object v = refl

  negated-either :
      (a b c : Result Fault Bool) → negated b ≡ c → negated (either a b) ≡ both (negated a) c
  negated-either a b c h = ground arith

  negated-any_items : (vs : Items) → negated (any_items read vs) ≡ all_items read (negate_each vs)
  negated-any_items nil = rw (any_items-nil read, all_items-nil read)
  negated-any_items (cons v vs) =
      rw
        (
          any_items-cons read v vs,
          all_items-cons read (not_object v) (negate_each vs),
          evaluate-not_object v,
        )
        (negated-either (evaluate read v) (any_items read vs) _ (negated-any_items vs))

-- De Morgan's law, errors included: the negation of `any` raises, or has a value, as `all` of the
-- negated clauses does, for clauses of any form.
not-any :
    (read : Reader) (vs : Items)
    → evaluate read (not_object (any_object vs)) ≡ evaluate read (all_object (negate_each vs))
not-any read vs =
    rw
      (
        evaluate-not_object read (any_object vs),
        evaluate-any_object read vs,
        evaluate-all_object read (negate_each vs),
      )
      (negated-any_items read vs)

-- {"node": ..., "path": ..., "op": ..., "value": ...}
abbrev pub leaf_object : Value → String → String → Value → Fields
leaf_object id path op value =
    field "node" id (field "path" (str path) (field "op" (str op) (field "value" value end)))

compare_absent :
    (op : String) (expected : Value)
    → contains ops op ≡ true
    → (op == "exists") ≡ false
    → (op == "absent") ≡ false
    → compare_with (str op) none expected ≡ ok false
unfolding compare_with comparator
compare_absent op expected h ne na = ground arith

decide_absent :
    (op : String) (expected : Value)
    → contains ops op ≡ true
    → decide_leaf none expected (some (str op)) ≡ ok (op == "absent")
unfolding decide_leaf is_text
decide_absent op expected h = elim (Bool-cases (op == "exists")) [
  | inl e ↦ rw ((eq_iff op "exists").0 e) refl
  | inr ne ↦ elim (Bool-cases (op == "absent")) [
    | inl e ↦ rw ((eq_iff op "absent").0 e) refl
    | inr na ↦ rw (is_text, ne, na) (compare_absent op expected h ne na)
  ]
]

given_of_uuid : (id : Value) (i : ℕ) → uuid_of id ≡ some i → is_none (some id) ≡ false
unfolding uuid_of is_none
given_of_uuid id i h = ground arith

-- A node that the job cannot see reads as absent: of the eight operations only `absent` is true.
evaluate-invisible :
    (read : Reader) (id : Value) (i : ℕ) (path op : String) (value : Value)
    → uuid_of id ≡ some i
    → read i ≡ none
    → contains ops op ≡ true
    → evaluate read (obj (leaf_object id path op value)) ≡ ok (op == "absent")
unfolding evaluate has count_fields eval_leaf get get_or_null is_none actual_value
evaluate-invisible read id i path op value u h o =
    rw (given_of_uuid id i u, u, h) (decide_absent op value o)

-- ===== src/Scheduler/Predicate/Evaluation.antt =====
-- `evaluate`, `_eval_leaf` and `_resolve_path` of predicate.py. `read` is what the job's scoped
-- access gives: the properties of a visible node.
use semantics_toolchain.Prelude.{
  ℕ, String, Bool, true, false, not, Option, none, some, List, [], ◌∷◌, ◌==◌, split_at, eqb,
  if◌then◌else◌, Result, ok, err, ◌>>=◌,
}
use semantics_toolchain.Json.{
  Value, Items, Fields, str, arr, obj, nil, cons, end, field, get, has, is_none, is_text, truthy,
  count_fields,
}
use semantics_toolchain.Json.Compare.{value_eq, value_lt, value_le}
use semantics_toolchain.Json.Convert.{uuid_of}
use semantics_toolchain.Scheduler.Predicate.Grammar.{Fault, value_error, other_error, get_or_null}

abbrev pub Reader : Type 0
Reader = ℕ → Option Fields

unfoldable pub walk : Value → List String → Option Value
unfolding get
walk current [] = some current
walk (obj fs) (part ∷ parts) = elim (get part fs) [ none ↦ none | some v ↦ walk v parts ]
walk _ (part ∷ parts) = none

-- `_resolve_path`
unfoldable pub resolve_path : Fields → String → Option Value
unfolding walk split_at
resolve_path props path = walk (obj props) (split_at b'.' path)

-- A comparison that raises TypeError is false.
unfoldable pub or_false : Option Bool → Bool
or_false none = false
or_false (some b) = b

-- `_COMPARATORS`
unfoldable pub comparator : String → Option (Value → Value → Bool)
unfolding value_eq value_lt value_le or_false
comparator op =
    if op == "eq"
    then some value_eq
    else if op == "ne"
    then some (λ a b. not (value_eq a b))
    else if op == "lt"
    then some (λ a b. or_false (value_lt a b))
    else if op == "le"
    then some (λ a b. or_false (value_le a b))
    else if op == "gt"
    then some (λ a b. or_false (value_lt b a))
    else if op == "ge"
    then some (λ a b. or_false (value_le b a))
    else none

-- `_COMPARATORS.get(op)` and the comparison; a list or a dict cannot be looked up.
unfoldable pub compare_with : Value → Option Value → Value → Result Fault Bool
unfolding comparator
compare_with (str op) actual expected = elim (comparator op) [
  | none ↦ err value_error
  | some test ↦ elim actual [ none ↦ ok false | some v ↦ ok (test v expected) ]
]
compare_with (arr vs) actual expected = err other_error
compare_with (obj fs) actual expected = err other_error
compare_with op actual expected = err value_error

-- The value at the leaf's path in the node, if the node is visible; a path that is no text has no
-- `split`.
unfoldable pub actual_value : Option Fields → Option Value → Result Fault (Option Value)
unfolding resolve_path
actual_value none path = ok none
actual_value (some props) none = ok (resolve_path props "")
actual_value (some props) (some (str path)) = ok (resolve_path props path)
actual_value (some props) (some _) = err other_error

is_some : Option Value → Bool
is_some none = false
is_some (some v) = true

unfoldable pub decide_leaf : Option Value → Value → Option Value → Result Fault Bool
unfolding is_some
decide_leaf actual expected op =
    if is_text "exists" op
    then ok (is_some actual)
    else if is_text "absent" op
    then ok (not (is_some actual))
    else elim op [ none ↦ err value_error | some v ↦ compare_with v actual expected ]

-- `_eval_leaf`
unfoldable pub eval_leaf : Reader → Fields → Result Fault Bool
eval_leaf read leaf =
    if is_none (get "op" leaf)
    then err value_error
    else if is_none (get "node" leaf)
    then err value_error
    else elim (uuid_of (get_or_null "node" leaf)) [
      | none ↦ err value_error
      | some id ↦ actual_value (read id) (get "path" leaf) >>= λ actual.
          decide_leaf actual (get_or_null "value" leaf) (get "op" leaf)
    ]

-- `for clause in …: if not await evaluate(clause): return False`, one clause and the rest.
abbrev pub both : Result Fault Bool → Result Fault Bool → Result Fault Bool
both (ok true) rest = rest
both (ok false) rest = ok false
both (err e) rest = err e

abbrev pub either : Result Fault Bool → Result Fault Bool → Result Fault Bool
either (ok true) rest = ok true
either (ok false) rest = rest
either (err e) rest = err e

abbrev pub negated : Result Fault Bool → Result Fault Bool
negated (ok b) = ok (not b)
negated (err e) = err e

-- A text as a predicate: the empty one is no gate, and any other has no `get`.
abbrev pub text_clause : String → Result Fault Bool
text_clause s = if s == "" then ok true else err other_error

all_keys : Fields → Result Fault Bool
all_keys end = ok true
all_keys (field k v fs) = both (text_clause k) (all_keys fs)

any_keys : Fields → Result Fault Bool
any_keys end = ok false
any_keys (field k v fs) = either (text_clause k) (any_keys fs)

-- `predicate["all"]` and its likes are found by walking the fields. Iterating a dict gives its
-- keys, and iterating a text its characters, none of which is empty.
unfoldable mutual
  unfolding truthy all_keys any_keys

  pub evaluate : Reader → Value → Result Fault Bool
  evaluate read (obj fs) = elim (has "all" fs) [
    | true ↦ all_at read fs
    | false ↦ elim (has "any" fs) [
      | true ↦ any_at read fs
      | false ↦ elim (has "not" fs) [
        | true ↦ negated (evaluate_at read fs)
        | false ↦ if eqb (count_fields fs) 0 then ok true else eval_leaf read fs
      ]
    ]
  ]
  evaluate read v = if truthy v then err other_error else ok true

  pub evaluate_at : Reader → Fields → Result Fault Bool
  evaluate_at read end = err other_error
  evaluate_at read (field k v fs) = if k == "not" then evaluate read v else evaluate_at read fs

  pub all_at : Reader → Fields → Result Fault Bool
  all_at read end = err other_error
  all_at read (field k v fs) = if k == "all" then all_of read v else all_at read fs

  pub any_at : Reader → Fields → Result Fault Bool
  any_at read end = err other_error
  any_at read (field k v fs) = if k == "any" then any_of read v else any_at read fs

  pub all_of : Reader → Value → Result Fault Bool
  all_of read (arr vs) = all_items read vs
  all_of read (obj fs) = all_keys fs
  all_of read (str s) = if s == "" then ok true else err other_error
  all_of read v = err other_error

  pub any_of : Reader → Value → Result Fault Bool
  any_of read (arr vs) = any_items read vs
  any_of read (obj fs) = any_keys fs
  any_of read (str s) = if s == "" then ok false else err other_error
  any_of read v = err other_error

  pub all_items : Reader → Items → Result Fault Bool
  all_items read nil = ok true
  all_items read (cons v vs) = both (evaluate read v) (all_items read vs)

  pub any_items : Reader → Items → Result Fault Bool
  any_items read nil = ok false
  any_items read (cons v vs) = either (evaluate read v) (any_items read vs)

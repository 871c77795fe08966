-- ===== src/Scheduler/Plan/Contract.antt =====
-- Lemmas on `validate_final_plan` of plan.py and the form of the actions of a plan.
use semantics_toolchain.Prelude.{
  String, true, false, Option, none, some, List, [], ◌∷◌, ◌≡◌, ◌⊎◌, inl, inr, All, All-append,
  contains, is_empty, arith, Result, ok, Bool-cases,
}
use semantics_toolchain.Json.{
  Value, Items, Fields, null, arr, obj, nil, cons, get, has, unknown_keys, is_str, is_obj,
  is_nonempty_str, is_text, absent_or, to_list,
}
use semantics_toolchain.Json.Laws.{known_key}
use semantics_toolchain.Scheduler.Plan.Validation.{
  PlanError, validate_final_plan, check_deliver, check_op, check_update, check_create, check_write,
  check_each, check_writes, check_elicit, check_part, present, allowed_deliver, allowed_create,
  allowed_update, allowed_elicit,
}
use semantics_toolchain.Scheduler.Plan.Actions.{
  Kind, Action, given, append_action, append_given, append_writes, planned_writes,
  canonical_actions,
}

-- Every key of the object is among the allowed ones.
abbrev pub OnlyKeys : List String → Fields → Type 0
OnlyKeys allowed fs = (k : String) → has k fs ≡ true → contains allowed k ≡ true

pub record IsMessage (fs : Fields) : Type 0 where
  pub text : present is_str (get "text" fs) ≡ true
  pub keys : OnlyKeys allowed_deliver fs

pub record IsQuestion (fs : Fields) : Type 0 where
  pub target_field : present is_str (get "target_field" fs) ≡ true
  pub question : absent_or is_str (get "question" fs) ≡ true
  pub target_node : absent_or is_str (get "target_node" fs) ≡ true
  pub default : absent_or is_str (get "default" fs) ≡ true
  pub keys : OnlyKeys allowed_elicit fs

pub record IsCreate (fs : Fields) : Type 0 where
  pub op : is_text "create" (get "op" fs) ≡ true
  pub type : present is_nonempty_str (get "type" fs) ≡ true
  pub label : absent_or is_str (get "label" fs) ≡ true
  pub properties : absent_or is_obj (get "properties" fs) ≡ true
  pub keys : OnlyKeys allowed_create fs

pub record IsUpdate (fs : Fields) : Type 0 where
  pub op : is_text "update" (get "op" fs) ≡ true
  pub node_id : present is_nonempty_str (get "node_id" fs) ≡ true
  pub patch : present is_obj (get "patch" fs) ≡ true
  pub keys : OnlyKeys allowed_update fs

abbrev pub IsSound : Kind → Value → Type 0
IsSound Kind.deliver (obj fs) = IsMessage fs
IsSound Kind.write (obj fs) = IsCreate fs ⊎ IsUpdate fs
IsSound Kind.elicit (obj fs) = IsQuestion fs
IsSound _ _ = ⊥

check_deliver-IsSound : (v : Value) → check_deliver v ≡ ok tt → IsSound Kind.deliver v
unfolding check_deliver
check_deliver-IsSound (obj fs) h = record {
  text = ground arith;
  keys = λ k e. known_key allowed_deliver k fs (ground arith) e;
}
check_deliver-IsSound _ h = cc

check_elicit-IsSound : (v : Value) → check_elicit v ≡ ok tt → IsSound Kind.elicit v
unfolding check_elicit
check_elicit-IsSound (obj fs) h = record {
  target_field = ground arith;
  question = ground arith;
  target_node = ground arith;
  default = ground arith;
  keys = λ k e. known_key allowed_elicit k fs (ground arith) e;
}
check_elicit-IsSound _ h = cc

op_is_create :
    (o : Option Value) → check_op o ≡ ok tt → is_text "update" o ≡ false → is_text "create" o ≡ true
unfolding check_op is_text
op_is_create o h e = ground arith

create_known :
    (fs : Fields) → check_create fs ≡ ok tt → is_empty (unknown_keys allowed_create fs) ≡ true
unfolding check_create
create_known fs h = ground arith

update_known :
    (fs : Fields)
    → check_update fs ≡ ok tt
    → (present is_nonempty_str (get "node_id" fs) ≡ true)
      × (present is_obj (get "patch" fs) ≡ true)
      × (is_empty (unknown_keys allowed_update fs) ≡ true)
unfolding check_update
update_known fs h = ground arith

module _ (fs : Fields) (h : check_write (obj fs) ≡ ok tt) where
  create_checked : is_text "update" (get "op" fs) ≡ false → check_create fs ≡ ok tt
  unfolding check_write
  create_checked e = ground arith

  update_checked : is_text "update" (get "op" fs) ≡ true → check_update fs ≡ ok tt
  unfolding check_write
  update_checked e = ground arith

  write-IsCreate : is_text "update" (get "op" fs) ≡ false → IsCreate fs
  unfolding check_write
  write-IsCreate e = record {
    op = op_is_create (get "op" fs) (ground arith) e;
    type = ground arith;
    label = ground arith;
    properties = ground arith;
    keys = λ k. known_key allowed_create k fs (create_known fs (create_checked e));
  }

  write-IsUpdate : is_text "update" (get "op" fs) ≡ true → IsUpdate fs
  write-IsUpdate e = record {
    op = e;
    node_id = (update_known fs (update_checked e)).0;
    patch = (update_known fs (update_checked e)).1;
    keys = λ k. known_key allowed_update k fs (update_known fs (update_checked e)).2;
  }

check_write-IsSound : (v : Value) → check_write v ≡ ok tt → IsSound Kind.write v
unfolding check_write
check_write-IsSound (obj fs) h = elim (Bool-cases (is_text "update" (get "op" fs))) [
  | inl update ↦ inr (write-IsUpdate fs h update)
  | inr create ↦ inl (write-IsCreate fs h create)
]
check_write-IsSound _ h = cc

abbrev pub AllSound : List Action → Type 0
AllSound = All (λ a. IsSound a.kind a.payload)

check_each-IsSound : (vs : Items) → check_each vs ≡ ok tt → All (IsSound Kind.write) (to_list vs)
unfolding check_each to_list
check_each-IsSound nil h = tt
check_each-IsSound (cons v vs) h =
    (check_write-IsSound v (ground arith), check_each-IsSound vs (ground arith))

check_writes-IsSound :
    (o : Option Value) → check_writes o ≡ ok tt → All (IsSound Kind.write) (planned_writes o)
unfolding check_writes planned_writes
check_writes-IsSound none h = tt
check_writes-IsSound (some (arr vs)) h = check_each-IsSound vs h
check_writes-IsSound (some _) h = tt

abbrev OptionSound : Kind → Option Value → Type 0
OptionSound kind none = Unit
OptionSound kind (some v) = IsSound kind v

check_part-IsSound :
    (kind : Kind) (check : Value → Result PlanError Unit) (o : Option Value)
    → ((v : Value) → check v ≡ ok tt → IsSound kind v)
    → check_part check o ≡ ok tt
    → OptionSound kind (given o)
unfolding check_part
check_part-IsSound kind check none f h = tt
check_part-IsSound kind check (some null) f h = tt
check_part-IsSound kind check (some v) f h = f v h

module _ (occurrence : String) where
  append_given-AllSound :
      (kind : Kind) (o : Option Value) (actions : List Action)
      → OptionSound kind o
      → AllSound actions
      → AllSound (append_given occurrence kind o actions)
  unfolding append_given append_action
  append_given-AllSound kind none actions h k = k
  append_given-AllSound kind (some v) actions h k = All-append _ actions _ k (h, tt)

  append_writes-AllSound :
      (vs : List Value) (actions : List Action)
      → All (IsSound Kind.write) vs
      → AllSound actions
      → AllSound (append_writes occurrence vs actions)
  unfolding append_writes append_action
  append_writes-AllSound [] actions h k = k
  append_writes-AllSound (v ∷ vs) actions h k =
      append_writes-AllSound vs _ h.1 (All-append _ actions _ k (h.0, tt))

-- The parts of an accepted plan have passed their checks.
record Checked (output : Value) (plan : Fields) : Type 0 where
  same : output ≡ obj plan
  deliver : check_part check_deliver (get "deliver" plan) ≡ ok tt
  writes : check_writes (get "writes" plan) ≡ ok tt
  elicit : check_part check_elicit (get "elicit" plan) ≡ ok tt

checked :
    (output : Value) {plan : Fields} → validate_final_plan output ≡ ok plan → Checked output plan
unfolding validate_final_plan
checked (obj fs) h = ground arith
checked _ h = cc

-- Each action of an accepted plan is an object of its kind's form and has no other key: a message
-- with a text; the creation of a node of a named type, or the update of a named node by a patch;
-- a question with a target field. No action names a recipient, and none shares or deletes.
pub canonical_actions-AllSound :
    (output : Value) (occurrence : String) {plan : Fields}
    → validate_final_plan output ≡ ok plan
    → AllSound (canonical_actions plan occurrence)
unfolding canonical_actions
canonical_actions-AllSound output occurrence {plan} h =
    let c = checked output h in
    append_given-AllSound occurrence Kind.elicit (given (get "elicit" plan)) _
      (check_part-IsSound Kind.elicit check_elicit (get "elicit" plan) check_elicit-IsSound
        c.elicit)
      (append_writes-AllSound occurrence (planned_writes (get "writes" plan)) _
        (check_writes-IsSound (get "writes" plan) c.writes)
        (append_given-AllSound occurrence Kind.deliver (given (get "deliver" plan)) []
          (check_part-IsSound Kind.deliver check_deliver (get "deliver" plan) check_deliver-IsSound
            c.deliver)
          tt))

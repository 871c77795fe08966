-- ===== src/Scheduler/Predicate/Clauses.antt =====
-- Lemmas on the clauses of a predicate and on the fields that hold them.
use semantics_toolchain.Prelude.{
  String, true, false, ◌≡◌, refl, ◌==◌, ok, >>=-eq-ok, is_ok, if◌then◌else◌,
}
use semantics_toolchain.Json.{
  Value, Items, Fields, null, arr, obj, nil, cons, end, field, has, truthy,
}
use semantics_toolchain.Scheduler.Predicate.Grammar.{
  leaf_node_ids, ids_at, clause_ids_at, clause_ids, validate, validate_at, clauses_at,
  validate_clauses, validate_all,
}
use semantics_toolchain.Scheduler.Predicate.Evaluation.{
  Reader, evaluate, evaluate_at, all_at, any_at, all_of, any_of, all_items, any_items, both, either,
}

abbrev pub NotArr : Value → Type 0
NotArr (arr vs) = ⊥
NotArr _ = Unit

abbrev pub NotObject : Value → Type 0
NotObject null = ⊥
NotObject (obj fs) = ⊥
NotObject _ = Unit

pub not_object : (v : Value) → NotObject v → ¬ (validate v ≡ ok tt)
unfolding validate
not_object null n h = n
not_object (obj fs) n h = n
not_object _ n h = cc

pub clauses-other : (v : Value) → NotArr v → ¬ (validate_clauses v ≡ ok tt)
unfolding validate
clauses-other (arr vs) n h = n
clauses-other _ n h = cc

pub null-is_ok : (read : Reader) → is_ok (evaluate read null) ≡ true
unfolding evaluate truthy
null-is_ok read = refl

pub validate_all-parts :
    (v : Value) (vs : Items)
    → validate_all (cons v vs) ≡ ok tt
    → (validate v ≡ ok tt) × (validate_all vs ≡ ok tt)
unfolding validate
validate_all-parts v vs h =
    let (u, hv, hvs) = >>=-eq-ok (validate v) (λ _. validate_all vs) h in (hv, hvs)

-- The clauses of a composite predicate are accepted one by one.
pub clauses-arr : (vs : Items) → validate_clauses (arr vs) ≡ ok tt → validate_all vs ≡ ok tt
unfolding validate
clauses-arr nil h = refl
clauses-arr (cons v vs) h = h

module _ (read : Reader) where
  pub all_of-arr : (vs : Items) → all_of read (arr vs) ≡ all_items read vs
  unfolding evaluate
  all_of-arr vs = refl

  pub any_of-arr : (vs : Items) → any_of read (arr vs) ≡ any_items read vs
  unfolding evaluate
  any_of-arr vs = refl

  pub all_items-nil : all_items read nil ≡ ok true
  unfolding evaluate
  all_items-nil = refl

  pub any_items-nil : any_items read nil ≡ ok false
  unfolding evaluate
  any_items-nil = refl

  pub all_items-cons :
      (v : Value) (vs : Items)
      → all_items read (cons v vs) ≡ both (evaluate read v) (all_items read vs)
  unfolding evaluate
  all_items-cons v vs = refl

  pub any_items-cons :
      (v : Value) (vs : Items)
      → any_items read (cons v vs) ≡ either (evaluate read v) (any_items read vs)
  unfolding evaluate
  any_items-cons v vs = refl

-- One field of an object, for each walk over its fields.
pub has-field :
    (key k : String) (v : Value) (fs : Fields)
    → has key (field k v fs) ≡ (if k == key then true else has key fs)
unfolding has
has-field key k v fs = refl

pub validate_at-field :
    (key k : String) (v : Value) (fs : Fields)
    → validate_at key (field k v fs) ≡ (if k == key then validate v else validate_at key fs)
unfolding validate
validate_at-field key k v fs = refl

pub ids_at-field :
    (k : String) (v : Value) (fs : Fields)
    → ids_at (field k v fs) ≡ (if k == "not" then leaf_node_ids v else ids_at fs)
unfolding leaf_node_ids
ids_at-field k v fs = refl

pub clause_ids_at-field :
    (key k : String) (v : Value) (fs : Fields)
    → clause_ids_at key (field k v fs) ≡ (if k == key then clause_ids v else clause_ids_at key fs)
unfolding leaf_node_ids
clause_ids_at-field key k v fs = refl

pub clauses_at-field :
    (key k : String) (v : Value) (fs : Fields)
    → clauses_at key (field k v fs) ≡ (if k == key then validate_clauses v else clauses_at key fs)
unfolding validate
clauses_at-field key k v fs = refl

module _ (read : Reader) (k : String) (v : Value) (fs : Fields) where
  pub evaluate_at-field :
      evaluate_at read (field k v fs)
      ≡ (if k == "not" then evaluate read v else evaluate_at read fs)
  unfolding evaluate
  evaluate_at-field = refl

  pub all_at-field :
      all_at read (field k v fs) ≡ (if k == "all" then all_of read v else all_at read fs)
  unfolding evaluate
  all_at-field = refl

  pub any_at-field :
      any_at read (field k v fs) ≡ (if k == "any" then any_of read v else any_at read fs)
  unfolding evaluate
  any_at-field = refl

-- An object with no field has no key.
pub has-end : (key : String) → has key end ≡ false
unfolding has
has-end key = refl

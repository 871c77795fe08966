-- ===== src/Scheduler/Predicate/Shape.antt =====
-- The forms of an accepted predicate, and how `evaluate` reads an object by its keys.
use semantics_toolchain.Prelude.{
  String, eq_iff, eqb_iff, sym, ◌∙◌, subst, Option, none, some, true, false, ◌≡◌, refl, inl, inr,
  ◌==◌, eqb, arith, Result, ok, err, Bool-cases, if◌then◌else◌,
}
use semantics_toolchain.Json.{Fields, obj, end, field, get, has, count_fields, absent_or, is_str}
use semantics_toolchain.Scheduler.Predicate.Grammar.{
  Malformed, several_keys, composite_key, validate, validate_at, clauses_at, validate_leaf, is_op,
  is_uuid, get_or_null,
}
use semantics_toolchain.Scheduler.Predicate.Evaluation.{
  Reader, evaluate, evaluate_at, all_at, any_at, eval_leaf, negated,
}

-- What an accepted object is.
pub data Shape (fs : Fields) : Type 0 where
  of_all : has "all" fs ≡ true → has "not" fs ≡ false → clauses_at "all" fs ≡ ok tt → Shape fs
  of_any :
      has "all" fs ≡ false
      → has "any" fs ≡ true
      → has "not" fs ≡ false
      → clauses_at "any" fs ≡ ok tt
      → Shape fs
  of_not :
      has "all" fs ≡ false
      → has "any" fs ≡ false
      → has "not" fs ≡ true
      → validate_at "not" fs ≡ ok tt
      → Shape fs
  no_gate :
      has "all" fs ≡ false
      → has "any" fs ≡ false
      → has "not" fs ≡ false
      → eqb (count_fields fs) 0 ≡ true
      → Shape fs
  leaf :
      has "all" fs ≡ false
      → has "any" fs ≡ false
      → has "not" fs ≡ false
      → eqb (count_fields fs) 0 ≡ false
      → validate_leaf fs ≡ ok tt
      → Shape fs

abbrev pub by_key : Fields → Option String → Result Malformed Unit
by_key fs none = if eqb (count_fields fs) 0 then ok tt else validate_leaf fs
by_key fs (some key) = elim (eqb (count_fields fs) 1) [
  | false ↦ err several_keys
  | true ↦ elim (key == "not") [ true ↦ validate_at key fs | false ↦ clauses_at key fs ]
]

pub validate-obj : (fs : Fields) → validate (obj fs) ≡ by_key fs (composite_key fs)
unfolding validate
validate-obj fs = ground arith

pub by_key-some :
    (fs : Fields) (key : String)
    → by_key fs (some key) ≡ ok tt
    → (if key == "not" then validate_at key fs else clauses_at key fs) ≡ ok tt
by_key-some fs key h = ground arith

pub by_key-count :
    (fs : Fields) (key : String) → by_key fs (some key) ≡ ok tt → eqb (count_fields fs) 1 ≡ true
by_key-count fs key h = ground arith

pub one_key :
    (fs : Fields) (key other : String)
    → eqb (count_fields fs) 1 ≡ true
    → has key fs ≡ true
    → (key == other) ≡ false
    → has other fs ≡ false
unfolding has count_fields
one_key end key other n h ne = refl
one_key (field k v end) key other n h ne =
    ground (arith, eq_iff k key, eq_iff k other, eq_iff key other)
one_key (field k v (field j w fs)) key other n h ne = absurd (omega (arith, (eqb_iff _ _).0 n))

pub by_key-none :
    (fs : Fields)
    → by_key fs none ≡ ok tt
    → eqb (count_fields fs) 0 ≡ false
    → validate_leaf fs ≡ ok tt
by_key-none fs h e = ground arith

module _ (fs : Fields) (h : validate (obj fs) ≡ ok tt) where
  pub keyed : (o : Option String) → composite_key fs ≡ o → by_key fs o ≡ ok tt
  keyed o e = subst (λ x. by_key fs x ≡ ok tt) e (sym (validate-obj fs) ∙ h)

  -- An accepted object with a composite key has no other key.
  pub only_key :
      (key other : String)
      → composite_key fs ≡ some key
      → has key fs ≡ true
      → (key == other) ≡ false
      → has other fs ≡ false
  only_key key other e h ne = one_key fs key other (by_key-count fs key (keyed (some key) e)) h ne

  pub validate-Shape : Shape fs
  unfolding composite_key
  validate-Shape = elim (Bool-cases (has "all" fs)) [
    | inl a ↦
        Shape.of_all a (only_key "all" "not" (ground arith) a refl)
          (by_key-some fs "all" (keyed (some "all") (ground arith)))
    | inr na ↦ elim (Bool-cases (has "any" fs)) [
      | inl b ↦
          Shape.of_any na b (only_key "any" "not" (ground arith) b refl)
            (by_key-some fs "any" (keyed (some "any") (ground arith)))
      | inr nb ↦ elim (Bool-cases (has "not" fs)) [
        | inl c ↦ Shape.of_not na nb c (by_key-some fs "not" (keyed (some "not") (ground arith)))
        | inr nc ↦ elim (Bool-cases (eqb (count_fields fs) 0)) [
          | inl e ↦ Shape.no_gate na nb nc e
          | inr ne ↦ Shape.leaf na nb nc ne (by_key-none fs (keyed none (ground arith)) ne)
        ]
      ]
    ]
  ]

-- An accepted leaf: its operation is known, its node is a UUID, and its path is a text if present.
pub record LeafParts (fs : Fields) : Type 0 where
  pub op : is_op (get "op" fs) ≡ true
  pub node : is_uuid (get_or_null "node" fs) ≡ true
  pub path : absent_or is_str (get "path" fs) ≡ true

pub leaf_parts : (fs : Fields) → validate_leaf fs ≡ ok tt → LeafParts fs
unfolding validate_leaf
leaf_parts fs h = ground arith

-- `evaluate` on an object, by the key that decides.
module _ (read : Reader) (fs : Fields) where
  pub evaluate-all : has "all" fs ≡ true → evaluate read (obj fs) ≡ all_at read fs
  unfolding evaluate
  evaluate-all a = ground arith

  pub evaluate-any :
      has "all" fs ≡ false → has "any" fs ≡ true → evaluate read (obj fs) ≡ any_at read fs
  unfolding evaluate
  evaluate-any a b = ground arith

  pub evaluate-not :
      has "all" fs ≡ false
      → has "any" fs ≡ false
      → has "not" fs ≡ true
      → evaluate read (obj fs) ≡ negated (evaluate_at read fs)
  unfolding evaluate
  evaluate-not a b c = ground arith

  pub evaluate-leaf :
      has "all" fs ≡ false
      → has "any" fs ≡ false
      → has "not" fs ≡ false
      → evaluate read (obj fs) ≡ (if eqb (count_fields fs) 0 then ok true else eval_leaf read fs)
  unfolding evaluate
  evaluate-leaf a b c = ground arith

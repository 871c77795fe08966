-- ===== src/Scheduler/Predicate/Reads.antt =====
-- What a predicate reads: the nodes that `leaf_node_ids` lists, which the authoring gate resolves.
use semantics_toolchain.Prelude.{
  ℕ, true, Option, none, some, List, [], ◌∷◌, ◌≡◌, refl, sym, ap, ap₂, ◌∙◌, inl, inr, ◌==◌, ok,
  Option-cases,
}
use semantics_toolchain.Json.{
  Value, Items, Fields, null, bool, int, float, str, arr, obj, nil, cons, end, field, get, has,
}
use semantics_toolchain.Json.Convert.{uuid_of}
use semantics_toolchain.Scheduler.Predicate.Grammar.{
  validate, validate_at, clauses_at, validate_clauses, validate_all, get_or_null, leaf_node_ids,
  ids_at, clause_ids_at, clause_ids, item_ids, leaf_id,
}
use semantics_toolchain.Scheduler.Predicate.Evaluation.{
  Reader, evaluate, evaluate_at, all_at, any_at, all_of, any_of, all_items, any_items, eval_leaf,
  both, either, negated,
}
use semantics_toolchain.Scheduler.Predicate.Shape.{
  Shape, validate-Shape, evaluate-all, evaluate-any, evaluate-not, evaluate-leaf,
}
use semantics_toolchain.Scheduler.Predicate.Clauses.{
  validate_all-parts, has-field, has-end, validate_at-field, clauses_at-field, evaluate_at-field,
  all_at-field, any_at-field, all_of-arr, any_of-arr, all_items-nil, all_items-cons, any_items-nil,
  any_items-cons, clauses-arr, clauses-other, not_object, ids_at-field, clause_ids_at-field,
}
use semantics_toolchain.Scheduler.Predicate.Named.{
  choose, chosen, other, Agree, Agree-split, append_ids-ok, item_ids-cons, clause_ids-arr,
  ok-injective, evaluate-null, ids-not, ids-all, ids-any, ids-leaf,
}

module _ (r s : Reader) where
  named-Agree :
      (o : Option Value) (i : ℕ)
      → Agree r s (elim o [ none ↦ [] | some v ↦ v ∷ [] ])
      → uuid_of (elim o [ none ↦ null | some v ↦ v ]) ≡ some i
      → r i ≡ s i
  unfolding uuid_of
  named-Agree none i h e = cc
  named-Agree (some v) i h e = h.0 i e

  -- A leaf reads at most the node that it names.
  eval_leaf-Agree : (fs : Fields) → Agree r s (leaf_id fs) → eval_leaf r fs ≡ eval_leaf s fs
  unfolding eval_leaf leaf_id get_or_null
  eval_leaf-Agree fs h = elim (Option-cases (uuid_of (get_or_null "node" fs))) [
    | inl e ↦ rw e
    | inr (i, e) ↦ rw (e, named-Agree (get "node" fs) i h e)
  ]

  mutual
    evaluate-Agree :
        (v : Value) {ids : List Value}
        → validate v ≡ ok tt
        → leaf_node_ids v ≡ ok ids
        → Agree r s ids
        → evaluate r v ≡ evaluate s v
    evaluate-Agree null h e a = evaluate-null r ∙ sym (evaluate-null s)
    evaluate-Agree (obj fs) h e a = elim (validate-Shape fs h) [
      | Shape.of_all k n c ↦
          rw (evaluate-all r fs k, evaluate-all s fs k)
            (all_at-Agree fs k c (sym (ids-all fs n k) ∙ e) a)
      | Shape.of_any nk k n c ↦
          rw (evaluate-any r fs nk k, evaluate-any s fs nk k)
            (any_at-Agree fs k c (sym (ids-any fs n nk k) ∙ e) a)
      | Shape.of_not na nb k c ↦
          rw (evaluate-not r fs na nb k, evaluate-not s fs na nb k)
            (ap negated (evaluate_at-Agree fs k c (sym (ids-not fs k) ∙ e) a))
      | Shape.no_gate na nb nc z ↦
          rw (evaluate-leaf r fs na nb nc, evaluate-leaf s fs na nb nc, z) refl
      | Shape.leaf na nb nc z l ↦
          rw (evaluate-leaf r fs na nb nc, evaluate-leaf s fs na nb nc, z)
            (eval_leaf-Agree fs (rw (ok-injective (sym e ∙ ids-leaf fs nc na nb)) at a))
    ]
    evaluate-Agree (bool b) h e a = absurd (not_object (bool b) tt h)
    evaluate-Agree (int z) h e a = absurd (not_object (int z) tt h)
    evaluate-Agree (float m k) h e a = absurd (not_object (float m k) tt h)
    evaluate-Agree (str t) h e a = absurd (not_object (str t) tt h)
    evaluate-Agree (arr vs) h e a = absurd (not_object (arr vs) tt h)

    evaluate_at-Agree :
        (fs : Fields) {ids : List Value}
        → has "not" fs ≡ true
        → validate_at "not" fs ≡ ok tt
        → ids_at fs ≡ ok ids
        → Agree r s ids
        → evaluate_at r fs ≡ evaluate_at s fs
    evaluate_at-Agree end k c e a = cc (has-end "not")
    evaluate_at-Agree (field k v fs) h c e a =
        rw (evaluate_at-field r k v fs, evaluate_at-field s k v fs)
          (choose (k == "not")
            (λ t.
              evaluate-Agree v (chosen _ t (validate_at-field "not" k v fs) c)
                (chosen _ t (ids_at-field k v fs) e) a)
            (λ f.
              evaluate_at-Agree fs (other _ f (has-field "not" k v fs) h)
                (other _ f (validate_at-field "not" k v fs) c) (other _ f (ids_at-field k v fs) e)
                a))

    all_at-Agree :
        (fs : Fields) {ids : List Value}
        → has "all" fs ≡ true
        → clauses_at "all" fs ≡ ok tt
        → clause_ids_at "all" fs ≡ ok ids
        → Agree r s ids
        → all_at r fs ≡ all_at s fs
    all_at-Agree end k c e a = cc (has-end "all")
    all_at-Agree (field k v fs) h c e a =
        rw (all_at-field r k v fs, all_at-field s k v fs)
          (choose (k == "all")
            (λ t.
              all_of-Agree v (chosen _ t (clauses_at-field "all" k v fs) c)
                (chosen _ t (clause_ids_at-field "all" k v fs) e) a)
            (λ f.
              all_at-Agree fs (other _ f (has-field "all" k v fs) h)
                (other _ f (clauses_at-field "all" k v fs) c)
                (other _ f (clause_ids_at-field "all" k v fs) e) a))

    any_at-Agree :
        (fs : Fields) {ids : List Value}
        → has "any" fs ≡ true
        → clauses_at "any" fs ≡ ok tt
        → clause_ids_at "any" fs ≡ ok ids
        → Agree r s ids
        → any_at r fs ≡ any_at s fs
    any_at-Agree end k c e a = cc (has-end "any")
    any_at-Agree (field k v fs) h c e a =
        rw (any_at-field r k v fs, any_at-field s k v fs)
          (choose (k == "any")
            (λ t.
              any_of-Agree v (chosen _ t (clauses_at-field "any" k v fs) c)
                (chosen _ t (clause_ids_at-field "any" k v fs) e) a)
            (λ f.
              any_at-Agree fs (other _ f (has-field "any" k v fs) h)
                (other _ f (clauses_at-field "any" k v fs) c)
                (other _ f (clause_ids_at-field "any" k v fs) e) a))

    all_of-Agree :
        (v : Value) {ids : List Value}
        → validate_clauses v ≡ ok tt
        → clause_ids v ≡ ok ids
        → Agree r s ids
        → all_of r v ≡ all_of s v
    all_of-Agree (arr vs) h e a =
        rw (all_of-arr r vs, all_of-arr s vs)
          (all_items-Agree vs (clauses-arr vs h) (sym (clause_ids-arr vs) ∙ e) a)
    all_of-Agree null h e a = absurd (clauses-other null tt h)
    all_of-Agree (bool b) h e a = absurd (clauses-other (bool b) tt h)
    all_of-Agree (int z) h e a = absurd (clauses-other (int z) tt h)
    all_of-Agree (float m k) h e a = absurd (clauses-other (float m k) tt h)
    all_of-Agree (str t) h e a = absurd (clauses-other (str t) tt h)
    all_of-Agree (obj fs) h e a = absurd (clauses-other (obj fs) tt h)

    any_of-Agree :
        (v : Value) {ids : List Value}
        → validate_clauses v ≡ ok tt
        → clause_ids v ≡ ok ids
        → Agree r s ids
        → any_of r v ≡ any_of s v
    any_of-Agree (arr vs) h e a =
        rw (any_of-arr r vs, any_of-arr s vs)
          (any_items-Agree vs (clauses-arr vs h) (sym (clause_ids-arr vs) ∙ e) a)
    any_of-Agree null h e a = absurd (clauses-other null tt h)
    any_of-Agree (bool b) h e a = absurd (clauses-other (bool b) tt h)
    any_of-Agree (int z) h e a = absurd (clauses-other (int z) tt h)
    any_of-Agree (float m k) h e a = absurd (clauses-other (float m k) tt h)
    any_of-Agree (str t) h e a = absurd (clauses-other (str t) tt h)
    any_of-Agree (obj fs) h e a = absurd (clauses-other (obj fs) tt h)

    all_items-Agree :
        (vs : Items) {ids : List Value}
        → validate_all vs ≡ ok tt
        → item_ids vs ≡ ok ids
        → Agree r s ids
        → all_items r vs ≡ all_items s vs
    all_items-Agree nil h e a = all_items-nil r ∙ sym (all_items-nil s)
    all_items-Agree (cons v vs) h e a =
        let (hv, hvs) = validate_all-parts v vs h in
        let (xs, ys, ex, ey, split) =
          append_ids-ok (leaf_node_ids v) (item_ids vs) (sym (item_ids-cons v vs) ∙ e) in
        let (ax, ay) = Agree-split r s xs ys (rw split at a) in
        rw (all_items-cons r v vs, all_items-cons s v vs)
          (ap₂ both (evaluate-Agree v hv ex ax) (all_items-Agree vs hvs ey ay))

    any_items-Agree :
        (vs : Items) {ids : List Value}
        → validate_all vs ≡ ok tt
        → item_ids vs ≡ ok ids
        → Agree r s ids
        → any_items r vs ≡ any_items s vs
    any_items-Agree nil h e a = any_items-nil r ∙ sym (any_items-nil s)
    any_items-Agree (cons v vs) h e a =
        let (hv, hvs) = validate_all-parts v vs h in
        let (xs, ys, ex, ey, split) =
          append_ids-ok (leaf_node_ids v) (item_ids vs) (sym (item_ids-cons v vs) ∙ e) in
        let (ax, ay) = Agree-split r s xs ys (rw split at a) in
        rw (any_items-cons r v vs, any_items-cons s v vs)
          (ap₂ either (evaluate-Agree v hv ex ax) (any_items-Agree vs hvs ey ay))

-- The value of an accepted predicate depends on the graph only at the nodes that
-- `leaf_node_ids` lists: two readers that agree on those give the same result.
pub leaf_node_ids-evaluate :
    (r s : Reader) (v : Value) {ids : List Value}
    → validate v ≡ ok tt
    → leaf_node_ids v ≡ ok ids
    → Agree r s ids
    → evaluate r v ≡ evaluate s v
leaf_node_ids-evaluate r s v h e a = evaluate-Agree r s v h e a

-- ===== src/Scheduler/Predicate/Named.antt =====
-- Lemmas on the ids that `leaf_node_ids` of predicate.py finds.
use semantics_toolchain.Prelude.{
  ℕ, Bool, true, false, some, List, [], ◌∷◌, ◌++◌, ◌≡◌, refl, sym, subst, ◌∙◌, arith, Result, ok,
  err, if◌then◌else◌, All,
}
use semantics_toolchain.Json.{Value, Items, Fields, null, arr, obj, cons, has, truthy}
use semantics_toolchain.Json.Convert.{uuid_of}
use semantics_toolchain.Scheduler.Predicate.Grammar.{
  leaf_node_ids, ids_at, clause_ids_at, clause_ids, item_ids, Fault, append_ids, leaf_id,
}
use semantics_toolchain.Scheduler.Predicate.Evaluation.{Reader, evaluate}

-- Equations and values under a test that is known.
pub choose {ℓ} :
    {A : Type ℓ} (b : Bool) {x y x' y' : A}
    → (b ≡ true → x ≡ y)
    → (b ≡ false → x' ≡ y')
    → (if b then x else x') ≡ (if b then y else y')
choose true f g = f refl
choose false f g = g refl

pub chosen {ℓ} :
    {A : Type ℓ} {b : Bool} {c x z : A} (y : A)
    → b ≡ true
    → c ≡ (if b then x else y)
    → c ≡ z
    → x ≡ z
chosen {c = c} {x = x} y t e h = sym (subst (λ w. c ≡ (if w then x else y)) t e) ∙ h

pub other {ℓ} :
    {A : Type ℓ} {b : Bool} {c y z : A} (x : A)
    → b ≡ false
    → c ≡ (if b then x else y)
    → c ≡ z
    → y ≡ z
other {c = c} {y = y} x t e h = sym (subst (λ w. c ≡ (if w then x else y)) t e) ∙ h

-- Two readers give the same properties for each node that the values name.
abbrev pub Agree : Reader → Reader → List Value → Type 0
Agree r s = All (λ v. (i : ℕ) → uuid_of v ≡ some i → r i ≡ s i)

pub Agree-split :
    (r s : Reader) (xs ys : List Value) → Agree r s (xs ++ ys) → Agree r s xs × Agree r s ys
Agree-split r s [] ys h = (tt, h)
Agree-split r s (x ∷ xs) ys h = let (hx, hy) = Agree-split r s xs ys h.1 in ((h.0, hx), hy)

pub append_ids-ok :
    (a b : Result Fault (List Value)) {ids : List Value}
    → append_ids a b ≡ ok ids
    → (xs : List Value) × (ys : List Value) × (a ≡ ok xs) × (b ≡ ok ys) × (ids ≡ xs ++ ys)
unfolding append_ids
append_ids-ok (ok xs) (ok ys) h = (xs, ys, refl, refl, cc)
append_ids-ok (ok xs) (err e) h = cc
append_ids-ok (err e) b h = cc

pub item_ids-cons :
    (v : Value) (vs : Items) → item_ids (cons v vs) ≡ append_ids (leaf_node_ids v) (item_ids vs)
unfolding leaf_node_ids
item_ids-cons v vs = refl

pub clause_ids-arr : (vs : Items) → clause_ids (arr vs) ≡ item_ids vs
unfolding leaf_node_ids
clause_ids-arr vs = refl

pub ok-injective :
    {xs ys : List Value} → ◌≡◌ {A = Result Fault (List Value)} (ok xs) (ok ys) → xs ≡ ys
ok-injective h = cc

pub evaluate-null : (r : Reader) → evaluate r null ≡ ok true
unfolding evaluate truthy
evaluate-null r = refl

module _ (fs : Fields) where
  pub ids-not : has "not" fs ≡ true → leaf_node_ids (obj fs) ≡ ids_at fs
  unfolding leaf_node_ids
  ids-not h = ground arith

  pub ids-all :
      has "not" fs ≡ false → has "all" fs ≡ true → leaf_node_ids (obj fs) ≡ clause_ids_at "all" fs
  unfolding leaf_node_ids
  ids-all h k = ground arith

  pub ids-any :
      has "not" fs ≡ false
      → has "all" fs ≡ false
      → has "any" fs ≡ true
      → leaf_node_ids (obj fs) ≡ clause_ids_at "any" fs
  unfolding leaf_node_ids
  ids-any h k l = ground arith

  pub ids-leaf :
      has "not" fs ≡ false
      → has "all" fs ≡ false
      → has "any" fs ≡ false
      → leaf_node_ids (obj fs) ≡ ok (leaf_id fs)
  unfolding leaf_node_ids
  ids-leaf h k l = ground arith

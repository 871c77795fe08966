-- ===== src/Prelude/Filters.antt =====
-- Lemmas on filtered lists and on predicates that hold throughout a list.
use mathlib.Core.Path.{◌≡◌, refl, sym, ap, ◌∙◌, subst}
use mathlib.Core.Logic.{◌⊎◌, inl, inr}
use mathlib.Core.Bool.{Bool, true, false}
use mathlib.Core.List.{List, map, [], ◌∷◌, cons≢nil}
use native.Mathlib.Omega.{arith}
use Prim.Native.Nat.{◌+◌, ◌≤◌}
use semantics_toolchain.Prelude.Tests.{Bool-cases}
use semantics_toolchain.Prelude.Lists.{All, filter, length}

pub filter-hit :
    {A : Type 0} (p : A → Bool) (x : A) (xs : List A)
    → p x ≡ true
    → filter p (x ∷ xs) ≡ x ∷ filter p xs
filter-hit p x xs h = rw (filter, h) refl

pub filter-miss :
    {A : Type 0} (p : A → Bool) (x : A) (xs : List A)
    → p x ≡ false
    → filter p (x ∷ xs) ≡ filter p xs
filter-miss p x xs h = rw (filter, h) refl

pub All-filter :
    {A : Type 0} (P : A → Type 0) (p : A → Bool) (xs : List A) → All P xs → All P (filter p xs)
All-filter P p [] h = tt
All-filter P p (x ∷ xs) h = elim (Bool-cases (p x)) [
  | inl hit ↦ subst (All P) (sym (filter-hit p x xs hit)) (h.0, All-filter P p xs h.1)
  | inr miss ↦ subst (All P) (sym (filter-miss p x xs miss)) (All-filter P p xs h.1)
]

pub filter-All : {A : Type 0} (p : A → Bool) (xs : List A) → All (λ x. p x ≡ true) (filter p xs)
filter-All p [] = tt
filter-All p (x ∷ xs) = elim (Bool-cases (p x)) [
  | inl hit ↦ subst (All (λ y. p y ≡ true)) (sym (filter-hit p x xs hit)) (hit, filter-All p xs)
  | inr miss ↦ subst (All (λ y. p y ≡ true)) (sym (filter-miss p x xs miss)) (filter-All p xs)
]

-- Two filters that never keep the same element.
pub length-disjoint :
    {A : Type 0} (p q : A → Bool) (xs : List A)
    → All (λ x. p x ≡ true → q x ≡ false) xs
    → length (filter p xs) + length (filter q xs) ≤ length xs
length-disjoint p q [] h = omega arith
length-disjoint p q (x ∷ xs) h = ground (arith, length-disjoint p q xs h.1, h.0)

pub All-imp :
    {A : Type 0} {P Q : A → Type 0} (xs : List A) → ((x : A) → P x → Q x) → All P xs → All Q xs
All-imp [] f h = tt
All-imp (x ∷ xs) f h = (f x h.0, All-imp xs f h.1)

pub none-kept :
    {A : Type 0} (p : A → Bool) (xs : List A) → filter p xs ≡ [] → All (λ x. p x ≡ false) xs
none-kept p [] h = tt
none-kept p (x ∷ xs) h = elim (Bool-cases (p x)) [
  | inl hit ↦ absurd (cons≢nil (sym (filter-hit p x xs hit) ∙ h))
  | inr miss ↦ (miss, none-kept p xs (sym (filter-miss p x xs miss) ∙ h))
]

pub All-zip :
    {A : Type 0} {P Q R : A → Type 0} (xs : List A)
    → ((x : A) → P x → Q x → R x)
    → All P xs
    → All Q xs
    → All R xs
All-zip [] f a b = tt
All-zip (x ∷ xs) f a b = (f x a.0 b.0, All-zip xs f a.1 b.1)

pub List-cases :
    {A : Type 0} (xs : List A) → (xs ≡ []) ⊎ ((x : A) × (rest : List A) × (xs ≡ x ∷ rest))
List-cases [] = inl refl
List-cases (x ∷ xs) = inr (x, xs, refl)

-- An element of a list.
abbrev pub In : {A : Type 0} → A → List A → Type 0
In x [] = ⊥
In x (y ∷ ys) = (x ≡ y) ⊎ In x ys

pub In-map : {A B : Type 0} (f : A → B) (x : A) (xs : List A) → In x xs → In (f x) (map f xs)
In-map f x [] m = absurd m
In-map f x (y ∷ ys) (inl e) = inl (ap f e)
In-map f x (y ∷ ys) (inr m) = inr (In-map f x ys m)

pub All-In : {A : Type 0} {P : A → Type 0} (xs : List A) → ((x : A) → In x xs → P x) → All P xs
All-In [] h = tt
All-In (x ∷ xs) h = (h x (inl refl), All-In xs (λ y m. h y (inr m)))

pub All-member_of : {A : Type 0} (P : A → Type 0) (xs : List A) → All P xs → (x : A) → In x xs → P x
All-member_of P [] h x m = absurd m
All-member_of P (y ∷ ys) h x (inl e) = subst P (sym e) h.0
All-member_of P (y ∷ ys) h x (inr m) = All-member_of P ys h.1 x m

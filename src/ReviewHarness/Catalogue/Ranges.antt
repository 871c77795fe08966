-- ===== src/ReviewHarness/Catalogue/Ranges.antt =====
-- Lemmas on sorted lists of round numbers and on the numbers of a range.
use semantics_toolchain.Prelude.{
  subst, ℕ, zero, suc, ◌+◌, ◌≤◌, Bool, true, false, not, ◌&&◌, List, [], ◌∷◌, length, filter,
  filter-hit, filter-miss, ltb, leb, eqb, eqb_iff, and_true, if◌then◌else◌, ◌≡◌, refl, sym, ap, ap₂,
  ◌∙◌, arith, Result, ok, >>=-eq-ok, ok_inj, All, Bool-cases, inl, inr,
}
use semantics_toolchain.Access.{is_member}
use semantics_toolchain.ReviewHarness.Catalogue.Files.{same_numbers}
use semantics_toolchain.ReviewHarness.Catalogue.Numbers.{
  insert, sorted, count_from, is_range, last_round, keep_if,
}

pub same_numbers-eq : (xs ys : List ℕ) → same_numbers xs ys ≡ true → xs ≡ ys
unfolding same_numbers
same_numbers-eq [] [] h = refl
same_numbers-eq [] (y ∷ ys) h = cc
same_numbers-eq (x ∷ xs) [] h = cc
same_numbers-eq (x ∷ xs) (y ∷ ys) h =
    let (same, rest) = and_true (eqb x y) (same_numbers xs ys) h in
    ap₂ (λ a l. a ∷ l) ((eqb_iff x y).0 same) (same_numbers-eq xs ys rest)

pub is_range-sorted : (xs : List ℕ) → is_range xs ≡ true → sorted xs ≡ count_from 1 (length xs)
unfolding is_range
is_range-sorted xs h = same_numbers-eq (sorted xs) (count_from 1 (length xs)) h

is_member-insert : (y x : ℕ) (xs : List ℕ) → is_member y (insert x xs) ≡ is_member y (x ∷ xs)
unfolding insert is_member
is_member-insert y x [] = refl
is_member-insert y x (z ∷ zs) = ground (arith, is_member-insert y x zs)

pub is_member-sorted : (y : ℕ) (xs : List ℕ) → is_member y (sorted xs) ≡ is_member y xs
unfolding sorted is_member
is_member-sorted y [] = refl
is_member-sorted y (x ∷ xs) =
    is_member-insert y x (sorted xs) ∙ ap (λ b. if eqb x y then true else b) (is_member-sorted y xs)

pub is_member-count_from : (y a n : ℕ) → is_member y (count_from a n) ≡ (leb a y && ltb y (a + n))
unfolding count_from is_member
is_member-count_from y a zero = ground arith
is_member-count_from y a (suc n) = ground (arith, is_member-count_from y (suc a) n)

-- What holds of the members holds throughout, and the other way round.
pub All-member : {P : ℕ → Type 0} (xs : List ℕ) → ((y : ℕ) → is_member y xs ≡ true → P y) → All P xs
unfolding is_member
All-member [] h = tt
All-member (x ∷ xs) h = (h x (ground arith), All-member xs (λ y here. h y (ground arith)))

pub member-All : (P : ℕ → Type 0) (xs : List ℕ) → All P xs → (y : ℕ) → is_member y xs ≡ true → P y
unfolding is_member
member-All P [] h y here = absurd cc
member-All P (x ∷ xs) h y here = elim (Bool-cases (eqb x y)) [
  | inl same ↦ subst P ((eqb_iff x y).0 same) h.0
  | inr apart ↦ member-All P xs h.1 y (ground arith)
]

pub is_member-keep_if :
    {E : Type 0} (test : ℕ → Result E Bool) (xs : List ℕ) {kept : List ℕ}
    → keep_if test xs ≡ ok kept
    → (y : ℕ) → is_member y kept ≡ true
    → is_member y xs ≡ true
unfolding keep_if is_member
is_member-keep_if test [] h y here = subst (λ l. is_member y l ≡ true) (sym (ok_inj h)) here
is_member-keep_if test (x ∷ xs) h y here =
    let (b, tested, later) = >>=-eq-ok (test x) _ h in
    let (rest, done, made) = >>=-eq-ok (keep_if test xs) (λ r. ok (if b then x ∷ r else r)) later in
    let in_rest = is_member-keep_if test xs done y in
    let in_made : is_member y (if b then x ∷ rest else rest) ≡ true =
      subst (λ l. is_member y l ≡ true) (sym (ok_inj made)) here in
    ground (arith, in_rest, in_made)

before : (k a : ℕ) → suc a ≤ k → is_member (suc a) (count_from 1 k) ≡ true
before k a h = is_member-count_from (suc a) 1 k ∙ ground arith

beyond : (k a : ℕ) → k ≤ a → is_member (suc a) (count_from 1 k) ≡ false
beyond k a h = is_member-count_from (suc a) 1 k ∙ ground arith

-- The numbers of a range that are beyond k.
pub all_before :
    (k a n : ℕ)
    → a + n ≤ k
    → filter (λ r. not (is_member r (count_from 1 k))) (count_from (suc a) n) ≡ []
unfolding count_from
all_before k a zero h = refl
all_before k a (suc n) h =
    filter-miss (λ r. not (is_member r (count_from 1 k))) (suc a) (count_from (suc (suc a)) n)
      (ap not (before k a (omega arith)))
    ∙ all_before k (suc a) n (omega arith)

pub one_after :
    (k a n : ℕ)
    → a + n ≡ k
    → filter (λ r. not (is_member r (count_from 1 k))) (count_from (suc a) (suc n)) ≡ suc k ∷ []
unfolding count_from
one_after k a zero h =
    filter-hit (λ r. not (is_member r (count_from 1 k))) (suc a) []
      (ap not (beyond k a (omega arith)))
    ∙ ap (λ x. suc x ∷ []) (omega (arith, h))
one_after k a (suc n) h =
    filter-miss (λ r. not (is_member r (count_from 1 k))) (suc a) (count_from (suc (suc a)) (suc n))
      (ap not (before k a (omega arith)))
    ∙ one_after k (suc a) n (omega arith)

last_round-from : (a n : ℕ) → last_round (count_from (suc a) (suc n)) ≡ suc (a + n)
unfolding count_from last_round
last_round-from a zero = ground arith
last_round-from a (suc n) = ground (arith, last_round-from (suc a) n)

pub last_round-count_from : (n : ℕ) → last_round (count_from 1 n) ≡ n
unfolding count_from last_round
last_round-count_from zero = refl
last_round-count_from (suc n) = last_round-from 0 n ∙ omega arith

-- ===== src/ReviewHarness/Catalogue/Numbers.antt =====
-- The lists of round numbers that `restore` sorts and compares with `range`.
use semantics_toolchain.Prelude.{
  ℕ, zero, suc, Bool, Option, none, some, List, [], ◌∷◌, leb, if◌then◌else◌, length, Result, ok,
  ◌>>=◌,
}
use semantics_toolchain.ReviewHarness.Catalogue.Files.{same_numbers}

unfoldable pub insert : ℕ → List ℕ → List ℕ
insert x [] = x ∷ []
insert x (y ∷ ys) = let rest = insert x ys in if leb x y then x ∷ y ∷ ys else y ∷ rest

-- `sorted(xs)`
unfoldable pub sorted : List ℕ → List ℕ
unfolding insert
sorted [] = []
sorted (x ∷ xs) = insert x (sorted xs)

-- `list(range(a, a + n))`
unfoldable pub count_from : ℕ → ℕ → List ℕ
count_from a zero = []
count_from a (suc n) = a ∷ count_from (suc a) n

-- `sorted(xs) == list(range(1, len(xs) + 1))`
unfoldable pub is_range : List ℕ → Bool
unfolding sorted count_from same_numbers
is_range xs = same_numbers (sorted xs) (count_from 1 (length xs))

-- `max(xs, default=0)`
unfoldable pub last_round : List ℕ → ℕ
last_round [] = 0
last_round (x ∷ xs) = let rest = last_round xs in if leb rest x then x else rest

unfoldable pub first : List ℕ → Option ℕ
first [] = none
first (x ∷ xs) = some x

-- `[x for x in xs if test(x)]` for a test that may raise.
unfoldable pub keep_if : {E : Type 0} → (ℕ → Result E Bool) → List ℕ → Result E (List ℕ)
keep_if test [] = ok []
keep_if test (x ∷ xs) = do
  kept ← test x
  rest ← keep_if test xs
  ok (if kept then x ∷ rest else rest)

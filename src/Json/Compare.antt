-- ===== src/Json/Compare.antt =====
-- Python's `==` and `<` on JSON values: numbers and booleans by value, texts and lists in
-- lexicographic order, dicts by content. `<` between other types raises TypeError, here `none`.
use semantics_toolchain.Prelude.{
  ℕ, ◌^◌, ℤ, pos, scale, ltb_ℤ, eqb_ℤ, Bool, true, false, Option, none, some, ◌&&◌, ◌==◌, eqb,
  if◌then◌else◌, str_ltb, ◌≡◌, refl,
}
use semantics_toolchain.Json.Data.{
  Value, Items, Fields, null, bool, int, float, str, arr, obj, nil, cons, end, field, get,
  count_fields,
}

-- A number as m / 2^k.
number : Value → Option (ℤ × ℕ)
number (bool true) = some (pos 1, 0)
number (bool false) = some (pos 0, 0)
number (int z) = some (z, 0)
number (float m k) = some (m, k)
number _ = none

-- m / 2^k < n / 2^l, and equality.
number_ltb : ℤ × ℕ → ℤ × ℕ → Bool
number_ltb (m, k) (n, l) = ltb_ℤ (scale m (2 ^ l)) (scale n (2 ^ k))

number_eqb : ℤ × ℕ → ℤ × ℕ → Bool
number_eqb (m, k) (n, l) = eqb_ℤ (scale m (2 ^ l)) (scale n (2 ^ k))

both_numbers : Option (ℤ × ℕ) → Option (ℤ × ℕ) → Option ((ℤ × ℕ) × (ℤ × ℕ))
both_numbers (some a) (some b) = some (a, b)
both_numbers _ _ = none

scalar_eq : Value → Value → Bool
unfolding number number_eqb both_numbers
scalar_eq null null = true
scalar_eq (str s) (str t) = s == t
scalar_eq a b = elim (both_numbers (number a) (number b)) [
  | none ↦ false
  | some (x, y) ↦ number_eqb x y
]

-- `a == b`
unfoldable mutual
  unfolding scalar_eq get count_fields

  pub value_eq : Value → Value → Bool
  value_eq (arr xs) (arr ys) = items_eq xs ys
  value_eq (obj fs) (obj gs) = eqb (count_fields fs) (count_fields gs) && fields_in fs gs
  value_eq a b = scalar_eq a b

  pub items_eq : Items → Items → Bool
  items_eq nil nil = true
  items_eq (cons x xs) (cons y ys) = value_eq x y && items_eq xs ys
  items_eq _ _ = false

  pub fields_in : Fields → Fields → Bool
  fields_in end gs = true
  fields_in (field k v fs) gs = elim (get k gs) [
    | none ↦ false
    | some w ↦ value_eq v w && fields_in fs gs
  ]

numbers_lt : Option ((ℤ × ℕ) × (ℤ × ℕ)) → Option Bool
unfolding number_ltb
numbers_lt none = none
numbers_lt (some (x, y)) = some (number_ltb x y)

-- `a < b`; lists compare at the first place where they differ.
unfoldable mutual
  unfolding number both_numbers numbers_lt value_eq

  pub value_lt : Value → Value → Option Bool
  value_lt (str s) (str t) = some (str_ltb s t)
  value_lt (arr xs) (arr ys) = items_lt xs ys
  value_lt a b = numbers_lt (both_numbers (number a) (number b))

  pub items_lt : Items → Items → Option Bool
  items_lt nil nil = some false
  items_lt nil (cons y ys) = some true
  items_lt (cons x xs) nil = some false
  items_lt (cons x xs) (cons y ys) = elim (value_eq x y) [
    | true ↦ items_lt xs ys
    | false ↦ value_lt x y
  ]

-- `a <= b`: at the first place where lists differ, their elements by `<=`; equal lists are `<=`.
numbers_le : Option ((ℤ × ℕ) × (ℤ × ℕ)) → Option Bool
unfolding number_ltb
numbers_le none = none
numbers_le (some (x, y)) = some (if number_ltb y x then false else true)

unfoldable mutual
  unfolding number both_numbers numbers_le value_eq

  pub value_le : Value → Value → Option Bool
  value_le (str s) (str t) = some (if str_ltb t s then false else true)
  value_le (arr xs) (arr ys) = items_le xs ys
  value_le a b = numbers_le (both_numbers (number a) (number b))

  pub items_le : Items → Items → Option Bool
  items_le nil ys = some true
  items_le (cons x xs) nil = some false
  items_le (cons x xs) (cons y ys) = elim (value_eq x y) [
    | true ↦ items_le xs ys
    | false ↦ value_le x y
  ]

mixed_numbers :
    (value_eq (bool true) (float (pos 2) 1) ≡ true)
    × (value_lt (int (pos 1)) (float (pos 3) 1) ≡ some true)
    × (value_lt (int (pos 1)) (str "2") ≡ none)
unfolding value_eq value_lt
mixed_numbers = (refl, refl, refl)

-- ===== src/Json/Convert.antt =====
-- Conversions of the standard library that the code applies to JSON values: `uuid.UUID(str(v))`
-- and `int(v)`. Digits and white space are the ASCII ones.
use semantics_toolchain.Prelude.{
  ℕ, zero, suc, ◌+◌, ◌/◌, ◌%◌, ◌^◌, ℤ, pos, negsuc, negate, truncate, codes, strip, is_space,
  remove_all, read_digits, true, false, Option, none, some, List, [], ◌∷◌, ◌++◌, ◌||◌, eqb, ltb,
  if◌then◌else◌, length, ◌≡◌, refl,
}
use semantics_toolchain.Json.Data.{Value, null, bool, int, float, str}

drop_sign : List ℕ → List ℕ
drop_sign [] = []
drop_sign (c ∷ t) = if eqb c b'+' then t else c ∷ t

-- `0x`, and the underscore that may follow it.
drop_hex_prefix : List ℕ → List ℕ
drop_hex_prefix (z ∷ x ∷ u ∷ t) =
    if eqb z b'0'
    then (if eqb x b'x' || eqb x b'X' then (if eqb u b'_' then t else u ∷ t) else z ∷ x ∷ u ∷ t)
    else z ∷ x ∷ u ∷ t
drop_hex_prefix t = t

-- `int(hex, 16)` where no `-` is left in the text.
read_hex : List ℕ → Option ℕ
unfolding drop_sign drop_hex_prefix strip is_space read_digits
read_hex t = read_digits 16 (drop_hex_prefix (drop_sign (strip is_space t)))

uuid_of_codes : List ℕ → Option ℕ
unfolding remove_all strip read_hex
uuid_of_codes t =
    let bare = remove_all (codes "uuid:") (remove_all (codes "urn:") t) in
    let hex = remove_all (codes "-") (strip (λ c. eqb c b'{' || eqb c b'}') bare) in
    if eqb (length hex) 32 then read_hex hex else none

-- Decimal digits, least significant first; the fuel is the number of digits wanted at most.
decimal_rev : ℕ → ℕ → List ℕ
decimal_rev zero n = []
decimal_rev (suc fuel) n =
    let rest = decimal_rev fuel (n / 10) in
    if ltb n 10 then (b'0' + n) ∷ [] else (b'0' + n % 10) ∷ rest

-- The digits of a number below 10^32; a longer one is no UUID, whatever its digits.
uuid_of_number : ℕ → Option ℕ
unfolding decimal_rev uuid_of_codes
uuid_of_number n = if ltb n (10 ^ 32) then uuid_of_codes (rev (decimal_rev 32 n)) else none
  where
    rev : List ℕ → List ℕ
    rev [] = []
    rev (c ∷ t) = rev t ++ c ∷ []

-- `uuid.UUID(str(v))`, with `none` for ValueError. The sign of an integer is removed with the
-- dashes. The texts of other values never hold 32 hexadecimal digits.
unfoldable pub uuid_of : Value → Option ℕ
unfolding uuid_of_codes uuid_of_number
uuid_of (str s) = uuid_of_codes (codes s)
uuid_of (int (pos n)) = uuid_of_number n
uuid_of (int (negsuc n)) = uuid_of_number (suc n)
uuid_of _ = none

signed : List ℕ → Option ℤ
unfolding read_digits
signed [] = none
signed (c ∷ t) =
    if eqb c b'-'
    then elim (read_digits 10 t) [ none ↦ none | some n ↦ some (negate n) ]
    else if eqb c b'+'
    then elim (read_digits 10 t) [ none ↦ none | some n ↦ some (pos n) ]
    else elim (read_digits 10 (c ∷ t)) [ none ↦ none | some n ↦ some (pos n) ]

-- How `int(v)` ends: a number, ValueError, or TypeError.
pub data Integer : Type 0 where
  number : ℤ → Integer
  value_error type_error : Integer

unfoldable pub int_of : Value → Integer
unfolding signed strip is_space truncate
int_of (int z) = number z
int_of (bool true) = number (pos 1)
int_of (bool false) = number (pos 0)
int_of (float m k) = number (truncate m k)
int_of (str s) = elim (signed (strip is_space (codes s))) [ none ↦ value_error | some z ↦ number z ]
int_of _ = type_error

uuid_forms :
    (uuid_of (str "00000000-0000-0000-0000-00000000000f") ≡ some 15)
    × (uuid_of (str "urn:uuid:{0000000000000000000000000000000A}") ≡ some 10)
    × (uuid_of (str "000000000000000000000000000000g0") ≡ none)
    × (uuid_of (int (negsuc 9999999999999999999999999999999)) ≡ some (16 ^ 31))
    × (uuid_of null ≡ none)
unfolding uuid_of
uuid_forms = (refl, refl, refl, refl, refl)

int_forms :
    (int_of (str " 1_000 ") ≡ number (pos 1000))
    × (int_of (str "-7") ≡ number (negsuc 6))
    × (int_of (float (negsuc 2) 1) ≡ number (negsuc 0))
    × (int_of (str "1.5") ≡ value_error)
    × (int_of null ≡ type_error)
unfolding int_of
int_forms = (refl, refl, refl, refl, refl)

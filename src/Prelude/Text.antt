-- ===== src/Prelude/Text.antt =====
-- Python's text operations that the code uses, over code points.
use Prim.Native.Nat.{ℕ, zero, suc, ◌+◌, ◌-◌, ◌*◌, ◌≤◌, ◌<◌}
use Prim.Native.Nat
use Prim.Native.Char.{Char, code}
use Prim.Native.String.{String}
use Prim.Native.String
use mathlib.Core.Bool.{Bool, true, false, ◌&&◌, ◌||◌}
use mathlib.Core.List.{List, [], ◌∷◌, reverse}
use mathlib.Core.Option.{Option, none, some}
use semantics_toolchain.Prelude.Tests.{ltb, leb, eqb, if◌then◌else◌}
use semantics_toolchain.Prelude.Lists.{length}

-- The code points of a text.
abbrev pub codes : String → List ℕ
codes String.[] = []
codes (String.◌∷◌ c s) = code c ∷ codes s

-- `s < t`, by code points.
abbrev pub str_ltb : String → String → Bool
str_ltb s t = elim (String.compare s t) [ Nat.Ordering.lt ↦ true | _ ↦ false ]

-- `s <= t`, by code points.
abbrev pub str_leb : String → String → Bool
str_leb s t = elim (String.compare s t) [ Nat.Ordering.gt ↦ false | _ ↦ true ]

add_to_first : Char → List String → List String
add_to_first c [] = (String.◌∷◌ c String.[]) ∷ []
add_to_first c (w ∷ ws) = (String.◌∷◌ c w) ∷ ws

-- `s.split(sep)` for a separator of one character, given by its code point.
unfoldable pub split_at : ℕ → String → List String
unfolding add_to_first
split_at sep String.[] = "" ∷ []
split_at sep (String.◌∷◌ c s) =
    let rest = split_at sep s in if eqb (code c) sep then "" ∷ rest else add_to_first c rest

-- `text.startswith(prefix)` on code points.
unfoldable pub is_prefix : List ℕ → List ℕ → Bool
is_prefix [] t = true
is_prefix (c ∷ p) [] = false
is_prefix (c ∷ p) (d ∷ t) = eqb c d && is_prefix p t

-- `s == t` on code points.
unfoldable pub same_codes : List ℕ → List ℕ → Bool
same_codes [] [] = true
same_codes (c ∷ s) (d ∷ t) = eqb c d && same_codes s t
same_codes _ _ = false

-- `pattern in text` on code points.
unfoldable pub is_infix : List ℕ → List ℕ → Bool
unfolding is_prefix
is_infix p [] = is_prefix p []
is_infix p (c ∷ t) = is_prefix p (c ∷ t) || is_infix p t

-- The characters that `str.split()` takes for white space.
unfoldable pub is_white : ℕ → Bool
is_white c =
    (leb 9 c && leb c 13)
    || (leb 28 c && leb c 32)
    || (eqb c 133 || eqb c 160 || eqb c 5760)
    || (leb 8192 c && leb c 8202)
    || (eqb c 8232 || eqb c 8233 || eqb c 8239 || eqb c 8287 || eqb c 12288)

remove_from : List ℕ → ℕ → List ℕ → List ℕ
remove_from pat skip [] = []
remove_from pat (suc skip) (c ∷ t) = remove_from pat skip t
remove_from pat zero (c ∷ t) = elim (is_prefix pat (c ∷ t)) [
  | true ↦ remove_from pat (length pat - 1) t
  | false ↦ c ∷ remove_from pat 0 t
]

-- `text.replace(pat, "")` for a pattern that is not empty.
unfoldable pub remove_all : List ℕ → List ℕ → List ℕ
unfolding remove_from is_prefix
remove_all pat t = remove_from pat 0 t

unfoldable pub drop_while : (ℕ → Bool) → List ℕ → List ℕ
drop_while p [] = []
drop_while p (c ∷ t) = elim (p c) [ true ↦ drop_while p t | false ↦ c ∷ t ]

-- `text.strip(chars)`, the set of characters given by its test.
unfoldable pub strip : (ℕ → Bool) → List ℕ → List ℕ
unfolding drop_while
strip p t = reverse (drop_while p (reverse (drop_while p t)))

-- The ASCII characters that `str.strip()` and `int()` take for white space.
unfoldable pub is_space : ℕ → Bool
is_space c = (leb 9 c && leb c 13) || (leb 28 c && leb c 32)

-- The value of a character as a digit, at most 35.
unfoldable pub digit_value : ℕ → Option ℕ
digit_value c =
    if leb b'0' c && leb c b'9'
    then some (c - b'0')
    else if leb b'a' c && leb c b'z'
    then some (c - b'a' + 10)
    else if leb b'A' c && leb c b'Z'
    then some (c - b'A' + 10)
    else none

digit_in_base : ℕ → ℕ → Option ℕ
unfolding digit_value
digit_in_base base c = elim (digit_value c) [
  | none ↦ none
  | some d ↦ if ltb d base then some d else none
]

-- Digits with single underscores between them; the flag says that the last one was a digit.
digits_from : ℕ → ℕ → Bool → List ℕ → Option ℕ
unfolding digit_in_base
digits_from base acc after_digit [] = if after_digit then some acc else none
digits_from base acc after_digit (c ∷ t) = elim (eqb c b'_') [
  | true ↦ elim after_digit [ true ↦ digits_from base acc false t | false ↦ none ]
  | false ↦ elim (digit_in_base base c) [
    | none ↦ none
    | some d ↦ digits_from base (acc * base + d) true t
  ]
]

unfoldable pub read_digits : ℕ → List ℕ → Option ℕ
unfolding digits_from
read_digits base t = digits_from base 0 false t

-- ===== src/ReviewHarness/Guard/Output.antt =====
-- `parse_codex_output` and `assert_attested_read_only`. A line is a list of code points.
use semantics_toolchain.Prelude.{
  ℕ, zero, suc, String, Bool, Option, none, some, List, [], ◌∷◌, ◌++◌, eqb, leb, ltb, if◌then◌else◌,
  ◌&&◌, ◌||◌, all, is_empty, length, codes, is_prefix, same_codes, is_white, strip, drop_while,
  Result, ok, err,
}
use semantics_toolchain.ReviewHarness.Guard.Argv.{lower}

-- The boundaries of `str.splitlines()`; a carriage return takes a line feed with it.
unfoldable pub is_break : ℕ → Bool
is_break c =
    (leb 10 c && leb c 13) || (leb 28 c && leb c 30) || (eqb c 133 || eqb c 8232 || eqb c 8233)

-- `line` is what was read of the current line.
unfoldable pub split_lines : List ℕ → List ℕ → List (List ℕ)
unfolding is_break
split_lines line [] = if is_empty line then [] else line ∷ []
split_lines line (c ∷ []) = if is_break c then line ∷ [] else (line ++ c ∷ []) ∷ []
split_lines line (c ∷ d ∷ t) =
    if eqb c 13 && eqb d 10
    then line ∷ split_lines [] t
    else if is_break c
    then line ∷ split_lines [] (d ∷ t)
    else split_lines (line ++ c ∷ []) (d ∷ t)

unfoldable pub is_separator : List ℕ → Bool
unfolding strip is_white
is_separator line =
    let bare = strip is_white line in leb 4 (length bare) && all (λ c. eqb c b'-') bare

-- The positions of separator lines, counted from `i`.
unfoldable pub separators : ℕ → List (List ℕ) → List ℕ
unfolding is_separator
separators i [] = []
separators i (l ∷ ls) =
    let rest = separators (suc i) ls in if is_separator l then i ∷ rest else rest

unfoldable pub first_lines : ℕ → List (List ℕ) → List (List ℕ)
first_lines zero ls = []
first_lines (suc n) [] = []
first_lines (suc n) (l ∷ ls) = l ∷ first_lines n ls

unfoldable pub after_lines : ℕ → List (List ℕ) → List (List ℕ)
after_lines zero ls = ls
after_lines (suc n) [] = []
after_lines (suc n) (l ∷ ls) = after_lines n ls

-- `min(len(lines), 15)` where there are not two separators.
unfoldable pub header_end : List (List ℕ) → ℕ
unfolding separators first_lines
header_end ls = elim (separators 0 (first_lines 80 ls)) [
  | first ∷ second ∷ more ↦ suc second
  | _ ↦ if ltb (length ls) 15 then length ls else 15
]

unfoldable pub header : List (List ℕ) → List (List ℕ)
unfolding header_end first_lines
header ls = first_lines (header_end ls) ls

-- The longest run of characters that are not white space, and what follows it.
unfoldable pub first_word : List ℕ → List ℕ × List ℕ
unfolding is_white
first_word [] = ([], [])
first_word (c ∷ t) =
    let (w, rest) = first_word t in if is_white c then ([], c ∷ t) else (c ∷ w, rest)

unfoldable pub sandbox_value : List ℕ → Option (List ℕ)
unfolding first_word drop_while is_white
sandbox_value t =
    let (w, rest) = first_word (drop_while is_white t) in
    if is_empty w then none else if all is_white rest then some w else none

-- `_SANDBOX_LINE_RE.match(line)`
unfoldable pub sandbox_of : List ℕ → Option (List ℕ)
unfolding sandbox_value is_prefix drop_while is_white
sandbox_of line =
    let bare = drop_while is_white line in
    if is_prefix (codes "sandbox:") bare then sandbox_value (drop 8 bare) else none
  where
    drop : ℕ → List ℕ → List ℕ
    drop zero t = t
    drop (suc n) [] = []
    drop (suc n) (c ∷ t) = drop n t

-- The last line of the header that names a sandbox decides.
unfoldable pub last_sandbox : List (List ℕ) → Option (List ℕ)
unfolding sandbox_of
last_sandbox [] = none
last_sandbox (l ∷ ls) = elim (last_sandbox ls) [ some w ↦ some w | none ↦ sandbox_of l ]

-- `"\n".join(lines)`
unfoldable pub join_lines : List (List ℕ) → List ℕ
join_lines [] = []
join_lines (l ∷ []) = l
join_lines (l ∷ m ∷ ls) = l ++ 10 ∷ join_lines (m ∷ ls)

unfoldable pub answer_of : List (List ℕ) → List ℕ
unfolding strip is_white same_codes join_lines
answer_of [] = []
answer_of (l ∷ ls) =
    let rest = answer_of ls in
    if same_codes (strip is_white l) (codes "codex") then join_lines ls else rest

unfoldable pub parse_lines : List (List ℕ) → Option (List ℕ) × List ℕ
unfolding header last_sandbox answer_of after_lines header_end
parse_lines ls = (last_sandbox (header ls), answer_of (after_lines (header_end ls) ls))

unfoldable pub parse_codex_output : String → Option (List ℕ) × List ℕ
unfolding split_lines parse_lines
parse_codex_output text = parse_lines (split_lines [] (codes text))

pub data AttestationError : Type 0 where
  silent other_sandbox : AttestationError

unfoldable pub assert_attested_read_only : String → Result AttestationError Unit
unfolding parse_codex_output lower same_codes
assert_attested_read_only text = elim (parse_codex_output text).0 [
  | none ↦ err silent
  | some w ↦ if same_codes (lower w) (codes "read-only") then ok tt else err other_sandbox
]

-- ===== src/ReviewHarness/Catalogue/Files.antt =====
-- The directory of a run: its file names, as the four regular expressions and the f-strings of
-- runcat.py read and make them, and how a file is read and written. A file without a text is one that
-- cannot be read: a disk error or a broken encoding. A name with digits that are not ASCII, or with a
-- newline at its end, is left aside.
use semantics_toolchain.Prelude.{
  ℕ, zero, suc, ◌+◌, ◌*◌, ◌/◌, ◌%◌, String, Bool, true, false, not, ◌&&◌, Option, none, some, List,
  [], ◌∷◌, ◌++◌, ltb, eqb, if◌then◌else◌, all, length, codes, is_white, ◌==◌, Result, ok, err,
}

pub data Part : Type 0 where
  pass pass_meta outcomes gate_requests gate_answers : Part

-- A round's file carries the digits of its number; `other` is the file of something else.
pub data Name : Type 0 where
  description launch_note meta gates : Name
  round : Part → List ℕ → Name
  other : String → Name

-- One constructor for each `raise`, and the AttributeError that `meta.get` raises on a value that is
-- not an object.
pub data HarnessError : Type 0 where
  git_unavailable check_not_run tracked_by_git not_written cannot_read : HarnessError
  not_empty no_model no_description unevidenced : HarnessError
  empty_pass pass_exists empty_outcomes outcomes_before_pass : HarnessError
  no_meta corrupt_meta not_object : HarnessError
  wrong_completed incomplete_meta no_round_meta corrupt_round_meta : HarnessError
  no_description_file no_launch_note_file : HarnessError
  blank_outcomes orphan_outcomes holes not_prefix blank_pass : HarnessError
  outcomes_lost completed_not_prefix several_incomplete : HarnessError
  corrupt_gates malformed_gates stale_gates alien_gates corrupt_answers : HarnessError

abbrev pub Directory : Type 0
Directory = List (Name × Option String)

unfoldable pub same_part : Part → Part → Bool
same_part pass pass = true
same_part pass_meta pass_meta = true
same_part outcomes outcomes = true
same_part gate_requests gate_requests = true
same_part gate_answers gate_answers = true
same_part _ _ = false

unfoldable pub same_numbers : List ℕ → List ℕ → Bool
same_numbers [] [] = true
same_numbers (c ∷ s) (d ∷ t) = eqb c d && same_numbers s t
same_numbers _ _ = false

unfoldable pub same_name : Name → Name → Bool
unfolding same_part same_numbers
same_name description description = true
same_name launch_note launch_note = true
same_name meta meta = true
same_name gates gates = true
same_name (round p s) (round q t) = same_part p q && same_numbers s t
same_name (other s) (other t) = s == t
same_name _ _ = false

-- `int(m.group(1))`
unfoldable pub number_from : ℕ → List ℕ → ℕ
number_from n [] = n
number_from n (d ∷ ds) = number_from (n * 10 + d) ds

-- The decimal digits of a number below 10 ^ fuel.
unfoldable pub digits_of : ℕ → ℕ → List ℕ
digits_of zero n = []
digits_of (suc fuel) n =
    let high = digits_of fuel (n / 10) in if ltb n 10 then n ∷ [] else high ++ n % 10 ∷ []

-- `f"{round_no:02d}"`
unfoldable pub two_digits : ℕ → List ℕ
unfolding digits_of
two_digits n = if ltb n 10 then 0 ∷ n ∷ [] else digits_of n n

-- `self.run_dir / f"round_{round_no:02d}_pass.md"` and the other names of a round's files.
unfoldable pub round_file : Part → ℕ → Name
unfolding two_digits
round_file p n = round p (two_digits n)

-- `regex.match(child.name)`, with the number of the round.
unfoldable pub match_round : Part → Name → Option ℕ
unfolding same_part number_from
match_round p (round q digits) =
    if same_part p q && not (ltb (length digits) 2) then some (number_from 0 digits) else none
match_round p _ = none

-- `path.exists()`
unfoldable pub exists : Name → Directory → Bool
unfolding same_name
exists name [] = false
exists name ((n, text) ∷ files) = if same_name n name then true else exists name files

-- `read_text_contract`
unfoldable pub read_text : Name → Directory → Result HarnessError String
unfolding same_name
read_text name [] = err cannot_read
read_text name ((n, text) ∷ files) = elim (same_name n name) [
  | true ↦ elim text [ none ↦ err cannot_read | some s ↦ ok s ]
  | false ↦ read_text name files
]

-- `not text.strip()`
abbrev pub is_blank : String → Bool
is_blank s = all is_white (codes s)

-- ===== src/ReviewHarness/Gates/Asking.antt =====
-- `Gate.ask_yes_no_verbatim`, `Gate.ask_yes_no` and `Gate.confirm_unconditional`. The operator is the
-- list of the answers that he gives one after another; a run that asks for one more is `none`.
-- Python's `repr` is a parameter.
use Prim.Native.String.{◌++◌ as str_append}
use semantics_toolchain.Prelude.{String, Bool, Option, none, some, List, [], ◌∷◌}
use semantics_toolchain.ReviewHarness.Gates.Words.{read_yes_no}

-- A record of the gate journal.
pub record Entry : Type 0 where
  pub question : String
  pub answer : String
  pub kind : String

abbrev pub clarification : String
clarification = "a clarification of the record"

unfoldable pub with_entry : {A : Type 0} → Entry → Option (A × List Entry) → Option (A × List Entry)
with_entry e none = none
with_entry e (some (v, journal)) = some (v, e ∷ journal)

module _ (repr : String → String) where
  unfoldable pub reask_text : String → String
  reask_text answer = str_append "I did not recognise the answer " (
      str_append (repr answer) (
        str_append " as a plain yes or no; the action " (
          str_append "was neither performed nor cancelled. Answer with the word alone, yes or no, "
            "or say what has to change first.")))

  -- The verdict, the answer it was read from, and the question that was asked with it; the last
  -- exchange is not in the journal.
  unfoldable pub ask_yes_no_verbatim :
      String → String → List String → Option ((Bool × String × String) × List Entry)
  unfolding with_entry reask_text
  ask_yes_no_verbatim prompt kind [] = none
  ask_yes_no_verbatim prompt kind (a ∷ answers) =
      let again = ask_yes_no_verbatim (reask_text a) kind answers in
      elim (read_yes_no a) [
        | some v ↦ some ((v, a, prompt), [])
        | none ↦ with_entry (record { question = prompt; answer = a; kind = kind }) again
      ]

  unfoldable pub ask_yes_no : String → String → List String → Option (Bool × List Entry)
  unfolding with_entry reask_text
  ask_yes_no prompt kind [] = none
  ask_yes_no prompt kind (a ∷ answers) =
      let again = ask_yes_no (reask_text a) clarification answers in
      elim (read_yes_no a) [
        | some v ↦ some (v, record { question = prompt; answer = a; kind = kind } ∷ [])
        | none ↦ with_entry (record { question = prompt; answer = a; kind = kind }) again
      ]

  unfoldable pub confirm_unconditional : String → List String → Option (Bool × List Entry)
  unfolding ask_yes_no
  confirm_unconditional action answers =
      ask_yes_no (str_append action " — are you sure? (yes/no; a \"no\" simply cancels the action)")
        "a confirmation" answers

-- ===== src/ReviewHarness/Gates/Examples.antt =====
-- Answers of an operator, and the theorems about them.
use semantics_toolchain.Prelude.{
  String, true, false, some, none, [], ◌∷◌, ◌≡◌, ◌≢◌, refl, any, is_prefix, same_codes, is_infix,
  is_white,
}
use semantics_toolchain.ReviewHarness.Gates.{
  words_of, split_words, is_separator, is_punctuation, lower_letter, one_of, is_ne, collapse,
  has_stem, is_negative, is_consent, is_plain, verdict, has_question, read_yes_no, with_entry,
  ask_yes_no, ask_yes_no_verbatim, confirm_unconditional, clarification,
}
use semantics_toolchain.ReviewHarness.Gates.Reading.{is_refusal, is_foreign, read_yes_no-words}
use semantics_toolchain.ReviewHarness.Gates.Answers.{exchanges, prompt_after, ask_yes_no-answers}

program : Unit {0}
unfolding words_of split_words is_separator is_punctuation lower_letter one_of is_ne collapse
    has_stem is_negative is_consent is_plain verdict has_question read_yes_no is_prefix same_codes
    is_infix is_white with_entry ask_yes_no ask_yes_no_verbatim confirm_unconditional
program = tt

readings :
    (read_yes_no "Да, немедленно финализируй!" ≡ some true)
    × (read_yes_no "не возражаю" ≡ some true)
    × (read_yes_no "точно нет" ≡ some false)
    × (read_yes_no "несогласен" ≡ some false)
    × (read_yes_no "yes, but only after I review" ≡ none)
    × (read_yes_no "Согласен?" ≡ none)
    × (read_yes_no " .. " ≡ none)
unfolding program
readings = (refl, refl, refl, refl, refl, refl, refl)

read_yes_no-words_example :
    (has_question "yes, but later" ≡ true → read_yes_no "yes, but later" ≡ none)
    × (has_question "yes, but later" ≡ false
        → any is_refusal (words_of "yes, but later") ≡ true
        → read_yes_no "yes, but later" ≡ some false)
    × (any is_foreign (words_of "yes, but later") ≡ true → read_yes_no "yes, but later" ≢ some true)
read_yes_no-words_example = read_yes_no-words "yes, but later"

foreign_word : any is_foreign (words_of "yes, but later") ≡ true
unfolding program
foreign_word = refl

abbrev quoted : String → String
quoted s = s

unread : (read_yes_no "hm" ≡ none) × Unit {0}
unfolding program
unread = (refl, tt)

agreed : read_yes_no "yes" ≡ some true
unfolding program
agreed = refl

ask_yes_no-answers_example :
    (ask_yes_no_verbatim quoted "Finish?" "exit" ("hm" ∷ "yes" ∷ "no" ∷ [])
      ≡ some (
        (true, "yes", prompt_after quoted "Finish?" ("hm" ∷ [])),
        exchanges quoted "Finish?" "exit" "exit" ("hm" ∷ []),
      ))
    × (ask_yes_no quoted "Finish?" "exit" ("hm" ∷ "yes" ∷ "no" ∷ [])
        ≡ some (true, exchanges quoted "Finish?" "exit" clarification ("hm" ∷ "yes" ∷ [])))
ask_yes_no-answers_example =
    ask_yes_no-answers quoted "Finish?" "exit" ("hm" ∷ []) "yes" true ("no" ∷ []) unread agreed

-- ===== src/ReviewHarness/Gates/Answers.antt =====
-- Lemmas on the asking loops of gates.py.
use semantics_toolchain.Prelude.{
  String, Bool, none, some, List, [], ◌∷◌, ◌++◌, ◌≡◌, refl, ap, ◌∙◌, All,
}
use semantics_toolchain.ReviewHarness.Gates.Words.{read_yes_no}
use semantics_toolchain.ReviewHarness.Gates.Asking.{
  Entry, with_entry, reask_text, ask_yes_no, ask_yes_no_verbatim, clarification,
}

module _ (repr : String → String) where
  -- The journal of answers that were not read: each with the question that it answered.
  abbrev pub exchanges : String → String → String → List String → List Entry
  exchanges prompt kind next_kind [] = []
  exchanges prompt kind next_kind (a ∷ answers) =
      record { question = prompt; answer = a; kind = kind }
      ∷ exchanges (reask_text repr a) next_kind next_kind answers

  -- The question after these answers.
  abbrev pub prompt_after : String → List String → String
  prompt_after prompt [] = prompt
  prompt_after prompt (a ∷ answers) = prompt_after (reask_text repr a) answers

  abbrev pub AllUnread : List String → Type 0
  AllUnread = All (λ a. read_yes_no a ≡ none)

  module _ (prompt kind a : String) where
    verbatim-read :
        (v : Bool) (rest : List String)
        → read_yes_no a ≡ some v
        → ask_yes_no_verbatim repr prompt kind (a ∷ rest) ≡ some ((v, a, prompt), [])
    unfolding ask_yes_no_verbatim
    verbatim-read v rest e = rw (e, ask_yes_no_verbatim) refl

    verbatim-unread :
        (answers : List String)
        → read_yes_no a ≡ none
        → ask_yes_no_verbatim repr prompt kind (a ∷ answers)
          ≡ with_entry
              (record { question = prompt; answer = a; kind = kind })
              (ask_yes_no_verbatim repr (reask_text repr a) kind answers)
    unfolding ask_yes_no_verbatim
    verbatim-unread answers e = rw (e, ask_yes_no_verbatim) refl

    asked-read :
        (v : Bool) (rest : List String)
        → read_yes_no a ≡ some v
        → ask_yes_no repr prompt kind (a ∷ rest)
          ≡ some (v, record { question = prompt; answer = a; kind = kind } ∷ [])
    unfolding ask_yes_no
    asked-read v rest e = rw (e, ask_yes_no) refl

    asked-unread :
        (answers : List String)
        → read_yes_no a ≡ none
        → ask_yes_no repr prompt kind (a ∷ answers)
          ≡ with_entry
              (record { question = prompt; answer = a; kind = kind })
              (ask_yes_no repr (reask_text repr a) clarification answers)
    unfolding ask_yes_no
    asked-unread answers e = rw (e, ask_yes_no) refl

  -- Whatever the operator says before it, the first answer that can be read decides the question, in
  -- both of its forms; the journal has each answer before it with the question that it answered, and
  -- one form also the last, while the other returns it with its question.
  pub ask_yes_no-answers :
      (prompt kind : String) (before : List String) (a : String) (v : Bool) (rest : List String)
      → AllUnread before
      → read_yes_no a ≡ some v
      → (ask_yes_no_verbatim repr prompt kind (before ++ a ∷ rest)
          ≡ some ((v, a, prompt_after prompt before), exchanges prompt kind kind before))
        × (ask_yes_no repr prompt kind (before ++ a ∷ rest)
            ≡ some (v, exchanges prompt kind clarification (before ++ a ∷ [])))
  unfolding with_entry
  ask_yes_no-answers prompt kind [] a v rest unread e =
      (verbatim-read prompt kind a v rest e, asked-read prompt kind a v rest e)
  ask_yes_no-answers prompt kind (b ∷ before) a v rest unread e =
      let again = ask_yes_no-answers (reask_text repr b) kind before a v rest unread.1 e in
      let other = ask_yes_no-answers (reask_text repr b) clarification before a v rest unread.1 e in
      (
        verbatim-unread prompt kind b (before ++ a ∷ rest) unread.0
            ∙ ap (with_entry (record { question = prompt; answer = b; kind = kind })) again.0,
        asked-unread prompt kind b (before ++ a ∷ rest) unread.0
            ∙ ap (with_entry (record { question = prompt; answer = b; kind = kind })) other.1,
      )

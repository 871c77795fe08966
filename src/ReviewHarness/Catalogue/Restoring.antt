-- ===== src/ReviewHarness/Catalogue/Restoring.antt =====
-- `RunState` and `restore`. The directory itself can be listed. Children: the numbers of rounds, and
-- the proofs.
use semantics_toolchain.Prelude.{
  ℕ, ◌+◌, String, Bool, true, false, not, ◌&&◌, Option, none, some, List, [], ◌∷◌, ◌++◌, all, any,
  contains, filter, length, is_empty, ltb, if◌then◌else◌, Result, ok, err, ◌>>=◌, ◌>>◌, require,
}
use semantics_toolchain.Json.{Value, Fields, str, arr, obj, get, is_str, to_list}
use semantics_toolchain.Access.{is_member}
use semantics_toolchain.ReviewHarness.Catalogue.Files.{
  Directory, Name, Part, HarnessError, pass, outcomes, gate_requests, gate_answers, description,
  launch_note, no_description_file, no_launch_note_file, blank_outcomes, orphan_outcomes, holes,
  not_prefix, blank_pass, outcomes_lost, completed_not_prefix, several_incomplete, corrupt_gates,
  malformed_gates, stale_gates, alien_gates, corrupt_answers, round_file, match_round, exists,
  read_text, is_blank,
}
use semantics_toolchain.ReviewHarness.Catalogue.Meta.{
  load_meta, read_round_meta, round_completed, artifacts_of, flag,
}
use semantics_toolchain.ReviewHarness.Catalogue.Numbers.{
  sorted, is_range, last_round, first, keep_if,
}

pub record RunState : Type 0 where
  pub artifact_paths : List String
  pub critic_model : String
  pub rounds_with_pass : List ℕ
  pub rounds_with_outcomes : List ℕ
  pub entry_gate_confirmed : Bool
  pub pending_gate_rounds : List ℕ

-- `set(self.rounds_with_pass) - set(self.rounds_with_outcomes)`, with what is twice in the first.
unfoldable pub waiting_rounds : RunState → List ℕ
unfolding is_member
waiting_rounds s = filter (λ r. not (is_member r s.rounds_with_outcomes)) s.rounds_with_pass

-- `resume_round`
unfoldable pub resume_round : RunState → Option ℕ
unfolding waiting_rounds sorted first
resume_round s = first (sorted (waiting_rounds s))

-- `current_round`
unfoldable pub current_round : RunState → ℕ
unfolding waiting_rounds last_round
current_round s = last_round s.rounds_with_pass + (if is_empty (waiting_rounds s) then 1 else 0)

-- The bucket of one regular expression.
unfoldable pub round_numbers : Part → Directory → List ℕ
unfolding match_round
round_numbers p [] = []
round_numbers p ((name, text) ∷ files) = elim (match_round p name) [
  | none ↦ round_numbers p files
  | some n ↦ n ∷ round_numbers p files
]

-- `not body.strip()` is refused.
unfoldable pub require_body : HarnessError → Name → Directory → Result HarnessError Unit
unfolding read_text
require_body refusal name d = read_text name d >>= λ body. require (not (is_blank body)) refusal

unfoldable pub check_outcomes : Directory → List ℕ → Result HarnessError Unit
unfolding require_body round_file
check_outcomes d [] = ok tt
check_outcomes d (n ∷ ns) =
    require_body blank_outcomes (round_file outcomes n) d >> check_outcomes d ns

-- `isinstance(r, dict) and isinstance(r.get("question"), str)`
unfoldable pub has_text : String → Value → Bool
unfolding get is_str
has_text key (obj fs) = elim (get key fs) [ some v ↦ is_str v | none ↦ false ]
has_text key _ = false

unfoldable pub is_answer : Value → Bool
unfolding has_text
is_answer v = has_text "question" v && has_text "answer" v

-- `r["question"]`, checked before to be a text.
unfoldable pub question_of : Value → String
unfolding get
question_of (obj fs) = elim (get "question" fs) [ some (str s) ↦ s | _ ↦ "" ]
question_of _ = ""

unfoldable pub questions : List Value → List String
unfolding question_of
questions [] = []
questions (v ∷ vs) = question_of v ∷ questions vs

-- A value that is not a list is refused.
unfoldable pub items_of : HarnessError → Value → Result HarnessError (List Value)
unfolding to_list
items_of refusal (arr items) = ok (to_list items)
items_of refusal _ = err refusal

-- `any(r["question"] not in answered_q for r in reqs)`
unfoldable pub is_unanswered : List Value → List Value → Bool
unfolding questions
is_unanswered reqs ans = any (λ q. not (contains (questions ans) q)) (questions reqs)

module _ (loads : String → Option Value) where
  unfoldable pub check_passes : Directory → List ℕ → Result HarnessError Unit
  unfolding read_round_meta require_body round_file
  check_passes d [] = ok tt
  check_passes d (n ∷ ns) =
      read_round_meta loads d n
      >> require_body blank_pass (round_file pass n) d
      >> check_passes d ns

  unfoldable pub check_completed : Directory → List ℕ → List ℕ → Result HarnessError Unit
  unfolding round_completed is_member
  check_completed d with_outcomes [] = ok tt
  check_completed d with_outcomes (n ∷ ns) = do
    completed ← round_completed loads d n
    require (not (completed && not (is_member n with_outcomes))) outcomes_lost
    check_completed d with_outcomes ns

  unfoldable pub completed_rounds : Directory → List ℕ → Result HarnessError (List ℕ)
  unfolding keep_if round_completed
  completed_rounds d ns = keep_if (round_completed loads d) ns

  -- `json.loads(self._read_text(...))`
  unfoldable pub load_json : HarnessError → Name → Directory → Result HarnessError Value
  unfolding read_text
  load_json refusal name d = do
    text ← read_text name d
    elim (loads text) [ none ↦ err refusal | some v ↦ ok v ]

  -- The body of the loop over `requests`.
  unfoldable pub is_pending : Directory → List ℕ → ℕ → Result HarnessError Bool
  unfolding is_member load_json items_of round_file has_text is_answer is_unanswered
  is_pending d answered n = elim (is_member n answered) [
    | false ↦ ok true
    | true ↦ do
      asked ← load_json corrupt_gates (round_file gate_requests n) d
      replied ← load_json corrupt_gates (round_file gate_answers n) d
      reqs ← items_of corrupt_gates asked
      ans ← items_of corrupt_gates replied
      require (all (has_text "question") reqs && all is_answer ans) malformed_gates
      ok (is_unanswered reqs ans)
  ]

  unfoldable pub check_answers : Directory → List ℕ → List ℕ → Result HarnessError Unit
  unfolding is_member load_json items_of round_file is_answer
  check_answers d requested [] = ok tt
  check_answers d requested (n ∷ ns) = elim (is_member n requested) [
    | true ↦ check_answers d requested ns
    | false ↦ do
      replied ← load_json corrupt_answers (round_file gate_answers n) d
      ans ← items_of corrupt_answers replied
      require (all is_answer ans) corrupt_answers
      check_answers d requested ns
  ]

  -- The checks of the passes and the outcomes, and the completed rounds.
  unfoldable pub restore_history : Directory → List ℕ → List ℕ → Result HarnessError (List ℕ)
  unfolding check_outcomes is_member is_range check_passes check_completed completed_rounds
  restore_history d passes outs = do
    check_outcomes d outs
    require (is_empty (filter (λ r. not (is_member r passes)) outs)) orphan_outcomes
    require (is_range passes) holes
    require (is_range outs) not_prefix
    check_passes d passes
    check_completed d outs passes
    completed ← completed_rounds d outs
    require (is_range completed) completed_not_prefix
    require (not (ltb (length completed + 1) (length passes))) several_incomplete
    ok completed

  -- The checks of the gate files, and the rounds with hanging questions.
  unfoldable pub restore_gates :
      Directory → List ℕ → List ℕ → List ℕ → List ℕ → Result HarnessError (List ℕ)
  unfolding keep_if is_pending is_member check_answers
  restore_gates d passes completed requests answers = do
    pending ← keep_if (is_pending d answers) requests
    require (is_empty (filter (λ r. is_member r completed) pending)) stale_gates
    require (is_empty (filter (λ r. not (is_member r passes)) (requests ++ answers))) alien_gates
    check_answers d requests answers
    ok pending

  -- `str(meta["critic_model"])`, checked before to be a text.
  unfoldable pub critic_model_of : Fields → String
  unfolding get
  critic_model_of m = elim (get "critic_model" m) [ some (str s) ↦ s | _ ↦ "" ]

  -- `restore`
  unfoldable pub restore : Directory → Result HarnessError RunState
  unfolding load_meta exists round_numbers restore_history restore_gates sorted artifacts_of
      critic_model_of flag
  restore d = do
    m ← load_meta loads d
    require (exists description d) no_description_file
    require (exists launch_note d) no_launch_note_file
    completed ← restore_history d (round_numbers pass d) (round_numbers outcomes d)
    pending ←
        restore_gates d (round_numbers pass d) completed (round_numbers gate_requests d)
          (round_numbers gate_answers d)
    ok (record {
      artifact_paths = artifacts_of m;
      critic_model = critic_model_of m;
      rounds_with_pass = sorted (round_numbers pass d);
      rounds_with_outcomes = sorted completed;
      entry_gate_confirmed = flag "entry_gate_confirmed" m;
      pending_gate_rounds = sorted pending;
    })

-- ===== src/ReviewHarness/Catalogue/Examples.antt =====
-- Tests of the run catalogue on small runs.
use semantics_toolchain.Prelude.{
  ℕ, suc, ◌≡◌, refl, String, true, false, Option, none, some, List, [], ◌∷◌, ◌==◌, ok, err,
  if◌then◌else◌,
}
use semantics_toolchain.Json.{Value, Fields, bool, str, arr, obj, field, end, nil, cons}
use semantics_toolchain.ReviewHarness.Catalogue.Files.{
  gates, Directory, Name, round, two_digits, number_from, match_round, description, launch_note,
  meta, other, pass, pass_meta, outcomes, gate_requests, round_file, read_text, pass_exists,
  several_incomplete, stale_gates, not_object, orphan_outcomes, incomplete_meta, exists,
}
use semantics_toolchain.ReviewHarness.Catalogue.Naming.{match_round-round_file}
use semantics_toolchain.ReviewHarness.Catalogue.Numbers.{count_from}
use semantics_toolchain.ReviewHarness.Catalogue.Restoring.{
  RunState, resume_round, current_round, restore,
}
use semantics_toolchain.ReviewHarness.Catalogue.Writing.{
  Git, Disk, no_repository, flushed, unwritten, write_pass,
}
use semantics_toolchain.ReviewHarness.Catalogue.Calls.{
  Call, creation, entry_confirmation, received_pass, completion, received_outcomes, gate_record,
  run_calls,
}
use semantics_toolchain.ReviewHarness.Catalogue.Repairing.{missing_entry, unless_recorded}
use semantics_toolchain.ReviewHarness.Catalogue.History.{Running, restore-history}
use semantics_toolchain.ReviewHarness.Catalogue.Trace.{HasMeta}
use semantics_toolchain.ReviewHarness.Catalogue.Records.{run_calls-kept, run_calls-HasMeta}

abbrev run_meta : Fields
run_meta = field "artifact_paths" (arr (cons (str "spec.md") nil)) (
    field "critic_model" (str "critic") (
      field "entry_gate_confirmed" (bool true)
        (field "entry_gate_answer" (str "yes") (field "entry_gate_prompt" (str "Start?") end))))

abbrev snapshot : Fields
snapshot =
    field "spec.md" (str "a1")
      (field "__task_description__" (str "b2") (field "__launch_note__" (str "c3") end))

abbrev judged_meta : Fields
judged_meta =
    field "operator_profile_version" (str "7")
      (field "git_head" (str "d4e5") (field "artifact_snapshot" (obj snapshot) end))

abbrev loads : String → Option Value
loads s =
    if s == "run"
    then some (obj run_meta)
    else if s == "judged"
    then some (obj judged_meta)
    else if s == "completed"
    then some (obj (field "completed" (bool true) judged_meta))
    else if s == "asked"
    then some (arr (cons (obj (field "question" (str "Merge?") end)) nil))
    else if s == "list"
    then some (arr nil)
    else none

abbrev file : Name → String → Name × Option String
file name text = (name, some text)

abbrev base : Directory
base =
    file description "task"
    ∷ file launch_note "note"
    ∷ file meta "run"
    ∷ file (round_file pass 1) "a finding"
    ∷ []

abbrev first_round : Directory
first_round =
    file (round_file pass_meta 1) "completed" ∷ file (round_file outcomes 1) "fixed" ∷ base

-- Round 1 is completed; round 2 has its pass and a question.
abbrev second_round : Directory
second_round =
    file (round_file pass 2) "another"
    ∷ file (round_file pass_meta 2) "judged"
    ∷ file (round_file gate_requests 2) "asked"
    ∷ file (other "junk_outcomes.md") ""
    ∷ first_round

abbrev restored : RunState
restored = record {
  artifact_paths = "spec.md" ∷ [];
  critic_model = "critic";
  rounds_with_pass = 1 ∷ 2 ∷ [];
  rounds_with_outcomes = 1 ∷ [];
  entry_gate_confirmed = true;
  pending_gate_rounds = 2 ∷ [];
}

restored_second : restore loads second_round ≡ ok restored
unfolding restore round_file two_digits read_text
restored_second = refl

refusals :
    (restore loads (
        file (round_file pass 2) "x"
        ∷ file (round_file pass_meta 2) "judged"
        ∷ file (round_file pass_meta 1) "judged"
        ∷ base)
      ≡ err several_incomplete)
    × (restore loads (file (round_file gate_requests 1) "asked" ∷ first_round) ≡ err stale_gates)
    × (restore loads (file (round_file outcomes 2) "x" ∷ first_round) ≡ err orphan_outcomes)
    × (restore loads (file meta "list" ∷ []) ≡ err not_object)
unfolding restore round_file two_digits read_text
refusals = (refl, refl, refl, refl)

resumed : (resume_round restored ≡ some 2) × (current_round restored ≡ 2)
unfolding resume_round current_round
resumed = (refl, refl)

hundred :
    (two_digits 100 ≡ 1 ∷ 0 ∷ 0 ∷ [])
    × (two_digits 7 ≡ 0 ∷ 7 ∷ [])
    × (match_round pass (round_file pass 100) ≡ some 100)
    × (match_round pass (round pass (7 ∷ [])) ≡ none)
unfolding match_round round_file two_digits number_from
hundred = (refl, refl, refl, refl)

abbrev dumps : Option ℕ → Value → String
dumps (some n) v = "run"
dumps none v = "judged"

abbrev outside : Directory → Git
outside d = no_repository

-- The disk fails at the outcomes of a round.
abbrev disk : Name → Directory → Disk
disk (round outcomes digits) d = unwritten
disk _ d = flushed

abbrev calls : List Call
calls =
    creation ("spec.md" ∷ []) "critic" "task" "note" "now"
    ∷ entry_confirmation "yes" "Start?"
    ∷ received_pass 1 "a finding" judged_meta "now"
    ∷ received_pass 1 "another" judged_meta "later"
    ∷ received_outcomes 1 "fixed"
    ∷ completion 1
    ∷ gate_record "Merge?" "yes" "a fork" "now"
    ∷ []

created :
    (read_text (round_file pass 1) (run_calls loads dumps outside disk calls []) ≡ ok "a finding")
    × (exists (round_file outcomes 1) (run_calls loads dumps outside disk calls []) ≡ false)
    × ((write_pass loads dumps outside disk 1 "another" judged_meta "later" first_round).0
        ≡ err pass_exists)
    × ((write_pass loads dumps outside disk 2 "another" end "later" first_round).0
        ≡ err incomplete_meta)
unfolding run_calls read_text round_file exists write_pass two_digits
created = (refl, refl, refl, refl)

restore-history_example :
    (k : ℕ) × (restored.rounds_with_outcomes ≡ count_from 1 k)
    × (current_round restored ≡ suc k)
    × Running restored k
restore-history_example = restore-history loads second_round restored_second

received_lem : read_text (round_file pass 1) base ≡ ok "a finding"
unfolding read_text round_file two_digits
received_lem = refl

run_calls-kept_example :
    read_text (round_file pass 1) (run_calls loads dumps outside disk calls base) ≡ ok "a finding"
run_calls-kept_example = run_calls-kept loads dumps outside disk calls base 1 received_lem

empty-HasMeta : HasMeta []
unfolding exists
empty-HasMeta digits h = absurd cc

run_calls-HasMeta_example : HasMeta (run_calls loads dumps outside disk calls [])
run_calls-HasMeta_example = run_calls-HasMeta loads dumps outside disk calls [] empty-HasMeta

match_round-round_file_example : match_round pass (round_file pass 100) ≡ some 100
match_round-round_file_example = match_round-round_file pass 100

-- The journal is repaired once; a record whose answer has two lines is not found again.
repairs :
    (missing_entry loads dumps outside disk base ≡ ok (some ("Start?", "yes")))
    × (missing_entry loads dumps outside disk
          (file gates "Question: Start?\n\nThe operator's answer (verbatim): yes\n" ∷ base)
        ≡ ok none)
    × (missing_entry loads dumps outside disk
          (file gates "Question: Start?\n\nThe operator's answer (verbatim): yes?\n" ∷ base)
        ≡ ok (some ("Start?", "yes")))
    × (unless_recorded "Start?" "yes\nplease"
          "Question: Start?\n\nThe operator's answer (verbatim): yes\nplease\n"
        ≡ some ("Start?", "yes\nplease"))
unfolding missing_entry unless_recorded read_text exists round_file
repairs = (refl, refl, refl, refl)

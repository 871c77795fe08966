-- ===== src/ReviewHarness/Catalogue/Writing.antt =====
-- The operations of `RunCatalog` that write. A step is what an operation
-- raised, or that it did not, and the directory that it left. Git's answer and the disk's to a write
-- are parameters, as are json.dumps and the clock; the temporary file of a write is left aside.
use Prim.Native.String.{◌++◌ as str_append}
use semantics_toolchain.Prelude.{
  ℕ, ℤ, pos, String, true, false, not, ◌||◌, Option, none, some, List, [], ◌∷◌, is_empty, eqb_ℤ,
  if◌then◌else◌, Result, ok, err, ◌>>◌, require,
}
use semantics_toolchain.Json.{Value, Fields, Items, bool, str, arr, obj, field, end, put, merge}
use semantics_toolchain.ReviewHarness.Catalogue.Files.{
  Directory, Name, HarnessError, git_unavailable, check_not_run, tracked_by_git, not_written,
  not_empty, no_model, no_description, unevidenced, empty_pass, pass_exists, empty_outcomes,
  outcomes_before_pass, description, launch_note, meta, gates, pass, pass_meta, outcomes,
  round_file, same_name, exists, read_text, is_blank,
}
use semantics_toolchain.ReviewHarness.Catalogue.Meta.{
  load_meta, require_complete_meta, read_round_meta,
}

-- No repository holds the directory, git cannot be run, or the exit code of `git check-ignore`.
pub data Git : Type 0 where
  no_repository unavailable : Git
  code : ℤ → Git

-- A write failed before the file was replaced, or after it, or was flushed.
pub data Disk : Type 0 where
  unwritten unflushed flushed : Disk

abbrev pub Attempt : Type 0
Attempt = Result HarnessError Unit × Directory

unfoldable pub assert_outside_git : Git → Result HarnessError Unit
assert_outside_git no_repository = ok tt
assert_outside_git unavailable = err git_unavailable
assert_outside_git (code c) =
    if eqb_ℤ c (pos 0)
    then ok tt
    else if eqb_ℤ c (pos 1)
    then err tracked_by_git
    else err check_not_run

-- `os.replace(tmp, path)`
unfoldable pub put_file : Name → String → Directory → Directory
unfolding same_name
put_file name text [] = (name, some text) ∷ []
put_file name text ((n, old) ∷ files) =
    if same_name n name then (n, some text) ∷ files else (n, old) ∷ put_file name text files

-- Two steps, the second if the first did not raise.
unfoldable pub next : Attempt → (Directory → Attempt) → Attempt
next (ok u, d) f = f d
next (err e, d) f = (err e, d)

-- A step after checks that leave the directory as it is.
unfoldable pub checked : {A : Type 0} → Result HarnessError A → Directory → (A → Attempt) → Attempt
checked (ok a) d f = f a
checked (err e) d f = (err e, d)

abbrev pub replaced : Disk → Name → String → Directory → Attempt
replaced unwritten name text d = (err not_written, d)
replaced unflushed name text d = (err not_written, put_file name text d)
replaced flushed name text d = (ok tt, put_file name text d)

-- `[*paths]` as a JSON list.
unfoldable pub path_items : List String → Items
path_items [] = Items.nil
path_items (p ∷ ps) = Items.cons (str p) (path_items ps)

module _ (loads : String → Option Value) (dumps : Option ℕ → Value → String) (git : Directory → Git)
    (disk : Name → Directory → Disk) where
  -- `_write_durably`
  unfoldable pub write_durably : Name → String → Directory → Attempt
  unfolding checked assert_outside_git put_file
  write_durably name text d =
      checked (assert_outside_git (git d)) d (λ u. replaced (disk name d) name text d)

  -- What `create` refuses.
  unfoldable pub creatable : String → String → Directory → Result HarnessError Unit
  unfolding assert_outside_git
  creatable critic_model description_text d = do
    require (is_empty d) not_empty
    require (not (is_blank critic_model)) no_model
    require (not (is_blank description_text)) no_description
    assert_outside_git (git d)

  -- The three files of a new run.
  unfoldable pub write_run : String → String → Value → Directory → Attempt
  unfolding next write_durably
  write_run description_text note run d = next (write_durably description description_text d) (λ d.
      next (write_durably launch_note note d) (λ d. write_durably meta (dumps (some 2) run) d))

  -- `create`
  unfoldable pub create : List String → String → String → String → String → Directory → Attempt
  unfolding checked creatable write_run path_items
  create paths critic_model description_text note created_at d =
      checked (creatable critic_model description_text d) d (λ u.
        write_run description_text note
          (obj (
            field "artifact_paths" (arr (path_items paths)) (
              field "critic_model" (str critic_model) (
                field "created_at" (str created_at)
                  (field "entry_gate_confirmed" (bool false) end)))))
          d)

  unfoldable pub confirmed : String → String → Fields → String
  unfolding put
  confirmed answer prompt m = dumps (some 2) (
      obj (
        put "entry_gate_prompt" (str prompt)
          (put "entry_gate_answer" (str answer) (put "entry_gate_confirmed" (bool true) m))))

  -- `mark_entry_confirmed`
  unfoldable pub mark_entry_confirmed : String → String → Directory → Attempt
  unfolding checked load_meta write_durably confirmed
  mark_entry_confirmed answer prompt d =
      checked (require (not (is_blank answer || is_blank prompt)) unevidenced >> load_meta loads d)
        d (λ m. write_durably meta (confirmed answer prompt m) d)

  -- What `write_pass` refuses.
  unfoldable pub writable : ℕ → String → Fields → Directory → Result HarnessError Unit
  unfolding assert_outside_git exists require_complete_meta round_file
  writable n pass_text m d = do
    assert_outside_git (git d)
    require (not (is_blank pass_text)) empty_pass
    require (not (exists (round_file pass n) d)) pass_exists
    require_complete_meta loads d m

  -- The two files of a pass.
  unfoldable pub write_round : ℕ → String → Fields → Directory → Attempt
  unfolding next write_durably round_file
  write_round n pass_text m d =
      next (write_durably (round_file pass_meta n) (dumps none (obj m)) d)
        (λ d. write_durably (round_file pass n) pass_text d)

  -- `write_pass`
  unfoldable pub write_pass : ℕ → String → Fields → String → Directory → Attempt
  unfolding checked writable write_round merge
  write_pass n pass_text extra_meta received_at d =
      let m = merge (field "received_at" (str received_at) end) extra_meta in
      checked (writable n pass_text m d) d (λ u. write_round n pass_text m d)

  unfoldable pub marked : Fields → String
  unfolding put
  marked m = dumps none (obj (put "completed" (bool true) m))

  -- `mark_round_completed`
  unfoldable pub mark_round_completed : ℕ → Directory → Attempt
  unfolding checked read_round_meta write_durably marked round_file
  mark_round_completed n d =
      checked (read_round_meta loads d n) d
        (λ m. write_durably (round_file pass_meta n) (marked m) d)

  -- What `write_outcomes` refuses.
  unfoldable pub analysed : ℕ → String → Directory → Result HarnessError Unit
  unfolding assert_outside_git exists round_file
  analysed n outcomes_text d = do
    assert_outside_git (git d)
    require (not (is_blank outcomes_text)) empty_outcomes
    require (exists (round_file pass n) d) outcomes_before_pass

  -- `write_outcomes`
  unfoldable pub write_outcomes : ℕ → String → Directory → Attempt
  unfolding checked analysed write_durably round_file
  write_outcomes n outcomes_text d =
      checked (analysed n outcomes_text d) d
        (λ u. write_durably (round_file outcomes n) outcomes_text d)

  -- The journal so far.
  unfoldable pub journal : Directory → Result HarnessError String
  unfolding exists read_text
  journal d = if exists gates d then read_text gates d else ok "# The run's gates\n"

  unfoldable pub gate_entry : String → String → String → String → String
  gate_entry stamp kind question answer = str_append "\n## " (
      str_append stamp (
        str_append " — " (
          str_append kind (
            str_append "\n\nQuestion: " (
              str_append question
                (str_append "\n\nThe operator's answer (verbatim): " (str_append answer "\n")))))))

  -- `append_gate_record`
  unfoldable pub append_gate_record : String → String → String → String → Directory → Attempt
  unfolding checked write_durably assert_outside_git journal gate_entry
  append_gate_record question answer kind stamp d =
      checked (assert_outside_git (git d) >> journal d) d (λ existing.
        write_durably gates (str_append existing (gate_entry stamp kind question answer)) d)

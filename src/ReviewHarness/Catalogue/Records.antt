-- ===== src/ReviewHarness/Catalogue/Records.antt =====
-- What the calls of `RunCatalog` keep: the passes that are written, and the metadata of every pass.
use Prim.Native.String.{◌++◌ as str_append}
use semantics_toolchain.Json.{Value, Fields, obj, str, field, end, merge}
use semantics_toolchain.Prelude.{
  ℕ, String, true, not, Option, none, some, List, [], ◌∷◌, ◌≡◌, sym, subst, arith, Result, ok, ◌>>◌,
  >>=-eq-ok, require, require-eq-ok,
}
use semantics_toolchain.ReviewHarness.Catalogue.Files.{
  Directory, Name, HarnessError, pass, pass_meta, outcomes, description, launch_note, meta, gates,
  is_blank, pass_exists, empty_pass, round_file, two_digits, exists, read_text,
}
use semantics_toolchain.ReviewHarness.Catalogue.Meta.{read_round_meta}
use semantics_toolchain.ReviewHarness.Catalogue.Writing.{
  creatable, write_run, confirmed, writable, write_round, marked, analysed, journal, gate_entry,
  Git, Disk, put_file, next, checked, write_durably, create, mark_entry_confirmed, write_pass,
  mark_round_completed, write_outcomes, append_gate_record, assert_outside_git,
}
use semantics_toolchain.ReviewHarness.Catalogue.Calls.{
  Call, run_call, run_calls, creation, entry_confirmation, received_pass, completion,
  received_outcomes, gate_record, journal_repair,
}
use semantics_toolchain.ReviewHarness.Catalogue.Repairing.{
  missing_entry, append_missing, entry_journal_repair,
}
use semantics_toolchain.ReviewHarness.Catalogue.Trace.{
  WritesTo, nothing, Allowed, WritesTo-trans, WritesTo-kept, HasMeta, WritesTo-HasMeta,
  checked-WritesTo, next-WritesTo, replaced-WritesTo, checked-flushed, meta_first,
}

module _ (loads : String → Option Value) (dumps : Option ℕ → Value → String) (git : Directory → Git)
    (disk : Name → Directory → Disk) where
  write_durably-WritesTo :
      (name : Name) (text : String) (d : Directory)
      → Allowed name d
      → WritesTo d (write_durably loads dumps git disk name text d).1
  unfolding write_durably
  write_durably-WritesTo name text d allowed =
      checked-WritesTo (assert_outside_git (git d)) d _
        (λ u e. replaced-WritesTo (disk name d) name text d allowed)

  write_durably-flushed :
      (name : Name) (text : String) (d : Directory)
      → (write_durably loads dumps git disk name text d).0 ≡ ok tt
      → (write_durably loads dumps git disk name text d).1 ≡ put_file name text d
  unfolding write_durably
  write_durably-flushed name text d =
      checked-flushed (assert_outside_git (git d)) (disk name d) name text d

  write_run-WritesTo :
      (text note : String) (run : Value) (d : Directory)
      → WritesTo d (write_run loads dumps git disk text note run d).1
  unfolding write_run
  write_run-WritesTo text note run d =
      next-WritesTo (write_durably loads dumps git disk description text d)
        (λ d.
          next (write_durably loads dumps git disk launch_note note d)
            (λ d. write_durably loads dumps git disk meta (dumps (some 2) run) d))
        (write_durably-WritesTo description text d tt)
        (λ e1.
          next-WritesTo (write_durably loads dumps git disk launch_note note _)
            (λ d. write_durably loads dumps git disk meta (dumps (some 2) run) d)
            (write_durably-WritesTo launch_note note _ tt)
            (λ e2. write_durably-WritesTo meta _ _ tt))

  write_round-WritesTo :
      (n : ℕ) (text : String) (m : Fields) (d : Directory)
      → writable loads dumps git disk n text m d ≡ ok tt
      → WritesTo d (write_round loads dumps git disk n text m d).1
  unfolding write_round writable round_file
  write_round-WritesTo n text m d e =
      let (u1, private, e1) = >>=-eq-ok (assert_outside_git (git d)) _ e in
      let (u2, filled, e2) = >>=-eq-ok (require (not (is_blank text)) empty_pass) _ e1 in
      let (u3, free, e3) =
        >>=-eq-ok (require (not (exists (round_file pass n) d)) pass_exists) _ e2 in
      let not_there : not (exists (round_file pass n) d) ≡ true =
        require-eq-ok _ pass_exists free in
      next-WritesTo
        (write_durably loads dumps git disk (round_file pass_meta n) (dumps none (obj m)) d)
        (λ d. write_durably loads dumps git disk (round_file pass n) text d)
        (write_durably-WritesTo (round_file pass_meta n) _ d tt)
        (λ done. write_durably-WritesTo (round_file pass n) text _ (
          subst (Allowed (round_file pass n))
            (sym (write_durably-flushed (round_file pass_meta n) (dumps none (obj m)) d done))
            (meta_first (two_digits n) (dumps none (obj m)) d (ground (arith, not_there)))))

  -- One write after checks.
  checked_write :
      {A : Type 0} (r : Result HarnessError A) (name : Name) (text : A → String) (d : Directory)
      → Allowed name d
      → WritesTo d (checked r d (λ a. write_durably loads dumps git disk name (text a) d)).1
  checked_write r name text d allowed =
      checked-WritesTo r d _ (λ a e. write_durably-WritesTo name (text a) d allowed)

  append_missing-WritesTo :
      (stamp : String) (d : Directory) (missing : Option (String × String))
      → WritesTo d (append_missing loads dumps git disk stamp d missing).1
  unfolding append_missing append_gate_record
  append_missing-WritesTo stamp d none = nothing
  append_missing-WritesTo stamp d (some (prompt, answer)) =
      checked_write (assert_outside_git (git d) >> journal loads dumps git disk d) gates
        (λ existing.
          str_append existing
            (gate_entry loads dumps git disk stamp "the entry gate" prompt answer))
        d tt

  run_call-WritesTo : (c : Call) (d : Directory) → WritesTo d (run_call loads dumps git disk c d).1
  unfolding run_call create write_pass mark_entry_confirmed mark_round_completed write_outcomes
      append_gate_record round_file entry_journal_repair
  run_call-WritesTo (creation paths critic_model text note now) d =
      checked-WritesTo (creatable loads dumps git disk critic_model text d) d
        (λ u. write_run loads dumps git disk text note _ d)
        (λ u e. write_run-WritesTo text note _ d)
  run_call-WritesTo (entry_confirmation answer prompt) d =
      checked_write _ meta (confirmed loads dumps git disk answer prompt) d tt
  run_call-WritesTo (received_pass n text extra now) d =
      let m = merge (field "received_at" (str now) end) extra in
      checked-WritesTo (writable loads dumps git disk n text m d) d
        (λ u. write_round loads dumps git disk n text m d)
        (λ u e. write_round-WritesTo n text m d e)
  run_call-WritesTo (completion n) d =
      checked_write (read_round_meta loads d n) (round_file pass_meta n)
        (marked loads dumps git disk) d tt
  run_call-WritesTo (received_outcomes n text) d =
      checked_write (analysed loads dumps git disk n text d) (round_file outcomes n) (λ u. text) d
        tt
  run_call-WritesTo (gate_record question answer kind now) d =
      checked_write (assert_outside_git (git d) >> journal loads dumps git disk d) gates
        (λ existing. str_append existing (gate_entry loads dumps git disk now kind question answer))
        d tt
  run_call-WritesTo (journal_repair now) d =
      checked-WritesTo (missing_entry loads dumps git disk d) d
        (append_missing loads dumps git disk now d) (λ o e. append_missing-WritesTo now d o)

  run_calls-WritesTo :
      (cs : List Call) (d : Directory) → WritesTo d (run_calls loads dumps git disk cs d)
  unfolding run_calls
  run_calls-WritesTo [] d = nothing
  run_calls-WritesTo (c ∷ cs) d = WritesTo-trans (run_call-WritesTo c d) (run_calls-WritesTo cs _)

  -- Whatever calls of the catalogue follow, and wherever they, git or the disk fail, the pass of a
  -- round that was received reads the same.
  pub run_calls-kept :
      (cs : List Call) (d : Directory) (n : ℕ) {text : String}
      → read_text (round_file pass n) d ≡ ok text
      → read_text (round_file pass n) (run_calls loads dumps git disk cs d) ≡ ok text
  unfolding round_file
  run_calls-kept cs d n h = WritesTo-kept (two_digits n) (run_calls-WritesTo cs d) h

  -- In every directory that calls of the catalogue leave, each of them finished or not, a round that
  -- has its pass has its metadata, if that was so before them.
  pub run_calls-HasMeta :
      (cs : List Call) (d : Directory) → HasMeta d → HasMeta (run_calls loads dumps git disk cs d)
  run_calls-HasMeta cs d has = WritesTo-HasMeta (run_calls-WritesTo cs d) has

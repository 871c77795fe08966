-- ===== src/ReviewHarness/Catalogue/Calls.antt =====
-- The operations of `RunCatalog` as calls, and sequences of them.
use semantics_toolchain.Prelude.{ℕ, String, Option, List, [], ◌∷◌}
use semantics_toolchain.Json.{Value, Fields}
use semantics_toolchain.ReviewHarness.Catalogue.Files.{Directory, Name}
use semantics_toolchain.ReviewHarness.Catalogue.Writing.{
  Git, Disk, Attempt, create, mark_entry_confirmed, write_pass, mark_round_completed,
  write_outcomes, append_gate_record,
}
use semantics_toolchain.ReviewHarness.Catalogue.Repairing.{entry_journal_repair}

-- A call of the catalogue, with the time of the call where it is written down.
pub data Call : Type 0 where
  creation : List String → String → String → String → String → Call
  entry_confirmation : String → String → Call
  received_pass : ℕ → String → Fields → String → Call
  completion : ℕ → Call
  received_outcomes : ℕ → String → Call
  gate_record : String → String → String → String → Call
  journal_repair : String → Call

module _ (loads : String → Option Value) (dumps : Option ℕ → Value → String) (git : Directory → Git)
    (disk : Name → Directory → Disk) where
  unfoldable pub run_call : Call → Directory → Attempt
  unfolding create mark_entry_confirmed write_pass mark_round_completed write_outcomes
      append_gate_record entry_journal_repair
  run_call (creation paths critic_model text note now) d =
      create loads dumps git disk paths critic_model text note now d
  run_call (entry_confirmation answer prompt) d =
      mark_entry_confirmed loads dumps git disk answer prompt d
  run_call (received_pass n text extra now) d = write_pass loads dumps git disk n text extra now d
  run_call (completion n) d = mark_round_completed loads dumps git disk n d
  run_call (received_outcomes n text) d = write_outcomes loads dumps git disk n text d
  run_call (gate_record question answer kind now) d =
      append_gate_record loads dumps git disk question answer kind now d
  run_call (journal_repair now) d = entry_journal_repair loads dumps git disk now d

  -- The directory after calls, each of which may raise.
  unfoldable pub run_calls : List Call → Directory → Directory
  unfolding run_call
  run_calls [] d = d
  run_calls (c ∷ cs) d = run_calls cs (run_call c d).1

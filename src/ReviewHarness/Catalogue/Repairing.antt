-- ===== src/ReviewHarness/Catalogue/Repairing.antt =====
-- `entry_journal_repair`: the record of the entry gate, appended when the journal has not got both of
-- its lines.
use Prim.Native.String.{◌++◌ as str_append}
use semantics_toolchain.Prelude.{
  ℕ, String, Bool, not, ◌&&◌, ◌||◌, Option, none, some, [], ◌==◌, any, codes, same_codes,
  if◌then◌else◌, Result, ok, ◌>>=◌,
}
use semantics_toolchain.ReviewHarness.Guard.{split_lines}
use semantics_toolchain.Json.{Value, Fields, str, get}
use semantics_toolchain.ReviewHarness.Catalogue.Files.{
  Directory, Name, HarnessError, gates, exists, read_text,
}
use semantics_toolchain.ReviewHarness.Catalogue.Meta.{load_meta, flag}
use semantics_toolchain.ReviewHarness.Catalogue.Writing.{
  Git, Disk, Attempt, checked, append_gate_record,
}

-- `line in set(text.splitlines())`
unfoldable pub has_line : String → String → Bool
unfolding split_lines same_codes
has_line text line = any (same_codes (codes line)) (split_lines [] (codes text))

-- `meta.get(key) or default`, a text.
unfoldable pub text_or : String → String → Fields → String
unfolding get
text_or default key m = elim (get key m) [
  | some (str s) ↦ if s == "" then default else s
  | _ ↦ default
]

-- The question and the answer, if one of the two lines is not in the journal.
unfoldable pub unless_recorded : String → String → String → Option (String × String)
unfolding has_line
unless_recorded prompt answer existing =
    if has_line existing (str_append "The operator's answer (verbatim): " answer)
      && has_line existing (str_append "Question: " prompt)
    then none
    else some (prompt, answer)

module _ (loads : String → Option Value) (dumps : Option ℕ → Value → String) (git : Directory → Git)
    (disk : Name → Directory → Disk) where
  -- What is to be appended: nothing, if the gate is not confirmed or has no answer.
  unfoldable pub missing_entry : Directory → Result HarnessError (Option (String × String))
  unfolding load_meta exists read_text text_or flag unless_recorded
  missing_entry d = load_meta loads d >>= λ m.
      if not (flag "entry_gate_confirmed" m) || text_or "" "entry_gate_answer" m == ""
      then ok none
      else ((if exists gates d then read_text gates d else ok "") >>= λ existing. ok (
          unless_recorded (text_or "Entry gate" "entry_gate_prompt" m)
            (text_or "" "entry_gate_answer" m) existing))

  unfoldable pub append_missing : String → Directory → Option (String × String) → Attempt
  unfolding append_gate_record
  append_missing stamp d none = (ok tt, d)
  append_missing stamp d (some (prompt, answer)) =
      append_gate_record loads dumps git disk prompt answer "the entry gate" stamp d

  -- `entry_journal_repair`
  unfoldable pub entry_journal_repair : String → Directory → Attempt
  unfolding checked missing_entry append_missing
  entry_journal_repair stamp d = checked (missing_entry d) d (append_missing stamp d)

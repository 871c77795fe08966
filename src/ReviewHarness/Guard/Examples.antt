-- ===== src/ReviewHarness/Guard/Examples.antt =====
-- Commands and outputs that pass, and ones that do not.
use semantics_toolchain.Prelude.{
  codes, strip, drop_while, is_white, some, all, ok, same_codes, is_prefix, String, true, false,
  List, [], ◌∷◌, ◌≡◌, refl, err,
}
use semantics_toolchain.ReviewHarness.Guard.Attestation.{
  EndsAttested, is_silent, assert_attested_read_only-header,
}
use semantics_toolchain.ReviewHarness.Guard.{
  assert_attested_read_only, parse_codex_output, parse_lines, split_lines, is_break, is_separator,
  separators, first_lines, after_lines, header_end, header, first_word, sandbox_value, sandbox_of,
  last_sandbox, join_lines, answer_of, silent, other_sandbox, critic_argv_is_read_only,
  assert_critic_read_only, no_guarantee, is_exec, accepts, is_dash, scan, finish, step, begin,
  token, reads, lower, is_codex, basename, is_unsafe, has_substitution, is_metacharacter,
}
use semantics_toolchain.ReviewHarness.Guard.Commands.{
  IsReadOnly, critic_argv_is_read_only-IsReadOnly,
}

program : Unit {0}
unfolding critic_argv_is_read_only assert_critic_read_only is_exec accepts is_dash scan finish step
    begin token reads lower same_codes is_codex basename is_unsafe has_substitution is_metacharacter
    is_prefix
program = tt

abbrev launch : List String
launch =
    "C:\\bin\\Codex.EXE" ∷ "exec" ∷ "-s" ∷ "read-only" ∷ "-m" ∷ "{model}" ∷ "-C" ∷ "/work" ∷ "-"
    ∷ []

launch_passes : critic_argv_is_read_only launch ≡ true
unfolding program
launch_passes = refl

bypasses :
    (critic_argv_is_read_only
        ("codex" ∷ "exec" ∷ "-s" ∷ "read-only" ∷ "-m" ∷ "{model}" ∷ "-o" ∷ "out" ∷ "-" ∷ [])
      ≡ false)
    × (critic_argv_is_read_only
          ("codex" ∷ "exec" ∷ "-s" ∷ "read-only" ∷ "-s" ∷ "read-only" ∷ "-m" ∷ "{model}" ∷ "-" ∷ [])
        ≡ false)
    × (critic_argv_is_read_only ("codex" ∷ "exec" ∷ "-m" ∷ "{model}" ∷ "-" ∷ "-s" ∷ []) ≡ false)
    × (critic_argv_is_read_only
          ("codex" ∷ "exec" ∷ "-s" ∷ "read-only" ∷ "-m" ∷ "{model}" ∷ "-C" ∷ "$(x)" ∷ "-" ∷ [])
        ≡ false)
    × (assert_critic_read_only ("sh" ∷ "-c" ∷ []) false ≡ err no_guarantee)
unfolding program
bypasses = (refl, refl, refl, refl, refl)

critic_argv_is_read_only-IsReadOnly_example :
    (critic_argv_is_read_only launch ≡ true → IsReadOnly launch)
    × (IsReadOnly launch → critic_argv_is_read_only launch ≡ true)
critic_argv_is_read_only-IsReadOnly_example = critic_argv_is_read_only-IsReadOnly launch

output_program : Unit {0}
unfolding program assert_attested_read_only parse_codex_output parse_lines split_lines is_break
    is_separator separators first_lines after_lines header_end header first_word sandbox_value
    sandbox_of last_sandbox join_lines answer_of strip drop_while is_white
output_program = tt

abbrev pass : String
pass = "v1\n----\nmodel: m\nsandbox: read-only\n----\nuser\nhi\ncodex\nsandbox: none\nok"

abbrev unattested : String
unattested = "v1\n----\nmodel: m\n----\nuser\nsandbox: read-only\ncodex\nok"

outputs :
    (parse_codex_output pass ≡ (some (codes "read-only"), codes "sandbox: none\nok"))
    × (assert_attested_read_only pass ≡ ok tt)
    × (assert_attested_read_only unattested ≡ err silent)
    × (assert_attested_read_only "----\nsandbox: workspace-write\n----" ≡ err other_sandbox)
unfolding output_program
outputs = (refl, refl, refl, refl)

-- The last of two lines decides.
two_lines :
    assert_attested_read_only "----\nsandbox: workspace-write\nsandbox: read-only\n----" ≡ ok tt
unfolding output_program
two_lines = refl

assert_attested_read_only-header_example :
    (assert_attested_read_only pass ≡ ok tt → EndsAttested (header (split_lines [] (codes pass))))
    × (all is_silent (header (split_lines [] (codes pass))) ≡ true
        → assert_attested_read_only pass ≡ err silent)
assert_attested_read_only-header_example = assert_attested_read_only-header pass

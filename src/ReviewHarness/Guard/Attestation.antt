-- ===== src/ReviewHarness/Guard/Attestation.antt =====
-- Lemmas on `assert_attested_read_only` of readonly_guard.py.
use semantics_toolchain.Prelude.{
  some_inj, ℕ, String, Bool, true, false, none, some, List, [], ◌∷◌, ◌++◌, ◌≡◌, refl, sym, ap, ◌∙◌,
  arith, inl, inr, all, codes, same_codes, ok, err, Option-cases,
}
use semantics_toolchain.ReviewHarness.Guard.Argv.{lower}
use semantics_toolchain.ReviewHarness.Guard.Output.{
  silent, sandbox_of, last_sandbox, header, split_lines, parse_lines, parse_codex_output,
  assert_attested_read_only,
}

-- A line that names the sandbox read-only, and a line that names none.
abbrev pub attests : List ℕ → Bool
attests l = elim (sandbox_of l) [ none ↦ false | some w ↦ same_codes (lower w) (codes "read-only") ]

abbrev pub is_silent : List ℕ → Bool
is_silent l = elim (sandbox_of l) [ none ↦ true | some w ↦ false ]

-- The lines of a header, as far as the last one that names a sandbox.
abbrev pub EndsAttested : List (List ℕ) → Type 0
EndsAttested ls =
    (before : List (List ℕ)) × (l : List ℕ) × (after : List (List ℕ)) × (ls ≡ before ++ l ∷ after)
    × (attests l ≡ true)
    × (all is_silent after ≡ true)

last_sandbox-none : (ls : List (List ℕ)) → last_sandbox ls ≡ none → all is_silent ls ≡ true
unfolding last_sandbox
last_sandbox-none [] h = refl
last_sandbox-none (l ∷ ls) h = ground (arith, last_sandbox-none ls)

silent-last_sandbox : (ls : List (List ℕ)) → all is_silent ls ≡ true → last_sandbox ls ≡ none
unfolding last_sandbox
silent-last_sandbox [] h = refl
silent-last_sandbox (l ∷ ls) h = ground (arith, silent-last_sandbox ls)

last_sandbox-cons :
    (l : List ℕ) (ls : List (List ℕ))
    → last_sandbox ls ≡ none
    → last_sandbox (l ∷ ls) ≡ sandbox_of l
unfolding last_sandbox
last_sandbox-cons l ls e = rw (e, last_sandbox) refl

last_sandbox-later :
    (l : List ℕ) (ls : List (List ℕ)) (w : List ℕ)
    → last_sandbox ls ≡ some w
    → last_sandbox (l ∷ ls) ≡ some w
unfolding last_sandbox
last_sandbox-later l ls w e = rw (e, last_sandbox) refl

last_sandbox-EndsAttested :
    (ls : List (List ℕ)) (w : List ℕ)
    → last_sandbox ls ≡ some w
    → same_codes (lower w) (codes "read-only") ≡ true
    → EndsAttested ls
unfolding last_sandbox
last_sandbox-EndsAttested [] w h good = absurd (ground arith)
last_sandbox-EndsAttested (l ∷ ls) w h good = elim (Option-cases (last_sandbox ls)) [
  | inl quiet ↦
      let here : sandbox_of l ≡ some w = sym (last_sandbox-cons l ls quiet) ∙ h in
      ([], l, ls, refl, rw (here, attests) good, last_sandbox-none ls quiet)
  | inr (v, later) ↦
      let same : v ≡ w = some_inj (sym (last_sandbox-later l ls v later) ∙ h) in
      let (before, m, after, form, says, quiet) =
        last_sandbox-EndsAttested ls w (later ∙ ap some same) good in
      (l ∷ before, m, after, ap (λ t. l ∷ t) form, says, quiet)
]

-- An accepted pass has a header whose last word on the sandbox is read-only; a header that says
-- nothing about it is refused as silent, whatever the rest of the output says.
pub assert_attested_read_only-header :
    (text : String)
    → (assert_attested_read_only text ≡ ok tt → EndsAttested (header (split_lines [] (codes text))))
      × (all is_silent (header (split_lines [] (codes text))) ≡ true
          → assert_attested_read_only text ≡ err silent)
unfolding assert_attested_read_only parse_codex_output parse_lines
assert_attested_read_only-header text = (
  λ accepted. elim (Option-cases (last_sandbox (header (split_lines [] (codes text))))) [
    | inl quiet ↦ absurd (ground arith)
    | inr (w, named) ↦ last_sandbox-EndsAttested _ w named (ground arith)
  ],
  λ quiet. ground (arith, silent-last_sandbox (header (split_lines [] (codes text))) quiet),
)

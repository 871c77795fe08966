-- ===== src/ReviewHarness/Catalogue/History.antt =====
-- What a restored state says of the run: `restore`, `resume_round` and `current_round` of runcat.py.
use semantics_toolchain.Json.{Value}
use semantics_toolchain.Prelude.{
  ℕ, suc, ◌+◌, ◌≤◌, String, true, false, Option, none, some, List, [], ◌∷◌, length, ◌≡◌, refl, sym,
  ap, ◌∙◌, arith, ok, >>=-eq-ok, ok_inj, require, All, ◌⊎◌, inl, inr, Bool-cases, eqb, eqb_iff, ◌<◌,
}
use semantics_toolchain.Access.{is_member}
use semantics_toolchain.ReviewHarness.Catalogue.Files.{
  Directory, pass, outcomes, exists, description, no_description_file, launch_note,
  no_launch_note_file, gate_requests, gate_answers,
}
use semantics_toolchain.ReviewHarness.Catalogue.Meta.{load_meta}
use semantics_toolchain.ReviewHarness.Catalogue.Numbers.{insert, sorted, count_from, first}
use semantics_toolchain.ReviewHarness.Catalogue.Ranges.{
  is_range-sorted, is_member-sorted, All-member, all_before, one_after, last_round-count_from,
}
use semantics_toolchain.ReviewHarness.Catalogue.Restoring.{
  RunState, waiting_rounds, resume_round, current_round, restore_history, restore_gates, restore,
  round_numbers,
}
use semantics_toolchain.ReviewHarness.Catalogue.Checks.{
  IsPrefix, range_member, restore_history-IsPrefix, restore_gates-open,
}

none_inside : (xs : List ℕ) → All (λ y. ⊥) xs → xs ≡ []
none_inside [] h = refl
none_inside (x ∷ xs) h = absurd h.0

-- The round that is running, in a history of k completed rounds: it is round k + 1, with or without
-- its pass.
abbrev pub Running : RunState → ℕ → Type 0
Running s k =
    ((s.rounds_with_pass ≡ count_from 1 k) × (resume_round s ≡ none) × (s.pending_gate_rounds ≡ []))
    ⊎ ((s.rounds_with_pass ≡ count_from 1 (suc k))
        × (resume_round s ≡ some (suc k))
        × All (λ y. y ≡ suc k) s.pending_gate_rounds)

waiting-all :
    (s : RunState) (k : ℕ)
    → s.rounds_with_pass ≡ count_from 1 k
    → s.rounds_with_outcomes ≡ count_from 1 k
    → waiting_rounds s ≡ []
unfolding waiting_rounds
waiting-all s k p o = rw (p, o) (all_before k 0 k (omega arith))

waiting-one :
    (s : RunState) (k : ℕ)
    → s.rounds_with_pass ≡ count_from 1 (suc k)
    → s.rounds_with_outcomes ≡ count_from 1 k
    → waiting_rounds s ≡ suc k ∷ []
unfolding waiting_rounds
waiting-one s k p o = rw (p, o) (one_after k 0 k (omega arith))

current-all :
    (s : RunState) (k : ℕ)
    → s.rounds_with_pass ≡ count_from 1 k
    → s.rounds_with_outcomes ≡ count_from 1 k
    → current_round s ≡ suc k
unfolding current_round
current-all s k p o =
    rw (p, o, all_before k 0 k (omega arith))
      (ap (λ m. m + 1) (last_round-count_from k) ∙ omega arith)

current-one :
    (s : RunState) (k : ℕ)
    → s.rounds_with_pass ≡ count_from 1 (suc k)
    → s.rounds_with_outcomes ≡ count_from 1 k
    → current_round s ≡ suc k
unfolding current_round
current-one s k p o =
    rw (p, o, one_after k 0 k (omega arith))
      (ap (λ m. m + 0) (last_round-count_from (suc k)) ∙ omega arith)

resume-none : (s : RunState) → waiting_rounds s ≡ [] → resume_round s ≡ none
unfolding resume_round sorted first
resume-none s w = rw w refl

resume-some : (s : RunState) (n : ℕ) → waiting_rounds s ≡ n ∷ [] → resume_round s ≡ some n
unfolding resume_round sorted first insert
resume-some s n w = rw w refl

-- A state whose lists are a prefix and a history with at most one open round.
running :
    (s : RunState) (k n : ℕ)
    → s.rounds_with_pass ≡ count_from 1 n
    → s.rounds_with_outcomes ≡ count_from 1 k
    → k ≤ n
    → n ≤ k + 1
    → ((y : ℕ) → is_member y s.pending_gate_rounds ≡ true → (k < y) × (y ≤ n))
    → Running s k × (current_round s ≡ suc k)
running s k n p o low high hanging = elim (Bool-cases (eqb n k)) [
  | inl all_done ↦
      let n_eq : n ≡ k = (eqb_iff n k).0 all_done in
      let pk = p ∙ ap (count_from 1) n_eq in
      let w = waiting-all s k pk o in
      (
        inl (
          pk,
          resume-none s w,
          none_inside _ (All-member _ (λ y here. absurd (omega (arith, hanging y here, n_eq)))),
        ),
        current-all s k pk o,
      )
  | inr not_all ↦
      let n_eq : n ≡ suc k = ground arith in
      let pk = p ∙ ap (count_from 1) n_eq in
      let w = waiting-one s k pk o in
      (
        inr (
          pk,
          resume-some s (suc k) w,
          All-member _ (λ y here. omega (arith, hanging y here, n_eq)),
        ),
        current-one s k pk o,
      )
]

-- The lists that `restore` puts into its state, sorted.
sorted-Running :
    (s : RunState) (passes done hanging : List ℕ)
    → IsPrefix passes done
    → ((y : ℕ)
        → is_member y hanging ≡ true
        → (is_member y passes ≡ true) × (is_member y done ≡ false))
    → s.rounds_with_pass ≡ sorted passes
    → s.rounds_with_outcomes ≡ sorted done
    → s.pending_gate_rounds ≡ sorted hanging
    → (k : ℕ) × (s.rounds_with_outcomes ≡ count_from 1 k) × (current_round s ≡ suc k) × Running s k
sorted-Running s passes done hanging r open_only p o g =
    let range_n = p ∙ is_range-sorted passes r.passes_range in
    let range_k = o ∙ is_range-sorted done r.completed_range in
    let bounds : (y : ℕ)
        → is_member y s.pending_gate_rounds ≡ true
        → (length done < y) × (y ≤ length passes) =
      λ y here.
        let (old, new) =
          open_only y (sym (is_member-sorted y hanging) ∙ ap (is_member y) (sym g) ∙ here) in
        (
          ground
              (arith, range_member passes r.passes_range y, range_member done r.completed_range y),
          ground (arith, range_member passes r.passes_range y),
        ) in
    let (state, current) =
      running s (length done) (length passes) range_n range_k r.inside r.one_open bounds in
    (length done, range_k, current, state)

module _ (loads : String → Option Value) where
  -- What is restored is a run of k completed rounds, for some k: their numbers are 1, ..., k, and the
  -- current round is k + 1. Either no other round has a pass, no round is to be resumed and no question
  -- is hanging; or round k + 1 has its pass, the analysis resumes from it, and every hanging question
  -- is of this round.
  pub restore-history :
      (d : Directory) {s : RunState}
      → restore loads d ≡ ok s
      → (k : ℕ) × (s.rounds_with_outcomes ≡ count_from 1 k)
        × (current_round s ≡ suc k)
        × Running s k
  unfolding restore
  restore-history d {s} h =
      let passes = round_numbers pass d in
      let outs = round_numbers outcomes d in
      let requests = round_numbers gate_requests d in
      let answers = round_numbers gate_answers d in
      let (m, run, h1) = >>=-eq-ok (load_meta loads d) _ h in
      let (u1, described, h2) =
        >>=-eq-ok (require (exists description d) no_description_file) _ h1 in
      let (u2, noted, h3) = >>=-eq-ok (require (exists launch_note d) no_launch_note_file) _ h2 in
      let (done, history, h4) = >>=-eq-ok (restore_history loads d passes outs) _ h3 in
      let (hanging, gates, h5) =
        >>=-eq-ok (restore_gates loads d passes done requests answers) _ h4 in
      let made = ok_inj h5 in
      sorted-Running s passes done hanging (restore_history-IsPrefix loads d passes outs history)
        (restore_gates-open loads d passes done requests answers gates)
        (ap (λ (s : RunState). s.rounds_with_pass) (sym made))
        (ap (λ (s : RunState). s.rounds_with_outcomes) (sym made))
        (ap (λ (s : RunState). s.pending_gate_rounds) (sym made))

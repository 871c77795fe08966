-- ===== src/ReviewHarness/Catalogue/Checks.antt =====
-- What the checks of `restore` of runcat.py say of the rounds.
use semantics_toolchain.Json.{Value}
use semantics_toolchain.Prelude.{
  ℕ, ◌+◌, ◌≤◌, String, Bool, true, false, not, ◌&&◌, Option, List, [], ◌∷◌, ◌++◌, length, filter,
  is_empty, ltb, leb, ◌≡◌, refl, sym, ap, ◌∙◌, subst, arith, ok, >>=-eq-ok, ok_inj, require,
  require-eq-ok, none-kept,
}
use semantics_toolchain.Access.{is_member}
use semantics_toolchain.ReviewHarness.Catalogue.Files.{
  Directory, orphan_outcomes, holes, not_prefix, completed_not_prefix, several_incomplete,
  stale_gates, alien_gates,
}
use semantics_toolchain.ReviewHarness.Catalogue.Numbers.{is_range, keep_if}
use semantics_toolchain.ReviewHarness.Catalogue.Ranges.{
  is_range-sorted, is_member-sorted, is_member-count_from, member-All, is_member-keep_if,
}
use semantics_toolchain.ReviewHarness.Catalogue.Restoring.{
  completed_rounds, restore_history, restore_gates, check_outcomes, check_passes, check_completed,
  is_pending, check_answers,
}

empty-eq : (xs : List ℕ) → is_empty xs ≡ true → xs ≡ []
empty-eq [] h = refl
empty-eq (x ∷ xs) h = cc

-- A test that keeps nothing fails at every member.
none_kept :
    (p : ℕ → Bool) (xs : List ℕ)
    → is_empty (filter p xs) ≡ true
    → (y : ℕ) → is_member y xs ≡ true
    → p y ≡ false
none_kept p xs h = member-All (λ y. p y ≡ false) xs (none-kept p xs (empty-eq (filter p xs) h))

of_not : (b : Bool) → not b ≡ false → b ≡ true
of_not b h = ground arith

is_member-append : (y : ℕ) (xs ys : List ℕ) → is_member y xs ≡ true → is_member y (xs ++ ys) ≡ true
unfolding is_member
is_member-append y [] ys h = absurd cc
is_member-append y (x ∷ xs) ys h = ground (arith, is_member-append y xs ys)

-- The numbers that make a range are those between its ends.
pub range_member :
    (xs : List ℕ)
    → is_range xs ≡ true
    → (y : ℕ) → is_member y xs ≡ (leb 1 y && ltb y (1 + length xs))
range_member xs h y =
    sym (is_member-sorted y xs)
    ∙ ap (is_member y) (is_range-sorted xs h)
    ∙ is_member-count_from y 1 (length xs)

-- The completed rounds are the first ones, and at most one round with a pass is not among them.
pub record IsPrefix (passes completed : List ℕ) : Type 0 where
  pub passes_range : is_range passes ≡ true
  pub completed_range : is_range completed ≡ true
  pub inside : length completed ≤ length passes
  pub one_open : length passes ≤ length completed + 1

shorter :
    (passes completed : List ℕ)
    → is_range passes ≡ true
    → is_range completed ≡ true
    → ((y : ℕ) → is_member y completed ≡ true → is_member y passes ≡ true)
    → length completed ≤ length passes
shorter passes completed ps cs inside =
    let last : is_member (length completed) completed ≡ true → length completed ≤ length passes =
      λ here.
        ground (arith, range_member passes ps (length completed), inside (length completed) here) in
    ground (arith, range_member completed cs (length completed), last)

module _ (loads : String → Option Value) where
  pub restore_history-IsPrefix :
      (d : Directory) (passes outs : List ℕ) {completed : List ℕ}
      → restore_history loads d passes outs ≡ ok completed
      → IsPrefix passes completed
  unfolding restore_history completed_rounds
  restore_history-IsPrefix d passes outs {completed} h =
      let (u1, bodies, h1) = >>=-eq-ok (check_outcomes d outs) _ h in
      let (u2, orphans, h2) = >>=-eq-ok (require _ orphan_outcomes) _ h1 in
      let (u3, range, h3) = >>=-eq-ok (require (is_range passes) holes) _ h2 in
      let (u4, outs_range, h4) = >>=-eq-ok (require (is_range outs) not_prefix) _ h3 in
      let (u5, metas, h5) = >>=-eq-ok (check_passes loads d passes) _ h4 in
      let (u6, marks, h6) = >>=-eq-ok (check_completed loads d outs passes) _ h5 in
      let (done, kept, h7) = >>=-eq-ok (completed_rounds loads d outs) _ h6 in
      let (u8, done_range, h8) = >>=-eq-ok (require (is_range done) completed_not_prefix) _ h7 in
      let (u9, few, h9) = >>=-eq-ok (require _ several_incomplete) _ h8 in
      let in_outs = is_member-keep_if _ outs kept in
      let in_passes : (y : ℕ) → is_member y done ≡ true → is_member y passes ≡ true = λ y here.
        of_not _ (
          none_kept (λ r. not (is_member r passes)) outs (require-eq-ok _ _ orphans) y
            (in_outs y here)) in
      let p : is_range passes ≡ true = require-eq-ok _ _ range in
      let c : is_range done ≡ true = require-eq-ok _ _ done_range in
      let not_many : not (ltb (length done + 1) (length passes)) ≡ true = require-eq-ok _ _ few in
      subst (IsPrefix passes) (ok_inj h9) (record {
        passes_range = p;
        completed_range = c;
        inside = shorter passes done p c in_passes;
        one_open = ground (arith, not_many);
      })

  -- A hanging question is of a round with a pass that is not completed.
  pub restore_gates-open :
      (d : Directory) (passes completed requests answers : List ℕ) {pending : List ℕ}
      → restore_gates loads d passes completed requests answers ≡ ok pending
      → (y : ℕ) → is_member y pending ≡ true
      → (is_member y passes ≡ true) × (is_member y completed ≡ false)
  unfolding restore_gates
  restore_gates-open d passes completed requests answers {pending} h y here =
      let (hanging, kept, h1) = >>=-eq-ok (keep_if (is_pending loads d answers) requests) _ h in
      let (u1, stale, h2) = >>=-eq-ok (require _ stale_gates) _ h1 in
      let (u2, alien, h3) = >>=-eq-ok (require _ alien_gates) _ h2 in
      let (u3, answered, h4) = >>=-eq-ok (check_answers loads d requests answers) _ h3 in
      let member : is_member y hanging ≡ true =
        subst (λ l. is_member y l ≡ true) (sym (ok_inj h4)) here in
      let asked = is_member-keep_if _ requests kept y member in
      (
        of_not _ (
            none_kept (λ r. not (is_member r passes)) (requests ++ answers)
              (require-eq-ok _ _ alien) y (is_member-append y requests answers asked)),
        none_kept (λ r. is_member r completed) hanging (require-eq-ok _ _ stale) y member,
      )

-- ===== src/ReviewHarness/Catalogue/Naming.antt =====
-- The names of a round's files, made and read: the f-strings and the regular expressions of runcat.py.
use semantics_toolchain.Prelude.{
  ℕ, zero, suc, ◌+◌, ◌*◌, ◌/◌, ◌%◌, ◌≤◌, true, false, not, some, List, [], ◌∷◌, ◌++◌, length,
  length-append, ltb, ◌≡◌, refl, sym, ap, ◌∙◌, subst, arith, Bool-cases, inl, inr,
}
use semantics_toolchain.ReviewHarness.Catalogue.Files.{
  Part, pass, pass_meta, outcomes, gate_requests, gate_answers, number_from, digits_of, two_digits,
  round_file, match_round, same_part,
}

number_from-snoc :
    (a : ℕ) (xs : List ℕ) (d : ℕ) → number_from a (xs ++ d ∷ []) ≡ number_from a xs * 10 + d
unfolding number_from
number_from-snoc a [] d = refl
number_from-snoc a (x ∷ xs) d = number_from-snoc (a * 10 + x) xs d

-- The digits of a number below 10, and of one that is not.
digits-small : (f n : ℕ) → ltb n 10 ≡ true → digits_of (suc f) n ≡ n ∷ []
unfolding digits_of
digits-small f n h = rw h refl

digits-large :
    (f n : ℕ) → ltb n 10 ≡ false → digits_of (suc f) n ≡ digits_of f (n / 10) ++ n % 10 ∷ []
unfolding digits_of
digits-large f n h = rw h refl

-- As much fuel as the number is enough.
number_from-digits_of : (fuel n : ℕ) → n ≤ fuel → 1 ≤ fuel → number_from 0 (digits_of fuel n) ≡ n
unfolding number_from
number_from-digits_of zero n h k = absurd (omega (arith, k))
number_from-digits_of (suc f) n h k = elim (Bool-cases (ltb n 10)) [
  | inl small ↦ ap (number_from 0) (digits-small f n small) ∙ omega arith
  | inr large ↦
      let rest : number_from 0 (digits_of f (n / 10)) ≡ n / 10 =
        number_from-digits_of f (n / 10) (ground arith) (ground arith) in
      ap (number_from 0) (digits-large f n large)
      ∙ number_from-snoc 0 (digits_of f (n / 10)) (n % 10)
      ∙ omega (arith, rest)
]

length-digits_of : (fuel n : ℕ) → 1 ≤ fuel → 1 ≤ length (digits_of fuel n)
length-digits_of zero n k = absurd (omega (arith, k))
length-digits_of (suc f) n k = elim (Bool-cases (ltb n 10)) [
  | inl small ↦ subst (λ l. 1 ≤ length l) (sym (digits-small f n small)) (omega arith)
  | inr large ↦
      subst (λ l. 1 ≤ length l) (sym (digits-large f n large))
        (omega (arith, length-append (digits_of f (n / 10)) (n % 10 ∷ [])))
]

length-large : (n : ℕ) → ltb n 10 ≡ false → 2 ≤ length (digits_of n n)
length-large zero h = absurd (ground arith)
length-large (suc f) h =
    subst (λ l. 2 ≤ length l) (sym (digits-large f (suc f) h))
      (omega (
        arith,
        length-append (digits_of f (suc f / 10)) (suc f % 10 ∷ []),
        length-digits_of f (suc f / 10) (ground arith),
      ))

two_digits-small : (n : ℕ) → ltb n 10 ≡ true → two_digits n ≡ 0 ∷ n ∷ []
unfolding two_digits
two_digits-small n h = rw h refl

two_digits-large : (n : ℕ) → ltb n 10 ≡ false → two_digits n ≡ digits_of n n
unfolding two_digits
two_digits-large n h = rw h refl

number_from-two_digits : (n : ℕ) → number_from 0 (two_digits n) ≡ n
unfolding number_from
number_from-two_digits n = elim (Bool-cases (ltb n 10)) [
  | inl small ↦ ap (number_from 0) (two_digits-small n small) ∙ omega arith
  | inr large ↦
      ap (number_from 0) (two_digits-large n large)
      ∙ number_from-digits_of n n (omega arith) (ground arith)
]

length-two_digits : (n : ℕ) → 2 ≤ length (two_digits n)
length-two_digits n = elim (Bool-cases (ltb n 10)) [
  | inl small ↦ subst (λ l. 2 ≤ length l) (sym (two_digits-small n small)) (omega arith)
  | inr large ↦ subst (λ l. 2 ≤ length l) (sym (two_digits-large n large)) (length-large n large)
]

same_part_refl : (p : Part) → same_part p p ≡ true
unfolding same_part
same_part_refl pass = refl
same_part_refl pass_meta = refl
same_part_refl outcomes = refl
same_part_refl gate_requests = refl
same_part_refl gate_answers = refl

-- The name that a round's file is given is read back as the number of that round, however many digits
-- the number has.
pub match_round-round_file : (p : Part) (n : ℕ) → match_round p (round_file p n) ≡ some n
unfolding match_round round_file
match_round-round_file p n =
    let long : not (ltb (length (two_digits n)) 2) ≡ true = ground (arith, length-two_digits n) in
    rw (same_part_refl p, long) (ap some (number_from-two_digits n))

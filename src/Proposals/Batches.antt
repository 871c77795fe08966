-- ===== src/Proposals/Batches.antt =====
-- Lemmas on `order_proposals` of proposals.py.
use semantics_toolchain.Prelude.{
  All-imp, none-kept, List-cases, filter-All, All-filter, length-disjoint, All-zip, All-append, All,
  ℕ, zero, suc, ◌+◌, ◌≤◌, true, false, none, some, List, [], ◌∷◌, ◌++◌, ◌≡◌, refl, sym, subst, inl,
  inr, arith, length, filter, length-append, Result, ok, err, ◌>>=◌, eqb_iff, ◌||◌,
}
use mathlib.Core.List.{cons≢nil, map-append}
use semantics_toolchain.Prelude.{◌≢◌}
use semantics_toolchain.Access.{is_member}
use semantics_toolchain.Proposals.Staged.{ProposalError, circular}
use semantics_toolchain.Proposals.Ordering.{Pending, pending_id, ids, is_ready, is_left, rounds}
use semantics_toolchain.Proposals.Emitting.{
  is_member-append, Covers, ready-taken, left-or-taken, filter-Covers, ParentsFirst,
  ParentsFirst-append, taken, rounds-stuck, rounds-next,
}

ids-append : (xs ys : List Pending) → ids (xs ++ ys) ≡ ids xs ++ ids ys
ids-append xs ys = map-append pending_id xs ys

-- What a run of the loop gives: an order, or entries each of which waits for another of them.
pub record IsOrdered (emitted : List ℕ) (es out : List Pending) : Type 1 where
  pub first : (known : List ℕ) → Covers known emitted → ParentsFirst known out
  pub complete : Covers (ids out) (ids es)
  pub sound : Covers (ids es) (ids out)
  pub at_most : length out ≤ length es
  pub keeps : (Q : Pending → Type 0) → All Q es → All Q out

pub record IsStuck (es stuck : List Pending) : Type 1 where
  pub some_left : stuck ≢ []
  pub within : Covers (ids es) (ids stuck)
  pub waiting : All (λ e. (d : ℕ) × (e.1 ≡ some d) × (is_member d (ids stuck) ≡ true)) stuck
  pub keeps : (Q : Pending → Type 0) → All Q es → All Q stuck

abbrev pub Outcome : List ℕ → List Pending → Result ProposalError (List Pending) → Type 1
Outcome emitted es (ok out) = IsOrdered emitted es out
Outcome emitted es (err x) = (x ≡ circular) × (stuck : List Pending) × IsStuck es stuck

-- A dependency of an entry that is left is put out already or left as well.
abbrev pub Closed : List ℕ → List Pending → Pending → Type 0
Closed emitted es e = (d : ℕ) → e.1 ≡ some d → (is_member d emitted || is_member d (ids es)) ≡ true

waits-for :
    (emitted : List ℕ) (es : List Pending) (e : Pending)
    → Closed emitted es e
    → is_ready emitted e ≡ false
    → (d : ℕ) × (e.1 ≡ some d) × (is_member d (ids es) ≡ true)
waits-for emitted es (p, none) c h = absurd (ground arith)
waits-for emitted es (p, some d) c h = (d, refl, ground (arith, c d refl))

filter-left :
    (known : List ℕ) (es : List Pending) (i : ℕ)
    → is_member i (ids (filter (is_left known) es)) ≡ true
    → is_member i known ≡ false
unfolding is_member
filter-left known [] i h = cc
filter-left known (e ∷ es) i h = ground (arith, filter-left known es i, eqb_iff e.0.id i)

module _ (emitted : List ℕ) (es : List Pending) where
  stuck-Outcome :
      es ≢ []
      → All (Closed emitted es) es
      → filter (is_ready emitted) es ≡ []
      → Outcome emitted es (err circular)
  stuck-Outcome some_left closed none_ready = (
    refl,
    es,
    record {
      some_left = some_left;
      within = λ i m. m;
      waiting =
          All-zip es (waits-for emitted es) closed (none-kept (is_ready emitted) es none_ready);
      keeps = λ Q h. h;
    },
  )

  module _ (rs : List Pending) (split : filter (is_ready emitted) es ≡ rs) where
    abbrev left : List Pending
    left = filter (is_left (taken emitted rs)) es

    length-round : length rs + length left ≤ length es
    length-round =
        subst (λ l. length l + length left ≤ length es) split
          (length-disjoint (is_ready emitted) (is_left (taken emitted rs)) es (
            ready-taken emitted (taken emitted rs) es
              (λ i m. ground (arith, is_member-append i (ids rs) emitted, split))))

    next-Closed : All (Closed emitted es) es → All (Closed (taken emitted rs) left) left
    next-Closed closed =
        All-filter (Closed (taken emitted rs) left) (is_left (taken emitted rs)) es (
          All-imp es
            (λ e c d at. ground (
              arith,
              c d at,
              left-or-taken (taken emitted rs) d es,
              is_member-append d (ids rs) emitted,
            ))
            closed)

    next-IsOrdered :
        ((i : ℕ) → is_member i (ids es) ≡ true → is_member i emitted ≡ false)
        → (rest : List Pending) → IsOrdered (taken emitted rs) left rest
        → IsOrdered emitted es (rs ++ rest)
    next-IsOrdered fresh rest o = record {
      first = λ known c.
          ParentsFirst-append emitted known rs rest
            (subst (All (λ e. is_ready emitted e ≡ true)) split (filter-All (is_ready emitted) es))
            c
            (λ more d. o.first more (λ i m. d i (
              ground (
                arith,
                c i,
                is_member-append i (ids rs) emitted,
                is_member-append i (ids rs) known,
              ))));
      complete = λ i m. rw (ids-append rs rest) (
          ground (
            arith,
            fresh i m,
            left-or-taken (taken emitted rs) i es m,
            is_member-append i (ids rs) emitted,
            is_member-append i (ids rs) (ids rest),
            o.complete i,
          ));
      sound = λ i m. ground (
        arith,
        ids-append rs rest,
        is_member-append i (ids rs) (ids rest),
        o.sound i,
        filter-Covers (is_left (taken emitted rs)) es i,
        filter-Covers (is_ready emitted) es i,
        split,
      );
      at_most = omega (arith, length-append rs rest, o.at_most, length-round);
      keeps = λ Q h.
          All-append Q rs rest (subst (All Q) split (All-filter Q (is_ready emitted) es h))
            (o.keeps Q (All-filter Q (is_left (taken emitted rs)) es h));
    }

    next-Outcome :
        ((i : ℕ) → is_member i (ids es) ≡ true → is_member i emitted ≡ false)
        → (r : Result ProposalError (List Pending)) → Outcome (taken emitted rs) left r
        → Outcome emitted es (r >>= λ rest. ok (rs ++ rest))
    next-Outcome fresh (ok rest) o = next-IsOrdered fresh rest o
    next-Outcome fresh (err x) (e, stuck, s) = (
      e,
      stuck,
      record {
        some_left = s.some_left;
        within = λ i m. filter-Covers (is_left (taken emitted rs)) es i (s.within i m);
        waiting = s.waiting;
        keeps = λ Q h. s.keeps Q (All-filter Q (is_left (taken emitted rs)) es h);
      },
    )

pub rounds-Outcome :
    (fuel : ℕ) (emitted : List ℕ) (es : List Pending)
    → length es ≤ fuel
    → ((i : ℕ) → is_member i (ids es) ≡ true → is_member i emitted ≡ false)
    → All (Closed emitted es) es
    → Outcome emitted es (rounds fuel emitted es)
unfolding rounds
rounds-Outcome fuel emitted [] enough fresh closed = record {
  first = λ known c. tt;
  complete = λ i m. m;
  sound = λ i m. m;
  at_most = omega arith;
  keeps = λ Q h. h;
}
rounds-Outcome zero emitted (e ∷ es) enough fresh closed = absurd (omega (arith, enough))
rounds-Outcome (suc fuel) emitted (e ∷ es) enough fresh closed =
    elim (List-cases (filter (is_ready emitted) (e ∷ es))) [
      | inl none_ready ↦
          subst (Outcome emitted (e ∷ es)) (sym (rounds-stuck fuel emitted e es none_ready))
            (stuck-Outcome emitted (e ∷ es) cons≢nil closed none_ready)
      | inr (r, rs, split) ↦
          subst (Outcome emitted (e ∷ es)) (sym (rounds-next fuel emitted e es r rs split)) (
            next-Outcome emitted (e ∷ es) (r ∷ rs) split fresh
              (rounds fuel (taken emitted (r ∷ rs)) (left emitted (e ∷ es) (r ∷ rs) split))
              (rounds-Outcome fuel (taken emitted (r ∷ rs)) (left emitted (e ∷ es) (r ∷ rs) split)
                (omega (arith, length-round emitted (e ∷ es) (r ∷ rs) split, enough))
                (filter-left (taken emitted (r ∷ rs)) (e ∷ es))
                (next-Closed emitted (e ∷ es) (r ∷ rs) split closed)))
    ]

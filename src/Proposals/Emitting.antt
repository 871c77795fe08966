-- ===== src/Proposals/Emitting.antt =====
-- Lemmas on one round of `order_proposals` of proposals.py.
use semantics_toolchain.Prelude.{
  All, ℕ, suc, Bool, true, false, Option, none, some, List, [], ◌∷◌, ◌++◌, ◌≡◌, refl, inl, inr,
  arith, filter, Bool-cases, ok, err, ◌>>=◌, eqb_iff, ◌||◌,
}
use semantics_toolchain.Access.{is_member}
use semantics_toolchain.Proposals.Staged.{circular}
use semantics_toolchain.Proposals.Ordering.{Pending, ids, in_batch, is_ready, is_left, rounds}

pub is_member-append :
    (i : ℕ) (xs ys : List ℕ) → is_member i (xs ++ ys) ≡ (is_member i xs || is_member i ys)
unfolding is_member
is_member-append i [] ys = refl
is_member-append i (x ∷ xs) ys = ground (arith, is_member-append i xs ys)

-- `known` covers `more`.
abbrev pub Covers : List ℕ → List ℕ → Type 0
Covers known more = (i : ℕ) → is_member i more ≡ true → is_member i known ≡ true

pub ready-taken :
    (emitted taken : List ℕ) (es : List Pending)
    → Covers taken (ids (filter (is_ready emitted) es))
    → All (λ (e : Pending). is_ready emitted e ≡ true → is_left taken e ≡ false) es
unfolding is_member
ready-taken emitted taken [] h = tt
ready-taken emitted taken (e ∷ es) h = elim (Bool-cases (is_ready emitted e)) [
  | inl ready ↦
      (λ r. ground (arith, h e.0.id), ready-taken emitted taken es (λ i m. ground (arith, h i)))
  | inr waits ↦
      (λ r. absurd (ground arith), ready-taken emitted taken es (λ i m. ground (arith, h i)))
]

pub left-or-taken :
    (taken : List ℕ) (i : ℕ) (es : List Pending)
    → is_member i (ids es) ≡ true
    → (is_member i taken || is_member i (ids (filter (is_left taken) es))) ≡ true
unfolding is_member
left-or-taken taken i [] h = cc
left-or-taken taken i (e ∷ es) h = ground (arith, left-or-taken taken i es, eqb_iff e.0.id i)

pub filter-Covers : (p : Pending → Bool) (es : List Pending) → Covers (ids es) (ids (filter p es))
unfolding is_member
filter-Covers p [] i h = h
filter-Covers p (e ∷ es) i h = ground (arith, filter-Covers p es i)

-- Each entry stands after the one that it depends on, if it depends on one.
abbrev pub ParentsFirst : List ℕ → List Pending → Type 0
ParentsFirst known [] = Unit
ParentsFirst known (e ∷ es) = (in_batch known e.1 ≡ true) × ParentsFirst (e.0.id ∷ known) es

pub in_batch-Covers :
    (known more : List ℕ) (d : Option ℕ)
    → Covers known more
    → in_batch more d ≡ true
    → in_batch known d ≡ true
in_batch-Covers known more none c h = refl
in_batch-Covers known more (some d) c h = c d h

pub ParentsFirst-append :
    (emitted known : List ℕ) (rs rest : List Pending)
    → All (λ e. is_ready emitted e ≡ true) rs
    → Covers known emitted
    → ((more : List ℕ) → Covers more (ids rs ++ known) → ParentsFirst more rest)
    → ParentsFirst known (rs ++ rest)
unfolding is_member
ParentsFirst-append emitted known [] rest ready c k = k known (λ i m. m)
ParentsFirst-append emitted known (r ∷ rs) rest ready c k = (
  in_batch-Covers known emitted r.1 c ready.0,
  ParentsFirst-append emitted (r.0.id ∷ known) rs rest ready.1 (λ i m. ground (arith, c i))
      (λ more d. k more (λ i m. d i (
        ground (
          arith,
          is_member-append i (ids rs) (r.0.id ∷ known),
          is_member-append i (ids rs) known,
        )))),
)

-- The ids that a round has put out, and the entries that it leaves.
abbrev pub taken : List ℕ → List Pending → List ℕ
taken emitted rs = ids rs ++ emitted

module _ (fuel : ℕ) (emitted : List ℕ) (e : Pending) (es : List Pending) where
  pub rounds-stuck :
      filter (is_ready emitted) (e ∷ es) ≡ [] → rounds (suc fuel) emitted (e ∷ es) ≡ err circular
  unfolding rounds
  rounds-stuck h = rw (rounds, h) refl

  pub rounds-next :
      (r : Pending) (rs : List Pending)
      → filter (is_ready emitted) (e ∷ es) ≡ r ∷ rs
      → rounds (suc fuel) emitted (e ∷ es) ≡ (
          rounds fuel (taken emitted (r ∷ rs)) (filter (is_left (taken emitted (r ∷ rs))) (e ∷ es))
          >>= λ rest. ok ((r ∷ rs) ++ rest))
  unfolding rounds
  rounds-next r rs h = rw (rounds, h) refl

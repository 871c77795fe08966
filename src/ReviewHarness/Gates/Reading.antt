-- ===== src/ReviewHarness/Gates/Reading.antt =====
-- Lemmas on `_read_yes_no` of gates.py.
use semantics_toolchain.Prelude.{
  ℕ, String, Bool, true, false, not, none, some, List, [], ◌∷◌, ◌≡◌, ◌≢◌, refl, arith, inl, inr,
  ◌&&◌, ◌||◌, any, all, is_empty, Bool-cases, codes,
}
use semantics_toolchain.ReviewHarness.Gates.Words.{
  words_of, one_of, is_ne, collapse, is_negative, is_plain, verdict, has_question, read_yes_no,
  consent_after_ne,
}

-- A word of the idioms of agreement.
abbrev is_idiom : List ℕ → Bool
is_idiom w = is_ne w || one_of consent_after_ne w

-- A word of refusal by itself, and a word that the vocabulary does not hold.
abbrev pub is_refusal : List ℕ → Bool
is_refusal w = is_negative w && not (is_ne w || one_of consent_after_ne w)

abbrev pub is_foreign : List ℕ → Bool
is_foreign w = not (is_plain w) && not (is_ne w || one_of consent_after_ne w)

collapse-idiom :
    (w v : List ℕ) (ws : List (List ℕ))
    → (is_ne w && one_of consent_after_ne v) ≡ true
    → collapse (w ∷ v ∷ ws) ≡ codes "да" ∷ collapse ws
unfolding collapse
collapse-idiom w v ws e = rw (e, collapse) refl

collapse-free :
    (w v : List ℕ) (ws : List (List ℕ))
    → (is_ne w && one_of consent_after_ne v) ≡ false
    → collapse (w ∷ v ∷ ws) ≡ w ∷ collapse (v ∷ ws)
unfolding collapse
collapse-free w v ws e = rw (e, collapse) refl

collapse-one : (w : List ℕ) → collapse (w ∷ []) ≡ w ∷ []
unfolding collapse
collapse-one w = refl

-- A word outside the idioms stays where the idioms are collapsed.
any-collapse :
    (test : List ℕ → Bool) (ws : List (List ℕ))
    → any (λ w. test w && not (is_idiom w)) ws ≡ true
    → any test (collapse ws) ≡ true
any-collapse test [] h = absurd (ground arith)
any-collapse test (w ∷ []) h = rw (collapse-one w) (ground arith)
any-collapse test (w ∷ v ∷ ws) h = elim (Bool-cases (is_ne w && one_of consent_after_ne v)) [
  | inl idiom ↦ rw (collapse-idiom w v ws idiom) (ground (arith, any-collapse test ws))
  | inr free ↦ rw (collapse-free w v ws free) (ground (arith, any-collapse test (v ∷ ws)))
]

any-nonempty :
    (test : List ℕ → Bool) (ws : List (List ℕ)) → any test ws ≡ true → is_empty ws ≡ false
any-nonempty test [] h = cc
any-nonempty test (w ∷ ws) h = refl

verdict-negative : (ws : List (List ℕ)) → any is_negative ws ≡ true → verdict ws ≡ some false
unfolding verdict
verdict-negative ws h = ground arith

all-not-any :
    (test : List ℕ → Bool) (ws : List (List ℕ))
    → any (λ w. not (test w)) ws ≡ true
    → all test ws ≡ false
all-not-any test [] h = cc
all-not-any test (w ∷ ws) h = ground (arith, all-not-any test ws)

verdict-foreign : (ws : List (List ℕ)) → all is_plain ws ≡ false → verdict ws ≢ some true
unfolding verdict
verdict-foreign ws h e = ground arith

-- An answer with a question mark is not read at all; otherwise one word of refusal makes it a no,
-- whatever else it says, and one word outside the vocabulary keeps it from being a yes.
pub read_yes_no-words :
    (answer : String)
    → (has_question answer ≡ true → read_yes_no answer ≡ none)
      × (has_question answer ≡ false
          → any is_refusal (words_of answer) ≡ true
          → read_yes_no answer ≡ some false)
      × (any is_foreign (words_of answer) ≡ true → read_yes_no answer ≢ some true)
unfolding read_yes_no
read_yes_no-words answer = (
  λ asked. rw asked refl,
  λ plain refusal.
      let some_words = any-nonempty is_refusal (words_of answer) refusal in
      rw (plain, some_words)
        (verdict-negative (collapse (words_of answer))
          (any-collapse is_negative (words_of answer) refusal)),
  λ foreign yes_read.
      let kept = any-collapse (λ w. not (is_plain w)) (words_of answer) foreign in
      let unread = verdict-foreign (collapse (words_of answer)) (all-not-any is_plain _ kept) in
      ground (arith, unread),
)

-- ===== src/Scheduler/Reasoning/Wrapping.antt =====
-- Lemmas on `_strip_json_fences` of reasoning.py for an answer that is fenced.
use mathlib.Core.List.{reverse, reverse-append, reverse-reverse, append_assoc}
use semantics_toolchain.Prelude.{
  ℕ, Bool, true, false, List, [], ◌∷◌, ◌++◌, ◌≡◌, refl, sym, ap, ◌∙◌, inl, inr, arith, eqb, all,
  not, is_prefix, is_white, strip, drop_while, Bool-cases,
}
use semantics_toolchain.Scheduler.Reasoning.Fences.{
  fence, newline, after_newline, strip_right, drop, ends_with, drop_last, without_closing,
  without_fences, strip_json_fences,
}

newline-is_white : is_white newline ≡ true
unfolding is_white
newline-is_white = refl

-- One more white character at the end.
drop_while-snoc :
    (p : ℕ → Bool) (t : List ℕ) (w : ℕ)
    → p w ≡ true
    → drop_while p (t ++ w ∷ []) ≡ elim (drop_while p t) [ [] ↦ [] | c ∷ m ↦ c ∷ (m ++ w ∷ []) ]
unfolding drop_while
drop_while-snoc p [] w h = rw h refl
drop_while-snoc p (c ∷ t) w h = elim (Bool-cases (p c)) [
  | inl white ↦ rw white (drop_while-snoc p t w h)
  | inr dark ↦ rw dark refl
]

strip-snoc : (p : ℕ → Bool) (t : List ℕ) (w : ℕ) → p w ≡ true → strip p (t ++ w ∷ []) ≡ strip p t
unfolding strip drop_while
strip-snoc p t w h = after (drop_while p t) (drop_while-snoc p t w h)
  where
    after :
        (d : List ℕ)
        → drop_while p (t ++ w ∷ []) ≡ elim d [ [] ↦ [] | c ∷ m ↦ c ∷ (m ++ w ∷ []) ]
        → strip p (t ++ w ∷ []) ≡ reverse (drop_while p (reverse d))
    after [] e = rw (strip, e) refl
    after (c ∷ m) e =
        rw (strip, e)
          (ap (λ l. reverse (drop_while p l)) (reverse-append (c ∷ m) (w ∷ [])) ∙ rw h refl)

reverse-fence : (t : List ℕ) → reverse (t ++ fence) ≡ fence ++ reverse t
reverse-fence t = reverse-append t fence

-- A text between fences begins and ends with no white space.
strip-fences : (t : List ℕ) → strip is_white (fence ++ (t ++ fence)) ≡ fence ++ (t ++ fence)
unfolding strip drop_while is_white
strip-fences t =
    ap (λ l. reverse (drop_while is_white l))
      (reverse-append fence (t ++ fence) ∙ ap (λ l. l ++ fence) (reverse-fence t))
    ∙ reverse-append fence (reverse t ++ fence)
    ∙ ap (λ l. l ++ fence) (reverse-append (reverse t) fence)
    ∙ ap (λ l. fence ++ (l ++ fence)) (reverse-reverse t)

after_newline-tag :
    (tag rest : List ℕ)
    → all (λ c. not (eqb c newline)) tag ≡ true
    → after_newline (tag ++ newline ∷ rest) ≡ rest
unfolding after_newline
after_newline-tag [] rest h = refl
after_newline-tag (c ∷ tag) rest h = ground (arith, after_newline-tag tag rest)

strip_right-fence : (t : List ℕ) → strip_right (t ++ fence) ≡ t ++ fence
unfolding strip_right drop_while is_white
strip_right-fence t =
    ap (λ l. reverse (drop_while is_white l)) (reverse-fence t)
    ∙ reverse-append fence (reverse t)
    ∙ ap (λ l. l ++ fence) (reverse-reverse t)

without_closing-fence : (t : List ℕ) → without_closing (t ++ fence) ≡ t
unfolding without_closing ends_with drop_last drop is_prefix
without_closing-fence t = rw (strip_right-fence t) (rw (reverse-fence t) (reverse-reverse t))

-- What a model writes around a JSON text: three backquotes, a tag, the text on lines of its own.
abbrev pub fenced : List ℕ → List ℕ → List ℕ
fenced tag body = fence ++ (tag ++ newline ∷ (body ++ newline ∷ fence))

last_line : (body : List ℕ) → body ++ newline ∷ fence ≡ (body ++ newline ∷ []) ++ fence
last_line body = sym (append_assoc body (newline ∷ []) fence)

fenced-strip : (tag body : List ℕ) → strip is_white (fenced tag body) ≡ fenced tag body
fenced-strip tag body =
    let middle = tag ++ newline ∷ (body ++ newline ∷ []) in
    let whole : fenced tag body ≡ fence ++ (middle ++ fence) =
      ap (λ l. fence ++ (tag ++ newline ∷ l)) (last_line body)
      ∙ ap (λ l. fence ++ l) (sym (append_assoc tag (newline ∷ (body ++ newline ∷ [])) fence)) in
    ap (strip is_white) whole ∙ strip-fences middle ∙ sym whole

without_fences-fenced :
    (tag body : List ℕ)
    → all (λ c. not (eqb c newline)) tag ≡ true
    → without_fences (fenced tag body) ≡ body ++ newline ∷ []
unfolding without_fences after_newline is_prefix
without_fences-fenced tag body one_line =
    ap without_closing (after_newline-tag tag (body ++ newline ∷ fence) one_line ∙ last_line body)
    ∙ without_closing-fence (body ++ newline ∷ [])

-- A text with no white space at its ends that does not itself begin with a fence reads back as it
-- is, and also when it is wrapped in fences, on lines of its own under a tag of one line.
pub strip_json_fences-fenced :
    (tag body : List ℕ)
    → all (λ c. not (eqb c newline)) tag ≡ true
    → strip is_white body ≡ body
    → is_prefix fence body ≡ false
    → (strip_json_fences (fenced tag body) ≡ body) × (strip_json_fences body ≡ body)
unfolding strip_json_fences
strip_json_fences-fenced tag body one_line trimmed bare = (
  ap (λ t. strip is_white (without_fences t)) (fenced-strip tag body)
      ∙ ap (strip is_white) (without_fences-fenced tag body one_line)
      ∙ strip-snoc is_white body newline newline-is_white
      ∙ trimmed,
  rw trimmed (rw (bare, without_fences) trimmed),
)

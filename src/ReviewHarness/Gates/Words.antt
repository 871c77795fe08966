-- ===== src/ReviewHarness/Gates/Words.antt =====
-- `_read_yes_no` and its vocabulary. A word is a list of code points.
use semantics_toolchain.Prelude.{
  ℕ, ◌+◌, String, Bool, true, false, not, Option, none, some, List, [], ◌∷◌, ◌++◌, eqb, leb,
  if◌then◌else◌, ◌&&◌, ◌||◌, any, all, is_empty, codes, is_prefix, same_codes, is_infix, is_white,
}

abbrev pub negative_first : List String
negative_first =
    "нет" ∷ "no" ∷ "n" ∷ "не" ∷ "отмена" ∷ "отменяй" ∷ "стоп" ∷ "stop" ∷ "not" ∷ "never" ∷ "nope"
    ∷ "don't" ∷ "dont" ∷ []

abbrev pub affirmative_first : List String
affirmative_first = "да" ∷ "yes" ∷ "y" ∷ "д" ∷ "ага" ∷ "давай" ∷ "конечно" ∷ "точно" ∷ []

abbrev pub affirmative_stems : List String
affirmative_stems = "принима" ∷ "принял" ∷ "подтвержда" ∷ "соглас" ∷ "финализир" ∷ "финализац" ∷ []

abbrev pub consent_after_ne : List String
consent_after_ne = "возражаю" ∷ "против" ∷ "возражаем" ∷ []

abbrev pub empty_words : List String
empty_words =
    "и" ∷ "же" ∷ "ну" ∷ "с" ∷ "со" ∷ "пожалуйста" ∷ "please" ∷ "now" ∷ "сейчас" ∷ "немедленно"
    ∷ "непременно" ∷ "точно" ∷ "конечно" ∷ "давай" ∷ "ага" ∷ "всё" ∷ "все" ∷ "all" ∷ "go" ∷ "ahead"
    ∷ []

-- `.lower()` of the two scripts of the vocabulary: no other letter but the Kelvin sign has a lower
-- case in them, and no word of the vocabulary has a k.
unfoldable pub lower_letter : ℕ → ℕ
lower_letter c =
    if leb b'A' c && leb c b'Z'
    then c + 32
    else if leb 1040 c && leb c 1071
    then c + 32
    else if leb 1024 c && leb c 1039
    then c + 80
    else c

-- `re.sub(r"[,.!;:]", " ", ...)`
unfoldable pub is_punctuation : ℕ → Bool
is_punctuation c = any (λ d. eqb d c) (b',' ∷ b'.' ∷ b'!' ∷ b';' ∷ b':' ∷ [])

unfoldable pub is_separator : ℕ → Bool
unfolding is_white is_punctuation
is_separator c = is_white c || is_punctuation c

-- `.split()`: `word` is what was read of the current word.
unfoldable pub split_words : List ℕ → List ℕ → List (List ℕ)
unfolding is_separator lower_letter
split_words word [] = if is_empty word then [] else word ∷ []
split_words word (c ∷ t) =
    let next = split_words [] t in
    if is_separator c
    then (if is_empty word then next else word ∷ next)
    else split_words (word ++ lower_letter c ∷ []) t

unfoldable pub words_of : String → List (List ℕ)
unfolding split_words
words_of answer = split_words [] (codes answer)

unfoldable pub one_of : List String → List ℕ → Bool
unfolding same_codes
one_of vocabulary w = any (λ s. same_codes w (codes s)) vocabulary

unfoldable pub is_ne : List ℕ → Bool
unfolding same_codes
is_ne w = same_codes w (codes "не")

-- The idioms of agreement: the pair becomes one word of consent.
unfoldable pub collapse : List (List ℕ) → List (List ℕ)
unfolding is_ne one_of
collapse [] = []
collapse (w ∷ []) = w ∷ []
collapse (w ∷ v ∷ ws) = elim (is_ne w && one_of consent_after_ne v) [
  | true ↦ codes "да" ∷ collapse ws
  | false ↦ w ∷ collapse (v ∷ ws)
]

unfoldable pub has_stem : List ℕ → Bool
unfolding is_infix
has_stem w = any (λ s. is_infix (codes s) w) affirmative_stems

unfoldable pub is_negative : List ℕ → Bool
unfolding one_of is_prefix has_stem
is_negative w = one_of negative_first w || (is_prefix (codes "не") w && has_stem w)

unfoldable pub is_consent : List ℕ → Bool
unfolding one_of is_prefix has_stem
is_consent w = one_of affirmative_first w || (has_stem w && not (is_prefix (codes "не") w))

unfoldable pub is_plain : List ℕ → Bool
unfolding is_consent one_of
is_plain w = is_consent w || one_of empty_words w

unfoldable pub verdict : List (List ℕ) → Option Bool
verdict ws =
    if any is_negative ws
    then some false
    else if not (any is_consent ws)
    then none
    else if all is_plain ws
    then some true
    else none

unfoldable pub has_question : String → Bool
has_question answer = any (λ c. eqb c b'?') (codes answer)

unfoldable pub read_yes_no : String → Option Bool
read_yes_no answer =
    if has_question answer
    then none
    else if is_empty (words_of answer)
    then none
    else verdict (collapse (words_of answer))

-- ===== src/Scheduler/Reasoning/Fences.antt =====
-- `_strip_json_fences`, over the code points of the text.
use semantics_toolchain.Prelude.{
  ℕ, zero, suc, Bool, List, [], ◌∷◌, eqb, if◌then◌else◌, is_prefix, is_white, strip, drop_while,
}
use mathlib.Core.List.{reverse}

-- Three backquotes.
abbrev pub fence : List ℕ
fence = b'`' ∷ b'`' ∷ b'`' ∷ []

abbrev pub newline : ℕ
newline = b'\n'

-- `text.split("\n", 1)[1] if "\n" in text else ""`
unfoldable pub after_newline : List ℕ → List ℕ
after_newline [] = []
after_newline (c ∷ t) = if eqb c newline then t else after_newline t

-- `text.rstrip()`
unfoldable pub strip_right : List ℕ → List ℕ
unfolding drop_while is_white
strip_right t = reverse (drop_while is_white (reverse t))

-- `text[n:]`
unfoldable pub drop : ℕ → List ℕ → List ℕ
drop zero t = t
drop (suc n) [] = []
drop (suc n) (c ∷ t) = drop n t

unfoldable pub ends_with : List ℕ → List ℕ → Bool
unfolding is_prefix
ends_with suffix t = is_prefix (reverse suffix) (reverse t)

-- `text[:-n]`
unfoldable pub drop_last : ℕ → List ℕ → List ℕ
unfolding drop
drop_last n t = reverse (drop n (reverse t))

unfoldable pub without_closing : List ℕ → List ℕ
unfolding strip_right ends_with drop_last
without_closing t = if ends_with fence (strip_right t) then drop_last 3 (strip_right t) else t

unfoldable pub without_fences : List ℕ → List ℕ
unfolding without_closing after_newline is_prefix
without_fences t = if is_prefix fence t then without_closing (after_newline t) else t

unfoldable pub strip_json_fences : List ℕ → List ℕ
unfolding without_fences strip is_white
strip_json_fences raw = strip is_white (without_fences (strip is_white raw))

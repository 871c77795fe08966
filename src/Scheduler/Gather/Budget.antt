-- ===== src/Scheduler/Gather/Budget.antt =====
-- Lemmas on the context that `run_steps` of gather.py assembles.
use Prim.Native.String.{String}
use text.Mathlib.TextLemmas.{nil-append, cons-append}
use Prim.Native.String.{◌++◌ as str_append}
use semantics_toolchain.Prelude.{
  Bool, ℕ, suc, ◌+◌, ◌≤◌, ◌<◌, Option, List, [], ◌∷◌, ◌++◌, ◌≡◌, refl, sym, ap, ◌∙◌, inl, inr,
  arith, leb, length, length-append, Bool-cases, ok, >>=-eq-ok, ok_inj,
}
use semantics_toolchain.Json.{Value, Fields, Items, arr, nil, cons, to_list}
use semantics_toolchain.Access.{Access}
use semantics_toolchain.Scheduler.Gather.Steps.{validate_gather_steps}
use semantics_toolchain.Scheduler.Gather.Running.{
  text_length, cost, joined, kept_blocks, with_note, dropped, Stats, assembled, run_step, run_each,
  run_blocks, run_steps,
}

text_length-append : (s t : String) → text_length (str_append s t) ≡ text_length s + text_length t
unfolding text_length
text_length-append String.[] t = rw nil-append (omega arith)
text_length-append (String.◌∷◌ c s) t = rw cons-append (omega (arith, text_length-append s t))

-- What the blocks take of the budget.
abbrev pub total : List String → ℕ
total [] = 0
total (b ∷ bs) = cost b + total bs

text_length-joined : (bs : List String) → text_length (joined bs) ≤ total bs
unfolding joined cost
text_length-joined [] = omega arith
text_length-joined (b ∷ []) = omega arith
text_length-joined (b ∷ c ∷ bs) = omega (
  arith,
  text_length-joined (c ∷ bs),
  text_length-append b (str_append "\n\n" (joined (c ∷ bs))),
  text_length-append "\n\n" (joined (c ∷ bs)),
  blank_line,
)
  where
    blank_line : text_length "\n\n" ≡ 2
    blank_line = refl

-- The blocks are the kept ones, which fit, and a rest whose first block does not fit any more.
pub record Cut (budget used : ℕ) (blocks kept : List String) : Type 0 where
  pub rest : List String
  pub all_blocks : blocks ≡ kept ++ rest
  pub fits : used + total kept ≤ budget
  pub stops :
      (b : String) (more : List String) → rest ≡ b ∷ more → budget < used + total kept + cost b

Cut-cons :
    (budget used : ℕ) (b : String) {blocks kept : List String}
    → Cut budget (used + cost b) blocks kept
    → Cut budget used (b ∷ blocks) (b ∷ kept)
Cut-cons budget used b c = record {
  rest = c.rest;
  all_blocks = ap (λ l. b ∷ l) c.all_blocks;
  fits = omega (arith, c.fits);
  stops = λ d more e. omega (arith, c.stops d more e);
}

kept_blocks-Cut :
    (budget used : ℕ) (blocks : List String)
    → used ≤ budget
    → Cut budget used blocks (kept_blocks budget used blocks)
unfolding kept_blocks
kept_blocks-Cut budget used [] h = record {
  rest = [];
  all_blocks = refl;
  fits = omega arith;
  stops = λ b more e. absurd (ground arith);
}
kept_blocks-Cut budget used (b ∷ bs) h = elim (Bool-cases (leb (used + cost b) budget)) [
  | inl fits ↦
      rw fits (Cut-cons budget used b (kept_blocks-Cut budget (used + cost b) bs (ground arith)))
  | inr over ↦ rw over (record {
    rest = b ∷ bs;
    all_blocks = refl;
    fits = omega arith;
    stops = λ d more e. ground (arith, cost);
  })
]

rest_length :
    (blocks kept rest : List String) → blocks ≡ kept ++ rest → dropped blocks kept ≡ length rest
rest_length blocks kept rest e = rw e (omega (arith, length-append kept rest))

module _ (tool_text : Access → String → Fields → Option String) (dumps : Value → String)
    (is_date : Value → Bool) where
  run_each-length :
      (principal : Access) (i : ℕ) (vs : Items) {blocks : List String}
      → run_each tool_text dumps is_date principal i vs ≡ ok blocks
      → length blocks ≡ length (to_list vs)
  unfolding run_each to_list
  run_each-length principal i nil e = ap length (sym (ok_inj e))
  run_each-length principal i (cons v vs) e =
      let (block, ran, later) = >>=-eq-ok (run_step tool_text dumps is_date principal i v) _ e in
      let (more, ran_more, whole) =
        >>=-eq-ok (run_each tool_text dumps is_date principal (i + 1) vs) _ later in
      ap length (sym (ok_inj whole)) ∙ ap suc (run_each-length principal (i + 1) vs ran_more)

  -- A gather that succeeds has run the declared steps one after another, each with a result. Its
  -- context is the longest run of these results, from the first, that fits the budget with a blank line after each, so it is no longer
  -- than the budget; if any result was left out, a note with their number follows.
  pub run_steps-fits :
      (principal : Access) (vs : Items) (budget : ℕ) {text : String} {stats : Stats}
      → run_steps tool_text dumps is_date principal (arr vs) budget ≡ ok (text, stats)
      → (blocks kept rest : List String) × (blocks ≡ kept ++ rest)
        × (run_each tool_text dumps is_date principal 0 vs ≡ ok blocks)
        × (length blocks ≡ length (to_list vs))
        × (text ≡ joined (with_note (length rest) kept))
        × (text_length (joined kept) ≤ budget)
        × ((b : String) (more : List String) → rest ≡ b ∷ more → budget < total kept + cost b)
        × (stats.dropped_blocks ≡ length rest)
  unfolding run_steps run_blocks assembled
  run_steps-fits principal vs budget {text} {stats} e =
      let (u, valid, later) = >>=-eq-ok (validate_gather_steps is_date (arr vs)) _ e in
      let (blocks, ran, made) =
        >>=-eq-ok (run_each tool_text dumps is_date principal 0 vs) _ later in
      let kept = kept_blocks budget 0 blocks in
      let cut = kept_blocks-Cut budget 0 blocks (omega arith) in
      let left = rest_length blocks kept cut.rest cut.all_blocks in
      let same : assembled budget blocks ≡ (text, stats) = ok_inj made in
      (
        blocks,
        kept,
        cut.rest,
        cut.all_blocks,
        ran,
        run_each-length principal 0 vs ran,
        sym (ap (λ p. p.0) same) ∙ ap (λ n. joined (with_note n kept)) left,
        omega (arith, text_length-joined kept, cut.fits),
        λ b more first. omega (arith, cut.stops b more first),
        ap (λ p. p.1.dropped_blocks) (sym same) ∙ left,
      )

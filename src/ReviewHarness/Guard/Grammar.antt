-- ===== src/ReviewHarness/Guard/Grammar.antt =====
-- A grammar of a critic's arguments, and the steps of the loop of `critic_argv_is_read_only`.
use semantics_toolchain.Prelude.{
  ℕ, suc, ◌+◌, String, Bool, true, false, none, some, List, [], ◌∷◌, ◌++◌, ◌==◌, ◌≡◌, refl, ap,
  arith, if◌then◌else◌,
}
use semantics_toolchain.ReviewHarness.Guard.Argv.{
  begin, Token, token, Pins, pin_sandbox, pin_model, Awaited, step, scan,
}

-- The arguments of a critic: flags with their values and words, with the number of sandbox pins, the
-- number of model pins, and the words.
pub data Arguments : ℕ → ℕ → List String → List String → Type 0 where
  done : Arguments 0 0 [] []
  pin :
      {s m : ℕ} {words ts : List String} (t : String)
      → token t ≡ Token.sandbox
      → Arguments s m words ts
      → Arguments (suc s) m words (t ∷ "read-only" ∷ ts)
  inline :
      {s m : ℕ} {words ts : List String} (t : String)
      → token t ≡ Token.sandbox_inline
      → Arguments s m words ts
      → Arguments (suc s) m words (t ∷ ts)
  configured :
      {s m : ℕ} {words ts : List String} (t : String)
      → token t ≡ Token.config
      → Arguments s m words ts
      → Arguments (suc s) m words (t ∷ "sandbox_mode=read-only" ∷ ts)
  chosen :
      {s m : ℕ} {words ts : List String} (t : String)
      → token t ≡ Token.model
      → Arguments s m words ts
      → Arguments s (suc m) words (t ∷ "{model}" ∷ ts)
  within :
      {s m : ℕ} {words ts : List String} (t d : String)
      → token t ≡ Token.directory
      → Arguments s m words ts
      → Arguments s m words (t ∷ d ∷ ts)
  word :
      {s m : ℕ} {words ts : List String} (t : String)
      → token t ≡ Token.positional
      → Arguments s m words ts
      → Arguments s m (t ∷ words) (t ∷ ts)

-- What a scan that ended at `q` has read since `p`.
pub record Parse (p q : Pins) (ts : List String) : Type 0 where
  pub sandboxes : ℕ
  pub models : ℕ
  pub words : List String
  pub read : Arguments sandboxes models words ts
  pub sandbox_pins : q.sandbox_pins ≡ p.sandbox_pins + sandboxes
  pub model_pins : q.model_pins ≡ p.model_pins + models
  pub positionals : q.positionals ≡ p.positionals ++ words

pub scan-step :
    (w v : Awaited) (p r : Pins) (t : String) (ts : List String)
    → step w p t ≡ some (v, r)
    → scan w p (t ∷ ts) ≡ scan v r ts
unfolding scan
scan-step w v p r t ts e = rw (e, scan) refl

pub scan-stop :
    (w : Awaited) (p : Pins) (t : String) (ts : List String)
    → step w p t ≡ none
    → scan w p (t ∷ ts) ≡ none
unfolding scan
scan-stop w p t ts e = rw (e, scan) refl

pub begin-step :
    (p : Pins) (t : String) (k : Token) → token t ≡ k → step Awaited.nothing p t ≡ begin p t k
unfolding step
begin-step p t k e = ap (begin p t) e

-- The value that a flag asks for.
unfoldable pub value_of : Awaited → String → Bool
value_of Awaited.nothing v = true
value_of Awaited.read_only v = v == "read-only"
value_of Awaited.sandbox_mode v = v == "sandbox_mode=read-only"
value_of Awaited.model_name v = v == "{model}"
value_of Awaited.any_directory v = true

unfoldable pub pinned : Awaited → Pins → Pins
pinned Awaited.nothing p = p
pinned Awaited.read_only p = pin_sandbox p
pinned Awaited.sandbox_mode p = pin_sandbox p
pinned Awaited.model_name p = pin_model p
pinned Awaited.any_directory p = p

unfoldable pub is_waiting : Awaited → Bool
is_waiting Awaited.nothing = false
is_waiting _ = true

pub step-value :
    (w : Awaited) (p : Pins) (v : String)
    → is_waiting w ≡ true
    → step w p v ≡ (if value_of w v then some (Awaited.nothing, pinned w p) else none)
unfolding is_waiting step value_of pinned
step-value Awaited.nothing p v h = absurd (ground arith)
step-value Awaited.read_only p v h = refl
step-value Awaited.sandbox_mode p v h = refl
step-value Awaited.model_name p v h = refl
step-value Awaited.any_directory p v h = refl

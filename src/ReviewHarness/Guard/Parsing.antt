-- ===== src/ReviewHarness/Guard/Parsing.antt =====
-- Lemmas on what the loop of `critic_argv_is_read_only` has read when it succeeds.
use mathlib.Core.List.{append-nil, append_assoc}
use semantics_toolchain.Prelude.{
  suc, String, true, Option, none, some, List, [], ◌∷◌, ◌++◌, ◌==◌, ◌≡◌, refl, sym, ◌∙◌, subst, inl,
  inr, arith, eq_iff, Bool-cases, some_inj,
}
use semantics_toolchain.ReviewHarness.Guard.Argv.{
  begin, Token, token, Pins, pin_sandbox, pin_model, Awaited, finish, scan,
}
use semantics_toolchain.ReviewHarness.Guard.Grammar.{
  Arguments, Parse, scan-step, scan-stop, begin-step, step-value, value_of, pinned, is_waiting,
}

-- A scan that waits for a value and succeeds finds it and goes on.
scan-value :
    (w : Awaited) (p q : Pins) (v : String) (ts : List String)
    → is_waiting w ≡ true
    → scan w p (v ∷ ts) ≡ some q
    → (value_of w v ≡ true) × (scan Awaited.nothing (pinned w p) ts ≡ some q)
scan-value w p q v ts waits e = elim (Bool-cases (value_of w v)) [
  | inl fits ↦
      let go = step-value w p v waits in
      (fits, sym (scan-step w Awaited.nothing p (pinned w p) v ts (rw fits at go)) ∙ e)
  | inr wrong ↦
      let go = step-value w p v waits in
      absurd (clash (sym (scan-stop w p v ts (rw wrong at go)) ∙ e))
]
  where
    clash : {r : Pins} → ◌≡◌ {A = Option Pins} none (some r) → ⊥
    clash h = absurd (ground arith)

scan-end : (w : Awaited) (p q : Pins) → is_waiting w ≡ true → scan w p [] ≡ some q → ⊥
unfolding is_waiting scan finish
scan-end Awaited.nothing p q waits e = absurd (ground arith)
scan-end Awaited.read_only p q waits e = absurd (ground arith)
scan-end Awaited.sandbox_mode p q waits e = absurd (ground arith)
scan-end Awaited.model_name p q waits e = absurd (ground arith)
scan-end Awaited.any_directory p q waits e = absurd (ground arith)

-- How a flag's value, or a token by itself, extends what was read after it.
module _ (p q : Pins) (t : String) (ts : List String) where
  after_inline : token t ≡ Token.sandbox_inline → Parse (pin_sandbox p) q ts → Parse p q (t ∷ ts)
  after_inline k r = record {
    sandboxes = suc r.sandboxes;
    models = r.models;
    words = r.words;
    read = Arguments.inline t k r.read;
    sandbox_pins = omega (arith, r.sandbox_pins);
    model_pins = r.model_pins;
    positionals = r.positionals;
  }

  after_word :
      token t ≡ Token.positional
      → Parse (record p { positionals = p.positionals ++ t ∷ [] }) q ts
      → Parse p q (t ∷ ts)
  after_word k r = record {
    sandboxes = r.sandboxes;
    models = r.models;
    words = t ∷ r.words;
    read = Arguments.word t k r.read;
    sandbox_pins = r.sandbox_pins;
    model_pins = r.model_pins;
    positionals = r.positionals ∙ append_assoc p.positionals (t ∷ []) r.words;
  }

  after_pin :
      (v : String)
      → token t ≡ Token.sandbox
      → (v == "read-only") ≡ true
      → Parse (pin_sandbox p) q ts
      → Parse p q (t ∷ v ∷ ts)
  after_pin v k fits r = record {
    sandboxes = suc r.sandboxes;
    models = r.models;
    words = r.words;
    read =
        subst (λ x. Arguments (suc r.sandboxes) r.models r.words (t ∷ x ∷ ts))
          (sym ((eq_iff v _).0 fits)) (Arguments.pin t k r.read);
    sandbox_pins = omega (arith, r.sandbox_pins);
    model_pins = r.model_pins;
    positionals = r.positionals;
  }

  after_config :
      (v : String)
      → token t ≡ Token.config
      → (v == "sandbox_mode=read-only") ≡ true
      → Parse (pin_sandbox p) q ts
      → Parse p q (t ∷ v ∷ ts)
  after_config v k fits r = record {
    sandboxes = suc r.sandboxes;
    models = r.models;
    words = r.words;
    read =
        subst (λ x. Arguments (suc r.sandboxes) r.models r.words (t ∷ x ∷ ts))
          (sym ((eq_iff v _).0 fits)) (Arguments.configured t k r.read);
    sandbox_pins = omega (arith, r.sandbox_pins);
    model_pins = r.model_pins;
    positionals = r.positionals;
  }

  after_model :
      (v : String)
      → token t ≡ Token.model
      → (v == "{model}") ≡ true
      → Parse (pin_model p) q ts
      → Parse p q (t ∷ v ∷ ts)
  after_model v k fits r = record {
    sandboxes = r.sandboxes;
    models = suc r.models;
    words = r.words;
    read =
        subst (λ x. Arguments r.sandboxes (suc r.models) r.words (t ∷ x ∷ ts))
          (sym ((eq_iff v _).0 fits)) (Arguments.chosen t k r.read);
    sandbox_pins = r.sandbox_pins;
    model_pins = omega (arith, r.model_pins);
    positionals = r.positionals;
  }

  after_directory : (v : String) → token t ≡ Token.directory → Parse p q ts → Parse p q (t ∷ v ∷ ts)
  after_directory v k r = record {
    sandboxes = r.sandboxes;
    models = r.models;
    words = r.words;
    read = Arguments.within t v k r.read;
    sandbox_pins = r.sandbox_pins;
    model_pins = r.model_pins;
    positionals = r.positionals;
  }

begun :
    (p q r : Pins) (w : Awaited) (t : String) (k : Token) (ts : List String)
    → token t ≡ k
    → begin p t k ≡ some (w, r)
    → scan Awaited.nothing p (t ∷ ts) ≡ some q
    → scan w r ts ≡ some q
begun p q r w t k ts e b h = sym (scan-step Awaited.nothing w p r t ts (begin-step p t k e ∙ b)) ∙ h

refused :
    (p q : Pins) (t : String) (ts : List String)
    → token t ≡ Token.unknown
    → scan Awaited.nothing p (t ∷ ts) ≡ some q
    → ⊥
unfolding begin
refused p q t ts e h =
    let stop = scan-stop Awaited.nothing p t ts (begin-step p t Token.unknown e) in
    absurd (ground arith)

-- A token whose flag asks for a value, with the value and what was read after it.
Parse-pair :
    (p q : Pins) (t v : String) (ts : List String)
    → ((r : Pins) → scan Awaited.nothing r (v ∷ ts) ≡ some q → Parse r q (v ∷ ts))
    → ((r : Pins) → scan Awaited.nothing r ts ≡ some q → Parse r q ts)
    → (k : Token) → token t ≡ k
    → scan Awaited.nothing p (t ∷ v ∷ ts) ≡ some q
    → Parse p q (t ∷ v ∷ ts)
unfolding begin value_of pinned is_waiting
Parse-pair p q t v ts from_next from_rest Token.sandbox k h =
    let (fits, rest) =
      scan-value Awaited.read_only p q v ts refl (begun p q p _ t _ (v ∷ ts) k refl h) in
    after_pin p q t ts v k fits (from_rest _ rest)
Parse-pair p q t v ts from_next from_rest Token.sandbox_inline k h =
    after_inline p q t (v ∷ ts) k (from_next _ (begun p q _ _ t _ (v ∷ ts) k refl h))
Parse-pair p q t v ts from_next from_rest Token.config k h =
    let (fits, rest) =
      scan-value Awaited.sandbox_mode p q v ts refl (begun p q p _ t _ (v ∷ ts) k refl h) in
    after_config p q t ts v k fits (from_rest _ rest)
Parse-pair p q t v ts from_next from_rest Token.model k h =
    let (fits, rest) =
      scan-value Awaited.model_name p q v ts refl (begun p q p _ t _ (v ∷ ts) k refl h) in
    after_model p q t ts v k fits (from_rest _ rest)
Parse-pair p q t v ts from_next from_rest Token.directory k h =
    let (fits, rest) =
      scan-value Awaited.any_directory p q v ts refl (begun p q p _ t _ (v ∷ ts) k refl h) in
    after_directory p q t ts v k (from_rest _ rest)
Parse-pair p q t v ts from_next from_rest Token.unknown k h = absurd (refused p q t (v ∷ ts) k h)
Parse-pair p q t v ts from_next from_rest Token.positional k h =
    after_word p q t (v ∷ ts) k (from_next _ (begun p q _ _ t _ (v ∷ ts) k refl h))

-- The last token asks for nothing.
Parse-last :
    (p q : Pins) (t : String)
    → ((r : Pins) → scan Awaited.nothing r [] ≡ some q → Parse r q [])
    → (k : Token) → token t ≡ k
    → scan Awaited.nothing p (t ∷ []) ≡ some q
    → Parse p q (t ∷ [])
unfolding begin is_waiting
Parse-last p q t at_end Token.sandbox k h =
    absurd (scan-end Awaited.read_only p q refl (begun p q p _ t _ [] k refl h))
Parse-last p q t at_end Token.sandbox_inline k h =
    after_inline p q t [] k (at_end _ (begun p q _ _ t _ [] k refl h))
Parse-last p q t at_end Token.config k h =
    absurd (scan-end Awaited.sandbox_mode p q refl (begun p q p _ t _ [] k refl h))
Parse-last p q t at_end Token.model k h =
    absurd (scan-end Awaited.model_name p q refl (begun p q p _ t _ [] k refl h))
Parse-last p q t at_end Token.directory k h =
    absurd (scan-end Awaited.any_directory p q refl (begun p q p _ t _ [] k refl h))
Parse-last p q t at_end Token.unknown k h = absurd (refused p q t [] k h)
Parse-last p q t at_end Token.positional k h =
    after_word p q t [] k (at_end _ (begun p q _ _ t _ [] k refl h))

Parse-none : (p q : Pins) → scan Awaited.nothing p [] ≡ some q → Parse p q []
unfolding scan finish
Parse-none p q h =
    let same : p ≡ q = some_inj h in
    subst (λ x. Parse p x []) same
      (record {
        sandboxes = 0;
        models = 0;
        words = [];
        read = Arguments.done;
        sandbox_pins = omega arith;
        model_pins = omega arith;
        positionals = sym (append-nil p.positionals);
      })

pub scan-Parse : (p q : Pins) (ts : List String) → scan Awaited.nothing p ts ≡ some q → Parse p q ts
scan-Parse p q [] h = Parse-none p q h
scan-Parse p q (t ∷ []) h = Parse-last p q t (λ r. Parse-none r q) (token t) refl h
scan-Parse p q (t ∷ v ∷ ts) h =
    Parse-pair p q t v ts (λ r. scan-Parse r q (v ∷ ts)) (λ r. scan-Parse r q ts) (token t) refl h

-- ===== src/ReviewHarness/Guard/Commands.antt =====
-- The form of a read-only command, and lemmas on `critic_argv_is_read_only` of readonly_guard.py.
use mathlib.Core.List.{append-nil, append_assoc}
use semantics_toolchain.Prelude.{
  ℕ, ◌+◌, String, true, false, some, List, [], ◌∷◌, ◌++◌, ◌≡◌, refl, sym, ap, ◌∙◌, subst, inl, inr,
  arith, ◌&&◌, any, eqb, eq_iff, Option-cases,
}
use semantics_toolchain.ReviewHarness.Guard.Argv.{
  begin, Token, token, Pins, pin_sandbox, pin_model, Awaited, finish, scan, is_dash, accepts,
  no_pins, is_exec, is_codex, is_unsafe, reads, critic_argv_is_read_only,
}
use semantics_toolchain.ReviewHarness.Guard.Grammar.{
  Arguments, scan-step, begin-step, step-value, value_of, pinned, is_waiting,
}
use semantics_toolchain.ReviewHarness.Guard.Parsing.{scan-Parse}

same_pins :
    {p q : Pins}
    → p.sandbox_pins ≡ q.sandbox_pins
    → p.model_pins ≡ q.model_pins
    → p.positionals ≡ q.positionals
    → p ≡ q
same_pins a b c = λ i. record { sandbox_pins = a i; model_pins = b i; positionals = c i }

added : Pins → ℕ → ℕ → List String → Pins
added p s m words = record {
  sandbox_pins = p.sandbox_pins + s;
  model_pins = p.model_pins + m;
  positionals = p.positionals ++ words;
}

scan-begin :
    (p r : Pins) (w : Awaited) (t : String) (k : Token) (ts : List String)
    → token t ≡ k
    → begin p t k ≡ some (w, r)
    → scan Awaited.nothing p (t ∷ ts) ≡ scan w r ts
scan-begin p r w t k ts e b = scan-step Awaited.nothing w p r t ts (begin-step p t k e ∙ b)

scan-given :
    (w : Awaited) (p : Pins) (v : String) (ts : List String)
    → is_waiting w ≡ true
    → value_of w v ≡ true
    → scan w p (v ∷ ts) ≡ scan Awaited.nothing (pinned w p) ts
scan-given w p v ts waits fits =
    let go = step-value w p v waits in
    scan-step w Awaited.nothing p (pinned w p) v ts (rw fits at go)

scan-nothing : (p : Pins) → scan Awaited.nothing p [] ≡ some p
unfolding scan finish
scan-nothing p = refl

scan-Arguments :
    {s m : ℕ} {words ts : List String} (p : Pins)
    → Arguments s m words ts
    → scan Awaited.nothing p ts ≡ some (added p s m words)
unfolding begin value_of pinned is_waiting added
scan-Arguments p Arguments.done =
    scan-nothing p
    ∙ ap some (same_pins (omega arith) (omega arith) (sym (append-nil p.positionals)))
scan-Arguments p (Arguments.pin {ts = ts} t k a) =
    scan-begin p p Awaited.read_only t _ ("read-only" ∷ ts) k refl
    ∙ scan-given Awaited.read_only p "read-only" ts refl refl
    ∙ scan-Arguments (pin_sandbox p) a
    ∙ ap some (same_pins (omega arith) refl refl)
scan-Arguments p (Arguments.inline t k a) =
    scan-begin p (pin_sandbox p) Awaited.nothing t _ _ k refl
    ∙ scan-Arguments (pin_sandbox p) a
    ∙ ap some (same_pins (omega arith) refl refl)
scan-Arguments p (Arguments.configured {ts = ts} t k a) =
    scan-begin p p Awaited.sandbox_mode t _ ("sandbox_mode=read-only" ∷ ts) k refl
    ∙ scan-given Awaited.sandbox_mode p "sandbox_mode=read-only" ts refl refl
    ∙ scan-Arguments (pin_sandbox p) a
    ∙ ap some (same_pins (omega arith) refl refl)
scan-Arguments p (Arguments.chosen {ts = ts} t k a) =
    scan-begin p p Awaited.model_name t _ ("{model}" ∷ ts) k refl
    ∙ scan-given Awaited.model_name p "{model}" ts refl refl
    ∙ scan-Arguments (pin_model p) a
    ∙ ap some (same_pins refl (omega arith) refl)
scan-Arguments p (Arguments.within {ts = ts} t d k a) =
    scan-begin p p Awaited.any_directory t _ (d ∷ ts) k refl
    ∙ scan-given Awaited.any_directory p d ts refl refl
    ∙ scan-Arguments p a
scan-Arguments p (Arguments.word {words = words} t k a) =
    scan-begin p (record p { positionals = p.positionals ++ t ∷ [] }) Awaited.nothing t _ _ k refl
    ∙ scan-Arguments (record p { positionals = p.positionals ++ t ∷ [] }) a
    ∙ ap some (same_pins refl refl (append_assoc p.positionals (t ∷ []) words))

-- The commands of the documented form.
pub record IsReadOnly (argv : List String) : Type 0 where
  pub exe : String
  pub command : String
  pub arguments : List String
  pub form : argv ≡ exe ∷ command ∷ arguments
  pub codex : is_codex exe ≡ true
  pub exec : reads "exec" command ≡ true
  pub plain : any is_unsafe argv ≡ false
  pub pinned_once : Arguments 1 1 ("-" ∷ []) arguments

dash_only : (ws : List String) → is_dash ws ≡ true → ws ≡ "-" ∷ []
unfolding is_dash
dash_only [] h = absurd (ground arith)
dash_only (w ∷ []) h = ap (λ x. x ∷ []) ((eq_iff w "-").0 h)
dash_only (w ∷ v ∷ ws) h = absurd (ground arith)

accepts-Arguments :
    (ts : List String)
    → accepts (scan Awaited.nothing no_pins ts) ≡ true
    → Arguments 1 1 ("-" ∷ []) ts
unfolding accepts
accepts-Arguments ts h = elim (Option-cases (scan Awaited.nothing no_pins ts)) [
  | inl stop ↦ absurd (ground arith)
  | inr (q, e) ↦
      let r = scan-Parse no_pins q ts e in
      let counted : (eqb q.sandbox_pins 1 && (eqb q.model_pins 1 && is_dash q.positionals)) ≡ true =
        rw e at h in
      let one_sandbox : r.sandboxes ≡ 1 = ground (arith, r.sandbox_pins) in
      let one_model : r.models ≡ 1 = ground (arith, r.model_pins) in
      let one_word : r.words ≡ "-" ∷ [] =
        sym r.positionals ∙ dash_only q.positionals (ground arith) in
      subst (λ n. Arguments n 1 ("-" ∷ []) ts) one_sandbox
        (subst (λ n. Arguments r.sandboxes n ("-" ∷ []) ts) one_model
          (subst (λ w. Arguments r.sandboxes r.models w ts) one_word r.read))
]

accepted-Arguments :
    (ts : List String)
    → Arguments 1 1 ("-" ∷ []) ts
    → accepts (scan Awaited.nothing no_pins ts) ≡ true
unfolding accepts added is_dash
accepted-Arguments ts a = rw (scan-Arguments no_pins a, accepts) refl

argv-IsReadOnly : (argv : List String) → critic_argv_is_read_only argv ≡ true → IsReadOnly argv
unfolding critic_argv_is_read_only is_exec
argv-IsReadOnly [] h = absurd (ground arith)
argv-IsReadOnly (exe ∷ []) h = absurd (ground arith)
argv-IsReadOnly (exe ∷ command ∷ arguments) h = record {
  exe = exe;
  command = command;
  arguments = arguments;
  form = refl;
  codex = ground arith;
  exec = ground arith;
  plain = ground arith;
  pinned_once = accepts-Arguments arguments (ground arith);
}

IsReadOnly-accepted : (argv : List String) → IsReadOnly argv → critic_argv_is_read_only argv ≡ true
unfolding critic_argv_is_read_only is_exec
IsReadOnly-accepted argv c =
    let safe : any is_unsafe (c.exe ∷ c.command ∷ c.arguments) ≡ false =
      subst (λ l. any is_unsafe l ≡ false) c.form c.plain in
    subst (λ l. critic_argv_is_read_only l ≡ true) (sym c.form)
      (ground (arith, accepted-Arguments c.arguments c.pinned_once, c.codex, c.exec))

-- The guard accepts no other command than codex exec with arguments of the grammar, in which there
-- is one sandbox pin, one model pin and the one word "-", and it accepts all of these.
pub critic_argv_is_read_only-IsReadOnly :
    (argv : List String)
    → (critic_argv_is_read_only argv ≡ true → IsReadOnly argv)
      × (IsReadOnly argv → critic_argv_is_read_only argv ≡ true)
critic_argv_is_read_only-IsReadOnly argv = (argv-IsReadOnly argv, IsReadOnly-accepted argv)

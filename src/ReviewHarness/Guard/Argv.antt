-- ===== src/ReviewHarness/Guard/Argv.antt =====
-- `critic_argv_is_read_only` and `assert_critic_read_only`.
use semantics_toolchain.Prelude.{
  ℕ, suc, ◌+◌, String, Bool, false, not, Option, none, some, List, [], ◌∷◌, ◌++◌, ◌==◌, eqb, leb,
  if◌then◌else◌, ◌&&◌, ◌||◌, any, codes, is_prefix, same_codes, Result, ok, err,
}

-- `t.lower()`. Outside ASCII only the Kelvin sign has a lower case in ASCII, and no word that is
-- compared has a k.
unfoldable pub lower : List ℕ → List ℕ
lower [] = []
lower (c ∷ t) = (if leb b'A' c && leb c b'Z' then c + 32 else c) ∷ lower t

-- `t.lower() == word`
unfoldable pub reads : String → String → Bool
unfolding lower same_codes
reads word t = same_codes (lower (codes t)) (codes word)

unfoldable pub is_metacharacter : ℕ → Bool
is_metacharacter c = any (λ d. eqb d c) (b';' ∷ b'&' ∷ b'|' ∷ b'<' ∷ b'>' ∷ b'`' ∷ 10 ∷ 13 ∷ [])

-- `"$(" in t`
unfoldable pub has_substitution : List ℕ → Bool
unfolding is_prefix
has_substitution [] = false
has_substitution (c ∷ t) = is_prefix (codes "$(") (c ∷ t) || has_substitution t

unfoldable pub is_unsafe : String → Bool
unfolding is_metacharacter has_substitution
is_unsafe t = any is_metacharacter (codes t) || has_substitution (codes t)

-- `.replace("\\", "/").rsplit("/", 1)[-1]`; `base` is what follows the last separator so far.
unfoldable pub basename : List ℕ → List ℕ → List ℕ
basename base [] = base
basename base (c ∷ t) = basename (if eqb c 47 || eqb c 92 then [] else base ++ c ∷ []) t

unfoldable pub is_codex : String → Bool
unfolding basename lower same_codes
is_codex t =
    let exe = basename [] (lower (codes t)) in
    same_codes exe (codes "codex") || same_codes exe (codes "codex.exe")

-- What a token is to the loop.
pub data Token : Type 0 where
  sandbox sandbox_inline config model directory unknown positional : Token

unfoldable pub token : String → Token
unfolding reads is_prefix
token t =
    if reads "-s" t || reads "--sandbox" t
    then Token.sandbox
    else if reads "-s=read-only" t || reads "--sandbox=read-only" t
    then Token.sandbox_inline
    else if (t == "-c") || reads "--config" t
    then Token.config
    else if reads "-m" t || reads "--model" t
    then Token.model
    else if (t == "-C") || reads "--cd" t
    then Token.directory
    else if is_prefix (codes "-") (codes t) && not (t == "-")
    then Token.unknown
    else Token.positional

-- The counters of the loop, and the value that the token before it asks for (`i += 2`).
pub record Pins : Type 0 where
  pub sandbox_pins : ℕ
  pub model_pins : ℕ
  pub positionals : List String

abbrev pub pin_sandbox : Pins → Pins
pin_sandbox p = record p { sandbox_pins = suc p.sandbox_pins }

abbrev pub pin_model : Pins → Pins
pin_model p = record p { model_pins = suc p.model_pins }

pub data Awaited : Type 0 where
  nothing read_only sandbox_mode model_name any_directory : Awaited

unfoldable pub begin : Pins → String → Token → Option (Awaited × Pins)
begin p t Token.sandbox = some (Awaited.read_only, p)
begin p t Token.sandbox_inline = some (Awaited.nothing, pin_sandbox p)
begin p t Token.config = some (Awaited.sandbox_mode, p)
begin p t Token.model = some (Awaited.model_name, p)
begin p t Token.directory = some (Awaited.any_directory, p)
begin p t Token.unknown = none
begin p t Token.positional =
    some (Awaited.nothing, record p { positionals = p.positionals ++ t ∷ [] })

-- One token; none is `return False`.
unfoldable pub step : Awaited → Pins → String → Option (Awaited × Pins)
step Awaited.read_only p t =
    if t == "read-only" then some (Awaited.nothing, pin_sandbox p) else none
step Awaited.sandbox_mode p t =
    if t == "sandbox_mode=read-only" then some (Awaited.nothing, pin_sandbox p) else none
step Awaited.model_name p t = if t == "{model}" then some (Awaited.nothing, pin_model p) else none
step Awaited.any_directory p t = some (Awaited.nothing, p)
step Awaited.nothing p t = begin p t (token t)

-- A flag at the end that still asks for its value is refused.
unfoldable pub finish : Awaited → Pins → Option Pins
finish Awaited.nothing p = some p
finish _ p = none

unfoldable pub scan : Awaited → Pins → List String → Option Pins
scan w p [] = finish w p
scan w p (t ∷ ts) = elim (step w p t) [ none ↦ none | some (v, q) ↦ scan v q ts ]

unfoldable pub is_dash : List String → Bool
is_dash (t ∷ []) = t == "-"
is_dash _ = false

unfoldable pub accepts : Option Pins → Bool
unfolding is_dash
accepts none = false
accepts (some p) = eqb p.sandbox_pins 1 && (eqb p.model_pins 1 && is_dash p.positionals)

abbrev pub no_pins : Pins
no_pins = record { sandbox_pins = 0; model_pins = 0; positionals = [] }

unfoldable pub is_exec : List String → Bool
unfolding is_codex reads scan accepts
is_exec (exe ∷ command ∷ arguments) =
    is_codex exe && (reads "exec" command && accepts (scan Awaited.nothing no_pins arguments))
is_exec _ = false

unfoldable pub critic_argv_is_read_only : List String → Bool
unfolding is_unsafe is_exec
critic_argv_is_read_only argv = not (any is_unsafe argv) && is_exec argv

pub data GuardError : Type 0 where
  no_guarantee : GuardError

unfoldable pub assert_critic_read_only : List String → Bool → Result GuardError Unit
unfolding critic_argv_is_read_only
assert_critic_read_only argv allow_unsafe =
    if allow_unsafe
    then ok tt
    else if critic_argv_is_read_only argv
    then ok tt
    else err no_guarantee

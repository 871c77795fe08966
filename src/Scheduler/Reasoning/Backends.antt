-- ===== src/Scheduler/Reasoning/Backends.antt =====
-- `_render`, the reasoners and `get_reasoner`. The system prompt is fixed and left out. The calls of
-- a backend, `json.loads`, and the text that Python gives to a value are parameters.
use Prim.Native.String.{◌++◌ as str_append}
use semantics_toolchain.Prelude.{
  ℕ, String, Bool, false, Option, none, some, List, ◌==◌, if◌then◌else◌, codes, Result, ok, err,
}
use semantics_toolchain.Json.{Value, Fields, str, obj, end, field, get, truthy}
use semantics_toolchain.Scheduler.Reasoning.Fences.{strip_json_fences}

-- What a reasoner gives: an output, a ReasonerError, or any other exception.
pub data Reasoned : Type 0 where
  output : Value → Reasoned
  unusable unreachable : String → Reasoned

-- `Settings`, as far as `get_reasoner` reads them.
pub record Settings : Type 0 where
  pub scheduler_reasoner : String
  pub openai_api_key : String
  pub strong_cli_token : String

pub data Backend : Type 0 where
  stub openai strong : Backend

-- The ValueErrors of `get_reasoner`.
pub data Misconfigured : Type 0 where
  no_api_key no_bot_layer no_cli_token unknown_reasoner : Misconfigured

-- The flag says that the bot layer can be imported.
unfoldable pub get_reasoner : Bool → Settings → Result Misconfigured Backend
get_reasoner has_bot s =
    if s.scheduler_reasoner == "stub"
    then ok stub
    else if s.scheduler_reasoner == "openai"
    then (if s.openai_api_key == "" then err no_api_key else ok openai)
    else if s.scheduler_reasoner == "strong"
    then (if has_bot
        then (if s.strong_cli_token == "" then err no_cli_token else ok strong)
        else err no_bot_layer)
    else err unknown_reasoner

-- An answer of a backend: its text, or the message of the exception it raised.
abbrev pub Answer : Type 0
Answer = Result String String

module _ (shown : Value → String) (loads : List ℕ → Option Value) where
  value_text : Value → String
  value_text (str s) = s
  value_text v = shown v

  context_text : String → Fields → String
  unfolding get value_text
  context_text key context = elim (get key context) [ none ↦ "" | some v ↦ value_text v ]

  is_given : Option Value → Bool
  unfolding truthy
  is_given none = false
  is_given (some v) = truthy v

  -- The user's message of `_render`.
  unfoldable pub render : Fields → String
  unfolding context_text is_given get
  render context =
      let user = str_append "Job instruction:\n" (context_text "instruction" context) in
      if is_given (get "context" context)
      then str_append user (str_append "\n\nGathered context:\n" (context_text "context" context))
      else user

  -- `json.loads` with its errors turned into a ReasonerError.
  unfoldable pub loaded : String → (List ℕ → List ℕ) → Answer → Reasoned
  loaded complaint clean (err e) = unreachable e
  loaded complaint clean (ok raw) = elim (loads (clean (codes raw))) [
    | none ↦ unusable complaint
    | some v ↦ output v
  ]

  -- `StubReasoner.reason`
  unfoldable pub stub_reason : Option Value → Fields → Reasoned
  stub_reason none context = output (obj (field "type" (str "final_plan") end))
  stub_reason (some preset) context = output preset

  -- `OpenAIReasoner.reason`
  unfoldable pub openai_reason : (String → Answer) → Fields → Reasoned
  unfolding loaded render
  openai_reason complete context =
      loaded "openai reasoner returned non-JSON output" (λ t. t) (complete (render context))

  -- `StrongReasoner.reason`
  unfoldable pub strong_reason : (String → Answer) → Fields → Reasoned
  unfolding loaded render strip_json_fences
  strong_reason runner context =
      loaded "strong reasoner returned non-JSON output" strip_json_fences (runner (render context))

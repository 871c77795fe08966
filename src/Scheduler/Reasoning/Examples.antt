-- ===== src/Scheduler/Reasoning/Examples.antt =====
-- Fenced answers, and the choice of a reasoner.
use semantics_toolchain.Prelude.{
  same_codes, if◌then◌else◌, String, false, Option, none, some, List, ℕ, [], ◌≡◌, refl, codes,
  is_prefix, is_white, strip, drop_while, ok, err,
}
use semantics_toolchain.Json.{Value, obj, end, get, truthy}
use semantics_toolchain.Scheduler.Reasoning.Fences.{
  after_newline, strip_right, drop, ends_with, drop_last, without_closing, without_fences,
  strip_json_fences,
}
use semantics_toolchain.Scheduler.Reasoning.Backends.{
  output, unusable, unreachable, Settings, openai, no_bot_layer, get_reasoner, render, loaded,
  strong_reason, openai_reason,
}
use semantics_toolchain.Scheduler.Reasoning.Wrapping.{fenced, strip_json_fences-fenced}

program : Unit {0}
unfolding after_newline strip_right drop ends_with drop_last without_closing without_fences
    strip_json_fences is_prefix is_white strip drop_while get truthy get_reasoner render loaded
    strong_reason openai_reason
program = tt

abbrev json_tag : List ℕ
json_tag = codes "json"

abbrev answer : List ℕ
answer = codes "{\"type\": \"final_plan\"}"

strip_json_fences-fenced_example :
    (strip_json_fences (fenced json_tag answer) ≡ answer) × (strip_json_fences answer ≡ answer)
unfolding program
strip_json_fences-fenced_example = strip_json_fences-fenced json_tag answer refl refl refl

-- A fence that is never closed, and one with nothing after it.
open_fences :
    (strip_json_fences (codes "```\n{}") ≡ codes "{}")
    × (strip_json_fences (codes "```json") ≡ [])
    × (strip_json_fences (codes " {} ") ≡ codes "{}")
unfolding program
open_fences = (refl, refl, refl)

abbrev settings : String → Settings
settings kind = record { scheduler_reasoner = kind; openai_api_key = "key"; strong_cli_token = "" }

chosen :
    (get_reasoner false (settings "openai") ≡ ok openai)
    × (get_reasoner false (settings "strong") ≡ err no_bot_layer)
unfolding program
chosen = (refl, refl)

abbrev empty_object : List ℕ → Option Value
empty_object t = if same_codes t (codes "{}") then some (obj end) else none

abbrev no_text : Value → String
no_text v = ""

answered :
    (strong_reason no_text empty_object (λ prompt. ok "```\n{}\n```") end ≡ output (obj end))
    × (openai_reason no_text empty_object (λ prompt. ok "```\n{}\n```") end
        ≡ unusable "openai reasoner returned non-JSON output")
    × (strong_reason no_text empty_object (λ prompt. err "timeout") end ≡ unreachable "timeout")
unfolding program same_codes
answered = (refl, refl, refl)

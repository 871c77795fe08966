-- ===== src/Scheduler/Gather/Running.antt =====
-- `effective_principal`, `run_steps` and `run_gather` of gather.py. The read tools of the MCP server
-- and the text that `json.dumps` gives are parameters: a tool either gives the text of its result or
-- raises.
use Prim.Native.String.{◌++◌ as str_append}
use semantics_toolchain.Prelude.{
  ◌-◌, ◌-◌, ℕ, zero, ◌+◌, ◌-◌, String, Bool, Option, none, some, List, [], ◌∷◌, ◌++◌, codes, leb,
  if◌then◌else◌, length, Result, ok, err, ◌>>=◌, ◌>>◌,
}
use semantics_toolchain.Json.{Value, Items, Fields, str, arr, obj, nil, cons, get, truthy}
use semantics_toolchain.Graph.{Node}
use semantics_toolchain.Access.{Access}
use semantics_toolchain.Scheduler.Plan.{decimal}
use semantics_toolchain.Scheduler.Gather.Steps.{
  GatherError, step_failed, no_creator, no_space, type_error, key_error, step_args,
  validate_gather_steps, gather_budget_chars,
}

-- The job's creator, confined to the space the job was made in.
unfoldable pub effective_principal : Node → Result GatherError Access
effective_principal n = elim n.created_by [
  | none ↦ err no_creator
  | some account ↦ elim n.origin_space [
    | none ↦ err no_space
    | some space ↦ ok (record { account_id = account; scopes = some (space ∷ []) })
  ]
]

-- `len(text)`
unfoldable pub text_length : String → ℕ
text_length s = length (codes s)

-- A block and the blank line that joins it to the next.
unfoldable pub cost : String → ℕ
unfolding text_length
cost block = text_length block + 2

-- `"\n\n".join(blocks)`
unfoldable pub joined : List String → String
joined [] = ""
joined (b ∷ []) = b
joined (b ∷ c ∷ bs) = str_append b (str_append "\n\n" (joined (c ∷ bs)))

-- The loop over the blocks, from the characters used so far.
unfoldable pub kept_blocks : ℕ → ℕ → List String → List String
unfolding cost
kept_blocks budget used [] = []
kept_blocks budget used (b ∷ bs) =
    let rest = kept_blocks budget (used + cost b) bs in
    if leb (used + cost b) budget then b ∷ rest else []

-- `_TRUNCATION_NOTE`
unfoldable pub truncation_note : ℕ → String
truncation_note n =
    str_append "[gather truncated: "
      (str_append (decimal n) " step result(s) dropped to fit the context budget]")

-- The kept blocks, and the note if any was dropped.
unfoldable pub with_note : ℕ → List String → List String
unfolding truncation_note
with_note zero kept = kept
with_note dropped kept = kept ++ truncation_note dropped ∷ []

pub record Stats : Type 0 where
  pub steps : ℕ
  pub chars : ℕ
  pub budget_chars : ℕ
  pub dropped_blocks : ℕ

abbrev pub dropped : List String → List String → ℕ
dropped blocks kept = length blocks - length kept

unfoldable pub assembled : ℕ → List String → String × Stats
unfolding kept_blocks with_note joined text_length
assembled budget blocks =
    let kept = kept_blocks budget 0 blocks in
    let text = joined (with_note (dropped blocks kept) kept) in
    (
      text,
      record {
        steps = length blocks;
        chars = text_length text;
        budget_chars = budget;
        dropped_blocks = dropped blocks kept;
      },
    )

module _ (tool_text : Access → String → Fields → Option String) (dumps : Value → String)
    (is_date : Value → Bool) where
  unfoldable pub block_text : ℕ → String → Fields → String → String
  block_text i name args rendered = str_append "## gather step " (
      str_append (decimal i) (
        str_append ": " (
          str_append name
            (str_append " " (str_append (dumps (obj args)) (str_append "\n" rendered))))))

  -- A step of a declaration that was validated has a tool.
  unfoldable pub run_step : Access → ℕ → Value → Result GatherError String
  unfolding step_args block_text get
  run_step principal i (obj fs) = elim (get "tool" fs) [
    | some (str name) ↦ step_args fs >>= λ args. elim (tool_text principal name args) [
      | none ↦ err step_failed
      | some rendered ↦ ok (block_text i name args rendered)
    ]
    | _ ↦ err key_error
  ]
  run_step principal i v = err type_error

  -- The loop over the steps, from the index of the first.
  unfoldable pub run_each : Access → ℕ → Items → Result GatherError (List String)
  unfolding run_step
  run_each principal i nil = ok []
  run_each principal i (cons v vs) = run_step principal i v >>= λ block.
      run_each principal (i + 1) vs >>= λ blocks. ok (block ∷ blocks)

  unfoldable pub run_blocks : Access → Value → Result GatherError (List String)
  run_blocks principal (arr vs) = run_each principal 0 vs
  run_blocks principal v = err type_error

  unfoldable pub run_steps : Access → Value → ℕ → Result GatherError (String × Stats)
  unfolding validate_gather_steps run_blocks assembled
  run_steps principal steps budget =
      validate_gather_steps is_date steps
      >> (run_blocks principal steps >>= λ blocks. ok (assembled budget blocks))

  -- `job.props.get("tools") or []`
  unfoldable pub declared_steps : Fields → Value
  unfolding truthy get
  declared_steps props = elim (get "tools" props) [
    | none ↦ arr nil
    | some v ↦ if truthy v then v else arr nil
  ]

  unfoldable pub run_gather : Fields → Node → Result GatherError (String × Stats)
  unfolding effective_principal gather_budget_chars run_steps declared_steps
  run_gather props n = effective_principal n >>= λ principal.
      gather_budget_chars props >>= λ budget. run_steps principal (declared_steps props) budget

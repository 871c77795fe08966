-- ===== src/Scheduler/Authoring/Building.antt =====
-- `initial_next_run` and `build_job_properties`. croniter is a parameter, and so is the reading of
-- an ISO time by `datetime.fromisoformat`.
use semantics_toolchain.Prelude.{
  ℕ, pos, ltb_ℤ, String, Bool, not, Option, none, some, List, [], ◌∷◌, ◌==◌, if◌then◌else◌, Result,
  ok, err, ◌>>=◌, ◌>>◌, require,
}
use semantics_toolchain.Json.{Value, Fields, null, bool, str, obj, end, field, get, put, truthy}
use semantics_toolchain.Json.Convert.{Integer, int_of}
use semantics_toolchain.Scheduler.Job.{is_kind, iso}

-- The TriggerErrors.
pub data TriggerError : Type 0 where
  no_kind bad_spec bad_time no_time no_seconds bad_seconds small_seconds bad_expr : TriggerError
  unsupported_kind no_instruction : TriggerError

unfoldable pub spec_of : Fields → Result TriggerError Fields
spec_of trigger = elim (get "spec" trigger) [
  | none ↦ ok end
  | some null ↦ ok end
  | some (obj fs) ↦ ok fs
  | some v ↦ err bad_spec
]

unfoldable pub forward_seconds : Option Value → Result TriggerError Unit
forward_seconds none = err no_seconds
forward_seconds (some v) = elim (int_of v) [
  | Integer.number z ↦ if ltb_ℤ z (pos 1) then err small_seconds else ok tt
  | _ ↦ err bad_seconds
]

module _ (croniter : String → ℕ → Option ℕ) (read_time : String → Option ℕ) where
  -- `parse_iso(value)`: a value that is false gives no time.
  unfoldable pub parse_time : Option Value → Result TriggerError (Option ℕ)
  parse_time none = ok none
  parse_time (some (str s)) =
      if s == "" then ok none else elim (read_time s) [ none ↦ err bad_time | some t ↦ ok (some t) ]
  parse_time (some v) = if truthy v then err bad_time else ok none

  unfoldable pub or_now : ℕ → Option ℕ → ℕ
  or_now now none = now
  or_now now (some t) = t

  unfoldable pub time_given : Option ℕ → Result TriggerError ℕ
  time_given none = err no_time
  time_given (some t) = ok t

  unfoldable pub first_cron : Fields → ℕ → Result TriggerError ℕ
  first_cron spec now = elim (get "expr" spec) [
    | some (str expr) ↦
        if expr == ""
        then err bad_expr
        else elim (croniter expr now) [ none ↦ err bad_expr | some t ↦ ok t ]
    | _ ↦ err bad_expr
  ]

  unfoldable pub first_run : Value → Fields → ℕ → Result TriggerError ℕ
  unfolding parse_time time_given or_now first_cron
  first_run kind spec now =
      if is_kind "one_shot" kind
      then parse_time (get "at" spec) >>= time_given
      else if is_kind "interval" kind
      then forward_seconds (get "seconds" spec)
        >> (parse_time (get "start" spec) >>= λ t. ok (or_now now t))
      else if is_kind "cron" kind
      then first_cron spec now
      else err unsupported_kind

  unfoldable pub initial_next_run : Value → ℕ → Result TriggerError ℕ
  unfolding first_run
  initial_next_run (obj trigger) now = elim (get "kind" trigger) [
    | none ↦ err no_kind
    | some kind ↦ spec_of trigger >>= λ spec. first_run kind spec now
  ]
  initial_next_run v now = err no_kind

  -- The optional arguments, in the order in which they are written.
  unfoldable pub build_job_properties :
      String → Value → ℕ → Bool → List (String × Option Value) → Result TriggerError Fields
  unfolding initial_next_run
  build_job_properties instruction trigger now enabled optional =
      require (not (instruction == "")) no_instruction
      >> (initial_next_run trigger now >>= λ t. ok (
          with_given optional (
            field "enabled" (bool enabled) (
              field "trigger" trigger
                (field "instruction" (str instruction) (field "next_run" (str (iso t)) end))))))
    where
      with_given : List (String × Option Value) → Fields → Fields
      with_given [] props = props
      with_given ((k, none) ∷ rows) props = with_given rows props
      with_given ((k, some v) ∷ rows) props = with_given rows (put k v props)

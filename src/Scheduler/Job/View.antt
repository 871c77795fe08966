-- ===== src/Scheduler/Job/View.antt =====
-- `ScheduledJob` of job.py over the properties of its node. croniter is a parameter: the next time of
-- an expression after a time, or none where it raises one of the errors that the code catches.
use semantics_toolchain.Prelude.{
  ℕ, ◌+◌, ◌-◌, ◌*◌, ℤ, pos, negsuc, suc, String, Bool, true, false, Option, none, some, List, [],
  ◌∷◌, ◌==◌, ltb, if◌then◌else◌, contains, Result, ok, err, ◌>>=◌,
}
use semantics_toolchain.Json.{Value, Fields, null, int, str, obj, end, get, truthy, is_none}
use semantics_toolchain.Json.Convert.{Integer, int_of}
use semantics_toolchain.Scheduler.Job.Time.{second, end_of_time}

abbrev pub supported_kinds : List String
supported_kinds = "one_shot" ∷ "interval" ∷ "cron" ∷ []

abbrev pub recurring_kinds : List String
recurring_kinds = "interval" ∷ "cron" ∷ []

unfoldable pub enabled : Fields → Bool
enabled props = elim (get "enabled" props) [ none ↦ false | some v ↦ truthy v ]

unfoldable pub trigger : Fields → Fields
trigger props = elim (get "trigger" props) [ some (obj fs) ↦ fs | _ ↦ end ]

-- `self.trigger.get("kind", "")`, which may be any value.
unfoldable pub kind : Fields → Value
unfolding trigger
kind props = elim (get "kind" (trigger props)) [ none ↦ str "" | some v ↦ v ]

unfoldable pub is_kind : String → Value → Bool
is_kind k (str s) = s == k
is_kind k v = false

-- How `advance` raises: ValueError, TypeError, OverflowError.
pub data AdvanceError : Type 0 where
  value_error type_error overflow_error : AdvanceError

unfoldable pub spec : Fields → Result AdvanceError Fields
spec props = elim (get "spec" (trigger props)) [
  | none ↦ ok end
  | some null ↦ ok end
  | some (obj fs) ↦ ok fs
  | some v ↦ err AdvanceError.value_error
]

unfoldable pub has_predicate : Fields → Bool
has_predicate props = elim (is_none (get "predicate" (trigger props))) [
  | true ↦ false
  | false ↦ true
]

unfoldable pub predicate : Fields → Option Value
predicate props = get "predicate" (trigger props)

unfoldable pub supported_kind : Fields → Bool
supported_kind props = elim (kind props) [ str s ↦ contains supported_kinds s | _ ↦ false ]

unfoldable pub is_recurring : Fields → Bool
is_recurring props = elim (kind props) [ str s ↦ contains recurring_kinds s | _ ↦ false ]

-- `now + timedelta(seconds=z)`
unfoldable pub plus_seconds : ℕ → ℤ → Result AdvanceError ℕ
plus_seconds now (pos s) =
    if ltb (now + s * second) end_of_time then ok (now + s * second) else err overflow_error
plus_seconds now (negsuc s) =
    if ltb now (suc s * second) then err overflow_error else ok (now - suc s * second)

unfoldable pub seconds_of : Fields → Result AdvanceError ℤ
seconds_of fs = elim (int_of (elim (get "seconds" fs) [ none ↦ int (pos 0) | some v ↦ v ])) [
  | Integer.number z ↦ ok z
  | Integer.value_error ↦ err AdvanceError.value_error
  | Integer.type_error ↦ err AdvanceError.type_error
]

module _ (croniter : String → ℕ → Option ℕ) where
  unfoldable pub next_cron : Fields → ℕ → Result AdvanceError ℕ
  next_cron fs now = elim (get "expr" fs) [
    | some (str expr) ↦
        if expr == ""
        then err AdvanceError.value_error
        else elim (croniter expr now) [ none ↦ err AdvanceError.value_error | some t ↦ ok t ]
    | _ ↦ err AdvanceError.value_error
  ]

  unfoldable pub advance : Fields → ℕ → Result AdvanceError (Option ℕ × Bool)
  unfolding spec next_cron
  advance props now =
      if is_kind "one_shot" (kind props)
      then ok (none, true)
      else if is_kind "interval" (kind props)
      then spec props
        >>= (λ fs. seconds_of fs >>= λ z. plus_seconds now z >>= λ t. ok (some t, false))
      else if is_kind "cron" (kind props)
      then spec props >>= (λ fs. next_cron fs now >>= λ t. ok (some t, false))
      else err AdvanceError.value_error

-- ===== src/Scheduler/Authoring/Schedulable.antt =====
-- Lemmas on `initial_next_run` of authoring.py beside `advance` of job.py.
use semantics_toolchain.Prelude.{
  ℕ, ◌+◌, ◌*◌, suc, ℤ, pos, negsuc, ltb, String, Bool, true, false, Option, none, some, ◌≡◌, refl,
  sym, ap, ◌∙◌, inl, inr, ◌⊎◌, arith, Result, ok, err, ◌>>=◌, ◌>>◌, >>=-eq-ok, is_ok, Bool-cases,
  Option-cases,
}
use semantics_toolchain.Json.{Value, Fields, null, bool, int, float, str, arr, obj, get}
use semantics_toolchain.Json.Convert.{Integer, int_of}
use semantics_toolchain.Scheduler.Job.{
  end_of_time, second, AdvanceError, overflow_error, is_kind, kind, trigger, spec, seconds_of,
  plus_seconds, advance,
}
use semantics_toolchain.Scheduler.Authoring.Building.{
  or_now, parse_time, spec_of, forward_seconds, first_run, initial_next_run,
}

plus_seconds-total :
    (now : ℕ) (z : ℤ)
    → (is_ok (plus_seconds now z) ≡ true) ⊎ (plus_seconds now z ≡ err overflow_error)
unfolding plus_seconds
plus_seconds-total now (pos s) = elim (Bool-cases (ltb (now + s * second) end_of_time)) [
  | inl early ↦ inl (rw early refl)
  | inr late ↦ inr (rw late refl)
]
plus_seconds-total now (negsuc s) = elim (Bool-cases (ltb now (suc s * second))) [
  | inl early ↦ inr (rw early refl)
  | inr late ↦ inl (rw late refl)
]

forward_seconds-number :
    (fs : Fields) → forward_seconds (get "seconds" fs) ≡ ok tt → (z : ℤ) × (seconds_of fs ≡ ok z)
unfolding forward_seconds seconds_of
forward_seconds-number fs h = by_seconds (get "seconds" fs) refl
  where
    by_seconds : (o : Option Value) → get "seconds" fs ≡ o → (z : ℤ) × (seconds_of fs ≡ ok z)
    by_seconds none e = absurd (ground arith)
    by_seconds (some v) e = by_number (int_of v) refl
      where
        by_number : (n : Integer) → int_of v ≡ n → (z : ℤ) × (seconds_of fs ≡ ok z)
        by_number (Integer.number z) q = (z, ground arith)
        by_number Integer.value_error q = absurd (ground arith)
        by_number Integer.type_error q = absurd (ground arith)

spec-spec_of : (props fs gs : Fields) → trigger props ≡ fs → spec_of fs ≡ ok gs → spec props ≡ ok gs
unfolding spec spec_of
spec-spec_of props fs gs same h = by_spec (get "spec" fs) refl
  where
    by_spec : (o : Option Value) → get "spec" fs ≡ o → spec props ≡ ok gs
    by_spec none e = ground (arith, same, e)
    by_spec (some null) e = ground (arith, same, e)
    by_spec (some (obj hs)) e = ground (arith, same, e)
    by_spec (some (bool b)) e = absurd (ground (arith, same, e))
    by_spec (some (int z)) e = absurd (ground (arith, same, e))
    by_spec (some (float m k)) e = absurd (ground (arith, same, e))
    by_spec (some (str s)) e = absurd (ground (arith, same, e))
    by_spec (some (arr vs)) e = absurd (ground (arith, same, e))

abbrev pub Advances : Result AdvanceError (Option ℕ × Bool) → Type 0
Advances r = (is_ok r ≡ true) ⊎ (r ≡ err overflow_error)

module _ (croniter : String → ℕ → Option ℕ) (read_time : String → Option ℕ) where
  advance-one_shot :
      (props : Fields) (later : ℕ)
      → is_kind "one_shot" (kind props) ≡ true
      → is_ok (advance croniter props later) ≡ true
  unfolding advance
  advance-one_shot props later e = rw (e, advance) refl

  advance-seconds :
      (props gs : Fields) (later : ℕ) (z : ℤ)
      → is_kind "one_shot" (kind props) ≡ false
      → is_kind "interval" (kind props) ≡ true
      → spec props ≡ ok gs
      → seconds_of gs ≡ ok z
      → advance croniter props later ≡ (plus_seconds later z >>= λ t. ok (some t, false))
  unfolding advance
  advance-seconds props gs later z a b c d = rw (a, b, c) (rw d refl)

  Advances-seconds :
      (props gs : Fields) (later : ℕ) (z : ℤ)
      → is_kind "one_shot" (kind props) ≡ false
      → is_kind "interval" (kind props) ≡ true
      → spec props ≡ ok gs
      → seconds_of gs ≡ ok z
      → Advances (advance croniter props later)
  Advances-seconds props gs later z a b c d =
      let step = advance-seconds props gs later z a b c d in
      elim (plus_seconds-total later z) [
        | inl good ↦ inl (rw step (ground arith))
        | inr late ↦ inr (rw step (rw late refl))
      ]

  -- The kinds that `first_run` accepts, but cron, with what an interval was tested for.
  accepted_kind :
      (k : Value) (gs : Fields) (now t : ℕ)
      → first_run croniter read_time k gs now ≡ ok t
      → is_kind "cron" k ≡ false
      → (is_kind "one_shot" k ≡ true)
        ⊎ (is_kind "one_shot" k ≡ false)
          × (is_kind "interval" k ≡ true)
          × (forward_seconds (get "seconds" gs) ≡ ok tt)
  unfolding first_run
  accepted_kind k gs now t h cron = elim (Bool-cases (is_kind "one_shot" k)) [
    | inl one ↦ inl one
    | inr more ↦ elim (Bool-cases (is_kind "interval" k)) [
      | inl interval ↦
          let run : (forward_seconds (get "seconds" gs)
                >> (parse_time croniter read_time (get "start" gs) >>= λ x.
                    ok (or_now croniter read_time now x)))
              ≡ ok t =
            rw (more, interval, first_run) at h in
          let (u, forward, rest) = >>=-eq-ok (forward_seconds (get "seconds" gs)) _ run in
          inr (more, interval, forward)
      | inr other ↦ absurd (ground arith)
    ]
  ]

  kind-named :
      (props fs : Fields) (k : Value) → trigger props ≡ fs → get "kind" fs ≡ some k → kind props ≡ k
  unfolding kind
  kind-named props fs k same named = ground (arith, same, named)

  Advances-named :
      (props fs : Fields) (k : Value) (now later t : ℕ)
      → trigger props ≡ fs
      → get "kind" fs ≡ some k
      → is_kind "cron" k ≡ false
      → (spec_of fs >>= λ gs. first_run croniter read_time k gs now) ≡ ok t
      → Advances (advance croniter props later)
  Advances-named props fs k now later t same named cron h =
      let (gs, declared, run) =
        >>=-eq-ok (spec_of fs) (λ x. first_run croniter read_time k x now) h in
      let this = kind-named props fs k same named in
      elim (accepted_kind k gs now t run cron) [
        | inl one ↦ inl (advance-one_shot props later (ap (is_kind "one_shot") this ∙ one))
        | inr (more, interval, forward) ↦
            let (z, number) = forward_seconds-number gs forward in
            Advances-seconds props gs later z (ap (is_kind "one_shot") this ∙ more)
              (ap (is_kind "interval") this ∙ interval) (spec-spec_of props fs gs same declared)
              number
      ]

  -- A one-shot or interval trigger from which a first run was computed never fails to advance at run
  -- time, at whatever time that is, but by the OverflowError of an interval that ends after the year 9999.
  pub initial_next_run-Advances :
      (props fs : Fields) (now later t : ℕ)
      → trigger props ≡ fs
      → initial_next_run croniter read_time (obj fs) now ≡ ok t
      → is_kind "cron" (kind props) ≡ false
      → Advances (advance croniter props later)
  unfolding initial_next_run
  initial_next_run-Advances props fs now later t same h cron = elim (Option-cases (get "kind" fs)) [
    | inl missing ↦ absurd (ground arith)
    | inr (k, named) ↦
        Advances-named props fs k now later t same named
          (sym (ap (is_kind "cron") (kind-named props fs k same named)) ∙ cron)
          (rw (named, initial_next_run) at h)
  ]

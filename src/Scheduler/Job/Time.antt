-- ===== src/Scheduler/Job/Time.antt =====
-- `iso` of job.py. A time is the number of microseconds since the start of the year 1, in UTC, as
-- Python's datetime counts them.
use Prim.Native.String.{◌++◌ as str_append}
use semantics_toolchain.Prelude.{
  ℕ, zero, suc, ◌+◌, ◌-◌, ◌*◌, ◌/◌, ◌%◌, String, Bool, not, List, [], ◌∷◌, eqb, ltb, if◌then◌else◌,
  ◌&&◌, ◌||◌, ◌≡◌, refl,
}
use semantics_toolchain.Scheduler.Plan.{decimal}

abbrev pub second : ℕ
second = 1000000

abbrev pub day : ℕ
day = 86400 * 1000000

-- The end of the year 9999, the first moment that is out of range.
abbrev pub end_of_time : ℕ
end_of_time = 3652059 * (86400 * 1000000)

-- `f"{n:0{width}d}"` for a number of at most that many digits.
unfoldable pub padded : ℕ → ℕ → String
unfolding decimal
padded zero n = ""
padded (suc width) n = str_append (padded width (n / 10)) (decimal (n % 10))

is_leap : ℕ → Bool
is_leap y = eqb (y % 4) 0 && (not (eqb (y % 100) 0) || eqb (y % 400) 0)

month_lengths : ℕ → List ℕ
unfolding is_leap
month_lengths y =
    31 ∷ (if is_leap y then 29 else 28) ∷ 31 ∷ 30 ∷ 31 ∷ 30 ∷ 31 ∷ 31 ∷ 30 ∷ 31 ∷ 30 ∷ 31 ∷ []

-- Month and day of the n-th day of a year, counted from 0.
month_day : ℕ → ℕ → List ℕ → ℕ × ℕ
month_day m n [] = (m, n + 1)
month_day m n (l ∷ ls) =
    let later = month_day (m + 1) (n - l) ls in if ltb n l then (m, n + 1) else later

year_text : ℕ → ℕ → String
unfolding month_day month_lengths padded
year_text y n =
    let (m, d) = month_day 1 n (month_lengths y) in
    str_append (padded 4 y) (str_append "-" (str_append (padded 2 m) (str_append "-" (padded 2 d))))

-- The date of a day, counted from 0 at 0001-01-01, by cycles of 400, 100, 4 and 1 years.
date_text : ℕ → String
unfolding year_text
date_text n =
    let n400 = n / 146097 in
    let r400 = n % 146097 in
    let n100 = r400 / 36524 in
    let r100 = r400 % 36524 in
    let n4 = r100 / 1461 in
    let r4 = r100 % 1461 in
    let n1 = r4 / 365 in
    let y = n400 * 400 + n100 * 100 + n4 * 4 + n1 + 1 in
    if eqb n1 4 || eqb n100 4 then year_text (y - 1) 365 else year_text y (r4 % 365)

clock_text : ℕ → String
unfolding padded
clock_text t =
    let s = t / 1000000 in
    str_append (padded 2 (s / 3600)) (
      str_append ":" (
        str_append (padded 2 (s / 60 % 60)) (
          str_append ":"
            (str_append (padded 2 (s % 60)) (str_append "." (padded 6 (t % 1000000)))))))

unfoldable pub iso : ℕ → String
unfolding date_text clock_text
iso t =
    str_append (date_text (t / (86400 * 1000000)))
      (str_append "T" (str_append (clock_text (t % (86400 * 1000000))) "+00:00"))

iso_forms :
    (iso 0 ≡ "0001-01-01T00:00:00.000000+00:00")
    × (iso (719162 * (86400 * 1000000) + 1) ≡ "1970-01-01T00:00:00.000001+00:00")
    × (iso (738214 * (86400 * 1000000) + 3661000000) ≡ "2022-03-01T01:01:01.000000+00:00")
    × (iso (3652058 * (86400 * 1000000)) ≡ "9999-12-31T00:00:00.000000+00:00")
unfolding iso
iso_forms = (refl, refl, refl, refl)

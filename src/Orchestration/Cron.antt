-- ===== src/Orchestration/Cron.antt =====
-- Cron expressions against a time in UTC (packages/orchestration-sdk/src/index.ts). A field is
-- given by what its text says: `*`, `*/n`, or a list of numbers; the splitting of the expression's
-- text into five fields, which throws where one is missing, and `Number` are not modelled, and a
-- text that is no number stands for no item of its list. `none` stands for a loop that does not
-- end.
use gana_v.Prelude.{
  ℕ, zero, suc, ◌+◌, ◌-◌, ◌*◌, ◌/◌, ◌%◌, Bool, true, false, Option, none, some, List, [], ◌∷◌, leb,
  ltb, ◌==◌, if◌then◌else◌, any,
}
use gana_v.Queue.Task.{Time}

pub data CronField : Type 0 where
  star : CronField
  every : ℕ → CronField
  listed : List ℕ → CronField

pub record CronSpec : Type 0 where
  pub minute : CronField
  pub hour : CronField
  pub day : CronField
  pub month : CronField
  pub weekday : CronField

abbrev pub then_cons : ℕ → Option (List ℕ) → Option (List ℕ)
then_cons x none = none
then_cons x (some xs) = some (x ∷ xs)

-- `for (let current = min; current <= max; current += step) values.push(current)`, at most `fuel`
-- rounds
unfoldable pub step_values : ℕ → ℕ → ℕ → ℕ → Option (List ℕ)
step_values zero current limit step = none
step_values (suc fuel) current limit step =
    let rest = step_values fuel (current + step) limit step in
    if leb current limit then then_cons current rest else some []

-- The loop passes over at most every number from the least to the greatest value, and stops.
abbrev pub rounds : ℕ → ℕ → ℕ
rounds least limit = suc (suc limit - least)

abbrev pub as_field : Option (List ℕ) → Option (Option (List ℕ))
as_field none = none
as_field (some values) = some (some values)

-- `parseCronField`; `some none` is its null, which matches everything.
unfoldable pub parse_cron_field : CronField → ℕ → ℕ → Option (Option (List ℕ))
parse_cron_field star least limit = some none
parse_cron_field (every step) least limit =
    as_field (step_values (rounds least limit) least limit step)
parse_cron_field (listed values) least limit = some (some values)

abbrev pub includes : ℕ → List ℕ → Bool
includes v values = any (λ x. x == v) values

-- `values === null ? true : values.includes(actual)`
abbrev pub allows : Option (Option (List ℕ)) → ℕ → Option Bool
allows none actual = none
allows (some none) actual = some true
allows (some (some values)) actual = some (includes actual values)

unfoldable pub match_field : CronField → ℕ → ℕ → ℕ → Option Bool
match_field field actual least limit = allows (parse_cron_field field least limit) actual

-- `left && right`, where the right side is only computed if the left is true
abbrev pub and_then : Option Bool → Option Bool → Option Bool
and_then none right = none
and_then (some false) right = some false
and_then (some true) right = right

-- The parts of a time in UTC: days since the epoch and the minute of the day, and the month and the
-- day of the month in the Gregorian calendar, whose years here begin in March.
abbrev pub utc_minutes : Time → ℕ
utc_minutes t = t / 60000 % 60

abbrev pub utc_hours : Time → ℕ
utc_hours t = t / 3600000 % 24

abbrev days : Time → ℕ
days t = t / 86400000

abbrev pub utc_day : Time → ℕ
utc_day t = (days t + 4) % 7

abbrev day_of_year : ℕ → ℕ
day_of_year day =
    let of_era = (day + 719468) % 146097 in
    let year = (of_era - of_era / 1460 + of_era / 36524 - of_era / 146096) / 365 in
    of_era - (365 * year + year / 4 - year / 100)

abbrev march_month : Time → ℕ
march_month t = (5 * day_of_year (days t) + 2) / 153

abbrev pub utc_date : Time → ℕ
utc_date t = day_of_year (days t) - (153 * march_month t + 2) / 5 + 1

-- `getUTCMonth() + 1`
abbrev pub utc_month : Time → ℕ
utc_month t = if ltb (march_month t) 10 then march_month t + 3 else march_month t - 9

unfoldable pub matches_cron_spec : CronSpec → Time → Option Bool
matches_cron_spec cron date = and_then (match_field cron.minute (utc_minutes date) 0 59) (
    and_then (match_field cron.hour (utc_hours date) 0 23) (
      and_then (match_field cron.day (utc_date date) 1 31) (
        and_then (match_field cron.month (utc_month date) 1 12)
          (match_field cron.weekday (utc_day date) 0 6))))

-- `floorToMinute`
abbrev pub floor_to_minute : Time → Time
floor_to_minute t = t / 60000 * 60000

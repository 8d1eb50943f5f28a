-- ===== src/Timer.antt =====
-- When a timer fires next (src/manager/timer_scheduler_impl.rs). The local time is what the program
-- reads of it: the hour, the minute, the second, the day of the week and the date. The calendar of
-- months and years is the date library's, so that `next_monthly_trigger` and `next_yearly_trigger`
-- are parameters, functions of the local time, and so is the random delay. The seconds of a result are those of its `Duration`.
pub mod Next
pub mod Earliest
mod Tests
use sysd.Prelude.{
  ℕ, suc, ◌+◌, ◌-◌, ◌*◌, ◌/◌, ◌%◌, ◌^◌, String, ◌||◌, Option, none, some, List, [], ◌∷◌, ◌==◌,
  nat_eq, string_eq, if◌then◌else◌, ltb, min,
}
use sysd.Units.Sections.{Duration}
use sysd.Units.Defaults.{from_secs}
use sysd.Units.Words.{to_lowercase}
use sysd.Units.Kinds.{CalendarSpec, named, day_of_week, time, full, Timer}
use sysd.State.{Instant}

-- The days of the week, from Monday, which is 0.
pub record LocalTime : Type 0 where
  pub hour : ℕ
  pub minute : ℕ
  pub second : ℕ
  pub weekday : ℕ
  pub date : ℕ  -- the number of the day, which only the date library's functions read

unfoldable pub seconds_since_midnight : LocalTime → ℕ
seconds_since_midnight now = now.hour * 3600 + now.minute * 60 + now.second

unfoldable pub seconds_until_midnight : LocalTime → ℕ
unfolding seconds_since_midnight
seconds_until_midnight now = 86400 - seconds_since_midnight now

unfoldable pub parse_weekday : String → Option ℕ
parse_weekday day =
    let word = to_lowercase day in
    if word == "mon" || word == "monday"
    then some 0
    else if word == "tue" || word == "tuesday"
    then some 1
    else if word == "wed" || word == "wednesday"
    then some 2
    else if word == "thu" || word == "thursday"
    then some 3
    else if word == "fri" || word == "friday"
    then some 4
    else if word == "sat" || word == "saturday"
    then some 5
    else if word == "sun" || word == "sunday"
    then some 6
    else none

-- Both days are below 7, so that the source's signed difference with 7 added is not negative.
unfoldable pub seconds_until_weekday : LocalTime → ℕ → ℕ
unfolding seconds_until_midnight
seconds_until_weekday now target =
    let days_until = (target + 7 - now.weekday) % 7 in
    seconds_until_midnight now + ((if days_until == 0 then 7 else days_until) - 1) * 86400

-- The seconds of `next_time_trigger`; the sum of the target is a `u32`.
unfoldable pub next_time_trigger : LocalTime → ℕ → ℕ → ℕ → ℕ
unfolding seconds_since_midnight
next_time_trigger now hour minute second =
    let target_secs = (hour * 3600 + minute * 60 + second) % 2 ^ 32 in
    let now_secs = seconds_since_midnight now in
    if ltb now_secs target_secs then target_secs - now_secs else 86400 - now_secs + target_secs

unfoldable pub next_full_expression_trigger : LocalTime → String → ℕ
unfolding seconds_since_midnight
next_full_expression_trigger now expr =
    if expr == "*-*-* *:00:00" then 3600 - seconds_since_midnight now % 3600 else 3600

abbrev map_secs : (ℕ → ℕ) → Option ℕ → Option Duration
map_secs f none = none
map_secs f (some n) = some (from_secs (f n))

-- `next.map_or(d, |n| n.min(d))`.
unfoldable pub sooner : Option Duration → Duration → Option Duration
sooner none d = some d
sooner (some n) d = some (min n d)

-- `if let Some(d) = candidate { next = Some(next.map_or(d, |n| n.min(d))) }`.
unfoldable pub consider : Option Duration → Option Duration → Option Duration
unfolding sooner
consider none next = next
consider (some d) next = sooner next d

-- What is left of a delay that counts from the boot, if any is.
unfoldable pub rest_of : Option Duration → Duration → Option Duration
rest_of none elapsed = none
rest_of (some d) elapsed = if ltb elapsed d then some (d - elapsed) else none

-- The randomized delay, where there is one: a number of seconds up to its own.
abbrev pub delayed : (ℕ → ℕ) → Option Duration → Option Duration → Option Duration
delayed rand_delay none next = next
delayed rand_delay (some d) none = none
delayed rand_delay (some d) (some n) = some (n + from_secs (rand_delay (d / 1_000_000_000)))

module _ (next_monthly_trigger next_yearly_trigger : LocalTime → Option Duration) where
  unfoldable pub next_named_trigger : LocalTime → String → Option Duration
  next_named_trigger now name =
      if name == "minutely"
      then some (from_secs (60 - seconds_since_midnight now % 60))
      else if name == "hourly"
      then some (from_secs (3600 - seconds_since_midnight now % 3600))
      else if name == "daily"
      then some (from_secs (seconds_until_midnight now))
      else if name == "weekly"
      then some (from_secs (seconds_until_weekday now 0))
      else if name == "monthly"
      then next_monthly_trigger now
      else if name == "yearly" || name == "annually"
      then next_yearly_trigger now
      else none

  unfoldable pub next_calendar_trigger : LocalTime → CalendarSpec → Option Duration
  next_calendar_trigger now (named name) = next_named_trigger now name
  next_calendar_trigger now (day_of_week day) =
      map_secs (seconds_until_weekday now) (parse_weekday day)
  next_calendar_trigger now (time h m s) = some (from_secs (next_time_trigger now h m s))
  next_calendar_trigger now (full expr) = some (from_secs (next_full_expression_trigger now expr))

  -- The `for` loop over `OnCalendar=`: turn `i` reads the local time `clock i`.
  unfoldable pub consider_all :
      (ℕ → LocalTime) → ℕ → List CalendarSpec → Option Duration → Option Duration
  consider_all clock i [] next = next
  consider_all clock i (spec ∷ specs) next =
      consider_all clock (suc i) specs (consider (next_calendar_trigger (clock i) spec) next)

  -- Each candidate in the source's order.
  unfoldable pub calculate_next_trigger :
      (ℕ → ℕ) → (ℕ → LocalTime) → Instant → Instant → Timer → Option Duration
  calculate_next_trigger rand_delay clock instant boot_time t =
      let elapsed = instant - boot_time in
      let next₁ = consider (rest_of t.timer.on_boot_sec elapsed) none in
      let next₂ = consider (rest_of t.timer.on_startup_sec elapsed) next₁ in
      let next₃ = consider t.timer.on_active_sec next₂ in
      let next₄ = consider t.timer.on_unit_active_sec next₃ in
      delayed rand_delay t.timer.randomized_delay_sec
        (consider_all clock 0 t.timer.on_calendar next₄)

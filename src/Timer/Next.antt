-- ===== src/Timer/Next.antt =====
-- Where the next trigger of a calendar entry lies (src/manager/timer_scheduler_impl.rs).
use sysd.Prelude.{ℕ, ◌+◌, ◌*◌, ◌%◌, ◌≤◌, ◌<◌, ◌≡◌, arith, nat_eq}
use sysd.Timer.{
  LocalTime, seconds_since_midnight, seconds_until_midnight, seconds_until_weekday,
  next_time_trigger,
}

-- A time of day and a day of the week.
pub record IsTime (now : LocalTime) : Type 0 where
  pub hour : now.hour < 24
  pub minute : now.minute < 60
  pub second : now.second < 60
  pub weekday : now.weekday < 7

-- At a time of day, for an entry that names a time of day, the timer fires after at least a second and
-- at most a day, and then it is the time that the entry names.
pub next_time_trigger_lem :
    (now : LocalTime) (hour minute second : ℕ)
    → IsTime now
    → hour < 24
    → minute < 60
    → second < 60
    → (0 < next_time_trigger now hour minute second)
      × (next_time_trigger now hour minute second ≤ 86400)
      × ((seconds_since_midnight now + next_time_trigger now hour minute second) % 86400
          ≡ hour * 3600 + minute * 60 + second)
unfolding next_time_trigger seconds_since_midnight
next_time_trigger_lem now hour minute second t h m s = ground (arith, t.hour, t.minute, t.second)

-- At a time of day, for a day of the week, the timer fires after at least a second and at most a week,
-- and then it is the midnight at which that day begins.
pub seconds_until_weekday_lem :
    (now : LocalTime) (target : ℕ)
    → IsTime now
    → target < 7
    → (0 < seconds_until_weekday now target)
      × (seconds_until_weekday now target ≤ 604800)
      × ((now.weekday * 86400 + seconds_since_midnight now + seconds_until_weekday now target)
            % 604800
          ≡ target * 86400)
unfolding seconds_until_weekday seconds_until_midnight seconds_since_midnight
seconds_until_weekday_lem now target t d = ground (arith, t.hour, t.minute, t.second, t.weekday)

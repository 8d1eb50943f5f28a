-- ===== src/Timer/Tests.antt =====
-- Some minutes before noon on a Wednesday.
use sysd.Prelude.{◌+◌, ◌%◌, ◌≤◌, ◌<◌, ◌≡◌, arith, refl, Option, none, some, [], ◌∷◌}
use sysd.Units.Sections.{Duration}
use sysd.Units.Defaults.{default_unit_section, default_install_section, from_secs}
use sysd.Units.Kinds.{Timer, time}
use sysd.Units.Made.{new_timer_section}
use sysd.Timer.Earliest.{Least, Candidate, calculate_next_trigger_lem}
use sysd.Timer.{
  calculate_next_trigger, delayed, next_calendar_trigger, rest_of, consider, consider_all,
  LocalTime, seconds_since_midnight, next_time_trigger,
}
use sysd.Timer.Next.{IsTime, next_time_trigger_lem}

abbrev late_morning : LocalTime
late_morning = record { hour = 11; minute = 50; second = 30; weekday = 2; date = 20_000 }

late_morning-IsTime : IsTime late_morning
late_morning-IsTime = record {
  hour = omega arith;
  minute = omega arith;
  second = omega arith;
  weekday = omega arith;
}

next_time_trigger_lem_example :
    (0 < next_time_trigger late_morning 12 0 0)
    × (next_time_trigger late_morning 12 0 0 ≤ 86400)
    × ((seconds_since_midnight late_morning + next_time_trigger late_morning 12 0 0) % 86400
        ≡ 43200)
next_time_trigger_lem_example =
    next_time_trigger_lem late_morning 12 0 0 late_morning-IsTime (omega arith) (omega arith)
      (omega arith)

-- Ten minutes after the boot, and at noon.
abbrev two_settings : Timer
two_settings = record {
  name = "backup.timer";
  unit = default_unit_section;
  timer = record new_timer_section {
    on_boot_sec = some (from_secs 600);
    on_calendar = time 12 0 0 ∷ [];
  };
  install = default_install_section;
}

abbrev unknown : LocalTime → Option Duration
unknown now = none

-- Two minutes after the boot the ten minutes are over in eight, and noon comes in nine and a half.
eight_minutes :
    calculate_next_trigger unknown unknown
      (λ n. 0)
      (λ i. late_morning)
      (from_secs 120)
      0
      two_settings
    ≡ some (from_secs 480)
unfolding calculate_next_trigger new_timer_section rest_of consider consider_all
    next_calendar_trigger next_time_trigger
eight_minutes = refl

calculate_next_trigger_lem_example :
    (next : Option Duration) × Least
      (Candidate unknown unknown (λ i. late_morning) (from_secs 120) two_settings)
      next
    × (calculate_next_trigger unknown unknown
          (λ n. 0)
          (λ i. late_morning)
          (from_secs 120)
          0
          two_settings
        ≡ delayed (λ n. 0) two_settings.timer.randomized_delay_sec next)
calculate_next_trigger_lem_example =
    calculate_next_trigger_lem unknown unknown (λ n. 0) (λ i. late_morning) (from_secs 120) 0
      two_settings

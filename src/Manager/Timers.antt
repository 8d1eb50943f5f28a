-- ===== src/Manager/Timers.antt =====
-- Timer units (src/manager/timer_ops_impl.rs). A task that waits for a trigger is what the operation
-- that starts it answers with; `start` is a parameter of `handle_timer_fired`, and the clock, the time
-- of the boot and the random delay are those of Timer.
mod Tests
use sysd.Prelude.{
  ℕ, String, Bool, true, false, ◌||◌, Option, none, some, List, get, string_eq, if◌then◌else◌,
  is_some, map_or, ◌>>=◌, ◌>>=◌, unwrap_or,
}
use sysd.Text.{replace}
use sysd.Units.Sections.{Duration}
use sysd.Units.Kinds.{Timer, as_timer}
use sysd.Units.Made.{is_nonempty}
use sysd.State.{Instant, ServiceState, is_active}
use sysd.Timer.{LocalTime, calculate_next_trigger}
use sysd.Manager.{Manager, ManagerError, Result, ok, err, Outcome}
use sysd.Manager.Watched.{unless_active, when_active, started, stopped}

-- `watch_timer`, after the delay.
pub record Scheduled : Type 0 where
  pub timer_name : String
  pub service_name : String
  pub delay : Duration

unfoldable pub timer_service_name : Timer → String
timer_service_name t = unwrap_or (replace ".timer" ".service" t.name) t.timer.unit

unfoldable pub timer_repeats : Timer → Bool
timer_repeats t = is_some t.timer.on_unit_active_sec || is_nonempty t.timer.on_calendar

abbrev pub schedule : String → Timer → Option Duration → Option Scheduled
schedule timer_name t none = none
schedule timer_name t (some delay) =
    some (record { timer_name = timer_name; service_name = timer_service_name t; delay = delay })

unfoldable pub stop_timer : Instant → Instant → String → Manager → Outcome {0} Unit
stop_timer now now' name m = when_active (get m.states name) name m (ok tt, stopped now now' name m)

module _ (next_monthly_trigger next_yearly_trigger : LocalTime → Option Duration)
    (rand_delay : ℕ → ℕ) (clock : ℕ → LocalTime) (instant boot_time : Instant) where
  abbrev next_trigger : Timer → Option Duration
  next_trigger =
      calculate_next_trigger next_monthly_trigger next_yearly_trigger rand_delay clock instant
        boot_time

  unfoldable pub start_timer :
      Instant → Instant → String → Timer → Manager → Outcome (Option Scheduled)
  unfolding timer_service_name
  start_timer now now' name t m =
      unless_active (get m.states name) name m
        (ok (schedule name t (next_trigger t)), started now now' name m)

  abbrev again : String → Option Timer → Option Scheduled
  again timer_name none = none
  again timer_name (some t) =
      if timer_repeats t then schedule timer_name t (next_trigger t) else none

  unfoldable pub reschedule_timer : String → Manager → Option Scheduled
  unfolding timer_repeats timer_service_name
  reschedule_timer timer_name m = again timer_name (get m.units timer_name >>= as_timer)

  module _ (start : String → Manager → Outcome {0} Unit) where
    unfoldable pub handle_timer_fired :
        String → String → Manager → Outcome {0} Unit × Option Scheduled
    unfolding reschedule_timer
    handle_timer_fired timer_name service_name m =
        if map_or false is_active (get m.states service_name)
        then ((ok tt, m), reschedule_timer timer_name m)
        else (start service_name m, reschedule_timer timer_name (start service_name m).1)

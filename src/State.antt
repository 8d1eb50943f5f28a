-- ===== src/State.antt =====
-- The runtime state of a unit (src/manager/state.rs). A method that mutates the state returns the
-- new record. Each reading of the clock (`Instant::now()`) is an argument, in the order of the
-- readings; an `Instant` is a number of nanoseconds, and the clock never runs backwards, so that
-- `duration_since` is the truncated difference, which is what the library returns.
pub mod Invariant
mod Tests
use sysd.Prelude.{
  ℕ, ◌+◌, ◌-◌, ◌%◌, ◌^◌, ℤ, pos, String, Bool, true, false, Option, none, some, ltb, leb, ◌==◌,
  int_eq, if◌then◌else◌,
}
use sysd.Units.Sections.{Duration}
use sysd.Units.Defaults.{from_secs}

abbrev pub Instant : Type 0
Instant = ℕ

pub data ActiveState : Type 0 where
  inactive activating active deactivating failed : ActiveState

pub data SubState : Type 0 where
  dead starting running stopping failed exited auto_restart : SubState

pub record ServiceState : Type 0 where
  pub active : ActiveState
  pub sub : SubState
  pub main_pid : Option ℕ  -- u32
  pub state_change_time : Instant
  pub exit_code : Option ℤ  -- i32
  pub error : Option String
  pub restart_at : Option Instant
  pub restart_count : ℕ  -- u32
  pub restart_interval_start : Option Instant

-- `ServiceState::default` and `ServiceState::new`.
unfoldable pub new : Instant → ServiceState
new now = record {
  active = ActiveState.inactive;
  sub = SubState.dead;
  main_pid = none;
  state_change_time = now;
  exit_code = none;
  error = none;
  restart_at = none;
  restart_count = 0;
  restart_interval_start = none;
}

unfoldable pub running_scope : Instant → ServiceState
running_scope now = record {
  active = ActiveState.active;
  sub = SubState.running;
  main_pid = none;
  state_change_time = now;
  exit_code = none;
  error = none;
  restart_at = none;
  restart_count = 0;
  restart_interval_start = none;
}

unfoldable pub set_starting : Instant → ServiceState → ServiceState
set_starting now s = record s {
  active = ActiveState.activating;
  sub = SubState.starting;
  state_change_time = now;
  exit_code = none;
  error = none;
}

unfoldable pub set_running : ℕ → Instant → ServiceState → ServiceState
set_running pid now s = record s {
  active = ActiveState.active;
  sub = SubState.running;
  main_pid = some pid;
  state_change_time = now;
}

unfoldable pub set_stopping : Instant → ServiceState → ServiceState
set_stopping now s = record s {
  active = ActiveState.deactivating;
  sub = SubState.stopping;
  state_change_time = now;
}

unfoldable pub set_stopped : ℤ → Instant → ServiceState → ServiceState
set_stopped exit_code now s = record s {
  active = ActiveState.inactive;
  sub = if exit_code == pos 0 then SubState.exited else SubState.dead;
  main_pid = none;
  exit_code = some exit_code;
  state_change_time = now;
  restart_at = none;
}

-- `restart_count += 1` wraps at 2 ^ 32, as a release build does.
unfoldable pub next_count : ℕ → ℕ
next_count n = (n + 1) % 2 ^ 32

abbrev pub start_interval : Option Instant → Instant → Option Instant
start_interval none now = some now
start_interval (some start) now = some start

-- The state; the number that the method returns is its `restart_count`.
unfoldable pub set_auto_restart :
    Duration → Instant → Instant → Instant → ServiceState → ServiceState
unfolding next_count
set_auto_restart delay now now' now'' s = record s {
  active = ActiveState.activating;
  sub = SubState.auto_restart;
  main_pid = none;
  restart_at = some (now + delay);
  restart_interval_start = start_interval s.restart_interval_start now';
  restart_count = next_count s.restart_count;
  state_change_time = now'';
}

-- The window of the rate limit: 10 seconds unless configured.
unfoldable pub interval_or_default : Option Duration → Duration
interval_or_default none = from_secs 10
interval_or_default (some d) = d

-- Whether the interval that began at `start`, if any did, is over.
unfoldable pub interval_expired : Option Instant → Duration → Instant → Bool
interval_expired none interval now = false
interval_expired (some start) interval now = ltb interval (now - start)

unfoldable pub is_restart_rate_limited :
    Option ℕ → Option Duration → Instant → ServiceState → ServiceState × Bool
unfolding interval_or_default interval_expired
is_restart_rate_limited none interval now s = (s, false)
is_restart_rate_limited (some burst) interval now s =
    if interval_expired s.restart_interval_start (interval_or_default interval) now
    then (record s { restart_count = 0; restart_interval_start = none }, false)
    else (s, leb burst s.restart_count)

abbrev is_due : Option Instant → Instant → Bool
is_due none now = false
is_due (some t) now = leb t now

unfoldable pub restart_due : Instant → ServiceState → Bool
restart_due now s = is_due s.restart_at now

unfoldable pub clear_restart : ServiceState → ServiceState
clear_restart s = record s { active = ActiveState.inactive; sub = SubState.dead; restart_at = none }

unfoldable pub reset_restart_count : ServiceState → ServiceState
reset_restart_count s = record s { restart_count = 0; restart_interval_start = none }

unfoldable pub set_failed : String → Instant → ServiceState → ServiceState
set_failed error now s = record s {
  active = ActiveState.failed;
  sub = SubState.failed;
  main_pid = none;
  error = some error;
  state_change_time = now;
}

unfoldable pub set_exited : Instant → ServiceState → ServiceState
set_exited now s = record s {
  active = ActiveState.active;
  sub = SubState.exited;
  main_pid = none;
  exit_code = some (pos 0);
  state_change_time = now;
}

unfoldable pub set_inactive : Instant → ServiceState → ServiceState
set_inactive now s = record s {
  active = ActiveState.inactive;
  sub = SubState.dead;
  main_pid = none;
  state_change_time = now;
}

abbrev active_or_activating : ActiveState → Bool
active_or_activating ActiveState.active = true
active_or_activating ActiveState.activating = true
active_or_activating _ = false

unfoldable pub is_active : ServiceState → Bool
is_active s = active_or_activating s.active

-- `ActiveState::as_str` and `SubState::as_str`, the words that clients see.
unfoldable pub active_as_str : ActiveState → String
active_as_str ActiveState.inactive = "inactive"
active_as_str ActiveState.activating = "activating"
active_as_str ActiveState.active = "active"
active_as_str ActiveState.deactivating = "deactivating"
active_as_str ActiveState.failed = "failed"

unfoldable pub sub_as_str : SubState → String
sub_as_str SubState.dead = "dead"
sub_as_str SubState.starting = "start"
sub_as_str SubState.running = "running"
sub_as_str SubState.stopping = "stop"
sub_as_str SubState.failed = "failed"
sub_as_str SubState.exited = "exited"
sub_as_str SubState.auto_restart = "auto-restart"

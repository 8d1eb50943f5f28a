-- ===== src/Manager/Single.antt =====
-- The start of one unit of any kind, and the restart (`start_single`, `start` and `restart` of
-- src/manager/mod_impl/part1.rs, part2.rs and part3.rs). The tasks that wait for a socket, a timer or
-- a path, which the starts of those units answer with, are not kept.
pub mod Same
pub mod Kept
pub mod Accounted
pub mod Switch
pub mod Stopping
pub mod Reload
pub mod Reloaded
mod Tests
use sysd.Prelude.{
  ℕ, String, Bool, true, false, ◌==◌, string_eq, Option, none, some, List, get, has_key, modify,
  if◌then◌else◌,
}
use sysd.FileSystem.{FileSystem}
use sysd.Units.Sections.{Duration}
use sysd.Units.Kinds.{AnyUnit, service, target, mount, slice, socket, timer, path, unit_section}
use sysd.Conditions.All.{check_conditions}
use sysd.State.{Instant, set_running}
use sysd.Timer.{LocalTime}
use sysd.Manager.{
  Manager, ManagerError, not_found, is_target, condition_failed, not_active, Result, ok, err,
  Outcome, ◌>>=◌, normalize_name,
}
use sysd.Manager.Load.{Disk, load}
use sysd.Manager.Order.{is_reached}
use sysd.Manager.Watched.{with_state, start_slice, start_path}
use sysd.Manager.Timers.{start_timer}
use sysd.Manager.Mounts.{Mounting, start_mount}
use sysd.Manager.Sockets.{SocketCalls, start_socket}
use sysd.Manager.Service.{Outside, start_service_unit}
use sysd.Manager.Stop.{Ending, stop}

-- What a start or a stop calls and reads outside: the readings of the clock in their order, the disk
-- with the unit files, the file system for the conditions, the executor, the system calls, the date
-- library and the local time, and how processes end.
pub record World : Type 0 where
  pub now : Instant
  pub now' : Instant
  pub now'' : Instant
  pub disk : Disk
  pub file_system : FileSystem
  pub outside : Outside
  pub socket_calls : ℕ → SocketCalls
  pub mounting : Mounting
  pub ending : Ending
  pub next_monthly_trigger : LocalTime → Option Duration
  pub next_yearly_trigger : LocalTime → Option Duration
  pub rand_delay : ℕ → ℕ
  pub clock : ℕ → LocalTime
  pub boot_time : Instant

unfoldable pub resolve_start_unit_name : World → String → Manager → Outcome String
resolve_start_unit_name w name m =
    if has_key m.units name then (ok name, m) else load w.disk w.now name m

abbrev pub finished : {A : Type 0} → Outcome A → Outcome {0} Unit
finished (ok a, m) = (ok tt, m)
finished (err e, m) = (err e, m)

abbrev pub unless_condition : Option String → String → Outcome {0} Unit → Manager → Outcome {0} Unit
unless_condition none name go m = go
unless_condition (some reason) name go m = (err (condition_failed name reason), m)

-- Only mounts and services have their conditions checked.
abbrev pub start_unit : World → String → AnyUnit → Manager → Outcome {0} Unit
start_unit w name (target u) m = (err (is_target name), m)
start_unit w name (slice u) m = start_slice w.now w.now' name m
start_unit w name (socket u) m = finished (start_socket w.socket_calls w.now w.now' name u m)
start_unit w name (timer u) m = finished (
    start_timer w.next_monthly_trigger w.next_yearly_trigger w.rand_delay w.clock w.now' w.boot_time
      w.now w.now'' name u m)
start_unit w name (path u) m = finished (start_path w.now w.now' name u m)
start_unit w name (mount u) m =
    unless_condition (check_conditions w.file_system u.unit) name
      (start_mount w.mounting w.now w.now' name u m) m
start_unit w name (service u) m =
    unless_condition (check_conditions w.file_system u.unit) name
      (start_service_unit w.outside w.now w.now' w.now'' name u m) m

abbrev pub start_found : World → String → String → Option AnyUnit → Manager → Outcome {0} Unit
start_found w name actual_name none m = (err (not_found name), m)
start_found w name actual_name (some u) m = start_unit w actual_name u m

unfoldable pub start_single : World → String → Manager → Outcome {0} Unit
unfolding resolve_start_unit_name
start_single w name m =
    resolve_start_unit_name w name m
    >>= (λ actual_name m'. start_found w name actual_name (get m'.units actual_name) m')

-- A target is a point of synchronization: reaching it is no error.
abbrev pub target_reached : Instant → String → Outcome {0} Unit → Outcome {0} Unit
target_reached now name (ok done, m) = (ok tt, m)
target_reached now name (err e, m) =
    if is_reached e then (ok tt, with_state name (set_running 0 now) m) else (err e, m)

unfoldable pub start : World → String → Manager → Outcome {0} Unit
unfolding start_single
start w requested m =
    let name = normalize_name requested in target_reached w.now' name (start_single w name m)

abbrev pub was_not_active : ManagerError → Bool
was_not_active (not_active n) = true
was_not_active _ = false

abbrev pub start_after : World → String → Outcome {0} Unit → Outcome {0} Unit
start_after w name (ok done, m) = start w name m
start_after w name (err e, m) = if was_not_active e then start w name m else (err e, m)

-- The stop reads its own clock and calls of its own.
unfoldable pub restart : World → World → String → Manager → Outcome {0} Unit
unfolding start
restart w w' requested m =
    let name = normalize_name requested in
    start_after w' name (stop w.mounting w.ending w.now w.now' name m)

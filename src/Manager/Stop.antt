-- ===== src/Manager/Stop.antt =====
-- The stop of a unit (src/manager/mod_impl/part2.rs and part3.rs). How a process ends after its
-- signals is a parameter; the removal of directories and the run of commands are answered with what is
-- removed and run.
pub mod Stopped
pub mod Touched
pub mod Inactive
use Prim.Native.String.{◌++◌ as append}
use sysd.Prelude.{
  ℕ, ℤ, pos, negsuc, String, Bool, true, false, ◌==◌, string_eq, Option, none, some, List, [], ◌∷◌,
  ◌++◌, get, remove, keep, has_key, if◌then◌else◌, map_or, unwrap_or, ◌>>=◌,
}
use sysd.Text.{begins_with, trim, trim_start_matches, split_whitespace, strip_end}
use sysd.Units.Enums.{KillMode, RuntimeDirectoryPreserve}
use sysd.Units.Sections.{ServiceSection, Duration}
use sysd.Units.Defaults.{from_secs}
use sysd.Units.Kinds.{
  Service, AnyUnit, service, target, mount, slice, socket, timer, path, as_service,
}
use sysd.State.{Instant, ServiceState, set_stopping, set_stopped, set_failed, is_active}
use sysd.Manager.{Manager, ManagerError, Result, ok, err, Outcome, normalize_name, ◌>>=◌ as then}
use sysd.Manager.Watched.{with_state, when_active, stop_slice, stop_path}
use sysd.Manager.Timers.{stop_timer}
use sysd.Manager.Mounts.{Mounting, stop_mount}
use sysd.Manager.Sockets.{stop_socket}
use sysd.Manager.Service.{release_dynamic_uid}
use sysd.Runtime.Notify.{service_of}
use sysd.Runtime.Exit.{close_stored_fds}

pub data Signal : Type 0 where
  sighup sigterm sigkill sigabrt : Signal

abbrev pub kill_signals : KillMode → List Signal
kill_signals KillMode.none = []
kill_signals KillMode.process = Signal.sigterm ∷ []
kill_signals KillMode.mixed = Signal.sigterm ∷ []
kill_signals KillMode.control_group = Signal.sigterm ∷ []

-- The signals that a process with an id is sent.
unfoldable pub send_signals_to_child : Option ℕ → KillMode → Bool → List Signal
send_signals_to_child none kill_mode send_sighup = []
send_signals_to_child (some pid) kill_mode send_sighup =
    if send_sighup then Signal.sighup ∷ kill_signals kill_mode else kill_signals kill_mode

-- What the wait for a process tells: its exit code if it has one, an error, or that time ran out, after
-- which the process is killed.
pub data Waited : Type 0 where
  left : Option ℤ → Waited
  wait_error : String → Waited
  timed_out : Waited

unfoldable pub timeout_of : Manager → String → Duration
timeout_of m name =
    unwrap_or (from_secs 10) (service_of m name >>= (λ s. s.service.timeout_stop_sec))

-- The change of the state after the wait; -9 is the code of a killed process.
abbrev pub after_wait : Instant → Waited → ServiceState → ServiceState
after_wait now (left code) = set_stopped (unwrap_or (negsuc 0) code) now
after_wait now (wait_error text) = set_failed text now
after_wait now timed_out = set_stopped (negsuc 8) now

-- The process that was sent the signals, and the time that it has to end.
abbrev pub Ending : Type 0
Ending = Option ℕ → List Signal → Duration → Waited

unfoldable pub stop_signal_config : Manager → String → KillMode × Bool
stop_signal_config m name =
    map_or (KillMode.control_group, false) (λ s. (s.service.kill_mode, s.service.send_sighup))
      (service_of m name)

abbrev pub process_stopped : Ending → Instant → String → Option (Option ℕ) → Manager → Manager
process_stopped ending now name none m = with_state name (set_stopped (pos 0) now) m
process_stopped ending now name (some id) m =
    let (kill_mode, send_sighup) = stop_signal_config m name in
    with_state name
      (after_wait now
        (ending id (send_signals_to_child id kill_mode send_sighup) (timeout_of m name)))
      (record m { processes = remove m.processes name })

unfoldable pub stop_main_process : Ending → Instant → String → Manager → Manager
unfolding timeout_of stop_signal_config send_signals_to_child
stop_main_process ending now name m = process_stopped ending now name (get m.processes name) m

unfoldable pub cleanup_stopped_service : String → Manager → Manager
cleanup_stopped_service name m = close_stored_fds name (
    release_dynamic_uid name (record m {
      cgroup_paths = remove m.cgroup_paths name;
      watchdog_deadlines = remove m.watchdog_deadlines name;
    }))

unfoldable pub mark_unit_stopping : Instant → String → Manager → Outcome {0} Unit
mark_unit_stopping now name m =
    when_active (get m.states name) name m (ok tt, with_state name (set_stopping now) m)

abbrev pub service_stopped : Ending → Instant → String → Outcome {0} Unit → Outcome {0} Unit
service_stopped ending now name (err e, m) = (err e, m)
service_stopped ending now name (ok done, m) =
    (ok tt, cleanup_stopped_service name (stop_main_process ending now name m))

unfoldable pub stop_service : Ending → Instant → Instant → String → Manager → Outcome {0} Unit
unfolding mark_unit_stopping stop_main_process cleanup_stopped_service
stop_service ending now now' name m =
    service_stopped ending now' name (mark_unit_stopping now name m)

-- A target has no process, and is stopped as a service.
abbrev pub stop_unit :
    Mounting → Ending → Instant → Instant → String → Option AnyUnit → Manager → Outcome {0} Unit
stop_unit sys ending now now' name (some (mount u)) m = stop_mount sys now now' name u m
stop_unit sys ending now now' name (some (slice u)) m = stop_slice now now' name m
stop_unit sys ending now now' name (some (socket u)) m = stop_socket now now' name m
stop_unit sys ending now now' name (some (timer u)) m = stop_timer now now' name m
stop_unit sys ending now now' name (some (path u)) m = stop_path now now' name m
stop_unit sys ending now now' name (some (service u)) m = stop_service ending now now' name m
stop_unit sys ending now now' name (some (target u)) m = stop_service ending now now' name m
stop_unit sys ending now now' name none m = stop_service ending now now' name m

unfoldable pub stop : Mounting → Ending → Instant → Instant → String → Manager → Outcome {0} Unit
unfolding stop_service
stop sys ending now now' requested m =
    let name = normalize_name requested in stop_unit sys ending now now' name (get m.units name) m

-- `Path::join`, where an absolute path replaces the base.
abbrev join_run : String → String
join_run dir = if begins_with b'/' dir then dir else append "/run/" dir

unfoldable pub runtime_paths : String → List String → List String
runtime_paths base_name [] = []
runtime_paths base_name (name ∷ names) =
    join_run (if name == "" then base_name else name) ∷ runtime_paths base_name names

-- The directories that `cleanup_runtime_directories` removes where they exist.
unfoldable pub cleanup_runtime_directories : ServiceSection → String → List String
unfolding runtime_paths
cleanup_runtime_directories s service_name =
    runtime_paths (unwrap_or service_name (strip_end ".service" service_name)) s.runtime_directory

abbrev is_preserved : RuntimeDirectoryPreserve → Bool
is_preserved RuntimeDirectoryPreserve.yes = true
is_preserved _ = false

unfoldable pub cleanup_runtime_dirs : Manager → String → List String
unfolding cleanup_runtime_directories
cleanup_runtime_dirs m name = elim (service_of m name) [
  | none ↦ []
  | some s ↦
      if is_preserved s.service.runtime_directory_preserve
      then []
      else cleanup_runtime_directories s.service name
]

-- The program and its arguments, if there is one.
abbrev command_of : List String → Option (String × List String)
command_of [] = none
command_of (program ∷ args) = some (program, args)

unfoldable pub run_simple_command : String → Option (String × List String)
run_simple_command cmd_line =
    command_of
      (split_whitespace (trim (trim_start_matches b'+' (trim_start_matches b'-' cmd_line))))

abbrev with_command :
    Option (String × List String) → List (String × List String) → List (String × List String)
with_command none rest = rest
with_command (some c) rest = c ∷ rest

unfoldable pub commands_of : List String → List (String × List String)
unfolding run_simple_command
commands_of [] = []
commands_of (cmd ∷ cmds) = with_command (run_simple_command cmd) (commands_of cmds)

unfoldable pub run_stop_post_commands : Manager → String → List (String × List String)
unfolding commands_of
run_stop_post_commands m name =
    map_or [] (λ s. commands_of s.service.exec_stop_post) (service_of m name)

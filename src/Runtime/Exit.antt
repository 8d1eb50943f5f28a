-- ===== src/Runtime/Exit.antt =====
-- What the manager does when a process has exited, and the restarts that are due
-- (src/manager/runtime/imp/part1.rs). The cgroups and the stopping of the units that are bound to
-- one that has stopped (`stop`) are parameters.
pub mod Released
mod Tests
use Prim.Native.String.{◌++◌ as append}
use sysd.Prelude.{
  ℕ, ◌+◌, ◌-◌, ◌^◌, ℤ, pos, negsuc, zero, suc, int_eq, String, Bool, true, false, not, ◌&&◌, ◌==◌,
  string_eq, nat_eq, Option, none, some, List, [], ◌∷◌, Map, get, has_key, insert, remove, modify,
  contains, if◌then◌else◌, map_or, ◌>>=◌,
}
use sysd.Text.{trim, from_str_radix}
use sysd.Units.Enums.{ServiceType}
use sysd.Units.Kinds.{Service, AnyUnit, unit_section}
use sysd.State.{
  Instant, SubState, ServiceState, set_running, set_failed, is_active, restart_due, clear_restart,
}
use sysd.FileSystem.{FileSystem}
use sysd.Runtime.Restart.{
  RestartDecisionInput, default_decision_input, Readings, apply_restart_decision,
}
use sysd.Manager.{Manager, ManagerError, RawFd, Result, ok, err, Outcome}
use sysd.Manager.Service.{release_dynamic_uid}
use sysd.Runtime.Notify.{service_of, arm_watchdog}
use sysd.Runtime.Notify.Store.{close_fds, fds_of}

-- `WaitStatus` as far as the program tells its cases apart.
pub data WaitStatus : Type 0 where
  exited : (pid : ℕ) (code : ℤ) → WaitStatus
  signaled : (pid : ℕ) (signal : ℕ) → WaitStatus
  continued : WaitStatus

abbrev minus : ℕ → ℤ
minus zero = pos 0
minus (suc n) = negsuc n

-- A signal is its negated number, as an exit code.
unfoldable pub decode_wait_status : WaitStatus → Option (ℕ × ℤ)
decode_wait_status (exited pid code) = some (pid, code)
decode_wait_status (signaled pid signal) = some (pid, minus signal)
decode_wait_status continued = none

abbrev resolved : ℕ → ℤ → Option String → Manager → Option (String × ℤ) × Manager
resolved pid code none m = (none, record m { pid_to_service = remove m.pid_to_service pid })
resolved pid code (some name) m =
    (some (name, code), record m { pid_to_service = remove m.pid_to_service pid })

unfoldable pub resolve_reaped_status : WaitStatus → Manager → Option (String × ℤ) × Manager
unfolding decode_wait_status
resolve_reaped_status status m = elim (decode_wait_status status) [
  | none ↦ (none, m)
  | some (pid, code) ↦ resolved pid code (get m.pid_to_service pid) m
]

abbrev is_type_oneshot : ServiceType → Bool
is_type_oneshot ServiceType.oneshot = true
is_type_oneshot _ = false

abbrev is_type_forking : ServiceType → Bool
is_type_forking ServiceType.forking = true
is_type_forking _ = false

abbrev policy_of : Service → RestartDecisionInput
policy_of s = record {
  restart_policy = s.service.restart;
  restart_sec = s.service.restart_sec;
  remain_after_exit = s.service.remain_after_exit;
  is_oneshot = is_type_oneshot s.service.service_type;
  is_forking = is_type_forking s.service.service_type;
  start_limit_burst = s.service.start_limit_burst;
  start_limit_interval_sec = s.service.start_limit_interval_sec;
  restart_prevent_exit_status = s.service.restart_prevent_exit_status;
}

unfoldable pub read_restart_policy : Manager → String → RestartDecisionInput
read_restart_policy m name = map_or default_decision_input policy_of (service_of m name)

-- A reading that fails, or no number, is `none`.
unfoldable pub read_forking_pid_file : FileSystem → String → Option ℕ
read_forking_pid_file fs pid_file =
    fs.read_to_string pid_file >>= (λ content. from_str_radix (2 ^ 32) 10 (trim content))

unfoldable pub set_forking_running_state : Instant → Instant → String → ℕ → Manager → Manager
set_forking_running_state now now' name child_pid m = arm_watchdog now' name (
    if has_key m.states name
    then record m {
      states = modify m.states name (set_running child_pid now);
      active_jobs = m.active_jobs - 1;
    }
    else m)

-- Whether the exit was that of a parent that has forked, by what its file holds.
abbrev pub forked_as : Instant → Instant → String → Option ℕ → Manager → Bool × Manager
forked_as now now' name none m = (false, m)
forked_as now now' name (some child_pid) m =
    (true, set_forking_running_state now now' name child_pid m)

abbrev pub forked :
    FileSystem → Instant → Instant → String → Option String → Manager → Bool × Manager
forked fs now now' name none m = (
  true,
  arm_watchdog now' name (record m {
    states = modify m.states name (set_running 0 now);
    active_jobs = m.active_jobs - 1;
  }),
)
forked fs now now' name (some pid_file) m =
    forked_as now now' name (read_forking_pid_file fs pid_file)
      (record m { pid_files = remove m.pid_files name })

unfoldable pub reap_forking_parent :
    FileSystem → Instant → Instant → String → ℤ → Manager → Bool × Manager
unfolding read_forking_pid_file set_forking_running_state
reap_forking_parent fs now now' name code m =
    if not (code == pos 0) then (false, m) else forked fs now now' name (get m.pid_files name) m

unfoldable pub close_stored_fds : String → Manager → Manager
close_stored_fds name m = elim (get m.fd_store name) [
  | none ↦ m
  | some store ↦ record m {
    fd_store = remove m.fd_store name;
    closed = close_fds (fds_of store) m.closed;
  }
]

abbrev pub is_restarting : Option ServiceState → Bool
is_restarting none = false
is_restarting (some s) = elim s.sub [ SubState.auto_restart ↦ true | _ ↦ false ]

-- `cleanup_after_exit` up to the units that are bound to the one that has exited.
unfoldable pub cleanup_after_exit : String → Manager → Manager
unfolding close_stored_fds
cleanup_after_exit name m =
    let m' = record m {
      cgroup_paths = remove m.cgroup_paths name;
      watchdog_deadlines = remove m.watchdog_deadlines name;
    } in
    if is_restarting (get m'.states name)
    then m'
    else close_stored_fds name (release_dynamic_uid name m')

unfoldable pub bound_to : String → Map String AnyUnit → Map String ServiceState → List String
bound_to stopped_unit [] states = []
bound_to stopped_unit ((name, unit) ∷ rest) states =
    let later = bound_to stopped_unit rest states in
    if contains (unit_section unit).binds_to stopped_unit
      && map_or false is_active (get states name)
    then name ∷ later
    else later

module _ (stop : String → Manager → Outcome {0} Unit) where
  unfoldable pub stop_all : List String → Manager → Manager
  stop_all [] m = m
  stop_all (name ∷ rest) m = stop_all rest (stop name m).1

  unfoldable pub propagate_binds_to_stop : String → Manager → Manager
  unfolding bound_to stop_all
  propagate_binds_to_stop stopped_unit m = stop_all (bound_to stopped_unit m.units m.states) m

  -- The exit of a process that was no parent that has forked.
  abbrev pub ended : RestartDecisionInput → Readings → String → ℤ → Manager → Manager
  ended policy t name code m = propagate_binds_to_stop name (
      cleanup_after_exit name
        (record m { states = apply_restart_decision policy t code name m.states }))

  abbrev pub after_fork : RestartDecisionInput → Readings → String → ℤ → Bool × Manager → Manager
  after_fork policy t name code (true, m) = m
  after_fork policy t name code (false, m) = ended policy t name code m

  unfoldable pub handle_reaped_service :
      FileSystem → Instant → Instant → Readings → String → ℤ → Manager → Manager
  unfolding read_restart_policy reap_forking_parent cleanup_after_exit propagate_binds_to_stop
  handle_reaped_service fs now now' t name code m =
      let m' = record m { processes = remove m.processes name } in
      let policy = read_restart_policy m' name in
      if policy.is_forking
      then after_fork policy t name code (reap_forking_parent fs now now' name code m')
      else ended policy t name code m'

abbrev waits_for_restart : ServiceState → Bool
waits_for_restart s = is_restarting (some s)

unfoldable pub due_restarts : Instant → Map String ServiceState → List String
due_restarts now [] = []
due_restarts now ((name, state) ∷ rest) =
    let later = due_restarts now rest in
    if waits_for_restart state && restart_due now state then name ∷ later else later

module _ (start_single : String → Manager → Outcome {0} Unit)
    (show_error : ManagerError → String) where
  abbrev pub restarted : Instant → String → Outcome {0} Unit → Manager
  restarted now name (ok done, m) = m
  restarted now name (err e, m) = record m {
    states = modify m.states name (set_failed (append "Restart failed: " (show_error e)) now);
  }

  unfoldable pub restart_each : Instant → List String → Manager → Manager
  restart_each now [] m = m
  restart_each now (name ∷ rest) m = restart_each now rest (
      restarted now name
        (start_single name (record m { states = modify m.states name clear_restart })))

  -- One reading of the clock stands here for those of the tests and of the failures.
  unfoldable pub process_restarts : Instant → Manager → Manager
  unfolding due_restarts restart_each
  process_restarts now m = restart_each now (due_restarts now m.states) m

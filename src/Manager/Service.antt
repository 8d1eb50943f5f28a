-- ===== src/Manager/Service.antt =====
-- Starting a service (src/manager/mod_impl/part2.rs) and giving back what it holds when it has
-- ended (src/manager/mod_impl/part3.rs and src/manager/runtime/imp/part1.rs). The executor and
-- the cgroups are parameters. The wait of `Type=idle` changes nothing
-- of the manager and is left out.
pub mod Accounts
pub mod Steps
pub mod Once
mod Tests
use sysd.Prelude.{
  ℕ, ◌+◌, ◌-◌, ◌/◌, ◌%◌, ◌^◌, String, Bool, true, false, not, ◌||◌, ◌==◌, string_eq, nat_eq, Option,
  none, some, List, [], ◌∷◌, Map, get, has_key, insert, remove, modify, if◌then◌else◌, map_or,
  is_some, map, unwrap_or,
}
use mathlib.Core.Option
use sysd.Units.Enums.{ServiceType}
use sysd.Units.Sections.{Duration}
use sysd.Units.Kinds.{Service}
use sysd.State.{Instant, ServiceState, is_active, set_starting, set_running}
use sysd.DynamicUser.{Inner, Allocation, allocate, release}
use sysd.DynamicUser
use sysd.Manager.Sockets.Fds.{get_socket_fds, get_socket_fd_names}
use sysd.Manager.{
  Manager, ManagerError, RawFd, not_found, already_active, start_failed, spawn, Result, ok, err,
  Outcome, ◌>>=◌,
}

pub record SpawnOptions : Type 0 where
  pub notify_socket : Option String
  pub watchdog_usec : Option ℕ
  pub socket_fds : List RawFd
  pub socket_fd_names : List String
  pub dynamic_uid : Option ℕ
  pub dynamic_gid : Option ℕ
  pub stored_fds : List RawFd
  pub user_environment : Map String String

-- A child with its id, or the text of the error.
pub data Spawned : Type 0 where
  child : Option ℕ → Spawned
  no_child : String → Spawned

-- What a start calls and reads outside.
pub record Outside : Type 0 where
  pub notify_socket_path : Option String
  -- `spawn_service_via_executor` with the first command
  pub spawn_service : Service → SpawnOptions → Spawned
  -- the path of the cgroup that was set up, if one was
  pub setup_cgroup : String → ℕ → Option String

unfoldable pub mark_service_starting : Instant → String → Manager → Outcome {0} Unit
mark_service_starting now actual_name m = elim (get m.states actual_name) [
  | none ↦ (err (not_found actual_name), m)
  | some state ↦ if is_active state then (err (already_active actual_name), m) else (
    ok tt,
    record m {
      states = modify m.states actual_name (set_starting now);
      active_jobs = (m.active_jobs + 1) % 2 ^ 32;
    },
  )
]

abbrev exhausted_text : String
exhausted_text = "Dynamic user pool exhausted (all UIDs in range 61184-65519 in use)"

-- What `allocate_dynamic_user` makes of an allocation; the last case is no answer of the source.
abbrev pub allocated_for : String → Inner × Allocation → Manager → Outcome (Option ℕ × Option ℕ)
allocated_for name (pool, Allocation.ok uid gid) m = (
  ok (some uid, some gid),
  record m { dynamic_user_manager = pool; dynamic_uids = insert m.dynamic_uids name uid },
)
allocated_for name (pool, Allocation.exhausted) m =
    (err (start_failed exhausted_text), record m { dynamic_user_manager = pool })
allocated_for name (pool, Allocation.no_answer) m =
    (err (start_failed exhausted_text), record m { dynamic_user_manager = pool })

unfoldable pub allocate_dynamic_user : String → Service → Manager → Outcome (Option ℕ × Option ℕ)
allocate_dynamic_user name s m =
    if s.service.dynamic_user
    then allocated_for name (allocate m.dynamic_user_manager) m
    else (ok (none, none), m)

abbrev is_notify : ServiceType → Bool
is_notify ServiceType.notify = true
is_notify _ = false

abbrev pub is_oneshot : ServiceType → Bool
is_oneshot ServiceType.oneshot = true
is_oneshot _ = false

abbrev stored_fds_of : Option (List (String × RawFd)) → List RawFd
stored_fds_of none = []
stored_fds_of (some store) = map (λ entry. entry.1) store

-- `as_micros() as u64` of nanoseconds.
abbrev as_micros : Duration → ℕ
as_micros d = (d / 1000) % 2 ^ 64

unfoldable pub build_spawn_options :
    Outside → Service → String → Option ℕ → Option ℕ → Manager → SpawnOptions
build_spawn_options out s actual_name dynamic_uid dynamic_gid m =
    let watchdog_usec = Option.map as_micros s.service.watchdog_sec in
    record {
      notify_socket =
          if is_notify s.service.service_type || is_some watchdog_usec
          then out.notify_socket_path
          else none;
      watchdog_usec = watchdog_usec;
      socket_fds = get_socket_fds m s.name;
      socket_fd_names = get_socket_fd_names m s.name;
      dynamic_uid = dynamic_uid;
      dynamic_gid = dynamic_gid;
      stored_fds = stored_fds_of (get m.fd_store actual_name);
      user_environment = m.user_environment;
    }

unfoldable pub setup_cgroup_for_service : Outside → String → ℕ → Manager → Manager
setup_cgroup_for_service out name pid m = elim (out.setup_cgroup name pid) [
  | none ↦ m
  | some path ↦ record m { cgroup_paths = insert m.cgroup_paths name path }
]

abbrev pub with_deadline : Instant → String → Option Duration → Manager → Manager
with_deadline now name none m = m
with_deadline now name (some wd) m = record m {
  watchdog_deadlines = insert m.watchdog_deadlines name (now + wd);
}

unfoldable pub mark_running_start : Instant → Instant → String → ℕ → Service → Manager → Manager
mark_running_start now now' actual_name pid s m =
    with_deadline now' actual_name s.service.watchdog_sec (record m {
      states = modify m.states actual_name (set_running pid now);
      active_jobs = m.active_jobs - 1;
    })

unfoldable pub mark_notify_start : String → ℕ → Manager → Manager
mark_notify_start actual_name pid m = record m {
  waiting_ready = insert m.waiting_ready pid actual_name;
}

unfoldable pub mark_dbus_start : Instant → Instant → String → ℕ → Service → Manager → Manager
unfolding mark_running_start
mark_dbus_start now now' actual_name pid s m = elim s.service.bus_name [
  | none ↦ mark_running_start now now' actual_name pid s m
  | some bus_name ↦ record m { waiting_bus_name = insert m.waiting_bus_name bus_name actual_name }
]

unfoldable pub mark_forking_start : String → Service → Manager → Manager
mark_forking_start actual_name s m = elim s.service.pid_file [
  | none ↦ m
  | some pid_file ↦ record m { pid_files = insert m.pid_files actual_name pid_file }
]

abbrev pub configured : ServiceType → Instant → Instant → String → ℕ → Service → Manager → Manager
configured ServiceType.notify now now' name pid s m = mark_notify_start name pid m
configured ServiceType.dbus now now' name pid s m = mark_dbus_start now now' name pid s m
configured ServiceType.forking now now' name pid s m = mark_forking_start name s m
configured _ now now' name pid s m = mark_running_start now now' name pid s m

unfoldable pub configure_post_spawn_state :
    Instant → Instant → String → ℕ → Service → Manager → Manager
configure_post_spawn_state now now' actual_name pid s m =
    configured s.service.service_type now now' actual_name pid s m

-- `start_service_unit` behind the spawning; a oneshot's child goes to the task that waits for it.
abbrev pub spawned :
    Outside → Instant → Instant → String → Service → Spawned → Manager → Outcome {0} Unit
spawned out now now' name s (no_child e) m = (err (spawn e), m)
spawned out now now' name s (child id) m =
    let pid = unwrap_or 0 id in
    let m' = setup_cgroup_for_service out name pid m in
    if is_oneshot s.service.service_type then (ok tt, m') else (
      ok tt,
      configure_post_spawn_state now now' name pid s (record m' {
        processes = insert m'.processes name id;
        pid_to_service = insert m'.pid_to_service pid name;
      }),
    )

abbrev pub spawn_with :
    Outside
    → Instant
    → Instant
    → String
    → Service
    → Option ℕ × Option ℕ
    → Manager
    → Outcome {0} Unit
spawn_with out now now' name s (uid, gid) m =
    spawned out now now' name s (out.spawn_service s (build_spawn_options out s name uid gid m)) m

-- The readings of the clock: at `set_starting`, at `set_running` and for the watchdog.
unfoldable pub start_service_unit :
    Outside → Instant → Instant → Instant → String → Service → Manager → Outcome {0} Unit
unfolding mark_service_starting allocate_dynamic_user build_spawn_options
start_service_unit out now now' now'' actual_name s m =
    mark_service_starting now actual_name m
    >>= (λ done m₁. allocate_dynamic_user actual_name s m₁)
    >>= spawn_with out now' now'' actual_name s

-- `release_dynamic_uid` and `release_dynamic_uid_after_stop`.
unfoldable pub release_dynamic_uid : String → Manager → Manager
release_dynamic_uid name m = elim (get m.dynamic_uids name) [
  | none ↦ m
  | some uid ↦ record m {
    dynamic_uids = remove m.dynamic_uids name;
    dynamic_user_manager = release uid m.dynamic_user_manager;
  }
]

-- ===== src/Runtime/Exit/Tests.antt =====
-- Tests of what the manager does when a process has exited.
use sysd.Prelude.{pos, negsuc, ◌≡◌, refl, some, [], ◌∷◌, get, string_eq, nat_eq}
use sysd.State
use sysd.State.{set_running, set_stopped}
use sysd.DynamicUser
use sysd.Manager.{Manager}
use sysd.Runtime.Exit.{signaled, resolve_reaped_status, cleanup_after_exit}
use sysd.Runtime.Exit.Released.{IsReleased, cleanup_after_exit-IsReleased}

-- The service has ended; it held the first dynamic user and a descriptor.
abbrev ended_service : Manager
ended_service = record {
  units = [];
  states = ("app.service", set_stopped (pos 0) 3 (set_running 10 2 (State.new 0))) ∷ [];
  processes = [];
  unit_paths = [];
  waiting_ready = [];
  cgroup_paths = ("app.service", "/sys/fs/cgroup/system.slice/app.service") ∷ [];
  pid_files = [];
  active_jobs = 0;
  waiting_bus_name = [];
  watchdog_deadlines = ("app.service", 50) ∷ [];
  dynamic_user_manager = DynamicUser.new;
  dynamic_uids = ("app.service", 61184) ∷ ("other.service", 61185) ∷ [];
  fd_store = ("app.service", ("a", pos 5) ∷ []) ∷ [];
  pid_to_service = (10, "app.service") ∷ [];
  pending_oneshot_cmds = [];
  socket_fds = [];
  user_environment = [];
  closed = [];
}

resolve_reaped_status_example :
    (resolve_reaped_status (signaled 10 9) ended_service).0 ≡ some ("app.service", negsuc 8)
unfolding resolve_reaped_status get
resolve_reaped_status_example = refl

closed_example : (cleanup_after_exit "app.service" ended_service).closed ≡ pos 5 ∷ []
unfolding cleanup_after_exit get set_stopped sysd.Manager.Service.release_dynamic_uid
    sysd.Runtime.Notify.Store.close_fds
closed_example = refl

cleanup_after_exit-IsReleased_example :
    IsReleased "app.service" (cleanup_after_exit "app.service" ended_service)
unfolding get set_stopped
cleanup_after_exit-IsReleased_example =
    cleanup_after_exit-IsReleased "app.service" ended_service refl

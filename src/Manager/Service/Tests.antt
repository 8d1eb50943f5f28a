-- ===== src/Manager/Service/Tests.antt =====
-- Tests of the start of services.
use sysd.Prelude.{
  ℕ, String, ◌≡◌, refl, Bool, true, false, Option, none, some, List, [], ◌∷◌, get, insert,
  string_eq, nat_eq, arith,
}
use sysd.Units.Defaults.{default_unit_section, default_service_section, default_install_section}
use sysd.Units.Kinds.{Service}
use sysd.State
use sysd.State.{ServiceState, ActiveState}
use sysd.DynamicUser
use sysd.DynamicUser.{Inner, Allocation, allocate}
use sysd.Manager.{Manager, already_active, spawn, Result, ok, err, Outcome}
use sysd.Manager.Service.{
  Outside, Spawned, child, no_child, start_service_unit, release_dynamic_uid,
}
use sysd.Manager.Service.Once.{start_service_unit-refused}

abbrev dynamic_service : Service
dynamic_service = record {
  name = "app.service";
  instance_name = none;
  unit = default_unit_section;
  service = record default_service_section { dynamic_user = true };
  install = default_install_section;
}

abbrev outside : Spawned → Outside
outside answer = record {
  notify_socket_path = none;
  spawn_service = λ s o. answer;
  setup_cgroup = λ name pid. none;
}

abbrev idle_manager : Manager
idle_manager = record {
  units = [];
  states = ("app.service", State.new 0) ∷ [];
  processes = [];
  unit_paths = [];
  waiting_ready = [];
  cgroup_paths = [];
  pid_files = [];
  active_jobs = 0;
  waiting_bus_name = [];
  watchdog_deadlines = [];
  dynamic_user_manager = DynamicUser.new;
  dynamic_uids = [];
  fd_store = [];
  pid_to_service = [];
  pending_oneshot_cmds = [];
  socket_fds = [];
  user_environment = [];
  closed = [];
}

start_service_unit_example :
    (start_service_unit
      (outside (child (some 7)))
      1
      2
      3
      "app.service"
      dynamic_service
      idle_manager).1.dynamic_uids
    ≡ ("app.service", 61184) ∷ []
unfolding start_service_unit get State.is_active State.new allocate DynamicUser.search
    DynamicUser.try_uid sysd.Prelude.contains DynamicUser.new default_service_section
    sysd.Manager.Service.configure_post_spawn_state sysd.Manager.Service.mark_running_start
    sysd.Manager.Service.setup_cgroup_for_service insert
start_service_unit_example = refl

-- The manager behind a start for which there is no executor.
abbrev failed_start : Manager
failed_start =
    (start_service_unit (outside (no_child "no executor")) 1 2 3 "app.service" dynamic_service
      idle_manager).1

-- The unit is left activating, with its job and its id.
failed_start_example :
    (failed_start.active_jobs ≡ 1) × (failed_start.dynamic_uids ≡ ("app.service", 61184) ∷ [])
unfolding start_service_unit get State.is_active State.new allocate DynamicUser.search
    DynamicUser.try_uid sysd.Prelude.contains DynamicUser.new insert
failed_start_example = (refl, refl)

start_service_unit-refused_example :
    start_service_unit (outside (child (some 7))) 4 5 6 "app.service" dynamic_service failed_start
    ≡ (err (already_active "app.service"), failed_start)
unfolding get
start_service_unit-refused_example =
    start_service_unit-refused (outside (no_child "no executor")) (outside (child (some 7))) 1 2 3 4
      5 6 "app.service" dynamic_service dynamic_service idle_manager (State.new 0) refl

-- ===== src/Manager/Single/Tests.antt =====
-- Tests of whole operations of the manager: stops, runs of operations, changes of the target, reloads.
use sysd.Prelude.{
  IsSetList, ℕ, ℤ, pos, String, ◌≡◌, refl, Bool, true, false, not, ◌&&◌, Option, none, some, List,
  [], ◌∷◌, get, has_key, contains, string_eq, nat_eq, int_eq, arith, ◌==◌, if◌then◌else◌, or_else,
  map_or, insert,
}
use sysd.FileSystem.{FileSystem}
use sysd.Units.Defaults.{default_unit_section, default_service_section, default_install_section}
use sysd.Units.Kinds.{Service, AnyUnit, service, target}
use sysd.Units.Made.{new_target}
use sysd.State
use sysd.State.{ServiceState, is_active, set_running, set_stopping, set_stopped}
use sysd.DynamicUser
use sysd.DynamicUser.Pool.{new-IsPool}
use sysd.Manager.{Manager, Result, ok, err}
use sysd.Manager.Load.{Disk, Reading, broken, whole}
use sysd.Manager.Order.{resolve_start_order, start_with_deps}
use sysd.Manager.Mounts.Options.{done}
use sysd.Manager.Sockets.{not_created}
use sysd.Manager.Service.{Spawned, child}
use sysd.Manager.Service.Accounts.{IsAccounted}
use sysd.Runtime.Restart.{Readings}
use sysd.Runtime.Exit.{handle_reaped_service, process_restarts}
use sysd.Manager.Stop.{left, stop, run_simple_command, cleanup_runtime_directories}
use sysd.Manager.Stop.Stopped.{IsStopped, stop-IsStopped}
use sysd.Manager.Single.{World, start, start_single}
use sysd.Manager.Single.Accounted.{
  Runs, start_single_in, rounds, nothing, starts, stops, exits, reloads, Runs-IsAccounted,
}
use sysd.Manager.Single.Kept.{stop_in}
use sysd.Manager.Single.Switch.{unneeded, switch_target}
use sysd.Manager.Single.Stopping.{Answers, Left, switch_target-stops}
use sysd.Manager.Single.Reload.{reload_units}
use sysd.Manager.Single.Reloaded.{Reloaded, reload_units-Reloaded}

abbrev dynamic_service : Service
dynamic_service = record {
  name = "app@one.service";
  instance_name = some "one";
  unit = default_unit_section;
  service = record default_service_section { dynamic_user = true };
  install = default_install_section;
}

-- One file, of the template, in one directory.
abbrev disk : Disk
disk = record {
  exists = λ path. path == "app@.service";
  is_symlink = λ path. false;
  read_link = λ path. none;
  file_name = λ path. none;
  join = λ base name. name;
  load_unit =
      λ path. whole (service (record dynamic_service { name = path; instance_name = none }));
}

abbrev no_files : FileSystem
no_files = record {
  exists = λ path. false;
  is_dir = λ path. false;
  read_to_string = λ path. none;
  read_dir = λ path. none;
  modified = λ path. none;
}

abbrev world : World
world = record {
  now = 1;
  now' = 2;
  now'' = 3;
  disk = disk;
  file_system = no_files;
  outside = record {
    notify_socket_path = none;
    spawn_service = λ s o. child (some 7);
    setup_cgroup = λ name pid. none;
  };
  socket_calls = λ i. record {
    unix_stream = λ path mode. not_created "";
    abstract_stream = λ name. not_created "";
    tcp = λ address. not_created "";
    unix_datagram = λ path mode. not_created "";
    udp = λ address. not_created "";
    fifo = λ path mode. not_created "";
    netlink = λ protocol groups. not_created "";
  };
  mounting = record {
    table = none;
    mount_call = λ what where_ fs_type flags text. done;
    umount_call = λ where_ lazy_ force. done;
  };
  ending = λ id signals timeout. left (some (pos 0));
  next_monthly_trigger = λ t. none;
  next_yearly_trigger = λ t. none;
  rand_delay = λ n. 0;
  clock = λ i. record { hour = 0; minute = 0; second = 0; weekday = 0; date = 0 };
  boot_time = 0;
}

abbrev idle_manager : Manager
idle_manager = record {
  units = ("app@one.service", service dynamic_service) ∷ [];
  states = ("app@one.service", State.new 0) ∷ [];
  processes = [];
  unit_paths = "/etc/systemd/system" ∷ [];
  waiting_ready = [];
  cgroup_paths = [];
  pid_files = [];
  active_jobs = 0;
  waiting_bus_name = [];
  watchdog_deadlines = [];
  dynamic_user_manager = DynamicUser.new;
  dynamic_uids = [];
  fd_store = [];
  pid_to_service = [];
  pending_oneshot_cmds = [];
  socket_fds = [];
  user_environment = [];
  closed = [];
}

abbrev running_manager : Manager
running_manager = record idle_manager {
  states = ("app@one.service", set_running 7 1 (State.new 0)) ∷ [];
  processes = ("app@one.service", some 7) ∷ [];
  pid_to_service = (7, "app@one.service") ∷ [];
  fd_store = ("app@one.service", ("a", pos 5) ∷ []) ∷ [];
}

run_simple_command_example : run_simple_command "-+ /bin/echo  a" ≡ some ("/bin/echo", "a" ∷ [])
unfolding run_simple_command sysd.Text.split_whitespace sysd.Prelude.keep sysd.Text.trim
    sysd.Text.trim_start_matches sysd.Text.is_whitespace
run_simple_command_example = refl

-- An absolute path leaves /run.
cleanup_runtime_directories_example :
    cleanup_runtime_directories
      (record default_service_section { runtime_directory = "" ∷ "a/b" ∷ "/srv/data" ∷ [] })
      "app.service"
    ≡ "/run/app" ∷ "/run/a/b" ∷ "/srv/data" ∷ []
unfolding cleanup_runtime_directories sysd.Text.begins_with sysd.Text.strip_end
cleanup_runtime_directories_example = refl

stop_example : (stop_in world "app@one.service" running_manager).1.closed ≡ pos 5 ∷ []
unfolding stop get sysd.Manager.normalize_name sysd.Deps.StartOrder.ends_with is_active set_running
    sysd.Runtime.Exit.close_stored_fds sysd.Manager.Service.release_dynamic_uid
    sysd.Runtime.Notify.Store.close_fds
stop_example = refl

stop-IsStopped_example :
    ((stop world.mounting world.ending 1 2 "app@one.service" running_manager).0 ≡ ok tt)
    × IsStopped "app@one.service"
        (stop world.mounting world.ending 1 2 "app@one.service" running_manager).1
    × ((stop world.mounting world.ending 1 2 "app@one.service" running_manager).1.pid_to_service
        ≡ running_manager.pid_to_service)
    × ((stop world.mounting world.ending 1 2 "app@one.service" running_manager).1.active_jobs
        ≡ running_manager.active_jobs)
unfolding get sysd.Manager.normalize_name sysd.Deps.StartOrder.ends_with is_active set_running
stop-IsStopped_example =
    stop-IsStopped world.mounting world.ending 1 2 "app@one.service" running_manager dynamic_service
      (set_running 7 1 (State.new 0)) refl refl refl

idle_manager-IsAccounted : IsAccounted idle_manager
unfolding get
idle_manager-IsAccounted = record {
  pool = new-IsPool;
  held = λ name uid h. absurd (ground (arith, h));
  apart = λ a b uid h k. absurd (ground (arith, h));
}

abbrev readings : Readings
readings = record { checked = 4; now = 4; now' = 4; now'' = 4 }

-- A start, the exit of the process, a round of restarts, a reload, another start and a stop.
abbrev history :
    Runs idle_manager
      (stop_in world "app@one.service"
        (start world "app@one.service"
          (reload_units disk (
            process_restarts
              (start_single_in (λ name. world))
              (λ e. "")
              5
              (handle_reaped_service
                (stop_in world)
                no_files
                1
                2
                readings
                "app@one.service"
                (pos 1)
                (start world "app@one.service" idle_manager).1))).1).1).1
history = stops world "app@one.service" (
    starts world "app@one.service" (
      reloads disk (
        rounds (λ name. world) (λ e. "") 5
          (exits world readings "app@one.service" (pos 1)
            (starts world "app@one.service" nothing)))))

Runs-IsAccounted_example :
    IsAccounted
      (stop_in world "app@one.service"
        (start world "app@one.service"
          (reload_units disk (
            process_restarts
              (start_single_in (λ name. world))
              (λ e. "")
              5
              (handle_reaped_service
                (stop_in world)
                no_files
                1
                2
                readings
                "app@one.service"
                (pos 1)
                (start world "app@one.service" idle_manager).1))).1).1).1
Runs-IsAccounted_example = Runs-IsAccounted history idle_manager-IsAccounted

unneeded_example :
    unneeded ("b.service" ∷ []) (
      ("a.service", set_running 1 0 (State.new 0))
      ∷ ("b.service", set_running 2 0 (State.new 0))
      ∷ ("c.service", State.new 0)
      ∷ [])
    ≡ "a.service" ∷ []
unfolding unneeded is_active set_running contains State.new
unneeded_example = refl

abbrev running_state : ServiceState
running_state = set_running 7 1 (State.new 0)

abbrev stopped_names : List String
stopped_names = "app@one.service" ∷ []

abbrev needed_names : List String
needed_names = "rescue.target" ∷ []

abbrev with_target : Manager
with_target = record running_manager {
  units =
      ("app@one.service", service dynamic_service)
      ∷ ("rescue.target", target (new_target "rescue.target"))
      ∷ [];
  states = ("app@one.service", set_running 7 1 (State.new 0)) ∷ ("rescue.target", State.new 0) ∷ [];
}

abbrev at_target : Manager
at_target = record with_target {
  states =
      ("app@one.service", set_stopped (pos 0) 2 (set_stopping 1 (set_running 7 1 (State.new 0))))
      ∷ ("rescue.target", set_running 0 6 (State.new 0))
      ∷ [];
  processes = [];
  fd_store = [];
  closed = pos 5 ∷ [];
}

resolved :
    resolve_start_order 9 disk 1 (λ i. 5) "rescue.target" with_target
    ≡ some (ok needed_names, with_target)
unfolding sysd.Manager.Order.resolve_start_order sysd.Manager.Load.ensure_unit_loaded get
    sysd.Manager.normalize_name sysd.Deps.StartOrder.ends_with sysd.Deps.StartOrder.start_order_for
    sysd.Deps.StartOrder.toposort_subset sysd.Deps.StartOrder.subset_loop
    sysd.Deps.StartOrder.transitive_deps sysd.Deps.StartOrder.search_loop
    sysd.Manager.Collect.collect_start_dependencies contains sysd.Units.Kinds.unit_section
    new_target default_unit_section sysd.Units.Kinds.wants_dir sysd.Prelude.set_insert
    sysd.Deps.add_unit_with_name sysd.Deps.add_edges sysd.Deps.add_reverse_edges
    sysd.Units.Kinds.is_target sysd.Deps.add_node sysd.Deps.new sysd.Deps.StartOrder.start_search
    sysd.Deps.StartOrder.need_all sysd.Deps.deps_of sysd.Deps.StartOrder.next_round
    sysd.Deps.Kahn.kahn_drain sysd.Deps.Kahn.drain_loop sysd.Deps.Kahn.compute_in_degree
    sysd.Deps.Kahn.start_drain sysd.Deps.Kahn.initial_zero_in_degree_queue
    sysd.Deps.Kahn.offer_initial sysd.Deps.Kahn.collect sysd.Deps.Kahn.enqueue sysd.Deps.Kahn.lower
    sysd.Deps.Kahn.queue_newly_unblocked_nodes sysd.Deps.Kahn.unblock sysd.Deps.Kahn.visit
    sysd.Deps.StartOrder.break_cycle sysd.Deps.StartOrder.least sysd.Deps.StartOrder.need
    sysd.Deps.StartOrder.precedes sysd.Deps.StartOrder.unit_type_priority sysd.Deps.add_alias
    sysd.Deps.add_default_dependencies sysd.Deps.add_edge sysd.Deps.add_reverse_edge
    sysd.Deps.insert_edge sysd.Deps.resolve sysd.Manager.Collect.collect_loop
    sysd.Manager.Collect.collect_round sysd.Manager.Collect.load_dependency_unit
    sysd.Manager.Collect.queue_dependencies sysd.Manager.Collect.queue_dependency
    sysd.Manager.Collect.queue_unit_dependencies sysd.Manager.Collect.start_collecting
    sysd.Manager.Load.apply_canonical_name sysd.Manager.Load.default_instance_for_unit
    sysd.Manager.Load.find_unit sysd.Manager.Load.load sysd.Manager.Load.parse_unit_file
    sysd.Manager.Load.resolve_canonical_unit_name sysd.Manager.Load.resolve_load_name
    sysd.Manager.Load.search_unit_paths sysd.Manager.Order.add_aliases sysd.Manager.Order.add_nodes
    sysd.Manager.Order.add_units sysd.Manager.Order.build_start_graph sysd.Prelude.count_if
    sysd.Prelude.keep sysd.Prelude.set_remove insert State.new sysd.Text.begins_with
    sysd.Text.has_text sysd.Text.rsplit_once sysd.Text.split_once sysd.Text.starts_with
    sysd.Text.strip_text sysd.Units.Kinds.is_socket sysd.Units.Kinds.name
    sysd.Units.Names.extract_instance sysd.Units.Names.get_template_name
    sysd.Units.Names.instantiate_template sysd.Units.Names.is_bare_template
    sysd.Units.Names.replace_instance sysd.Units.Names.set_name sysd.Units.Names.set_service_name
resolved = refl

switched_to :
    switch_target 9 world world (λ i. 5) (λ name. 6) "rescue.target" with_target
    ≡ some (ok stopped_names, at_target)
unfolding switch_target sysd.Manager.Order.start_with_deps sysd.Manager.Order.resolve_start_order
    sysd.Manager.Load.ensure_unit_loaded get sysd.Manager.normalize_name
    sysd.Deps.StartOrder.ends_with sysd.Deps.StartOrder.start_order_for
    sysd.Deps.StartOrder.toposort_subset sysd.Deps.StartOrder.subset_loop
    sysd.Deps.StartOrder.transitive_deps sysd.Deps.StartOrder.search_loop
    sysd.Manager.Collect.collect_start_dependencies contains sysd.Units.Kinds.unit_section
    new_target default_unit_section sysd.Units.Kinds.wants_dir sysd.Prelude.set_insert
    sysd.Deps.add_unit_with_name sysd.Deps.add_edges sysd.Deps.add_reverse_edges
    sysd.Units.Kinds.is_target sysd.Deps.add_node sysd.Deps.new sysd.Deps.StartOrder.start_search
    sysd.Deps.StartOrder.need_all sysd.Deps.deps_of sysd.Deps.StartOrder.next_round
    sysd.Deps.Kahn.kahn_drain sysd.Deps.Kahn.drain_loop sysd.Deps.Kahn.compute_in_degree
    sysd.Deps.Kahn.start_drain sysd.Deps.Kahn.initial_zero_in_degree_queue
    sysd.Deps.Kahn.offer_initial sysd.Deps.Kahn.collect sysd.Deps.Kahn.enqueue sysd.Deps.Kahn.visit
    sysd.Deps.Kahn.queue_newly_unblocked_nodes is_active set_running State.new stop
    sysd.Runtime.Exit.close_stored_fds sysd.Manager.Service.release_dynamic_uid sysd.Prelude.modify
    sysd.Manager.Single.start_single sysd.Prelude.remove sysd.Runtime.Notify.Store.close_fds
switched_to = refl

switch_target-stops_example :
    (m₂ : Manager) × (stopped : List String) × Answers stopped
      (start_with_deps (start_single world) 9 disk 1 (λ i. 5) (λ name. 6) "rescue.target" m₂)
      (switch_target 9 world world (λ i. 5) (λ name. 6) "rescue.target" with_target)
    × IsSetList stopped
    × ((n : String)
        → (contains stopped n
            ≡ (map_or false is_active (get with_target.states n) && not (contains needed_names n)))
          × Left stopped n with_target m₂)
unfolding sysd.Manager.normalize_name sysd.Deps.StartOrder.ends_with get sysd.Prelude.keys
switch_target-stops_example =
    switch_target-stops 9 world world (λ i. 5) (λ name. 6) "rescue.target" with_target needed_names
      with_target resolved (refl, (refl, tt)) (refl, (refl, tt))

-- The instance is taken for the template that its file holds.
reload_units_example :
    get (reload_units disk idle_manager).1.units "app@one.service"
    ≡ some (service (record dynamic_service { name = "app@.service"; instance_name = none }))
unfolding get reload_units sysd.Prelude.keys sysd.Deps.StartOrder.ends_with
    sysd.Manager.Load.find_unit sysd.Manager.Load.search_unit_paths
    sysd.Units.Names.get_template_name sysd.Text.split_once sysd.Text.rsplit_once
    sysd.Manager.Load.parse_unit_file insert
reload_units_example = refl

reload_units-Reloaded_example :
    ((reload_units disk idle_manager).1
      ≡ record idle_manager { units = (reload_units disk idle_manager).1.units })
    × ((n : String) → Reloaded disk idle_manager n (get (reload_units disk idle_manager).1.units n))
reload_units-Reloaded_example = reload_units-Reloaded disk idle_manager

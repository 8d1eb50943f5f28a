-- ===== src/Manager/Order/Tests.antt =====
-- Tests of the start of a unit with what it requires.
use sysd.Prelude.{
  ℕ, String, ◌≡◌, refl, Bool, true, false, Option, none, some, List, [], ◌∷◌, ◌==◌, string_eq,
  contains, get, IsSetList, ◌↔◌, if◌then◌else◌, arith, eq_iff, Bool-cases, inl, inr,
}
use sysd.Units.Defaults.{default_unit_section, default_service_section, default_install_section}
use sysd.Units.Kinds.{Service, AnyUnit, service, unit_section, wants_dir}
use sysd.State
use sysd.State.{Instant}
use sysd.DynamicUser
use sysd.Deps.{DepGraph}
use sysd.Deps.StartOrder.Search.{Needs}
use sysd.Manager.{Manager, ManagerError, start_failed, Result, ok, err, Outcome, normalize_name}
use sysd.Manager.Load.{Disk, Reading, broken, whole, ensure_unit_loaded}
use sysd.Manager.Collect.{Collecting, pulled_in, collect_start_dependencies}
use sysd.Manager.Collect.Pulls.{PullsIn, DiskPulls}
use sysd.Manager.Collect.Closed.{collect_start_dependencies-done}
use sysd.Manager.Order.{
  is_required, build_start_graph, resolve_start_order, start_loop, start_with_deps,
}
use sysd.Manager.Order.Graph.{resolve_start_order-ok}
use sysd.Manager.Order.Started.{Blames, start_with_deps-err}
use sysd.Manager.Order.Fates.{Fate, start_with_deps-ok, start_with_deps-alias}

abbrev empty_disk : Disk
empty_disk = record {
  exists = λ path. false;
  is_symlink = λ path. false;
  read_link = λ path. none;
  file_name = λ path. none;
  join = λ base name. name;
  load_unit = λ path. broken "no such file";
}

abbrev service_with : String → List String → AnyUnit
service_with name requires = service (record {
  name = name;
  instance_name = none;
  unit = record default_unit_section {
    requires = requires;
    after = requires;
    default_dependencies = false;
  };
  service = default_service_section;
  install = default_install_section;
})

abbrev two_units : Manager
two_units = record {
  units =
      ("app.service", service_with "app.service" ("db.service" ∷ []))
      ∷ ("db.service", service_with "db.service" [])
      ∷ [];
  states = ("app.service", State.new 0) ∷ ("db.service", State.new 0) ∷ [];
  processes = [];
  unit_paths = [];
  waiting_ready = [];
  cgroup_paths = [];
  pid_files = [];
  active_jobs = 0;
  waiting_bus_name = [];
  watchdog_deadlines = [];
  dynamic_user_manager = DynamicUser.new;
  dynamic_uids = [];
  fd_store = [];
  pid_to_service = [];
  pending_oneshot_cmds = [];
  socket_fds = [];
  user_environment = [];
  closed = [];
}

abbrev two_names : List String
two_names = "app.service" ∷ "db.service" ∷ []

resolve_start_order_example :
    resolve_start_order 2 empty_disk 0 (λ i. 0) "app.service" two_units
    ≡ some (ok ("db.service" ∷ "app.service" ∷ []), two_units)
unfolding resolve_start_order ensure_unit_loaded get sysd.Deps.StartOrder.start_order_for
    sysd.Deps.StartOrder.toposort_subset sysd.Deps.StartOrder.subset_loop
    sysd.Deps.StartOrder.transitive_deps sysd.Deps.StartOrder.search_loop collect_start_dependencies
    contains unit_section default_unit_section wants_dir sysd.Manager.Collect.queue_dependency
    sysd.Prelude.set_insert sysd.Deps.add_unit_with_name sysd.Deps.add_edges
    sysd.Deps.add_reverse_edges sysd.Deps.add_node sysd.Deps.add_edge sysd.Deps.new
    sysd.Deps.resolve sysd.Deps.StartOrder.start_search sysd.Deps.StartOrder.need_all
    sysd.Deps.deps_of sysd.Deps.insert_edge sysd.Prelude.insert sysd.Deps.StartOrder.need
    sysd.Deps.StartOrder.next_round sysd.Deps.Kahn.kahn_drain sysd.Deps.Kahn.drain_loop
    sysd.Deps.Kahn.compute_in_degree sysd.Deps.Kahn.start_drain sysd.Deps.Kahn.collect
    sysd.Deps.Kahn.enqueue sysd.Deps.Kahn.initial_zero_in_degree_queue sysd.Deps.Kahn.lower
    sysd.Deps.Kahn.offer_initial sysd.Deps.Kahn.queue_newly_unblocked_nodes sysd.Deps.Kahn.unblock
    sysd.Deps.Kahn.visit sysd.Deps.StartOrder.break_cycle sysd.Deps.StartOrder.ends_with
    sysd.Deps.StartOrder.least sysd.Deps.StartOrder.precedes sysd.Deps.StartOrder.unit_type_priority
    sysd.Deps.add_alias sysd.Deps.add_default_dependencies sysd.Deps.add_reverse_edge
    sysd.Manager.Collect.collect_loop sysd.Manager.Collect.collect_round
    sysd.Manager.Collect.load_dependency_unit sysd.Manager.Collect.queue_dependencies
    sysd.Manager.Collect.queue_unit_dependencies sysd.Manager.Collect.start_collecting
    sysd.Manager.Load.apply_canonical_name sysd.Manager.Load.default_instance_for_unit
    sysd.Manager.Load.find_unit sysd.Manager.Load.load sysd.Manager.Load.parse_unit_file
    sysd.Manager.Load.resolve_canonical_unit_name sysd.Manager.Load.resolve_load_name
    sysd.Manager.Load.search_unit_paths sysd.Manager.Order.add_aliases sysd.Manager.Order.add_nodes
    sysd.Manager.Order.add_units build_start_graph normalize_name sysd.Prelude.count_if
    sysd.Prelude.keep sysd.Prelude.set_remove State.new sysd.Text.begins_with sysd.Text.has_text
    sysd.Text.rsplit_once sysd.Text.split_once sysd.Text.starts_with sysd.Text.strip_text
    sysd.Units.Kinds.is_socket sysd.Units.Kinds.is_target sysd.Units.Kinds.name
    sysd.Units.Names.extract_instance sysd.Units.Names.get_template_name
    sysd.Units.Names.instantiate_template sysd.Units.Names.is_bare_template
    sysd.Units.Names.replace_instance sysd.Units.Names.set_name sysd.Units.Names.set_service_name
resolve_start_order_example = refl

two_units-PullsIn : PullsIn two_names two_units
unfolding get unit_section wants_dir contains default_unit_section
two_units-PullsIn n dep h = ground (arith, eq_iff "app.service" n, eq_iff "db.service" n, h)

empty_disk-DiskPulls : DiskPulls two_names empty_disk
empty_disk-DiskPulls path u q dep h = absurd (ground (arith, q))

collect_start_dependencies-done_example :
    (collect_start_dependencies 2 empty_disk (λ i. 0) "app.service" two_units).to_load ≡ []
unfolding contains
collect_start_dependencies-done_example =
    collect_start_dependencies-done two_names empty_disk (λ i. 0) "app.service" two_units
      empty_disk-DiskPulls two_units-PullsIn refl

-- `start_single` where no service can be spawned.
abbrev failing : String → Manager → Outcome {0} Unit
failing name m = (err (start_failed name), m)

start_with_deps-err_example :
    (unit_name : String) × Needs (build_start_graph two_units two_names []) "app.service" unit_name
    × Blames failing "app.service" unit_name (start_failed "db.service")
unfolding ensure_unit_loaded get normalize_name sysd.Deps.StartOrder.ends_with start_with_deps
    sysd.Deps.StartOrder.start_order_for sysd.Deps.StartOrder.toposort_subset
    sysd.Deps.StartOrder.subset_loop sysd.Deps.StartOrder.transitive_deps
    sysd.Deps.StartOrder.search_loop collect_start_dependencies contains unit_section
    default_unit_section wants_dir sysd.Manager.Collect.queue_dependency sysd.Prelude.set_insert
    sysd.Deps.add_unit_with_name sysd.Deps.add_edges sysd.Deps.add_reverse_edges sysd.Deps.add_node
    sysd.Deps.add_edge sysd.Deps.new sysd.Deps.resolve sysd.Deps.StartOrder.start_search
    sysd.Deps.StartOrder.need_all sysd.Deps.deps_of sysd.Deps.insert_edge sysd.Prelude.insert
    sysd.Deps.StartOrder.need sysd.Deps.StartOrder.next_round sysd.Deps.Kahn.kahn_drain
    sysd.Deps.Kahn.drain_loop sysd.Deps.Kahn.collect sysd.Deps.Kahn.compute_in_degree
    sysd.Deps.Kahn.enqueue sysd.Deps.Kahn.initial_zero_in_degree_queue sysd.Deps.Kahn.lower
    sysd.Deps.Kahn.offer_initial sysd.Deps.Kahn.queue_newly_unblocked_nodes
    sysd.Deps.Kahn.start_drain sysd.Deps.Kahn.unblock sysd.Deps.Kahn.visit
    sysd.Deps.StartOrder.break_cycle sysd.Deps.StartOrder.least sysd.Deps.StartOrder.precedes
    sysd.Deps.StartOrder.unit_type_priority sysd.Deps.add_alias sysd.Deps.add_default_dependencies
    sysd.Deps.add_reverse_edge sysd.Manager.Collect.collect_loop sysd.Manager.Collect.collect_round
    sysd.Manager.Collect.load_dependency_unit sysd.Manager.Collect.queue_dependencies
    sysd.Manager.Collect.queue_unit_dependencies sysd.Manager.Collect.start_collecting
    sysd.Manager.Load.apply_canonical_name sysd.Manager.Load.default_instance_for_unit
    sysd.Manager.Load.find_unit sysd.Manager.Load.load sysd.Manager.Load.parse_unit_file
    sysd.Manager.Load.resolve_canonical_unit_name sysd.Manager.Load.resolve_load_name
    sysd.Manager.Load.search_unit_paths sysd.Manager.Order.add_aliases sysd.Manager.Order.add_nodes
    sysd.Manager.Order.add_units build_start_graph sysd.Manager.Order.is_required
    resolve_start_order sysd.Manager.Order.start_dependency_unit sysd.Manager.Order.start_error
    start_loop sysd.Prelude.count_if sysd.Prelude.keep sysd.Prelude.set_remove sysd.Prelude.modify
    State.is_active State.new State.set_running sysd.Text.begins_with sysd.Text.has_text
    sysd.Text.rsplit_once sysd.Text.split_once sysd.Text.starts_with sysd.Text.strip_text
    sysd.Units.Kinds.is_socket sysd.Units.Kinds.is_target sysd.Units.Kinds.name
    sysd.Units.Names.extract_instance sysd.Units.Names.get_template_name
    sysd.Units.Names.instantiate_template sysd.Units.Names.is_bare_template
    sysd.Units.Names.replace_instance sysd.Units.Names.set_name sysd.Units.Names.set_service_name
start_with_deps-err_example =
    start_with_deps-err failing 2 empty_disk 0 (λ i. 0) (λ s. 0) "app" two_units two_units
      (err (start_failed "db.service"), two_units) (start_failed "db.service") refl refl refl

resolve_start_order-ok_example :
    let c : Collecting = collect_start_dependencies 2 empty_disk (λ i. 0) "app.service" two_units in
    let g : DepGraph = build_start_graph c.manager c.loaded c.aliases in
    (order : List String) × (resolve_start_order 2 empty_disk 0 (λ i. 0) "app.service" two_units
      ≡ some (ok order, c.manager))
    × IsSetList order
    × ((n : String) → (contains order n ≡ true) ↔ Needs g "app.service" n)
unfolding ensure_unit_loaded get
resolve_start_order-ok_example =
    resolve_start_order-ok 2 empty_disk 0 (λ i. 0) "app.service" two_units two_units refl

-- `dbus.service` is a link to `dbus-broker.service`.
abbrev linked_disk : Disk
linked_disk = record {
  exists = λ path. path == "dbus.service";
  is_symlink = λ path. path == "dbus.service";
  read_link = λ path. some "/lib/dbus-broker.service";
  file_name = λ path. some "dbus-broker.service";
  join = λ base name. name;
  load_unit = λ path. whole (service_with "dbus.service" []);
}

abbrev no_units : Manager
no_units = record two_units { units = []; states = []; unit_paths = "/lib" ∷ [] }

abbrev broker_loaded : Manager
broker_loaded = record no_units {
  units = ("dbus-broker.service", service_with "dbus-broker.service" []) ∷ [];
  states = ("dbus-broker.service", State.new 0) ∷ [];
}

start_with_deps-alias_example :
    start_with_deps failing 2 linked_disk 0 (λ i. 0) (λ n. 0) "dbus" no_units
    ≡ some (
      ok [],
      (collect_start_dependencies 2 linked_disk (λ i. 0) "dbus.service" broker_loaded).manager,
    )
unfolding ensure_unit_loaded get sysd.Units.Names.is_bare_template sysd.Text.has_text normalize_name
    sysd.Deps.StartOrder.ends_with sysd.Manager.Load.search_unit_paths sysd.Prelude.insert
    sysd.Units.Names.extract_instance sysd.Units.Kinds.name sysd.Text.split_once
    sysd.Units.Names.set_name collect_start_dependencies contains unit_section default_unit_section
    wants_dir
start_with_deps-alias_example =
    start_with_deps-alias failing 2 linked_disk 0 (λ i. 0) (λ n. 0) "dbus" no_units broker_loaded
      refl refl

-- `start_single` where only the database can be started.
abbrev only_db : String → Manager → Outcome {0} Unit
only_db name m = if name == "db.service" then (ok tt, m) else (err (start_failed name), m)

only_db-result :
    start_with_deps only_db 2 empty_disk 0 (λ i. 0) (λ s. 0) "app" two_units
    ≡ some (ok ("db.service" ∷ []), two_units)
unfolding start_with_deps ensure_unit_loaded get normalize_name sysd.Deps.StartOrder.ends_with
    sysd.Deps.StartOrder.start_order_for sysd.Deps.StartOrder.toposort_subset
    sysd.Deps.StartOrder.subset_loop sysd.Deps.StartOrder.transitive_deps
    sysd.Deps.StartOrder.search_loop collect_start_dependencies contains unit_section
    default_unit_section wants_dir sysd.Manager.Collect.queue_dependency sysd.Prelude.set_insert
    sysd.Deps.add_unit_with_name sysd.Deps.add_edges sysd.Deps.add_reverse_edges sysd.Deps.add_node
    sysd.Deps.add_edge sysd.Deps.new sysd.Deps.resolve sysd.Deps.StartOrder.start_search
    sysd.Deps.StartOrder.need_all sysd.Deps.deps_of sysd.Deps.insert_edge sysd.Prelude.insert
    sysd.Deps.StartOrder.need sysd.Deps.StartOrder.next_round sysd.Deps.Kahn.kahn_drain
    sysd.Deps.Kahn.drain_loop sysd.Deps.Kahn.collect sysd.Deps.Kahn.compute_in_degree
    sysd.Deps.Kahn.enqueue sysd.Deps.Kahn.initial_zero_in_degree_queue sysd.Deps.Kahn.lower
    sysd.Deps.Kahn.offer_initial sysd.Deps.Kahn.queue_newly_unblocked_nodes
    sysd.Deps.Kahn.start_drain sysd.Deps.Kahn.unblock sysd.Deps.Kahn.visit
    sysd.Deps.StartOrder.break_cycle sysd.Deps.StartOrder.least sysd.Deps.StartOrder.precedes
    sysd.Deps.StartOrder.unit_type_priority sysd.Deps.add_alias sysd.Deps.add_default_dependencies
    sysd.Deps.add_reverse_edge sysd.Manager.Collect.collect_loop sysd.Manager.Collect.collect_round
    sysd.Manager.Collect.load_dependency_unit sysd.Manager.Collect.queue_dependencies
    sysd.Manager.Collect.queue_unit_dependencies sysd.Manager.Collect.start_collecting
    sysd.Manager.Load.apply_canonical_name sysd.Manager.Load.default_instance_for_unit
    sysd.Manager.Load.find_unit sysd.Manager.Load.load sysd.Manager.Load.parse_unit_file
    sysd.Manager.Load.resolve_canonical_unit_name sysd.Manager.Load.resolve_load_name
    sysd.Manager.Load.search_unit_paths sysd.Manager.Order.add_aliases sysd.Manager.Order.add_nodes
    sysd.Manager.Order.add_units build_start_graph is_required resolve_start_order
    sysd.Manager.Order.start_dependency_unit sysd.Manager.Order.start_error start_loop
    sysd.Prelude.count_if sysd.Prelude.keep sysd.Prelude.set_remove sysd.Prelude.modify
    State.is_active State.new State.set_running sysd.Text.begins_with sysd.Text.has_text
    sysd.Text.rsplit_once sysd.Text.split_once sysd.Text.starts_with sysd.Text.strip_text
    sysd.Units.Kinds.is_socket sysd.Units.Kinds.is_target sysd.Units.Kinds.name
    sysd.Units.Names.extract_instance sysd.Units.Names.get_template_name
    sysd.Units.Names.instantiate_template sysd.Units.Names.is_bare_template
    sysd.Units.Names.replace_instance sysd.Units.Names.set_name sysd.Units.Names.set_service_name
only_db-result = refl

start_with_deps-ok_example :
    Fate only_db "app.service"
      (Needs (build_start_graph two_units two_names []) "app.service" "app.service")
      "app.service"
      false
unfolding ensure_unit_loaded get normalize_name sysd.Deps.StartOrder.ends_with contains unit_section
    default_unit_section wants_dir collect_start_dependencies sysd.Manager.Collect.queue_dependency
    sysd.Prelude.set_insert
start_with_deps-ok_example =
    start_with_deps-ok only_db 2 empty_disk 0 (λ i. 0) (λ s. 0) "app" two_units two_units
      (ok ("db.service" ∷ []), two_units) ("db.service" ∷ []) "app.service" refl only_db-result refl

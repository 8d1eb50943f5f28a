-- ===== src/Lib.antt =====
-- sysd, an init system: the files that its units are read from, how they are loaded, the order in
-- which they are started, the conditions that can keep one from being started, the states they pass
-- through, what services say to the manager, and what becomes of one when its process exits.
--
-- The parts and their files:
-- Prelude: names passed on, lists as sets, association lists as maps, signed integers, and the texts
--   that `format!` writes of numbers and durations.
-- Text: the operations of `str` that the source reads texts with, by recursion on the text.
-- FileSystem: what is read of the file system, at one moment.
-- Parser (src/units/parser.rs): `parse_file` and `parse_section`. Parser.Blocks has the reading of a
--   file by its sections, Parser.Entries that of a section by its lines, Parser.RoundTrip and
--   Parser.WholeFile the writing of entries and files. `char::to_uppercase` is a parameter.
-- Units (src/units/{service,target,mount,slice,socket,timer,path,unit}.rs): a record for each
--   section of a unit file, with its defaults, and the type of the units (`Unit` is `AnyUnit` here,
--   and `Unit::dependencies` is `unit_dependencies`). Units.Words holds the `parse` functions of the
--   directives that choose from a list of words, Units.Made the `new` functions, Units.Names the
--   names of templates and instances. Units.Fields (src/units/parse_units.rs) is what the sections of
--   a parsed file set: Units.Fields.View reads them (`SectionView`), Units.Fields.Values the numbers,
--   durations and calendar expressions, Units.Fields.Build makes the units (`parse_service` and its
--   like), Units.Fields.Merge adds drop-in files (`merge_parsed_files`). `shlex::split` is a parameter.
-- Manager (src/manager/mod_impl.rs and src/manager/mod_impl/part{1,2,3}.rs): the record `Manager` and
--   the errors; an operation returns its result with the manager that it leaves. Manager.Load is
--   `load`, over a disk that is a parameter with its reader of unit files; Manager.Collect is
--   `collect_start_dependencies`; Manager.Order is `resolve_start_order`, which builds the graph of
--   Deps from what was collected, and `start_with_deps`, over a `start_single` that is a parameter
--   (Manager.Order.Started and Manager.Order.Fates follow its loop where it fails and succeeds);
--   Manager.Service is `start_service_unit`, over the executor, and `release_dynamic_uid`;
--   Manager.Watched is slices and path units (src/manager/slice_ops.rs, src/manager/path_ops.rs),
--   Manager.Timers timer units (src/manager/timer_ops_impl.rs), Manager.Mounts mount units
--   (src/manager/mount_ops_impl.rs) and Manager.Sockets socket units
--   (src/manager/socket_ops_impl.rs), with the descriptors that a service is given. Manager.Stop is
--   `stop`; Manager.Single is `start_single`, `start` and `restart`, which choose the operation of
--   the kind of unit: its record World holds all that they call outside. Manager.Single.Switch is
--   `switch_target`, over `resolve_start_order` and `start_with_deps`, and Manager.Single.Stopping what
--   it stops, by what a stop changes (Manager.Stop.Touched, Manager.Stop.Inactive); Manager.Single.Reload is
--   `reload_units`, `sync_units` and the small operations on all units; Manager.Single.Kept
--   and Manager.Single.Accounted follow the manager through runs of these operations and of those
--   of Runtime.Exit.
-- Conditions (src/manager/conditions_impl.rs) and Virtualization (src/manager/virtualization.rs):
--   `check_conditions`, with the checks over FileSystem.
-- State (src/manager/state.rs): `ServiceState`, with one function for each method. A method that
--   mutates the state returns the new record; each reading of the clock is an argument. An `Instant`
--   and a `Duration` are numbers of nanoseconds. The `u32` of the restart count wraps at 2 ^ 32.
-- Runtime (src/manager/runtime/imp/part1.rs and part2.rs, src/manager/notify_impl.rs):
--   Runtime.Notify is the messages of services, from their text to what `process_notify` does, on the
--   record of Manager; Runtime.Restart is `apply_restart_decision`, which calls the methods of State.
--   Runtime.Restart.RateLimit follows a service through a run of exits, with the calls that
--   `process_restarts` and the start make between two of them. Runtime.Exit is the whole handling of
--   an exit (`handle_reaped_service`) and `process_restarts`, over the start and the stop of a unit.
--   Runtime.Oneshot is the commands of oneshot services, one after the other
--   (`handle_oneshot_completion`), over the executor.
-- Deps (src/manager/deps.rs): `DepGraph`. Deps holds the construction, from the units of Units;
--   Deps.Kahn holds `kahn_drain` and `toposort`; Deps.StartOrder holds `transitive_deps`,
--   `toposort_subset`, `break_cycle` and `start_order_for`.
-- Timer (src/manager/timer_scheduler_impl.rs): when a timer fires next. The date library's months and
--   years and the random delay are parameters.
-- DynamicUser (src/manager/dynamic_user.rs): the ids of `DynamicUser=`.
--
-- A `HashMap` is a list of pairs and a `HashSet` is a list. The order in which the library iterates
-- is not specified; here it is the list's, and no definition assumes an order of it.
--
-- Fuel: the loop of `kahn_drain` and that of `transitive_deps` have as much fuel as there are nodes,
-- since each visits a node once; the loop of `toposort_subset` has two rounds for each node and two
-- more, since a round that emits nothing is followed by one that does; `allocate` has as much as the
-- range has ids. A result that stands for a want of fuel is a value of its own: `none` in
-- `start_order_for` and `resolve_start_order`, `no_answer` in `allocate`. The loop of
-- `collect_start_dependencies` takes its fuel as an argument: as many rounds as there are names that
-- can be pulled in are enough, and one that stops before has names left in `to_load`.
--
-- A descriptor that the program closes is put on the list `closed` of the manager.
--
-- Not modelled: the log lines; the search for drop-in files and `.wants` directories, which the
-- disk of Manager.Load stands for with the reading of the files; the directories that slices, mounts
-- and path units make, and the files of sockets; the tasks that wait for a socket, a path, a timer or
-- a process, which are what the operation that starts one answers with, or a parameter; enabling and
-- disabling, the generators and fstab; scopes, D-Bus and the watchdog's loop; and what is only system
-- calls (the receiving socket of the messages, the sandbox, cgroups, the executor, PID 1).
pub mod Prelude
pub mod Units
pub mod State
pub mod Runtime
pub mod Deps
pub mod DynamicUser
pub mod Conditions
pub mod FileSystem
pub mod Manager
pub mod Parser
pub mod Text
pub mod Timer
pub mod Virtualization

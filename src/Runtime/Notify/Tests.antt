-- ===== src/Runtime/Notify/Tests.antt =====
-- Tests of the messages of services.
use sysd.Prelude.{
  ℕ, ℤ, pos, String, ◌≡◌, refl, Bool, true, false, Option, none, some, List, [], ◌∷◌, get,
  string_eq, nat_eq, arith,
}
use sysd.Units.Defaults.{default_unit_section, default_service_section, default_install_section}
use sysd.Units.Enums.{NotifyAccess}
use sysd.Units.Kinds.{AnyUnit, service}
use sysd.State
use sysd.State.{ServiceState, set_running, set_starting}
use sysd.DynamicUser
use sysd.Manager.{Manager}
use sysd.Runtime.Notify.{
  NotifyMessage, parse_notify_message, validate_notify_access, handle_notify_ready, main_pid, id_of,
}
use sysd.Runtime.Notify.Store.{process_notify}
use sysd.Runtime.Notify.Store.Bounded.{IsBounded, process_notify-IsBounded}
use sysd.Runtime.Notify.Unknown.{Mistaken, handle_notify_ready-unknown}

abbrev storing : NotifyAccess → AnyUnit
storing access = service (record {
  name = "app.service";
  instance_name = none;
  unit = default_unit_section;
  service = record default_service_section {
    notify_access = access;
    file_descriptor_store_max = some 2;
  };
  install = default_install_section;
})

-- The service has process 10, and waits to become ready.
abbrev waiting : Manager
waiting = record {
  units = ("app.service", storing NotifyAccess.none) ∷ [];
  states = ("app.service", set_starting 1 (State.new 0)) ∷ [];
  processes = ("app.service", some 10) ∷ [];
  unit_paths = [];
  waiting_ready = (10, "app.service") ∷ [];
  cgroup_paths = [];
  pid_files = [];
  active_jobs = 1;
  waiting_bus_name = [];
  watchdog_deadlines = [];
  dynamic_user_manager = DynamicUser.new;
  dynamic_uids = [];
  fd_store = [];
  pid_to_service = (10, "app.service") ∷ [];
  pending_oneshot_cmds = [];
  socket_fds = [];
  user_environment = [];
  closed = [];
}

main_pid_example :
    main_pid (parse_notify_message "READY=1\nMAINPID=42\nSTATUS=a=b\n" 7 []) ≡ some 42
unfolding main_pid get parse_notify_message sysd.Text.lines sysd.Text.split_once sysd.Prelude.insert
    sysd.Text.from_str_radix
main_pid_example = refl

main_pid-overflow_example : main_pid (parse_notify_message "MAINPID=4294967296" 7 []) ≡ none
unfolding main_pid get parse_notify_message sysd.Text.lines sysd.Text.split_once sysd.Prelude.insert
    sysd.Text.from_str_radix
main_pid-overflow_example = refl

abbrev three_fds : NotifyMessage
three_fds = parse_notify_message "FDSTORE=1\nFDNAME=a" 11 (pos 5 ∷ pos 6 ∷ pos 7 ∷ [])

abbrev other_pid : Manager
other_pid = record waiting {
  processes = ("app.service", some 11) ∷ [];
  units = ("app.service", storing NotifyAccess.main) ∷ [];
}

process_notify_example :
    (process_notify ((three_fds, 2, 3, 4) ∷ []) other_pid).fd_store
    ≡ ("app.service", ("a", pos 5) ∷ ("a", pos 6) ∷ []) ∷ []
unfolding process_notify validate_notify_access get parse_notify_message
    sysd.Runtime.Notify.service_of sysd.Units.Kinds.as_service sysd.Runtime.Notify.is_fdstoreremove
    sysd.Text.lines sysd.Text.split_once sysd.Prelude.insert sysd.Runtime.Notify.is_fdstore
    sysd.Runtime.Notify.is_watchdog sysd.Runtime.Notify.is_ready sysd.Runtime.Notify.fdname
process_notify_example = refl

process_notify-IsBounded_example : IsBounded (process_notify ((three_fds, 2, 3, 4) ∷ []) other_pid)
unfolding get sysd.Runtime.Notify.Store.max_fds_of
process_notify-IsBounded_example =
    process_notify-IsBounded ((three_fds, 2, 3, 4) ∷ []) other_pid (λ name. omega arith)

abbrev stray : NotifyMessage
stray = parse_notify_message "READY=1" 99 []

-- The stray message sets the waiting service running.
handle_notify_ready_example :
    (handle_notify_ready 5 6 stray waiting).states
    ≡ ("app.service", set_running 10 5 (set_starting 1 (State.new 0))) ∷ []
unfolding handle_notify_ready main_pid get parse_notify_message sysd.Text.lines sysd.Text.split_once
    sysd.Prelude.insert sysd.Runtime.Notify.first_waiting sysd.Units.Kinds.as_service
    default_service_section sysd.Prelude.modify
handle_notify_ready_example = refl

handle_notify_ready-unknown_example :
    (validate_notify_access waiting stray ≡ true)
    × Mistaken 5 waiting (handle_notify_ready 5 6 stray waiting)
unfolding sysd.Runtime.Notify.find_service_by_pid get parse_notify_message main_pid sysd.Text.lines
    sysd.Text.split_once sysd.Prelude.insert
handle_notify_ready-unknown_example =
    handle_notify_ready-unknown 5 6 stray waiting (refl, tt) refl refl

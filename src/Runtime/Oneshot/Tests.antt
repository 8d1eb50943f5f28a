-- ===== src/Runtime/Oneshot/Tests.antt =====
-- Tests of the commands of oneshot services.
use sysd.Prelude.{
  ℕ, ℤ, pos, String, ◌≡◌, refl, Bool, true, false, Option, none, some, List, [], ◌∷◌, get,
  string_eq, nat_eq, ◌==◌, if◌then◌else◌, map_or,
}
use sysd.Units.Defaults.{default_unit_section, default_service_section, default_install_section}
use sysd.Units.Kinds.{Service, service}
use sysd.State
use sysd.State.{ServiceState, ActiveState, set_starting}
use sysd.DynamicUser
use sysd.Manager.{Manager}
use sysd.Manager.Service.{Spawned, child, no_child}
use sysd.Runtime.Oneshot.{OneshotTask, Ended, exit_status, wait_failed, oneshot_completion_result}
use sysd.Runtime.Oneshot.Done.{IsDone, run_commands, run_commands-IsDone}

oneshot_completion_result_example :
    oneshot_completion_result (exit_status (some (pos 3))) ≡ (some (pos 3), some "exit code 3")
unfolding oneshot_completion_result sysd.Prelude.show_ℤ
oneshot_completion_result_example = refl

abbrev setup : Service
setup = record {
  name = "setup.service";
  instance_name = none;
  unit = default_unit_section;
  service = record default_service_section {
    exec_start = "/bin/a" ∷ "/bin/b" ∷ "/bin/c" ∷ [];
    remain_after_exit = true;
  };
  install = default_install_section;
}

abbrev first_task : OneshotTask
first_task = record {
  service_name = "setup.service";
  cmd_idx = 0;
  total_cmds = 3;
  remain_after_exit = true;
}

-- The service runs its first command.
abbrev one_oneshot : Manager
one_oneshot = record {
  units = ("setup.service", service setup) ∷ [];
  states = ("setup.service", set_starting 0 (State.new 0)) ∷ [];
  processes = [];
  unit_paths = [];
  waiting_ready = [];
  cgroup_paths = ("setup.service", "/sys/fs/cgroup/setup") ∷ [];
  pid_files = [];
  active_jobs = 1;
  waiting_bus_name = [];
  watchdog_deadlines = [];
  dynamic_user_manager = DynamicUser.new;
  dynamic_uids = [];
  fd_store = [];
  pid_to_service = [];
  pending_oneshot_cmds = ("setup.service", (0, 3, true)) ∷ [];
  socket_fds = [];
  user_environment = [];
  closed = [];
}

-- The third command cannot be started.
abbrev third_fails : Service → ℕ → Spawned
third_fails s i = if i == 2 then no_child "no such file" else child (some 7)

failed_text :
    map_or none
      (λ n. map_or none (λ s. s.error) (get n.states "setup.service"))
      (run_commands third_fails
        (λ e. "spawn error")
        5
        (λ i. exit_status (some (pos 0)))
        3
        first_task
        one_oneshot)
    ≡ some "Command 2 failed: spawn error"
unfolding run_commands sysd.Runtime.Oneshot.handle_oneshot_completion
    sysd.Runtime.Oneshot.completion_of sysd.Runtime.Notify.service_of get
    sysd.Units.Kinds.as_service sysd.Prelude.modify State.set_failed sysd.Prelude.show
failed_text = refl

run_commands-IsDone_example :
    (n : Manager) × (run_commands third_fails
        (λ e. "spawn error")
        5
        (λ i. exit_status (some (pos 0)))
        3
        first_task
        one_oneshot
      ≡ some n)
    × IsDone "setup.service" one_oneshot n
unfolding get
run_commands-IsDone_example =
    run_commands-IsDone third_fails (λ e. "spawn error") 5 (λ i. exit_status (some (pos 0))) 2
      first_task one_oneshot setup (set_starting 0 (State.new 0)) refl refl refl refl

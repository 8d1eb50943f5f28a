-- ===== src/Runtime/Oneshot.antt =====
-- The commands of oneshot services (src/manager/runtime/imp/part2.rs). The executor and the texts of
-- errors are parameters; the task that waits for a command is what its start answers with.
pub mod Done
mod Tests
use Prim.Native.String.{◌++◌ as append}
use sysd.Prelude.{
  ℕ, ◌+◌, ◌-◌, ℤ, pos, negsuc, int_eq, String, Bool, true, false, ◌==◌, string_eq, Option, none,
  some, List, [], ◌∷◌, get, insert, remove, length, ltb, if◌then◌else◌, map_or, unwrap_or, show,
  show_ℤ,
}
use sysd.Units.Kinds.{Service}
use sysd.State.{Instant, ServiceState, set_failed, set_exited, set_inactive}
use sysd.Manager.{Manager, ManagerError, Result, ok, err}
use sysd.Manager.Watched.{with_state}
use sysd.Manager.Service.{Spawned, child, no_child}
use sysd.Runtime.Notify.{service_of}

pub record OneshotCompletion : Type 0 where
  pub service_name : String
  pub cmd_idx : ℕ
  pub total_cmds : ℕ
  pub exit_code : Option ℤ
  pub error : Option String
  pub remain_after_exit : Bool

-- A command that runs: what its completion tells besides how it ended.
pub record OneshotTask : Type 0 where
  pub service_name : String
  pub cmd_idx : ℕ
  pub total_cmds : ℕ
  pub remain_after_exit : Bool

-- How a child ended: its exit code, if it has one, or the error of the wait.
pub data Ended : Type 0 where
  exit_status : Option ℤ → Ended
  wait_failed : String → Ended

abbrev code_result : ℤ → Option ℤ × Option String
code_result code =
    if code == pos 0
    then (some (pos 0), none)
    else (some code, some (append "exit code " (show_ℤ code)))

unfoldable pub oneshot_completion_result : Ended → Option ℤ × Option String
oneshot_completion_result (exit_status code) = code_result (unwrap_or (negsuc 0) code)
oneshot_completion_result (wait_failed e) = (none, some e)

unfoldable pub completion_of : OneshotTask → Ended → OneshotCompletion
unfolding oneshot_completion_result
completion_of t ended =
    let (exit_code, error) = oneshot_completion_result ended in
    record {
      service_name = t.service_name;
      cmd_idx = t.cmd_idx;
      total_cmds = t.total_cmds;
      exit_code = exit_code;
      error = error;
      remain_after_exit = t.remain_after_exit;
    }

unfoldable pub cleanup_oneshot_cgroup : String → Manager → Manager
cleanup_oneshot_cgroup name m = record m { cgroup_paths = remove m.cgroup_paths name }

unfoldable pub fail_oneshot : Instant → String → String → Manager → Manager
unfolding cleanup_oneshot_cgroup
fail_oneshot now name error m =
    let m' = with_state name (set_failed error now) (cleanup_oneshot_cgroup name m) in
    record m' {
      active_jobs = m.active_jobs - 1;
      pending_oneshot_cmds = remove m.pending_oneshot_cmds name;
    }

abbrev pub success_state : Instant → Bool → ServiceState → ServiceState
success_state now remain_after_exit = if remain_after_exit then set_exited now else set_inactive now

unfoldable pub finish_oneshot_success : Instant → String → Bool → Manager → Manager
unfolding cleanup_oneshot_cgroup
finish_oneshot_success now name remain_after_exit m =
    let m' =
      with_state name (success_state now remain_after_exit) (cleanup_oneshot_cgroup name m) in
    record m' {
      active_jobs = m.active_jobs - 1;
      pending_oneshot_cmds = remove m.pending_oneshot_cmds name;
    }

-- `spawn_service` is the executor with the index of the command, and default options.
module _ (spawn_service : Service → ℕ → Spawned) (show_error : ManagerError → String) where
  abbrev pub child_task : String → ℕ → Service → Spawned → Result OneshotTask
  child_task name cmd_idx s (no_child e) = err (ManagerError.spawn e)
  child_task name cmd_idx s (child id) = ok (record {
    service_name = name;
    cmd_idx = cmd_idx;
    total_cmds = length s.service.exec_start;
    remain_after_exit = s.service.remain_after_exit;
  })

  abbrev pub task_of : String → ℕ → Option Service → Result OneshotTask
  task_of name cmd_idx none = err (ManagerError.not_found name)
  task_of name cmd_idx (some s) = child_task name cmd_idx s (spawn_service s cmd_idx)

  unfoldable pub start_oneshot_command : String → ℕ → Manager → Result OneshotTask
  start_oneshot_command name cmd_idx m = task_of name cmd_idx (service_of m name)

  abbrev pub next_started :
      Instant → String → ℕ → Result OneshotTask → Manager → Option OneshotTask × Manager
  next_started now name next_idx (ok t) m = (some t, m)
  next_started now name next_idx (err e) m = (
    none,
    fail_oneshot now name
        (append "Command " (append (show next_idx) (append " failed: " (show_error e)))) m,
  )

  unfoldable pub start_next_oneshot_command :
      Instant → String → ℕ → OneshotCompletion → Manager → Option OneshotTask × Manager
  unfolding start_oneshot_command fail_oneshot
  start_next_oneshot_command now name next_idx c m =
      let m' = record m {
        pending_oneshot_cmds =
            insert m.pending_oneshot_cmds name (next_idx, c.total_cmds, c.remain_after_exit);
      } in
      next_started now name next_idx (start_oneshot_command name next_idx m') m'

  abbrev pub after_command :
      Instant → OneshotCompletion → Option String → Manager → Option OneshotTask × Manager
  after_command now c (some error) m = (none, fail_oneshot now c.service_name error m)
  after_command now c none m =
      if ltb (c.cmd_idx + 1) c.total_cmds
      then start_next_oneshot_command now c.service_name (c.cmd_idx + 1) c m
      else (none, finish_oneshot_success now c.service_name c.remain_after_exit m)

  -- The task of the next command, if one was started, and the manager.
  unfoldable pub handle_oneshot_completion :
      Instant → OneshotCompletion → Manager → Option OneshotTask × Manager
  unfolding start_next_oneshot_command finish_oneshot_success
  handle_oneshot_completion now c m = after_command now c c.error m

-- ===== src/Runtime/Oneshot/Done.antt =====
-- The commands of a oneshot service, one after the other (src/manager/runtime/imp/part2.rs).
use sysd.Prelude.{
  ℕ, suc, zero, ◌+◌, ◌-◌, String, ◌≡◌, refl, Bool, true, false, string_eq, Option, none, some, get,
  insert, get-remove, beq_self, length, ltb, arith, Bool-cases, inl, inr,
}
use sysd.Units.Kinds.{Service, service}
use sysd.State.{Instant, ServiceState, ActiveState, set_failed, set_exited, set_inactive}
use sysd.Manager.{Manager, ManagerError}
use sysd.Manager.Mounts.Settled.{get-with_state}
use sysd.Manager.Service.{Spawned, child, no_child}
use sysd.Runtime.Notify.{service_of}
use sysd.Runtime.Oneshot.{
  OneshotTask, OneshotCompletion, after_command, child_task, Ended, completion_of,
  cleanup_oneshot_cgroup, fail_oneshot, success_state, finish_oneshot_success,
  start_oneshot_command, next_started, start_next_oneshot_command, handle_oneshot_completion,
}

abbrev is_activating : ActiveState → Bool
is_activating ActiveState.activating = true
is_activating _ = false

-- The service is out of its start, no command is pending, it has no cgroup, and one job less is counted
-- than in `m`.
abbrev pub IsDone : String → Manager → Manager → Type 0
IsDone name m n =
    ((s : ServiceState) × (get n.states name ≡ some s) × (is_activating s.active ≡ false))
    × (get n.pending_oneshot_cmds name ≡ none)
    × (get n.cgroup_paths name ≡ none)
    × (n.active_jobs ≡ m.active_jobs - 1)

fail_oneshot-IsDone :
    (now : Instant) (name error : String) (m : Manager) (s : ServiceState)
    → get m.states name ≡ some s
    → IsDone name m (fail_oneshot now name error m)
unfolding fail_oneshot set_failed
fail_oneshot-IsDone now name error m s h = (
  (
    set_failed error now s,
    get-with_state name (set_failed error now) (cleanup_oneshot_cgroup name m) s h,
    refl,
  ),
  rw (get-remove, beq_self name) refl,
  rw (get-remove, beq_self name) refl,
  refl,
)

success_state-left :
    (now : Instant) (b : Bool) (s : ServiceState)
    → is_activating (success_state now b s).active ≡ false
unfolding set_exited set_inactive
success_state-left now true s = refl
success_state-left now false s = refl

finish_oneshot_success-IsDone :
    (now : Instant) (name : String) (b : Bool) (m : Manager) (s : ServiceState)
    → get m.states name ≡ some s
    → IsDone name m (finish_oneshot_success now name b m)
unfolding finish_oneshot_success
finish_oneshot_success-IsDone now name b m s h = (
  (
    success_state now b s,
    get-with_state name (success_state now b) (cleanup_oneshot_cgroup name m) s h,
    success_state-left now b s,
  ),
  rw (get-remove, beq_self name) refl,
  rw (get-remove, beq_self name) refl,
  refl,
)

module _ (spawn_service : Service → ℕ → Spawned) (show_error : ManagerError → String)
    (now : Instant) (ends : ℕ → Ended) where
  -- The completions of the commands come as long as there is fuel; `none` when it has run out before the
  -- service had no command left. The child of command `i` ends as `ends i` says.
  abbrev next_run :
      (OneshotTask → Manager → Option Manager) → Option OneshotTask × Manager → Option Manager
  next_run go (none, m) = some m
  next_run go (some t, m) = go t m

  unfoldable pub run_commands : ℕ → OneshotTask → Manager → Option Manager
  run_commands zero t m = none
  run_commands (suc fuel) t m =
      next_run (run_commands fuel) (
        handle_oneshot_completion spawn_service show_error now (completion_of t (ends t.cmd_idx)) m)

  Ends : String → Manager → Option Manager → Type 0
  Ends name m o = (n : Manager) × (o ≡ some n) × IsDone name m n

  module _ (go : OneshotTask → Manager → Option Manager) (c : OneshotCompletion)
      (s : ServiceState) where
    -- The manager when the next command is started.
    abbrev pending : Manager → Manager
    pending m = record m {
      pending_oneshot_cmds =
          insert m.pending_oneshot_cmds c.service_name
            (c.cmd_idx + 1, c.total_cmds, c.remain_after_exit);
    }

    abbrev next_task : Service → OneshotTask
    next_task u = record {
      service_name = c.service_name;
      cmd_idx = c.cmd_idx + 1;
      total_cmds = length u.service.exec_start;
      remain_after_exit = u.service.remain_after_exit;
    }

    next_started-Ends :
        (m : Manager) (u : Service) (r : Spawned)
        → get m.states c.service_name ≡ some s
        → Ends c.service_name m (go (next_task u) (pending m))
        → Ends c.service_name m (
            next_run go (
              next_started spawn_service show_error now c.service_name
                (c.cmd_idx + 1)
                (child_task spawn_service show_error c.service_name (c.cmd_idx + 1) u r)
                (pending m)))
    unfolding Ends
    next_started-Ends m u (child id) h e = e
    next_started-Ends m u (no_child text) h e =
        (_, refl, fail_oneshot-IsDone now c.service_name _ (pending m) s h)

    after_command-Ends :
        (m : Manager) (u : Service) (error : Option String)
        → service_of m c.service_name ≡ some u
        → get m.states c.service_name ≡ some s
        → (ltb (c.cmd_idx + 1) c.total_cmds ≡ true
            → Ends c.service_name m (go (next_task u) (pending m)))
        → Ends c.service_name m (next_run go (after_command spawn_service show_error now c error m))
    unfolding Ends start_next_oneshot_command start_oneshot_command service_of
    after_command-Ends m u (some error) i h e =
        (_, refl, fail_oneshot-IsDone now c.service_name error m s h)
    after_command-Ends m u none i h e = elim (Bool-cases (ltb (c.cmd_idx + 1) c.total_cmds)) [
      | inl k ↦ rw (k, i) (next_started-Ends m u (spawn_service u (c.cmd_idx + 1)) h (e k))
      | inr k ↦
          rw k (_, refl, finish_oneshot_success-IsDone now c.service_name c.remain_after_exit m s h)
    ]

  -- However the commands of a oneshot service end, and whether or not the next ones can be started, no
  -- more completions than it has commands left are needed until it is done: it is out of its start, no
  -- command is pending, its cgroup is forgotten, and exactly one job less is counted.
  pub run_commands-IsDone :
      (fuel : ℕ) (t : OneshotTask) (m : Manager) (u : Service) (s : ServiceState)
      → get m.units t.service_name ≡ some (service u)
      → get m.states t.service_name ≡ some s
      → length u.service.exec_start ≡ t.total_cmds
      → t.cmd_idx + suc fuel ≡ t.total_cmds
      → (n : Manager) × (run_commands (suc fuel) t m ≡ some n) × IsDone t.service_name m n
  unfolding run_commands Ends handle_oneshot_completion completion_of service_of
      sysd.Units.Kinds.as_service
  run_commands-IsDone zero t m u s i h l k =
      after_command-Ends (run_commands zero) (completion_of t (ends t.cmd_idx)) s m u _ (rw i refl)
        h (λ lt. absurd (ground (arith, lt, k)))
  run_commands-IsDone (suc fuel) t m u s i h l k =
      let c = completion_of t (ends t.cmd_idx) in
      after_command-Ends (run_commands (suc fuel)) c s m u _ (rw i refl) h (λ lt.
        run_commands-IsDone fuel (next_task (run_commands (suc fuel)) c s u)
          (pending (run_commands (suc fuel)) c s m) u s i h refl (rw l (omega (arith, k))))

-- ===== src/State/Invariant.antt =====
-- What holds of a unit's state between two calls (src/manager/state.rs): a relation of the calls
-- that the manager makes, and the invariant that every sequence of them keeps.
use sysd.Prelude.{
  ℕ, ◌<◌, ◌≡◌, ◌⊎◌, ℤ, pos, String, Option, none, some, true, arith, is_some, Bool-cases,
  if◌then◌else◌, ◌==◌, int_eq, inl, inr,
}
use sysd.Units.Sections.{Duration}
use sysd.State.{
  Instant, ActiveState, SubState, ServiceState, new, running_scope, set_starting, set_running,
  set_stopping, set_stopped, set_auto_restart, is_restart_rate_limited, clear_restart,
  reset_restart_count, set_failed, set_exited, set_inactive, interval_or_default, interval_expired,
}

-- The pairs of states that a unit can show.
pub data Pair : ActiveState → SubState → Type 0 where
  inactive_dead : Pair ActiveState.inactive SubState.dead
  inactive_exited : Pair ActiveState.inactive SubState.exited
  starting : Pair ActiveState.activating SubState.starting
  waiting : Pair ActiveState.activating SubState.auto_restart
  running : Pair ActiveState.active SubState.running
  exited : Pair ActiveState.active SubState.exited
  stopping : Pair ActiveState.deactivating SubState.stopping
  failed : Pair ActiveState.failed SubState.failed

pub record IsConsistent (s : ServiceState) : Type 0 where
  pub pair : Pair s.active s.sub
  -- Only a unit that starts, runs or stops has a main process.
  pub pid_live :
      is_some s.main_pid ≡ true
      → (s.sub ≡ SubState.starting) ⊎ (s.sub ≡ SubState.running) ⊎ (s.sub ≡ SubState.stopping)
  -- A unit that waits for its restart has a time for it.
  pub restart_timed : s.sub ≡ SubState.auto_restart → is_some s.restart_at ≡ true
  -- Restarts are counted only within an interval.
  pub counted : 0 < s.restart_count → is_some s.restart_interval_start ≡ true
  -- A failed unit says why.
  pub failure_told : s.sub ≡ SubState.failed → is_some s.error ≡ true

-- The calls of the manager; `clear_restart` is made only on a unit that waits for its restart
-- (`process_restarts`).
pub data Step (s : ServiceState) : ServiceState → Type 0 where
  start : (now : Instant) → Step s (set_starting now s)
  run : (pid : ℕ) (now : Instant) → Step s (set_running pid now s)
  stop : (now : Instant) → Step s (set_stopping now s)
  stopped : (code : ℤ) (now : Instant) → Step s (set_stopped code now s)
  schedule :
      (delay : Duration) (now now' now'' : Instant)
      → Step s (set_auto_restart delay now now' now'' s)
  check_limit :
      (burst : Option ℕ) (interval : Option Duration) (now : Instant)
      → Step s (is_restart_rate_limited burst interval now s).0
  restart : s.sub ≡ SubState.auto_restart → Step s (clear_restart s)
  reset : Step s (reset_restart_count s)
  fail : (error : String) (now : Instant) → Step s (set_failed error now s)
  finish : (now : Instant) → Step s (set_exited now s)
  rest : (now : Instant) → Step s (set_inactive now s)

pub data Reach (s : ServiceState) : ServiceState → Type 0 where
  here : Reach s s
  next : {t u : ServiceState} → Reach s t → Step t u → Reach s u

stopped_pair :
    (code : ℤ)
    → Pair ActiveState.inactive (if code == pos 0 then SubState.exited else SubState.dead)
stopped_pair code = elim (Bool-cases (code == pos 0)) [
  | inl clean ↦ rw clean inactive_exited
  | inr unclean ↦ rw unclean inactive_dead
]

limit-Pair :
    (burst : Option ℕ) (interval : Option Duration) (now : Instant) (s : ServiceState)
    → Pair s.active s.sub
    → let t = (is_restart_rate_limited burst interval now s).0 in Pair t.active t.sub
unfolding is_restart_rate_limited
limit-Pair none interval now s h = h
limit-Pair (some burst) interval now s h =
    elim (Bool-cases
      (interval_expired s.restart_interval_start (interval_or_default interval) now)) [
        | inl over ↦ rw over h
        | inr on ↦ rw on h
      ]

-- Each call keeps the invariant.
pub Step-IsConsistent : {s t : ServiceState} → Step s t → IsConsistent s → IsConsistent t
unfolding set_starting set_running set_stopping set_stopped set_auto_restart is_restart_rate_limited
    clear_restart reset_restart_count set_failed set_exited set_inactive
Step-IsConsistent (start now) c = record {
  pair = starting;
  pid_live = ground arith;
  restart_timed = ground arith;
  counted = c.counted;
  failure_told = ground arith;
}
Step-IsConsistent (run pid now) c = record {
  pair = running;
  pid_live = ground arith;
  restart_timed = ground arith;
  counted = c.counted;
  failure_told = ground arith;
}
Step-IsConsistent (stop now) c = record {
  pair = stopping;
  pid_live = ground arith;
  restart_timed = ground arith;
  counted = c.counted;
  failure_told = ground arith;
}
Step-IsConsistent {s} (stopped code now) c = record {
  pair = stopped_pair code;
  pid_live = ground arith;
  restart_timed = ground arith;
  counted = c.counted;
  failure_told = ground arith;
}
Step-IsConsistent (schedule delay now now' now'') c = record {
  pair = waiting;
  pid_live = ground arith;
  restart_timed = ground arith;
  counted = ground arith;
  failure_told = ground arith;
}
Step-IsConsistent {s} (check_limit burst interval now) c = record {
  pair = limit-Pair burst interval now s c.pair;
  pid_live = ground arith;
  restart_timed = ground arith;
  counted = ground arith;
  failure_told = ground arith;
}
Step-IsConsistent (restart waits) c = record {
  pair = inactive_dead;
  pid_live = ground arith;
  restart_timed = ground arith;
  counted = c.counted;
  failure_told = ground arith;
}
Step-IsConsistent reset c = record {
  pair = c.pair;
  pid_live = c.pid_live;
  restart_timed = c.restart_timed;
  counted = ground arith;
  failure_told = c.failure_told;
}
Step-IsConsistent (fail error now) c = record {
  pair = failed;
  pid_live = ground arith;
  restart_timed = ground arith;
  counted = c.counted;
  failure_told = ground arith;
}
Step-IsConsistent (finish now) c = record {
  pair = exited;
  pid_live = ground arith;
  restart_timed = ground arith;
  counted = c.counted;
  failure_told = ground arith;
}
Step-IsConsistent (rest now) c = record {
  pair = inactive_dead;
  pid_live = ground arith;
  restart_timed = ground arith;
  counted = c.counted;
  failure_told = ground arith;
}

-- A new state is consistent, and so is that of a scope that runs.
pub new-IsConsistent : (now : Instant) → IsConsistent (new now)
unfolding new
new-IsConsistent now = record {
  pair = inactive_dead;
  pid_live = ground arith;
  restart_timed = ground arith;
  counted = ground arith;
  failure_told = ground arith;
}

pub running_scope-IsConsistent : (now : Instant) → IsConsistent (running_scope now)
unfolding running_scope
running_scope-IsConsistent now = record {
  pair = running;
  pid_live = ground arith;
  restart_timed = ground arith;
  counted = ground arith;
  failure_told = ground arith;
}

-- Whatever sequence of calls the manager makes on a consistent state, the state stays consistent: it
-- shows one of eight pairs of states, only a unit that starts, runs or stops has a main process, one
-- that waits for its restart has a time for it, restarts are counted only within an interval, and a
-- failed unit says why.
pub Reach-IsConsistent : {s t : ServiceState} → Reach s t → IsConsistent s → IsConsistent t
Reach-IsConsistent here c = c
Reach-IsConsistent (next r st) c = Step-IsConsistent st (Reach-IsConsistent r c)

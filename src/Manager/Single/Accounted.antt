-- ===== src/Manager/Single/Accounted.antt =====
-- The dynamic user ids over whole operations of the manager: starts, stops, restarts, exits and reloads
-- (src/manager/mod_impl and src/manager/runtime).
use sysd.Prelude.{
  ℕ, ℤ, ◌-◌, String, refl, Bool, true, false, Option, none, some, List, [], ◌∷◌, get, has_key,
  remove, modify, Bool-cases, inl, inr, string_eq, int_eq, pos, ◌==◌,
}
use sysd.FileSystem.{FileSystem}
use sysd.Units.Sections.{Duration}
use sysd.State.{Instant, clear_restart, set_running}
use sysd.Manager.{ManagerError, Manager, ok, err, Outcome}
use sysd.Manager.Load.{Disk}
use sysd.Manager.Service.Accounts.{IsAccounted, SameUids, SameUids-IsAccounted}
use sysd.Manager.Single.{World, start_single, start, restart}
use sysd.Manager.Single.Reload.{reload_units}
use sysd.Runtime.Notify.{armed, arm_watchdog}
use sysd.Runtime.Restart.{RestartDecisionInput, Readings, apply_restart_decision}
use sysd.Runtime.Exit.{
  is_restarting, cleanup_after_exit, stop_all, propagate_binds_to_stop, bound_to, ended, after_fork,
  set_forking_running_state, forked_as, forked, read_forking_pid_file, reap_forking_parent,
  read_restart_policy, handle_reaped_service, restarted, restart_each, due_restarts,
  process_restarts,
}
use sysd.Manager.Single.Kept.{
  start_single-Keeps, start-Keeps, stop_in, stop-Keeps, restart-Keeps, given_back,
}

stop_all-IsAccounted :
    (w : World) (names : List String) (m : Manager)
    → IsAccounted m
    → IsAccounted (stop_all (stop_in w) names m)
unfolding stop_all
stop_all-IsAccounted w [] m a = a
stop_all-IsAccounted w (name ∷ names) m a =
    stop_all-IsAccounted w names (stop_in w name m).1 (stop-Keeps w name m a)

cleanup_after_exit-IsAccounted :
    (name : String) (m : Manager) → IsAccounted m → IsAccounted (cleanup_after_exit name m)
unfolding cleanup_after_exit
cleanup_after_exit-IsAccounted name m a = elim (Bool-cases (is_restarting (get m.states name))) [
  | inl h ↦ rw h (SameUids-IsAccounted m _ (refl, refl) a)
  | inr h ↦ rw h (given_back name m _ (refl, refl) a)
]

ended-IsAccounted :
    (w : World) (policy : RestartDecisionInput) (t : Readings) (name : String) (code : ℤ)
    (m : Manager)
    → IsAccounted m
    → IsAccounted (ended (stop_in w) policy t name code m)
unfolding propagate_binds_to_stop
ended-IsAccounted w policy t name code m a =
    let m₁ = record m { states = apply_restart_decision policy t code name m.states } in
    let m₂ = cleanup_after_exit name m₁ in
    stop_all-IsAccounted w (bound_to name m₂.units m₂.states) m₂
      (cleanup_after_exit-IsAccounted name m₁ (SameUids-IsAccounted m m₁ (refl, refl) a))

armed-SameUids :
    (now : Instant) (name : String) (o : Option Duration) (m : Manager)
    → SameUids m (armed now name o m)
armed-SameUids now name none m = (refl, refl)
armed-SameUids now name (some wd) m = (refl, refl)

arm_watchdog-SameUids :
    (now : Instant) (name : String) (m : Manager) → SameUids m (arm_watchdog now name m)
unfolding arm_watchdog
arm_watchdog-SameUids now name m = armed-SameUids now name _ m

set_forking_running_state-SameUids :
    (now now' : Instant) (name : String) (pid : ℕ) (m : Manager)
    → SameUids m (set_forking_running_state now now' name pid m)
unfolding set_forking_running_state
set_forking_running_state-SameUids now now' name pid m = elim (Bool-cases (has_key m.states name)) [
  | inl h ↦ rw h (
      arm_watchdog-SameUids now' name (record m {
        states = modify m.states name (set_running pid now);
        active_jobs = m.active_jobs - 1;
      }))
  | inr h ↦ rw h (arm_watchdog-SameUids now' name m)
]

forked_as-SameUids :
    (now now' : Instant) (name : String) (o : Option ℕ) (m : Manager)
    → SameUids m (forked_as now now' name o m).1
forked_as-SameUids now now' name none m = (refl, refl)
forked_as-SameUids now now' name (some pid) m =
    set_forking_running_state-SameUids now now' name pid m

forked-SameUids :
    (fs : FileSystem) (now now' : Instant) (name : String) (o : Option String) (m : Manager)
    → SameUids m (forked fs now now' name o m).1
forked-SameUids fs now now' name none m = arm_watchdog-SameUids now' name (record m {
  states = modify m.states name (set_running 0 now);
  active_jobs = m.active_jobs - 1;
})
forked-SameUids fs now now' name (some pid_file) m =
    forked_as-SameUids now now' name (read_forking_pid_file fs pid_file)
      (record m { pid_files = remove m.pid_files name })

after_fork-IsAccounted :
    (w : World) (policy : RestartDecisionInput) (t : Readings) (name : String) (code : ℤ)
    → (r : Bool × Manager) → IsAccounted r.1
    → IsAccounted (after_fork (stop_in w) policy t name code r)
after_fork-IsAccounted w policy t name code (true, n) a = a
after_fork-IsAccounted w policy t name code (false, n) a =
    ended-IsAccounted w policy t name code n a

reap_forking_parent-SameUids :
    (fs : FileSystem) (now now' : Instant) (name : String) (code : ℤ) (m : Manager)
    → SameUids m (reap_forking_parent fs now now' name code m).1
unfolding reap_forking_parent
reap_forking_parent-SameUids fs now now' name code m = elim (Bool-cases (code == pos 0)) [
  | inl h ↦ rw h (forked-SameUids fs now now' name (get m.pid_files name) m)
  | inr h ↦ rw h (refl, refl)
]

handle_reaped_service-IsAccounted :
    (w : World) (t : Readings) (name : String) (code : ℤ) (m : Manager)
    → IsAccounted m
    → IsAccounted (handle_reaped_service (stop_in w) w.file_system w.now w.now' t name code m)
unfolding handle_reaped_service
handle_reaped_service-IsAccounted w t name code m a =
    let m' = record m { processes = remove m.processes name } in
    let a' = SameUids-IsAccounted m m' (refl, refl) a in
    let policy = read_restart_policy m' name in
    let r = reap_forking_parent w.file_system w.now w.now' name code m' in
    elim (Bool-cases policy.is_forking) [
      | inl h ↦ rw h (
          after_fork-IsAccounted w policy t name code r (
            SameUids-IsAccounted m' r.1
              (reap_forking_parent-SameUids w.file_system w.now w.now' name code m') a'))
      | inr h ↦ rw h (ended-IsAccounted w policy t name code m' a')
    ]

restarted-IsAccounted :
    (start_single : String → Manager → Outcome {0} Unit) (show_error : ManagerError → String)
    → (now : Instant) (name : String) (o : Outcome {0} Unit) → IsAccounted o.1
    → IsAccounted (restarted start_single show_error now name o)
restarted-IsAccounted start_single show_error now name (ok _, n) a = a
restarted-IsAccounted start_single show_error now name (err e, n) a =
    SameUids-IsAccounted n _ (refl, refl) a

-- The start of each unit has a world of its own.
abbrev pub start_single_in : (String → World) → String → Manager → Outcome {0} Unit
start_single_in ws name = start_single (ws name) name

restart_each-IsAccounted :
    (ws : String → World) (show_error : ManagerError → String) (now : Instant) (names : List String)
    (m : Manager)
    → IsAccounted m
    → IsAccounted (restart_each (start_single_in ws) show_error now names m)
unfolding restart_each
restart_each-IsAccounted ws show_error now [] m a = a
restart_each-IsAccounted ws show_error now (name ∷ names) m a =
    let m' = record m { states = modify m.states name clear_restart } in
    restart_each-IsAccounted ws show_error now names _ (
      restarted-IsAccounted (start_single_in ws) show_error now name
        (start_single (ws name) name m')
        (start_single-Keeps (ws name) name m' (SameUids-IsAccounted m m' (refl, refl) a)))

-- The operations of the manager, one after the other, each in a world of its own.
pub data Runs : Manager → Manager → Type 0 where
  nothing : {m : Manager} → Runs m m
  starts : {m n : Manager} (w : World) (name : String) → Runs m n → Runs m (start w name n).1
  stops : {m n : Manager} (w : World) (name : String) → Runs m n → Runs m (stop_in w name n).1
  restarts :
      {m n : Manager} (w w' : World) (name : String) → Runs m n → Runs m (restart w w' name n).1
  exits :
      {m n : Manager} (w : World) (t : Readings) (name : String) (code : ℤ)
      → Runs m n
      → Runs m (handle_reaped_service (stop_in w) w.file_system w.now w.now' t name code n)
  rounds :
      {m n : Manager} (ws : String → World) (show_error : ManagerError → String) (now : Instant)
      → Runs m n
      → Runs m (process_restarts (start_single_in ws) show_error now n)
  reloads : {m n : Manager} (d : Disk) → Runs m n → Runs m (reload_units d n).1

-- Over any run of starts, stops and restarts of units of every kind, of exits of processes with the
-- stops that they bring about, of rounds of the due restarts, and of reloads, whatever the executor, the disk and the kernel
-- answer: if at first every id that a service holds is taken from the pool and no two services hold
-- the same, then so it is at the end.
pub Runs-IsAccounted : {m n : Manager} → Runs m n → IsAccounted m → IsAccounted n
unfolding reload_units process_restarts
Runs-IsAccounted nothing a = a
Runs-IsAccounted (starts {m} {n} w name r) a = start-Keeps w name n (Runs-IsAccounted r a)
Runs-IsAccounted (stops {m} {n} w name r) a = stop-Keeps w name n (Runs-IsAccounted r a)
Runs-IsAccounted (restarts {m} {n} w w' name r) a = restart-Keeps w w' name n (Runs-IsAccounted r a)
Runs-IsAccounted (exits {m} {n} w t name code r) a =
    handle_reaped_service-IsAccounted w t name code n (Runs-IsAccounted r a)
Runs-IsAccounted (rounds {m} {n} ws show_error now r) a =
    restart_each-IsAccounted ws show_error now (due_restarts now n.states) n (Runs-IsAccounted r a)
Runs-IsAccounted (reloads {m} {n} d r) a =
    SameUids-IsAccounted n _ (refl, refl) (Runs-IsAccounted r a)

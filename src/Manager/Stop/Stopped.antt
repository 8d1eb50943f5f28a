-- ===== src/Manager/Stop/Stopped.antt =====
-- What is left of a service when it has been stopped (src/manager/mod_impl/part3.rs).
use sysd.Prelude.{
  String, ◌≡◌, refl, ◌∙◌, true, false, string_eq, none, some, get, remove, get-remove, beq_self,
  Option-cases, inl, inr, pos,
}
use sysd.Units.Kinds.{Service, service}
use sysd.State.{Instant, ServiceState, set_stopping, set_stopped, set_failed, is_active}
use sysd.Manager.{Manager, ok, normalize_name}
use sysd.Manager.Watched.{with_state}
use sysd.Manager.Mounts.{Mounting}
use sysd.Manager.Mounts.Settled.{get-with_state}
use sysd.Manager.Service.{release_dynamic_uid}
use sysd.Runtime.Exit.{close_stored_fds}
use sysd.Runtime.Exit.Released.{IsReleased, release_dynamic_uid-Unheld, close_stored_fds-IsReleased}
use sysd.Manager.Stop.{
  Waited, left, wait_error, timed_out, after_wait, Ending, stop_main_process,
  cleanup_stopped_service, mark_unit_stopping, stop_service, stop,
}

-- What giving back the user and the descriptors leaves alone.
abbrev Frame : Manager → Manager → Type 0
Frame m n =
    (n.states ≡ m.states)
    × (n.processes ≡ m.processes)
    × (n.pid_to_service ≡ m.pid_to_service)
    × (n.active_jobs ≡ m.active_jobs)

release_dynamic_uid-Frame : (name : String) (m : Manager) → Frame m (release_dynamic_uid name m)
unfolding release_dynamic_uid
release_dynamic_uid-Frame name m = elim (Option-cases (get m.dynamic_uids name)) [
  | inl h ↦ rw (h, release_dynamic_uid) (refl, refl, refl, refl)
  | inr (uid, h) ↦ rw (h, release_dynamic_uid) (refl, refl, refl, refl)
]

close_stored_fds-Frame : (name : String) (m : Manager) → Frame m (close_stored_fds name m)
unfolding close_stored_fds
close_stored_fds-Frame name m = elim (Option-cases (get m.fd_store name)) [
  | inl h ↦ rw (h, close_stored_fds) (refl, refl, refl, refl)
  | inr (store, h) ↦ rw (h, close_stored_fds) (refl, refl, refl, refl)
]

cleanup_stopped_service-Frame :
    (name : String) (m : Manager) → Frame m (cleanup_stopped_service name m)
unfolding cleanup_stopped_service
cleanup_stopped_service-Frame name m =
    let m' = record m {
      cgroup_paths = remove m.cgroup_paths name;
      watchdog_deadlines = remove m.watchdog_deadlines name;
    } in
    let a = release_dynamic_uid-Frame name m' in
    let b = close_stored_fds-Frame name (release_dynamic_uid name m') in
    (b.0 ∙ a.0, b.1 ∙ a.1, b.2 ∙ a.2, b.3 ∙ a.3)

cleanup_stopped_service-IsReleased :
    (name : String) (m : Manager) → IsReleased name (cleanup_stopped_service name m)
unfolding cleanup_stopped_service
cleanup_stopped_service-IsReleased name m =
    let m' = record m {
      cgroup_paths = remove m.cgroup_paths name;
      watchdog_deadlines = remove m.watchdog_deadlines name;
    } in
    let u = release_dynamic_uid-Unheld name m' in
    close_stored_fds-IsReleased name (release_dynamic_uid name m')
      (rw (u.cgroup, get-remove, beq_self name)) (rw (u.watchdog, get-remove, beq_self name)) u.user

-- The unit is known and not active, and has no process.
abbrev IsEnded : String → Manager → Type 0
IsEnded name m =
    ((s : ServiceState) × (get m.states name ≡ some s) × (is_active s ≡ false))
    × (get m.processes name ≡ none)

after_wait-inactive :
    (now : Instant) (w : Waited) (s : ServiceState) → is_active (after_wait now w s) ≡ false
unfolding is_active set_stopped set_failed
after_wait-inactive now (left code) s = refl
after_wait-inactive now (wait_error text) s = refl
after_wait-inactive now timed_out s = refl

stop_main_process-IsEnded :
    (ending : Ending) (now : Instant) (name : String) (m : Manager) (s : ServiceState)
    → get m.states name ≡ some s
    → IsEnded name (stop_main_process ending now name m)
      × ((stop_main_process ending now name m).pid_to_service ≡ m.pid_to_service)
      × ((stop_main_process ending now name m).active_jobs ≡ m.active_jobs)
unfolding stop_main_process set_stopped is_active
stop_main_process-IsEnded ending now name m s h = elim (Option-cases (get m.processes name)) [
  | inl e ↦
      rw (e, stop_main_process)
        (
          (
            (set_stopped (pos 0) now s, get-with_state name (set_stopped (pos 0) now) m s h, refl),
            e,
          ),
          refl,
          refl,
        )
  | inr (id, e) ↦
      rw (e, stop_main_process)
        (
          (
            (
              after_wait now _ s,
              get-with_state name (after_wait now _)
                  (record m { processes = remove m.processes name }) s h,
              after_wait-inactive now _ s,
            ),
            rw (get-remove, beq_self name) refl,
          ),
          refl,
          refl,
        )
]

-- The service holds nothing and has no process, and is not active.
pub record IsStopped (name : String) (m : Manager) : Type 0 where
  pub released : IsReleased name m
  pub ended : IsEnded name m

marked :
    (now : Instant) (name : String) (m : Manager) (s : ServiceState)
    → get m.states name ≡ some s
    → is_active s ≡ true
    → mark_unit_stopping now name m ≡ (ok tt, with_state name (set_stopping now) m)
unfolding mark_unit_stopping
marked now name m s h k = rw (h, mark_unit_stopping, k) refl

pub stop_service-IsStopped :
    (ending : Ending) (now now' : Instant) (name : String) (m : Manager) (s : ServiceState)
    → get m.states name ≡ some s
    → is_active s ≡ true
    → ((stop_service ending now now' name m).0 ≡ ok tt)
      × IsStopped name (stop_service ending now now' name m).1
      × ((stop_service ending now now' name m).1.pid_to_service ≡ m.pid_to_service)
      × ((stop_service ending now now' name m).1.active_jobs ≡ m.active_jobs)
unfolding stop_service
stop_service-IsStopped ending now now' name m s h k =
    let m₁ = with_state name (set_stopping now) m in
    let m₂ = stop_main_process ending now' name m₁ in
    let e =
      stop_main_process-IsEnded ending now' name m₁ (set_stopping now s)
        (get-with_state name (set_stopping now) m s h) in
    let f = cleanup_stopped_service-Frame name m₂ in
    rw (marked now name m s h k, stop_service)
      (
        refl,
        record {
          released = cleanup_stopped_service-IsReleased name m₂;
          ended = ((e.0.0.0, rw (f.0) e.0.0.1, e.0.0.2), rw (f.1) e.0.1);
        },
        f.2 ∙ e.1,
        f.3 ∙ e.2,
      )

-- The stop of an active service succeeds, however its process ends: afterwards it is not active, has no
-- process, and holds no cgroup, watchdog, dynamic user or descriptor. The ids of processes are
-- still known as the services that had them, and the jobs are counted as before.
pub stop-IsStopped :
    (sys : Mounting) (ending : Ending) (now now' : Instant) (requested : String) (m : Manager)
    → (u : Service) (s : ServiceState) → get m.units (normalize_name requested) ≡ some (service u)
    → get m.states (normalize_name requested) ≡ some s
    → is_active s ≡ true
    → ((stop sys ending now now' requested m).0 ≡ ok tt)
      × IsStopped (normalize_name requested) (stop sys ending now now' requested m).1
      × ((stop sys ending now now' requested m).1.pid_to_service ≡ m.pid_to_service)
      × ((stop sys ending now now' requested m).1.active_jobs ≡ m.active_jobs)
unfolding stop
stop-IsStopped sys ending now now' requested m u s i h k =
    rw (i, stop) (stop_service-IsStopped ending now now' (normalize_name requested) m s h k)

-- ===== src/Manager/Stop/Touched.antt =====
-- Which states the stop of a unit changes (src/manager/mod_impl/part3.rs and the stops of each kind).
use sysd.Prelude.{
  ℕ, String, ◌≡◌, refl, ◌∙◌, false, ◌==◌, string_eq, Option, none, some, List, get, remove,
  get-modify, Option-cases, Bool-cases, inl, inr, pos,
}
use sysd.Units.Kinds.{Mount, AnyUnit, service, target, mount, slice, socket, timer, path}
use sysd.State.{Instant, ServiceState, is_active, set_stopping, set_stopped}
use sysd.Manager.{Manager, RawFd, ok, err, Outcome}
use sysd.Manager.Watched.{with_state, when_active, stopped, stop_slice, stop_path}
use sysd.Manager.Timers.{stop_timer}
use sysd.Manager.Mounts.Options.{SystemResult, done, refused}
use sysd.Manager.Mounts.{Mounting, is_mounted, mount_stopped, finalize_umount_result, stop_mount}
use sysd.Manager.Sockets.{close_sockets, stop_socket}
use sysd.Manager.Service.{release_dynamic_uid}
use sysd.Runtime.Exit.{close_stored_fds}
use sysd.Manager.Stop.{
  Ending, stop_main_process, process_stopped, cleanup_stopped_service, service_stopped,
  mark_unit_stopping, stop_service, stop_unit,
}

abbrev pub IsKnown : Manager → String → Type 0
IsKnown m n = (s : ServiceState) × (get m.states n ≡ some s)

-- The units are the same, every unit that had a state has one, and only that of `name` can differ.
pub record Touched (name : String) (m n : Manager) : Type 0 where
  pub units : n.units ≡ m.units
  pub others : (k : String) → (name == k) ≡ false → get n.states k ≡ get m.states k
  pub known : (k : String) → IsKnown m k → IsKnown n k

module _ (name : String) where
  same-Touched : (m n : Manager) → n.units ≡ m.units → n.states ≡ m.states → Touched name m n
  same-Touched m n u s = record {
    units = u;
    others = λ k h. rw s refl;
    known = λ k (state, h). (state, rw s h);
  }

  then-Touched : (a b c : Manager) → Touched name a b → Touched name b c → Touched name a c
  then-Touched a b c s t = record {
    units = t.units ∙ s.units;
    others = λ k h. t.others k h ∙ s.others k h;
    known = λ k h. t.known k (s.known k h);
  }

  modified :
      (m : Manager) (f : ServiceState → ServiceState) (k : String)
      → IsKnown m k
      → IsKnown (with_state name f m) k
  modified m f k (s, h) = elim (Bool-cases (name == k)) [
    | inl e ↦ (f s, rw (get-modify, e, h) refl)
    | inr e ↦ (s, rw (get-modify, e, h) refl)
  ]

  with_state-Touched :
      (f : ServiceState → ServiceState) (m : Manager) → Touched name m (with_state name f m)
  with_state-Touched f m = record {
    units = refl;
    others = λ k h. rw (get-modify, h) refl;
    known = modified m f;
  }

  when_active-Touched :
      {A : Type 0} (o : Option ServiceState) (m : Manager) (go : Outcome A)
      → Touched name m go.1
      → Touched name m (when_active o name m go).1
  when_active-Touched none m go t = same-Touched m m refl refl
  when_active-Touched (some s) m go t = elim (Bool-cases (is_active s)) [
    | inl e ↦ rw e t
    | inr e ↦ rw e (same-Touched m m refl refl)
  ]

  stopped-Touched : (now now' : Instant) (m : Manager) → Touched name m (stopped now now' name m)
  stopped-Touched now now' m =
      then-Touched m (with_state name (set_stopping now) m) _ (with_state-Touched _ m)
        (with_state-Touched _ (with_state name (set_stopping now) m))

  finalize_umount_result-Touched :
      (now : Instant) (r : SystemResult) (m : Manager)
      → Touched name m (finalize_umount_result now name r m).1
  unfolding finalize_umount_result
  finalize_umount_result-Touched now done m = with_state-Touched _ m
  finalize_umount_result-Touched now (refused is_invalid text) m = with_state-Touched _ m

  mount_stopped-Touched :
      (sys : Mounting) (now : Instant) (mnt : Mount) (m : Manager)
      → Touched name m (mount_stopped sys now name mnt m).1
  unfolding mount_stopped
  mount_stopped-Touched sys now mnt m = elim (Bool-cases (is_mounted sys.table mnt.mount.where_)) [
    | inl e ↦ rw e (finalize_umount_result-Touched now _ m)
    | inr e ↦ rw e (with_state-Touched _ m)
  ]

  release_dynamic_uid-Touched : (m : Manager) → Touched name m (release_dynamic_uid name m)
  unfolding release_dynamic_uid
  release_dynamic_uid-Touched m = elim (Option-cases (get m.dynamic_uids name)) [
    | inl h ↦ rw (h, release_dynamic_uid) (same-Touched m _ refl refl)
    | inr (uid, h) ↦ rw (h, release_dynamic_uid) (same-Touched m _ refl refl)
  ]

  close_stored_fds-Touched : (m : Manager) → Touched name m (close_stored_fds name m)
  unfolding close_stored_fds
  close_stored_fds-Touched m = elim (Option-cases (get m.fd_store name)) [
    | inl h ↦ rw (h, close_stored_fds) (same-Touched m _ refl refl)
    | inr (store, h) ↦ rw (h, close_stored_fds) (same-Touched m _ refl refl)
  ]

  cleanup_stopped_service-Touched : (m : Manager) → Touched name m (cleanup_stopped_service name m)
  unfolding cleanup_stopped_service
  cleanup_stopped_service-Touched m =
      let m' = record m {
        cgroup_paths = remove m.cgroup_paths name;
        watchdog_deadlines = remove m.watchdog_deadlines name;
      } in
      then-Touched m m' _ (same-Touched m m' refl refl) (
        then-Touched m' (release_dynamic_uid name m') _ (release_dynamic_uid-Touched m')
          (close_stored_fds-Touched (release_dynamic_uid name m')))

  process_stopped-Touched :
      (ending : Ending) (now : Instant) (o : Option (Option ℕ)) (m : Manager)
      → Touched name m (process_stopped ending now name o m)
  process_stopped-Touched ending now none m = with_state-Touched _ m
  process_stopped-Touched ending now (some id) m =
      let m' = record m { processes = remove m.processes name } in
      then-Touched m m' _ (same-Touched m m' refl refl) (with_state-Touched _ m')

  service_stopped-Touched :
      (ending : Ending) (now : Instant) (m : Manager) (o : Outcome {0} Unit)
      → Touched name m o.1
      → Touched name m (service_stopped ending now name o).1
  unfolding stop_main_process
  service_stopped-Touched ending now m (err e, n) t = t
  service_stopped-Touched ending now m (ok a, n) t =
      let p = process_stopped-Touched ending now (get n.processes name) n in
      then-Touched m n _ t (
        then-Touched n (stop_main_process ending now name n) _ p
          (cleanup_stopped_service-Touched _))

  close_sockets-Touched :
      (o : Option (List RawFd)) (m : Manager) → Touched name m (close_sockets name o m)
  close_sockets-Touched none m = same-Touched m m refl refl
  close_sockets-Touched (some fds) m = same-Touched m _ refl refl

  socket_stopped-Touched :
      (now now' : Instant) (m : Manager)
      → Touched name m (
          with_state name
            (set_stopped (pos 0) now')
            (close_sockets name (get m.socket_fds name) (with_state name (set_stopping now) m)))
  socket_stopped-Touched now now' m =
      let m₁ = with_state name (set_stopping now) m in
      let m₂ = close_sockets name (get m.socket_fds name) m₁ in
      then-Touched m m₁ _ (with_state-Touched _ m) (
        then-Touched m₁ m₂ _ (close_sockets-Touched (get m.socket_fds name) m₁)
          (with_state-Touched _ m₂))

  stop_service-Touched :
      (ending : Ending) (now now' : Instant) (m : Manager)
      → Touched name m (stop_service ending now now' name m).1
  unfolding stop_service mark_unit_stopping
  stop_service-Touched ending now now' m =
      service_stopped-Touched ending now' m (mark_unit_stopping now name m)
        (when_active-Touched (get m.states name) m _ (with_state-Touched _ m))

  pub stop_unit-Touched :
      (sys : Mounting) (ending : Ending) (now now' : Instant) (o : Option AnyUnit) (m : Manager)
      → Touched name m (stop_unit sys ending now now' name o m).1
  unfolding stop_mount stop_slice stop_socket stop_timer stop_path
  stop_unit-Touched sys ending now now' (some (mount u)) m =
      when_active-Touched (get m.states name) m _ (
        then-Touched m (with_state name (set_stopping now) m) _ (with_state-Touched _ m)
          (mount_stopped-Touched sys now' u _))
  stop_unit-Touched sys ending now now' (some (slice u)) m =
      when_active-Touched (get m.states name) m _ (stopped-Touched now now' m)
  stop_unit-Touched sys ending now now' (some (timer u)) m =
      when_active-Touched (get m.states name) m _ (stopped-Touched now now' m)
  stop_unit-Touched sys ending now now' (some (path u)) m =
      when_active-Touched (get m.states name) m _ (stopped-Touched now now' m)
  stop_unit-Touched sys ending now now' (some (socket u)) m =
      when_active-Touched (get m.states name) m _ (socket_stopped-Touched now now' m)
  stop_unit-Touched sys ending now now' (some (service u)) m =
      stop_service-Touched ending now now' m
  stop_unit-Touched sys ending now now' (some (target u)) m = stop_service-Touched ending now now' m
  stop_unit-Touched sys ending now now' none m = stop_service-Touched ending now now' m

  module _ (sys : Mounting) (ending : Ending) (now now' : Instant) (m : Manager) (s : ServiceState)
      (h : get m.states name ≡ some s) (k : is_active s ≡ false) where
    stop_service-inactive : (stop_service ending now now' name m).1 ≡ m
    unfolding stop_service mark_unit_stopping
    stop_service-inactive = rw (h, stop_service, mark_unit_stopping, k) refl

    -- The stop of a unit that is not active changes nothing.
    pub stop_unit-inactive : (o : Option AnyUnit) → (stop_unit sys ending now now' name o m).1 ≡ m
    unfolding stop_mount stop_slice stop_socket stop_timer stop_path
    stop_unit-inactive (some (mount u)) = rw (h, stop_mount, k) refl
    stop_unit-inactive (some (slice u)) = rw (h, stop_slice, k) refl
    stop_unit-inactive (some (timer u)) = rw (h, stop_timer, k) refl
    stop_unit-inactive (some (path u)) = rw (h, stop_path, k) refl
    stop_unit-inactive (some (socket u)) = rw (h, stop_socket, k) refl
    stop_unit-inactive (some (service u)) = stop_service-inactive
    stop_unit-inactive (some (target u)) = stop_service-inactive
    stop_unit-inactive none = stop_service-inactive

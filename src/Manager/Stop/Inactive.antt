-- ===== src/Manager/Stop/Inactive.antt =====
-- The stop of a unit of any kind leaves it inactive (src/manager/mod_impl/part3.rs and the stops of each
-- kind).
use sysd.Prelude.{
  String, ◌≡◌, refl, ap, ◌∙◌, true, false, string_eq, Option, none, some, List, get, pos,
}
use sysd.Units.Kinds.{AnyUnit, service, target, mount, slice, socket, timer, path}
use sysd.State.{Instant, ServiceState, ActiveState, is_active, set_stopping, set_stopped}
use sysd.Manager.{Manager, RawFd, ok, err, Outcome}
use sysd.Manager.Watched.{with_state, stopped, stop_slice, stop_path}
use sysd.Manager.Timers.{stop_timer}
use sysd.Manager.Mounts.{Mounting, stop_mount}
use sysd.Manager.Mounts.Settled.{Settles, get-with_state, stop_mount-Settles}
use sysd.Manager.Sockets.{close_sockets, stop_socket}
use sysd.Manager.Stop.{Ending, stop_service, stop_unit}
use sysd.Manager.Stop.Stopped.{stop_service-IsStopped}

-- The unit is known and not active.
abbrev pub IsInactive : String → Manager → Type 0
IsInactive n m = (s : ServiceState) × (get m.states n ≡ some s) × (is_active s ≡ false)

set_stopped-inactive :
    (now : Instant) (s : ServiceState) → is_active (set_stopped (pos 0) now s) ≡ false
unfolding is_active set_stopped
set_stopped-inactive now s = refl

module _ (name : String) where
  set_stopped-IsInactive :
      (now : Instant) (m : Manager) (s : ServiceState)
      → get m.states name ≡ some s
      → IsInactive name (with_state name (set_stopped (pos 0) now) m)
  set_stopped-IsInactive now m s h = (
    set_stopped (pos 0) now s,
    get-with_state name (set_stopped (pos 0) now) m s h,
    set_stopped-inactive now s,
  )

  settled : (o : Outcome {0} Unit) → Settles ActiveState.inactive name o → IsInactive name o.1
  unfolding is_active
  settled (ok d, m) (s, h, k) = (s, h, rw k refl)
  settled (err e, m) (s, h, k) = (s, h, rw k refl)

  close_sockets-states :
      (o : Option (List RawFd)) (m : Manager) → (close_sockets name o m).states ≡ m.states
  close_sockets-states none m = refl
  close_sockets-states (some fds) m = refl

  module _ (sys : Mounting) (ending : Ending) (now now' : Instant) (m : Manager) (s : ServiceState)
      (h : get m.states name ≡ some s) (k : is_active s ≡ true) where
    abbrev stopping : Manager
    stopping = with_state name (set_stopping now) m

    get-stopping : get stopping.states name ≡ some (set_stopping now s)
    get-stopping = get-with_state name (set_stopping now) m s h

    stopped-IsInactive : IsInactive name (stopped now now' name m)
    stopped-IsInactive = set_stopped-IsInactive now' stopping (set_stopping now s) get-stopping

    service-IsInactive : IsInactive name (stop_service ending now now' name m).1
    service-IsInactive = (stop_service-IsStopped ending now now' name m s h k).1.ended.0

    -- The stop of an active unit, whether it succeeds or not.
    pub stop_unit-IsInactive :
        (o : Option AnyUnit) → IsInactive name (stop_unit sys ending now now' name o m).1
    unfolding stop_slice stop_socket stop_timer stop_path
    stop_unit-IsInactive (some (mount u)) =
        settled (stop_mount sys now now' name u m) (stop_mount-Settles sys now now' name u m s h k)
    stop_unit-IsInactive (some (slice u)) = rw (h, stop_slice, k) stopped-IsInactive
    stop_unit-IsInactive (some (timer u)) = rw (h, stop_timer, k) stopped-IsInactive
    stop_unit-IsInactive (some (path u)) = rw (h, stop_path, k) stopped-IsInactive
    stop_unit-IsInactive (some (socket u)) =
        rw (h, stop_socket, k)
          (set_stopped-IsInactive now' (close_sockets name (get m.socket_fds name) stopping)
            (set_stopping now s)
            (ap (λ states. get states name) (close_sockets-states (get m.socket_fds name) stopping)
              ∙ get-stopping))
    stop_unit-IsInactive (some (service u)) = service-IsInactive
    stop_unit-IsInactive (some (target u)) = service-IsInactive
    stop_unit-IsInactive none = service-IsInactive

-- ===== src/Manager/Single/Kept.antt =====
-- The dynamic user ids over one start, one stop and one restart (src/manager/mod_impl/part1.rs, part2.rs and
-- part3.rs).
use sysd.Prelude.{
  ℕ, String, refl, Option, none, some, get, has_key, Option-cases, Bool-cases, inl, inr, string_eq,
  int_eq,
}
use sysd.Units.Kinds.{AnyUnit, service, target, mount, slice, socket, timer, path}
use sysd.Conditions.All.{check_conditions}
use sysd.State.{Instant, set_stopping}
use sysd.Manager.{Manager, ok, err, Outcome, ◌>>=◌, normalize_name}
use sysd.Manager.Order.{is_reached}
use sysd.Manager.Watched.{with_state, start_slice, stop_slice, start_path, stop_path}
use sysd.Manager.Timers.{start_timer, stop_timer}
use sysd.Manager.Service.{release_dynamic_uid}
use sysd.Manager.Service.Accounts.{
  IsAccounted, SameUids, SameUids-IsAccounted, release_dynamic_uid-IsAccounted,
}
use sysd.Manager.Service.Steps.{start_service_unit-IsAccounted}
use sysd.Manager.Stop.{
  Ending, stop_main_process, process_stopped, cleanup_stopped_service, mark_unit_stopping,
  service_stopped, stop_service, stop_unit, stop,
}
use sysd.Manager.Single.{
  World, resolve_start_unit_name, finished, unless_condition, start_unit, start_found, start_single,
  target_reached, start, was_not_active, start_after, restart,
}
use sysd.Manager.Sockets.{start_socket}
use sysd.Manager.Single.Same.{
  if-SameUids, unless_active-SameUids, when_active-SameUids, load-SameUids, start_mount-SameUids,
  stop_mount-SameUids, start_socket-SameUids, stop_socket-SameUids,
}
use sysd.Runtime.Exit.{close_stored_fds}

-- Whatever the world answers, the ids stay accounted for.
abbrev Keeps : {A : Type 0} → Manager → Outcome A → Type 0
Keeps m o = IsAccounted m → IsAccounted o.1

finished-SameUids :
    {A : Type 0} (m : Manager) (o : Outcome A) → SameUids m o.1 → SameUids m (finished o).1
finished-SameUids m (ok a, n) s = s
finished-SameUids m (err e, n) s = s

unless_condition-Keeps :
    (o : Option String) (name : String) (go : Outcome {0} Unit) (m : Manager)
    → Keeps m go
    → Keeps m (unless_condition o name go m)
unless_condition-Keeps none name go m k = k
unless_condition-Keeps (some reason) name go m k = λ a. a

start_unit-Keeps :
    (w : World) (name : String) (u : AnyUnit) (m : Manager) → Keeps m (start_unit w name u m)
unfolding start_slice start_path start_timer
start_unit-Keeps w name (target u) m = λ a. a
start_unit-Keeps w name (slice u) m =
    SameUids-IsAccounted m _ (unless_active-SameUids m (get m.states name) name _ (refl, refl))
start_unit-Keeps w name (socket u) m = SameUids-IsAccounted m _ (
    finished-SameUids m (start_socket w.socket_calls w.now w.now' name u m)
      (start_socket-SameUids w.socket_calls w.now w.now' name u m))
start_unit-Keeps w name (timer u) m = SameUids-IsAccounted m _ (
    finished-SameUids m
      (start_timer w.next_monthly_trigger w.next_yearly_trigger w.rand_delay w.clock w.now'
        w.boot_time w.now w.now'' name u m)
      (unless_active-SameUids m (get m.states name) name _ (refl, refl)))
start_unit-Keeps w name (path u) m = SameUids-IsAccounted m _ (
    finished-SameUids m (start_path w.now w.now' name u m)
      (unless_active-SameUids m (get m.states name) name _ (refl, refl)))
start_unit-Keeps w name (mount u) m =
    unless_condition-Keeps (check_conditions w.file_system u.unit) name _ m
      (SameUids-IsAccounted m _ (start_mount-SameUids w.mounting w.now w.now' name u m))
start_unit-Keeps w name (service u) m =
    unless_condition-Keeps (check_conditions w.file_system u.unit) name _ m
      (start_service_unit-IsAccounted w.outside w.now w.now' w.now'' name u m)

start_found-Keeps :
    (w : World) (name actual_name : String) (o : Option AnyUnit) (m : Manager)
    → Keeps m (start_found w name actual_name o m)
start_found-Keeps w name actual_name none m = λ a. a
start_found-Keeps w name actual_name (some u) m = start_unit-Keeps w actual_name u m

pub start_single-Keeps : (w : World) (name : String) (m : Manager) → Keeps m (start_single w name m)
unfolding start_single resolve_start_unit_name
start_single-Keeps w name m a = from (resolve_start_unit_name w name m) (
    SameUids-IsAccounted m _
      (if-SameUids m (has_key m.units name) _ _ (refl, refl) (load-SameUids w.disk w.now name m)) a)
  where
    from :
        (o : Outcome String)
        → IsAccounted o.1
        → IsAccounted
            (o >>= (λ actual_name m'.
              start_found w name actual_name (get m'.units actual_name) m')).1
    from (ok actual_name, n) b = start_found-Keeps w name actual_name (get n.units actual_name) n b
    from (err e, n) b = b

target_reached-IsAccounted :
    (now : Instant) (name : String) (o : Outcome {0} Unit)
    → IsAccounted o.1
    → IsAccounted (target_reached now name o).1
target_reached-IsAccounted now name (ok _, n) a = a
target_reached-IsAccounted now name (err e, n) a =
    SameUids-IsAccounted n _ (if-SameUids n (is_reached e) _ _ (refl, refl) (refl, refl)) a

pub start-Keeps : (w : World) (name : String) (m : Manager) → Keeps m (start w name m)
unfolding start
start-Keeps w requested m a =
    target_reached-IsAccounted w.now' (normalize_name requested) _
      (start_single-Keeps w (normalize_name requested) m a)

close_stored_fds-SameUids : (name : String) (m : Manager) → SameUids m (close_stored_fds name m)
unfolding close_stored_fds
close_stored_fds-SameUids name m = elim (Option-cases (get m.fd_store name)) [
  | inl h ↦ rw (h, close_stored_fds) (refl, refl)
  | inr (store, h) ↦ rw (h, close_stored_fds) (refl, refl)
]

-- Giving back the user and the descriptors, of whatever has the ids of `m`.
pub given_back :
    (name : String) (m n : Manager)
    → SameUids m n
    → IsAccounted m
    → IsAccounted (close_stored_fds name (release_dynamic_uid name n))
given_back name m n s a =
    SameUids-IsAccounted _ _ (close_stored_fds-SameUids name (release_dynamic_uid name n))
      (release_dynamic_uid-IsAccounted n (SameUids-IsAccounted m n s a) name)

process_stopped-SameUids :
    (ending : Ending) (now : Instant) (name : String) (o : Option (Option ℕ)) (m : Manager)
    → SameUids m (process_stopped ending now name o m)
process_stopped-SameUids ending now name none m = (refl, refl)
process_stopped-SameUids ending now name (some id) m = (refl, refl)

service_stopped-IsAccounted :
    (ending : Ending) (now : Instant) (name : String) (o : Outcome {0} Unit)
    → IsAccounted o.1
    → IsAccounted (service_stopped ending now name o).1
unfolding stop_main_process cleanup_stopped_service
service_stopped-IsAccounted ending now name (err e, n) a = a
service_stopped-IsAccounted ending now name (ok _, n) a =
    given_back name n _ (process_stopped-SameUids ending now name (get n.processes name) n) a

mark_unit_stopping-SameUids :
    (now : Instant) (name : String) (m : Manager) → SameUids m (mark_unit_stopping now name m).1
unfolding mark_unit_stopping
mark_unit_stopping-SameUids now name m =
    when_active-SameUids m (get m.states name) name (ok tt, with_state name (set_stopping now) m)
      (refl, refl)

stop_service-Keeps :
    (ending : Ending) (now now' : Instant) (name : String) (m : Manager)
    → Keeps m (stop_service ending now now' name m)
unfolding stop_service
stop_service-Keeps ending now now' name m a =
    service_stopped-IsAccounted ending now' name (mark_unit_stopping now name m)
      (SameUids-IsAccounted m _ (mark_unit_stopping-SameUids now name m) a)

stop_unit-Keeps :
    (w : World) (name : String) (o : Option AnyUnit) (m : Manager)
    → Keeps m (stop_unit w.mounting w.ending w.now w.now' name o m)
unfolding stop_slice stop_path stop_timer
stop_unit-Keeps w name none m = stop_service-Keeps w.ending w.now w.now' name m
stop_unit-Keeps w name (some (service u)) m = stop_service-Keeps w.ending w.now w.now' name m
stop_unit-Keeps w name (some (target u)) m = stop_service-Keeps w.ending w.now w.now' name m
stop_unit-Keeps w name (some (mount u)) m =
    SameUids-IsAccounted m _ (stop_mount-SameUids w.mounting w.now w.now' name u m)
stop_unit-Keeps w name (some (socket u)) m =
    SameUids-IsAccounted m _ (stop_socket-SameUids w.now w.now' name m)
stop_unit-Keeps w name (some (slice u)) m =
    SameUids-IsAccounted m _ (when_active-SameUids m (get m.states name) name _ (refl, refl))
stop_unit-Keeps w name (some (timer u)) m =
    SameUids-IsAccounted m _ (when_active-SameUids m (get m.states name) name _ (refl, refl))
stop_unit-Keeps w name (some (path u)) m =
    SameUids-IsAccounted m _ (when_active-SameUids m (get m.states name) name _ (refl, refl))

-- The stop in a world.
abbrev pub stop_in : World → String → Manager → Outcome {0} Unit
stop_in w = stop w.mounting w.ending w.now w.now'

pub stop-Keeps : (w : World) (name : String) (m : Manager) → Keeps m (stop_in w name m)
unfolding stop
stop-Keeps w requested m =
    stop_unit-Keeps w (normalize_name requested) (get m.units (normalize_name requested)) m

start_after-IsAccounted :
    (w : World) (name : String) (o : Outcome {0} Unit)
    → IsAccounted o.1
    → IsAccounted (start_after w name o).1
start_after-IsAccounted w name (ok _, n) a = start-Keeps w name n a
start_after-IsAccounted w name (err e, n) a = elim (Bool-cases (was_not_active e)) [
  | inl h ↦ rw h (start-Keeps w name n a)
  | inr h ↦ rw h a
]

pub restart-Keeps : (w w' : World) (name : String) (m : Manager) → Keeps m (restart w w' name m)
unfolding restart
restart-Keeps w w' requested m a =
    start_after-IsAccounted w' (normalize_name requested) _
      (stop-Keeps w (normalize_name requested) m a)

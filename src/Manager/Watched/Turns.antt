-- ===== src/Manager/Watched/Turns.antt =====
-- Starts and stops of slices, one after the other (src/manager/slice_ops.rs).
use sysd.Prelude.{String, ◌≡◌, refl, false, string_eq, some, get, get-modify, beq_self}
use sysd.State.{Instant, ServiceState, is_active, set_starting, set_running}
use sysd.Manager.{Manager, ManagerError, ok, err}
use sysd.Manager.Watched.{start_slice, started}

module _ (now now' : Instant) (name : String) (m : Manager) (s : ServiceState) where
  -- A slice that is not active is started, and a second start is refused and changes nothing.
  pub start_slice-twice :
      get m.states name ≡ some s
      → is_active s ≡ false
      → (start_slice now now' name m ≡ (ok tt, started now now' name m))
        × (start_slice now now' name (start_slice now now' name m).1
            ≡ (err (ManagerError.already_active name), (start_slice now now' name m).1))
  unfolding start_slice is_active set_running set_starting
  start_slice-twice h k =
      (rw (h, k) refl, rw (h, k, get-modify, beq_self name, get-modify, beq_self name, h) refl)

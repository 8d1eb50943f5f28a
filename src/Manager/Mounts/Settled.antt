-- ===== src/Manager/Mounts/Settled.antt =====
-- The states that a mount and an unmount end in (src/manager/mount_ops_impl.rs).
use sysd.Prelude.{
  String, ◌≡◌, refl, true, false, string_eq, some, get, get-modify, beq_self, pos, Bool-cases, inl,
  inr,
}
use sysd.State.{
  Instant, ServiceState, ActiveState, set_starting, set_running, set_stopping, set_stopped,
  set_failed, is_active,
}
use sysd.Units.Kinds.{Mount}
use sysd.Manager.{Manager, ok, err, Outcome}
use sysd.Manager.Watched.{with_state}
use sysd.Manager.Mounts.Options.{SystemResult, done, refused}
use sysd.Manager.Mounts.{
  Mounting, is_mounted, mount_unit, mount_started, mount_stopped, finalize_mount_result,
  finalize_umount_result, start_mount, stop_mount,
}

-- The unit is in the state `goal`.
abbrev pub Stands : ActiveState → String → Manager → Type 0
Stands goal name m = (s : ServiceState) × (get m.states name ≡ some s) × (s.active ≡ goal)

-- After success the unit is in the state `goal`, after an error in the failed state.
abbrev pub Settles : ActiveState → String → Outcome {0} Unit → Type 0
Settles goal name (ok _, m) = Stands goal name m
Settles goal name (err e, m) = Stands ActiveState.failed name m

pub get-with_state :
    (name : String) (f : ServiceState → ServiceState) (m : Manager) (s : ServiceState)
    → get m.states name ≡ some s
    → get (with_state name f m).states name ≡ some (f s)
get-with_state name f m s h = rw (get-modify, beq_self name, h) refl

finalize_mount_result-Settles :
    (now : Instant) (name : String) (mnt : Mount) (r : SystemResult) (m : Manager)
    (s : ServiceState)
    → get m.states name ≡ some s
    → Settles ActiveState.active name (finalize_mount_result now name mnt r m)
unfolding finalize_mount_result set_running set_failed
finalize_mount_result-Settles now name mnt done m s h =
    (set_running 0 now s, get-with_state name (set_running 0 now) m s h, refl)
finalize_mount_result-Settles now name mnt (refused is_invalid text) m s h =
    (set_failed _ now s, get-with_state name (set_failed _ now) m s h, refl)

finalize_umount_result-Settles :
    (now : Instant) (name : String) (r : SystemResult) (m : Manager) (s : ServiceState)
    → get m.states name ≡ some s
    → Settles ActiveState.inactive name (finalize_umount_result now name r m)
unfolding finalize_umount_result set_stopped set_failed
finalize_umount_result-Settles now name done m s h =
    (set_stopped (pos 0) now s, get-with_state name (set_stopped (pos 0) now) m s h, refl)
finalize_umount_result-Settles now name (refused is_invalid text) m s h =
    (set_failed _ now s, get-with_state name (set_failed _ now) m s h, refl)

mount_started-Settles :
    (sys : Mounting) (now : Instant) (name : String) (mnt : Mount) (m : Manager) (s : ServiceState)
    → get m.states name ≡ some s
    → Settles ActiveState.active name (mount_started sys now name mnt m)
unfolding mount_started set_running
mount_started-Settles sys now name mnt m s h =
    elim (Bool-cases (is_mounted sys.table mnt.mount.where_)) [
      | inl e ↦ rw e (set_running 0 now s, get-with_state name (set_running 0 now) m s h, refl)
      | inr e ↦ rw e (finalize_mount_result-Settles now name mnt (mount_unit sys mnt) m s h)
    ]

mount_stopped-Settles :
    (sys : Mounting) (now : Instant) (name : String) (mnt : Mount) (m : Manager) (s : ServiceState)
    → get m.states name ≡ some s
    → Settles ActiveState.inactive name (mount_stopped sys now name mnt m)
unfolding mount_stopped set_stopped
mount_stopped-Settles sys now name mnt m s h =
    elim (Bool-cases (is_mounted sys.table mnt.mount.where_)) [
      | inl e ↦ rw e (finalize_umount_result-Settles now name _ m s h)
      | inr e ↦
          rw e
            (set_stopped (pos 0) now s, get-with_state name (set_stopped (pos 0) now) m s h, refl)
    ]

-- The start of a mount unit that is not active, whatever the system calls answer, ends with the unit
-- active and no error, or with the unit failed and an error: never in between.
pub start_mount-Settles :
    (sys : Mounting) (now now' : Instant) (name : String) (mnt : Mount) (m : Manager)
    (s : ServiceState)
    → get m.states name ≡ some s
    → is_active s ≡ false
    → Settles ActiveState.active name (start_mount sys now now' name mnt m)
unfolding start_mount
start_mount-Settles sys now now' name mnt m s h k =
    rw (h, start_mount, k)
      (mount_started-Settles sys now' name mnt (with_state name (set_starting now) m)
        (set_starting now s) (get-with_state name (set_starting now) m s h))

-- So does its stop when it is active, with the unit inactive.
pub stop_mount-Settles :
    (sys : Mounting) (now now' : Instant) (name : String) (mnt : Mount) (m : Manager)
    (s : ServiceState)
    → get m.states name ≡ some s
    → is_active s ≡ true
    → Settles ActiveState.inactive name (stop_mount sys now now' name mnt m)
unfolding stop_mount
stop_mount-Settles sys now now' name mnt m s h k =
    rw (h, stop_mount, k)
      (mount_stopped-Settles sys now' name mnt (with_state name (set_stopping now) m)
        (set_stopping now s) (get-with_state name (set_stopping now) m s h))

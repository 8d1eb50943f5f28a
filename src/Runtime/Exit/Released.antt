-- ===== src/Runtime/Exit/Released.antt =====
-- What a unit still holds once its process has exited (src/manager/runtime/imp/part1.rs).
use sysd.Prelude.{
  String, ◌≡◌, refl, true, false, string_eq, none, get, remove, get-remove, beq_self, Option-cases,
  inl, inr,
}
use sysd.Manager.{Manager}
use sysd.Manager.Service.{release_dynamic_uid}
use sysd.Runtime.Exit.{close_stored_fds, is_restarting, cleanup_after_exit}

-- Nothing is held for the unit: no cgroup, watchdog, dynamic user or stored descriptor.
pub record IsReleased (name : String) (m : Manager) : Type 0 where
  pub cgroup : get m.cgroup_paths name ≡ none
  pub watchdog : get m.watchdog_deadlines name ≡ none
  pub user : get m.dynamic_uids name ≡ none
  pub fds : get m.fd_store name ≡ none

-- The cgroup and the watchdog are gone, the user and the descriptors are kept.
pub record IsKept (name : String) (m n : Manager) : Type 0 where
  pub cgroup : get n.cgroup_paths name ≡ none
  pub watchdog : get n.watchdog_deadlines name ≡ none
  pub users : n.dynamic_uids ≡ m.dynamic_uids
  pub pool : n.dynamic_user_manager ≡ m.dynamic_user_manager
  pub stores : n.fd_store ≡ m.fd_store
  pub closed : n.closed ≡ m.closed

-- What `release_dynamic_uid` leaves alone, and that the unit has no user afterwards.
pub record Unheld (name : String) (m n : Manager) : Type 0 where
  pub cgroup : n.cgroup_paths ≡ m.cgroup_paths
  pub watchdog : n.watchdog_deadlines ≡ m.watchdog_deadlines
  pub user : get n.dynamic_uids name ≡ none

pub release_dynamic_uid-Unheld :
    (name : String) (m : Manager) → Unheld name m (release_dynamic_uid name m)
unfolding release_dynamic_uid
release_dynamic_uid-Unheld name m = elim (Option-cases (get m.dynamic_uids name)) [
  | inl h ↦ rw (h, release_dynamic_uid) (record { cgroup = refl; watchdog = refl; user = h })
  | inr (uid, h) ↦
      rw (h, release_dynamic_uid)
        (record { cgroup = refl; watchdog = refl; user = rw (get-remove, beq_self name) })
]

-- `close_stored_fds` leaves the unit no store, and everything else of `Unheld` as it is.
pub close_stored_fds-IsReleased :
    (name : String) (m : Manager)
    → get m.cgroup_paths name ≡ none
    → get m.watchdog_deadlines name ≡ none
    → get m.dynamic_uids name ≡ none
    → IsReleased name (close_stored_fds name m)
unfolding close_stored_fds
close_stored_fds-IsReleased name m c w u = elim (Option-cases (get m.fd_store name)) [
  | inl h ↦ rw (h, close_stored_fds) (record { cgroup = c; watchdog = w; user = u; fds = h })
  | inr (store, h) ↦
      rw (h, close_stored_fds)
        (record { cgroup = c; watchdog = w; user = u; fds = rw (get-remove, beq_self name) })
]

pub cleanup_after_exit-IsReleased :
    (name : String) (m : Manager)
    → is_restarting (get m.states name) ≡ false
    → IsReleased name (cleanup_after_exit name m)
unfolding cleanup_after_exit
cleanup_after_exit-IsReleased name m h =
    let m' = record m {
      cgroup_paths = remove m.cgroup_paths name;
      watchdog_deadlines = remove m.watchdog_deadlines name;
    } in
    let u = release_dynamic_uid-Unheld name m' in
    rw (h) (
      close_stored_fds-IsReleased name (release_dynamic_uid name m')
        (rw (u.cgroup, get-remove, beq_self name)) (rw (u.watchdog, get-remove, beq_self name))
        u.user)

-- One that is to be restarted keeps its dynamic user and its descriptors.
pub cleanup_after_exit-IsKept :
    (name : String) (m : Manager)
    → is_restarting (get m.states name) ≡ true
    → IsKept name m (cleanup_after_exit name m)
unfolding cleanup_after_exit
cleanup_after_exit-IsKept name m h = rw (h) (record {
  cgroup = rw (get-remove, beq_self name);
  watchdog = rw (get-remove, beq_self name);
  users = refl;
  pool = refl;
  stores = refl;
  closed = refl;
})

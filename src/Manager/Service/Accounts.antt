-- ===== src/Manager/Service/Accounts.antt =====
-- Which service holds which dynamic user id (src/manager/mod_impl/part2.rs and part3.rs).
use sysd.Prelude.{
  ℕ, String, ◌≡◌, refl, sym, ap, ◌∙◌, ◌⊎◌, inl, inr, true, false, ◌||◌, ◌==◌, string_eq, nat_eq,
  Option, none, some, get, get-insert, get-remove, contains, contains-set_remove, arith, eq_iff,
  Bool-cases, Option-cases, insert,
}
use sysd.Units.Enums.{ServiceType}
use sysd.Units.Sections.{Duration}
use sysd.Units.Kinds.{Service}
use sysd.State.{Instant, is_active}
use sysd.DynamicUser.{Inner, Allocation, allocate, release}
use sysd.DynamicUser.Pool.{IsPool, allocate-cases, allocate-IsPool, release-IsPool}
use sysd.Manager.{Manager}
use sysd.Manager.Service.{
  mark_service_starting, allocated_for, allocate_dynamic_user, with_deadline, mark_running_start,
  mark_notify_start, mark_dbus_start, mark_forking_start, configured, release_dynamic_uid,
}

-- Every id that a service holds is taken from the pool, and no two services hold the same.
pub record IsAccounted (m : Manager) : Type 0 where
  pub pool : IsPool m.dynamic_user_manager
  pub held :
      (name : String) (uid : ℕ)
      → get m.dynamic_uids name ≡ some uid
      → contains m.dynamic_user_manager.allocated uid ≡ true
  pub apart :
      (a b : String) (uid : ℕ)
      → get m.dynamic_uids a ≡ some uid
      → get m.dynamic_uids b ≡ some uid
      → a ≡ b

-- The ids are the same.
abbrev pub SameUids : Manager → Manager → Type 0
SameUids m n = (n.dynamic_uids ≡ m.dynamic_uids) × (n.dynamic_user_manager ≡ m.dynamic_user_manager)

pub SameUids-IsAccounted : (m n : Manager) → SameUids m n → IsAccounted m → IsAccounted n
SameUids-IsAccounted m n s a = record {
  pool = rw s.1 a.pool;
  held = λ name uid h. rw s.1 (a.held name uid (rw s.0 at h));
  apart = λ x y uid h k. a.apart x y uid (rw s.0 at h) (rw s.0 at k);
}

-- What `allocate` returns, by its cases.
allocated :
    (p : Inner) (r : Inner × Allocation)
    → IsPool p
    → allocate p ≡ r
    → ((uid : ℕ) × (r.1 ≡ Allocation.ok uid uid)
        × (contains p.allocated uid ≡ false)
        × ((v : ℕ) → contains r.0.allocated v ≡ (contains p.allocated v || (uid == v))))
      ⊎ (r ≡ (p, Allocation.exhausted))
allocated p r w e = elim (allocate-cases p w) [
  | inl (uid, answer, range, fresh, all) ↦ inl (
    uid,
    ap (λ q. q.1) (sym e) ∙ answer,
    fresh,
    λ v. ap (λ q. contains q.0.allocated v) (sym e) ∙ all v,
  )
  | inr (same, full) ↦ inr (sym e ∙ same)
]

module _ (m : Manager) (a : IsAccounted m) where
  taken-IsAccounted :
      (name : String) (uid : ℕ) (pool : Inner)
      → IsPool pool
      → contains m.dynamic_user_manager.allocated uid ≡ false
      → ((v : ℕ)
          → contains pool.allocated v ≡ (contains m.dynamic_user_manager.allocated v || (uid == v)))
      → IsAccounted
          (record m { dynamic_user_manager = pool; dynamic_uids = insert m.dynamic_uids name uid })
  taken-IsAccounted name uid pool w fresh all = record {
    pool = w;
    held = λ n v h.
        ground (arith, all v, get-insert m.dynamic_uids name n uid, h, a.held n v, eq_iff name n);
    apart = λ x y v h k. ground (
      arith,
      get-insert m.dynamic_uids name x uid,
      get-insert m.dynamic_uids name y uid,
      h,
      k,
      a.apart x y v,
      a.held x v,
      a.held y v,
      fresh,
      eq_iff name x,
      eq_iff name y,
    );
  }

  allocated_for-IsAccounted :
      (name : String) (r : Inner × Allocation)
      → allocate m.dynamic_user_manager ≡ r
      → IsAccounted (allocated_for name r m).1
  allocated_for-IsAccounted name (pool, Allocation.ok uid gid) e =
      elim (allocated m.dynamic_user_manager (pool, Allocation.ok uid gid) a.pool e) [
        | inl (u, answer, fresh, all) ↦
            let same : uid ≡ u = ground (arith, answer) in
            taken-IsAccounted name uid pool
              (rw⁻¹ (ap (λ q. q.0) e) (allocate-IsPool m.dynamic_user_manager a.pool))
              (rw same fresh) (rw same all)
        | inr full ↦ absurd (ground (arith, ap (λ q. q.1) full))
      ]
  allocated_for-IsAccounted name (pool, Allocation.exhausted) e =
      elim (allocated m.dynamic_user_manager (pool, Allocation.exhausted) a.pool e) [
        | inl (u, answer, fresh, all) ↦ absurd (ground (arith, answer))
        | inr full ↦ SameUids-IsAccounted m _ (refl, ap (λ q. q.0) full) a
      ]
  allocated_for-IsAccounted name (pool, Allocation.no_answer) e =
      elim (allocated m.dynamic_user_manager (pool, Allocation.no_answer) a.pool e) [
        | inl (u, answer, fresh, all) ↦ absurd (ground (arith, answer))
        | inr full ↦ absurd (ground (arith, ap (λ q. q.1) full))
      ]

  pub allocate_dynamic_user-IsAccounted :
      (name : String) (s : Service) → IsAccounted (allocate_dynamic_user name s m).1
  unfolding allocate_dynamic_user
  allocate_dynamic_user-IsAccounted name s = elim (Bool-cases s.service.dynamic_user) [
    | inl h ↦ rw h (allocated_for-IsAccounted name (allocate m.dynamic_user_manager) refl)
    | inr h ↦ rw h a
  ]

  pub release_dynamic_uid-IsAccounted : (name : String) → IsAccounted (release_dynamic_uid name m)
  unfolding release_dynamic_uid release
  release_dynamic_uid-IsAccounted name = elim (Option-cases (get m.dynamic_uids name)) [
    | inl h ↦ rw (h, release_dynamic_uid) a
    | inr (uid, h) ↦
        rw (h, release_dynamic_uid)
          (record {
            pool = release-IsPool uid m.dynamic_user_manager a.pool;
            held = λ n v k. ground (
              arith,
              get-remove m.dynamic_uids name n,
              k,
              a.held n v,
              a.apart name n v,
              h,
              contains-set_remove uid m.dynamic_user_manager.allocated v,
              eq_iff name n,
            );
            apart = λ x y v k l. ground (
              arith,
              get-remove m.dynamic_uids name x,
              get-remove m.dynamic_uids name y,
              k,
              l,
              a.apart x y v,
            );
          })
  ]

pub mark_service_starting-SameUids :
    (now : Instant) (name : String) (m : Manager) → SameUids m (mark_service_starting now name m).1
unfolding mark_service_starting
mark_service_starting-SameUids now name m = elim (Option-cases (get m.states name)) [
  | inl h ↦ (rw (h, mark_service_starting) refl, rw (h, mark_service_starting) refl)
  | inr (state, h) ↦ elim (Bool-cases (is_active state)) [
    | inl k ↦ (rw (h, mark_service_starting, k) refl, rw (h, mark_service_starting, k) refl)
    | inr k ↦ (rw (h, mark_service_starting, k) refl, rw (h, mark_service_starting, k) refl)
  ]
]

with_deadline-SameUids :
    (now : Instant) (name : String) (wd : Option Duration) (m : Manager)
    → SameUids m (with_deadline now name wd m)
with_deadline-SameUids now name none m = (refl, refl)
with_deadline-SameUids now name (some d) m = (refl, refl)

pub configured-SameUids :
    (t : ServiceType) (now now' : Instant) (name : String) (pid : ℕ) (s : Service) (m : Manager)
    → SameUids m (configured t now now' name pid s m)
unfolding mark_running_start mark_notify_start mark_dbus_start mark_forking_start
configured-SameUids ServiceType.simple now now' name pid s m =
    with_deadline-SameUids now' name s.service.watchdog_sec _
configured-SameUids ServiceType.oneshot now now' name pid s m =
    with_deadline-SameUids now' name s.service.watchdog_sec _
configured-SameUids ServiceType.idle now now' name pid s m =
    with_deadline-SameUids now' name s.service.watchdog_sec _
configured-SameUids ServiceType.notify now now' name pid s m = (refl, refl)
configured-SameUids ServiceType.forking now now' name pid s m = go s.service.pid_file
  where
    go :
        (o : Option String)
        → SameUids m (elim o [
          | none ↦ m
          | some pid_file ↦ record m { pid_files = insert m.pid_files name pid_file }
        ])
    go none = (refl, refl)
    go (some pid_file) = (refl, refl)
configured-SameUids ServiceType.dbus now now' name pid s m = go s.service.bus_name
  where
    go :
        (o : Option String)
        → SameUids m (elim o [
          | none ↦ mark_running_start now now' name pid s m
          | some bus_name ↦ record m { waiting_bus_name = insert m.waiting_bus_name bus_name name }
        ])
    go none = with_deadline-SameUids now' name s.service.watchdog_sec _
    go (some bus_name) = (refl, refl)

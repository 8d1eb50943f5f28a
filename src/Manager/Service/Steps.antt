-- ===== src/Manager/Service/Steps.antt =====
-- The dynamic user ids over all starts and ends of services (src/manager/mod_impl/part2.rs, part3.rs
-- and src/manager/runtime/imp/part1.rs).
use sysd.Prelude.{
  ℕ, String, refl, ◌∙◌, Option, none, some, string_eq, Bool-cases, inl, inr, insert, unwrap_or,
}
use sysd.Units.Kinds.{Service}
use sysd.State.{Instant}
use sysd.Manager.{Manager, ok, err, Outcome, ◌>>=◌}
use sysd.Manager.Service.{
  Outside, Spawned, child, no_child, mark_service_starting, allocate_dynamic_user,
  setup_cgroup_for_service, configure_post_spawn_state, spawned, spawn_with, start_service_unit,
  release_dynamic_uid, is_oneshot,
}
use sysd.Manager.Service.Accounts.{
  IsAccounted, SameUids, SameUids-IsAccounted, mark_service_starting-SameUids, configured-SameUids,
  allocate_dynamic_user-IsAccounted, release_dynamic_uid-IsAccounted,
}

setup_cgroup_for_service-SameUids :
    (out : Outside) (name : String) (pid : ℕ) (m : Manager)
    → SameUids m (setup_cgroup_for_service out name pid m)
unfolding setup_cgroup_for_service
setup_cgroup_for_service-SameUids out name pid m = go (out.setup_cgroup name pid)
  where
    go :
        (o : Option String)
        → SameUids m (elim o [
          | none ↦ m
          | some path ↦ record m { cgroup_paths = insert m.cgroup_paths name path }
        ])
    go none = (refl, refl)
    go (some path) = (refl, refl)

spawned-SameUids :
    (out : Outside) (now now' : Instant) (name : String) (s : Service) (r : Spawned) (m : Manager)
    → SameUids m (spawned out now now' name s r m).1
unfolding configure_post_spawn_state
spawned-SameUids out now now' name s (no_child e) m = (refl, refl)
spawned-SameUids out now now' name s (child id) m =
    let cgroup = setup_cgroup_for_service-SameUids out name (unwrap_or 0 id) m in
    elim (Bool-cases (is_oneshot s.service.service_type)) [
      | inl h ↦ rw h cgroup
      | inr h ↦ rw h (
          let after =
            configured-SameUids s.service.service_type now now' name (unwrap_or 0 id) s _ in
          (after.0 ∙ cgroup.0, after.1 ∙ cgroup.1))
    ]

pub start_service_unit-IsAccounted :
    (out : Outside) (now now' now'' : Instant) (name : String) (s : Service) (m : Manager)
    → IsAccounted m
    → IsAccounted (start_service_unit out now now' now'' name s m).1
unfolding start_service_unit
start_service_unit-IsAccounted out now now' now'' name s m a =
    from (mark_service_starting now name m)
      (SameUids-IsAccounted m _ (mark_service_starting-SameUids now name m) a)
  where
    spawn_all :
        (o : Outcome (Option ℕ × Option ℕ))
        → IsAccounted o.1
        → IsAccounted (o >>= spawn_with out now' now'' name s).1
    spawn_all (err e, n) b = b
    spawn_all (ok (uid, gid), n) b =
        SameUids-IsAccounted n _ (spawned-SameUids out now' now'' name s _ n) b

    from :
        (o : Outcome {0} Unit)
        → IsAccounted o.1
        → IsAccounted
            (o
              >>= (λ done m₁. allocate_dynamic_user name s m₁)
              >>= spawn_with out now' now'' name s).1
    from (err e, n) b = b
    from (ok done, n) b =
        spawn_all (allocate_dynamic_user name s n) (allocate_dynamic_user-IsAccounted n b name s)

-- What happens to the manager: services are started, whatever the executor answers, and their ids
-- are given back; the rest of the program leaves the ids as they are.
pub data Happens : Manager → Manager → Type 0 where
  nothing : {m : Manager} → Happens m m
  started :
      {m n : Manager} (out : Outside) (now now' now'' : Instant) (name : String) (s : Service)
      → Happens m n
      → Happens m (start_service_unit out now now' now'' name s n).1
  ended : {m n : Manager} (name : String) → Happens m n → Happens m (release_dynamic_uid name n)
  other : {m n : Manager} (k : Manager) → SameUids n k → Happens m n → Happens m k

-- If at first every id that a service holds is taken from the pool and no two services hold the
-- same, then so it stays, whatever services are started and end: in particular, no two services
-- that run get the same id.
pub Happens-IsAccounted : {m n : Manager} → Happens m n → IsAccounted m → IsAccounted n
Happens-IsAccounted nothing a = a
Happens-IsAccounted (started {m} {n} out now now' now'' name s h) a =
    start_service_unit-IsAccounted out now now' now'' name s n (Happens-IsAccounted h a)
Happens-IsAccounted (ended {m} {n} name h) a =
    release_dynamic_uid-IsAccounted n (Happens-IsAccounted h a) name
Happens-IsAccounted (other {m} {n} k same h) a =
    SameUids-IsAccounted n k same (Happens-IsAccounted h a)

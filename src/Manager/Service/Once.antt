-- ===== src/Manager/Service/Once.antt =====
-- A second start of a service (`start_service_unit` of src/manager/mod_impl/part2.rs).
use sysd.Prelude.{
  ℕ, String, ◌≡◌, refl, true, Option, none, some, get, modify, string_eq, nat_eq, beq_self,
  get-modify, Bool-cases, Option-cases, inl, inr,
}
use sysd.Units.Enums.{ServiceType}
use sysd.Units.Sections.{Duration}
use sysd.Units.Kinds.{Service}
use sysd.State.{Instant, ServiceState, is_active, set_starting, set_running}
use sysd.DynamicUser.{Inner, Allocation, allocate}
use sysd.Manager.{Manager, already_active, ok, err, Outcome, ◌>>=◌}
use sysd.Manager.Service.{
  Outside, Spawned, child, no_child, mark_service_starting, allocate_dynamic_user, allocated_for,
  is_oneshot, configured, configure_post_spawn_state, mark_running_start, mark_notify_start,
  mark_dbus_start, mark_forking_start, setup_cgroup_for_service, with_deadline, spawned,
  start_service_unit,
}

-- The unit is active or activating.
abbrev IsUp : String → Manager → Type 0
IsUp name m = (s : ServiceState) × (get m.states name ≡ some s) × (is_active s ≡ true)

module _ (name : String) where
  set-IsUp :
      (m : Manager) (f : ServiceState → ServiceState)
      → ((s : ServiceState) → is_active (f s) ≡ true)
      → IsUp name m
      → IsUp name (record m { states = modify m.states name f })
  set-IsUp m f up (s, h, k) = (f s, rw (get-modify, beq_self name, h) refl, up s)

  set_running-up :
      (pid : ℕ) (now : Instant) (s : ServiceState) → is_active (set_running pid now s) ≡ true
  unfolding is_active set_running
  set_running-up pid now s = refl

  with_deadline-IsUp :
      (now : Instant) (o : Option Duration) (m : Manager)
      → IsUp name m
      → IsUp name (with_deadline now name o m)
  with_deadline-IsUp now none m u = u
  with_deadline-IsUp now (some wd) m u = u

  mark_running_start-IsUp :
      (now now' : Instant) (pid : ℕ) (s : Service) (m : Manager)
      → IsUp name m
      → IsUp name (mark_running_start now now' name pid s m)
  unfolding mark_running_start
  mark_running_start-IsUp now now' pid s m u =
      with_deadline-IsUp now' s.service.watchdog_sec _
        (set-IsUp m (set_running pid now) (set_running-up pid now) u)

  mark_dbus_start-IsUp :
      (now now' : Instant) (pid : ℕ) (s : Service) (m : Manager)
      → IsUp name m
      → IsUp name (mark_dbus_start now now' name pid s m)
  unfolding mark_dbus_start
  mark_dbus_start-IsUp now now' pid s m u = elim (Option-cases s.service.bus_name) [
    | inl h ↦ rw (h, mark_dbus_start) (mark_running_start-IsUp now now' pid s m u)
    | inr (bus_name, h) ↦ rw (h, mark_dbus_start) u
  ]

  mark_forking_start-IsUp :
      (s : Service) (m : Manager) → IsUp name m → IsUp name (mark_forking_start name s m)
  unfolding mark_forking_start
  mark_forking_start-IsUp s m u = elim (Option-cases s.service.pid_file) [
    | inl h ↦ rw (h, mark_forking_start) u
    | inr (pid_file, h) ↦ rw (h, mark_forking_start) u
  ]

  configured-IsUp :
      (t : ServiceType) (now now' : Instant) (pid : ℕ) (s : Service) (m : Manager)
      → IsUp name m
      → IsUp name (configured t now now' name pid s m)
  unfolding mark_notify_start
  configured-IsUp ServiceType.notify now now' pid s m u = u
  configured-IsUp ServiceType.dbus now now' pid s m u = mark_dbus_start-IsUp now now' pid s m u
  configured-IsUp ServiceType.forking now now' pid s m u = mark_forking_start-IsUp s m u
  configured-IsUp ServiceType.simple now now' pid s m u = mark_running_start-IsUp now now' pid s m u
  configured-IsUp ServiceType.oneshot now now' pid s m u =
      mark_running_start-IsUp now now' pid s m u
  configured-IsUp ServiceType.idle now now' pid s m u = mark_running_start-IsUp now now' pid s m u

  setup_cgroup_for_service-IsUp :
      (out : Outside) (pid : ℕ) (m : Manager)
      → IsUp name m
      → IsUp name (setup_cgroup_for_service out name pid m)
  unfolding setup_cgroup_for_service
  setup_cgroup_for_service-IsUp out pid m u = elim (Option-cases (out.setup_cgroup name pid)) [
    | inl h ↦ rw (h, setup_cgroup_for_service) u
    | inr (path, h) ↦ rw (h, setup_cgroup_for_service) u
  ]

  spawned-IsUp :
      (out : Outside) (now now' : Instant) (s : Service) (r : Spawned) (m : Manager)
      → IsUp name m
      → IsUp name (spawned out now now' name s r m).1
  unfolding configure_post_spawn_state
  spawned-IsUp out now now' s (no_child e) m u = u
  spawned-IsUp out now now' s (child none) m u =
      let m' = setup_cgroup_for_service out name 0 m in
      let u' = setup_cgroup_for_service-IsUp out 0 m u in
      elim (Bool-cases (is_oneshot s.service.service_type)) [
        | inl h ↦ rw h u'
        | inr h ↦ rw h (configured-IsUp s.service.service_type now now' 0 s _ u')
      ]
  spawned-IsUp out now now' s (child (some pid)) m u =
      let m' = setup_cgroup_for_service out name pid m in
      let u' = setup_cgroup_for_service-IsUp out pid m u in
      elim (Bool-cases (is_oneshot s.service.service_type)) [
        | inl h ↦ rw h u'
        | inr h ↦ rw h (configured-IsUp s.service.service_type now now' pid s _ u')
      ]

  bind-IsUp :
      {A B : Type 0} (o : Outcome A) (next : A → Manager → Outcome B)
      → IsUp name o.1
      → ((a : A) (m : Manager) → IsUp name m → IsUp name (next a m).1)
      → IsUp name (o >>= next).1
  bind-IsUp (ok a, m) next u k = k a m u
  bind-IsUp (err e, m) next u k = u

  allocated_for-IsUp :
      (r : Inner × Allocation) (m : Manager) → IsUp name m → IsUp name (allocated_for name r m).1
  allocated_for-IsUp (pool, Allocation.ok uid gid) m u = u
  allocated_for-IsUp (pool, Allocation.exhausted) m u = u
  allocated_for-IsUp (pool, Allocation.no_answer) m u = u

  allocate_dynamic_user-IsUp :
      (s : Service) (m : Manager) → IsUp name m → IsUp name (allocate_dynamic_user name s m).1
  unfolding allocate_dynamic_user
  allocate_dynamic_user-IsUp s m u = elim (Bool-cases s.service.dynamic_user) [
    | inl h ↦ rw h (allocated_for-IsUp (allocate m.dynamic_user_manager) m u)
    | inr h ↦ rw h u
  ]

  mark_service_starting-IsUp :
      (now : Instant) (m : Manager) (s : ServiceState)
      → get m.states name ≡ some s
      → IsUp name (mark_service_starting now name m).1
  unfolding mark_service_starting is_active set_starting
  mark_service_starting-IsUp now m s h = elim (Bool-cases (is_active s)) [
    | inl k ↦ rw (h, mark_service_starting, k) (s, h, k)
    | inr k ↦
        rw (h, mark_service_starting, k)
          (set_starting now s, rw (get-modify, beq_self name, h) refl, refl)
  ]

  start_service_unit-IsUp :
      (out : Outside) (now now' now'' : Instant) (s : Service) (m : Manager) (state : ServiceState)
      → get m.states name ≡ some state
      → IsUp name (start_service_unit out now now' now'' name s m).1
  unfolding start_service_unit
  start_service_unit-IsUp out now now' now'' s m state h =
      bind-IsUp (mark_service_starting now name m >>= (λ done m₁. allocate_dynamic_user name s m₁))
        _
        (bind-IsUp (mark_service_starting now name m) _ (mark_service_starting-IsUp now m state h)
          (λ done m₁ u. allocate_dynamic_user-IsUp s m₁ u))
        (λ (uid, gid) m₂ u. spawned-IsUp out now' now'' s _ m₂ u)

  refused :
      (out : Outside) (now now' now'' : Instant) (s : Service) (m : Manager)
      → IsUp name m
      → start_service_unit out now now' now'' name s m ≡ (err (already_active name), m)
  unfolding start_service_unit mark_service_starting
  refused out now now' now'' s m (state, h, k) =
      rw (h, start_service_unit, mark_service_starting, k) refl

-- Whatever the first of two starts in a row of a known unit comes to, a success, a refusal, a pool without ids
-- or an executor that fails, the second is refused as that of an active unit and changes nothing:
-- there is no second process, id or job for the name, and after a failure no other attempt.
pub start_service_unit-refused :
    (out out' : Outside) (now now' now'' later later' later'' : Instant) (name : String)
    → (s s' : Service) (m : Manager) (state : ServiceState) → get m.states name ≡ some state
    → let first = (start_service_unit out now now' now'' name s m).1 in
      start_service_unit out' later later' later'' name s' first
      ≡ (err (already_active name), first)
start_service_unit-refused out out' now now' now'' later later' later'' name s s' m state h =
    refused name out' later later' later'' s' (start_service_unit out now now' now'' name s m).1
      (start_service_unit-IsUp name out now now' now'' s m state h)

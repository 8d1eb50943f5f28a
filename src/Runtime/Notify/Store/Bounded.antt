-- ===== src/Runtime/Notify/Store/Bounded.antt =====
-- No service has more descriptors stored than it may have (src/manager/runtime/imp/part1.rs).
use sysd.Prelude.{
  ℕ, ◌≤◌, String, ◌≡◌, refl, ap, Bool, true, false, not, ◌&&◌, ◌==◌, string_eq, nat_eq, leb, Option,
  none, some, List, [], ◌∷◌, ◌++◌, ◌>>=◌, has_key, get, get-insert, insert, length, length-append,
  length-keep-le, if◌then◌else◌, map_or, unwrap_or, arith, eq_iff, Bool-cases, inl, inr,
}
use sysd.Units.Sections.{Duration}
use sysd.State.{Instant}
use sysd.Manager.{Manager, RawFd}
use sysd.Runtime.Notify.{
  NotifyMessage, find_service_by_pid, service_of, fdname, handle_notify_ready,
  handle_notify_watchdog_ping, is_ready, is_watchdog, is_fdstore, is_fdstoreremove,
  validate_notify_access, resolve_ready_service_name, mark_service_ready, arm_watchdog,
  process_with_id, main_pid, armed, running_as, id_of, ready_as, take_first, resolve_by,
  first_waiting,
}
use sysd.Runtime.Notify.Store.{
  Store, store_fd_entries, max_fds_of, or_empty_store, handle_fdstore, handle_fdstoreremove,
  dispatch_notify, process_notify, fdstore_for, fdstoreremove_for, removed_from, named, has_fds,
}

-- The descriptors of each service are no more than its `FileDescriptorStoreMax=`.
abbrev pub IsBounded : Manager → Type 0
IsBounded m = (name : String) → length (or_empty_store (get m.fd_store name)) ≤ max_fds_of m name

store_fd_entries-le :
    (store : Store) (fd_name : String) (fds : List RawFd) (max_fds : ℕ) (closed : List RawFd)
    → length store ≤ max_fds
    → length (store_fd_entries store fd_name fds max_fds closed).0 ≤ max_fds
unfolding store_fd_entries
store_fd_entries-le store fd_name [] max_fds closed h = h
store_fd_entries-le store fd_name (fd ∷ fds) max_fds closed h =
    elim (Bool-cases (leb max_fds (length store))) [
      | inl full ↦ rw full (store_fd_entries-le store fd_name fds max_fds (fd ∷ closed) h)
      | inr room ↦ rw room (
          store_fd_entries-le (store ++ (fd_name, fd) ∷ []) fd_name fds max_fds closed
            (ground (arith, length-append store ((fd_name, fd) ∷ []), room)))
    ]

-- Where no unit and no store changes, the stores stay bounded.
same-IsBounded :
    (m n : Manager) → n.units ≡ m.units → n.fd_store ≡ m.fd_store → IsBounded m → IsBounded n
unfolding max_fds_of service_of
same-IsBounded m n units stores b name = rw (units, stores) (b name)

insert-IsBounded :
    (m n : Manager) (name : String) (store : Store)
    → n.units ≡ m.units
    → n.fd_store ≡ insert m.fd_store name store
    → length store ≤ max_fds_of m name
    → IsBounded m
    → IsBounded n
unfolding max_fds_of service_of
insert-IsBounded m n name store units stores h b other =
    rw (units, stores, get-insert)
      (elim (Bool-cases (name == other)) [
        | inl same ↦ rw same (rw⁻¹ ((eq_iff name other).0 same) h)
        | inr apart ↦ rw apart (b other)
      ])

handle_fdstore-IsBounded :
    (msg : NotifyMessage) (m : Manager) → IsBounded m → IsBounded (handle_fdstore msg m)
unfolding handle_fdstore
handle_fdstore-IsBounded msg m b = go (find_service_by_pid m msg.pid)
  where
    go : (o : Option String) → IsBounded (fdstore_for msg m o)
    go none = same-IsBounded m _ refl refl b
    go (some name) = elim (Bool-cases (max_fds_of m name == 0)) [
      | inl no_room ↦ rw no_room (same-IsBounded m _ refl refl b)
      | inr room ↦ rw room (
          insert-IsBounded m _ name _ refl refl
            (store_fd_entries-le (or_empty_store (get m.fd_store name))
              (unwrap_or "stored" (fdname msg)) msg.fds (max_fds_of m name) m.closed (b name))
            b)
    ]

handle_fdstoreremove-IsBounded :
    (msg : NotifyMessage) (m : Manager) → IsBounded m → IsBounded (handle_fdstoreremove msg m)
unfolding handle_fdstoreremove
handle_fdstoreremove-IsBounded msg m b = go (find_service_by_pid m msg.pid) (fdname msg)
  where
    removed :
        (name fd_name : String) (o : Option Store)
        → get m.fd_store name ≡ o
        → IsBounded (removed_from name fd_name m o)
    removed name fd_name none q = b
    removed name fd_name (some store) q =
        insert-IsBounded m _ name _ refl refl
          (omega (
            arith,
            length-keep-le (λ entry. not (named fd_name entry)) store,
            b name,
            ap (λ o. length (or_empty_store o)) q,
          ))
          b

    go : (o p : Option String) → IsBounded (fdstoreremove_for msg m o p)
    go none p = b
    go (some name) none = b
    go (some name) (some fd_name) = removed name fd_name (get m.fd_store name) refl

arm_watchdog-same :
    (now : Instant) (name : String) (m : Manager)
    → IsBounded m
    → IsBounded (arm_watchdog now name m)
unfolding arm_watchdog
arm_watchdog-same now name m b = go (service_of m name >>= (λ s. s.service.watchdog_sec))
  where
    go : (o : Option Duration) → IsBounded (armed now name o m)
    go none = b
    go (some wd) = same-IsBounded m _ refl refl b

mark_service_ready-IsBounded :
    (now now' : Instant) (name : String) (m : Manager)
    → IsBounded m
    → IsBounded (mark_service_ready now now' name m)
unfolding mark_service_ready
mark_service_ready-IsBounded now now' name m b =
    arm_watchdog-same now' name (running_as now name (id_of m name) m)
      (elim (Bool-cases (has_key m.states name)) [
        | inl h ↦ rw h (same-IsBounded m _ refl refl b)
        | inr h ↦ rw h b
      ])

handle_notify_ready-IsBounded :
    (now now' : Instant) (msg : NotifyMessage) (m : Manager)
    → IsBounded m
    → IsBounded (handle_notify_ready now now' msg m)
unfolding handle_notify_ready resolve_ready_service_name
handle_notify_ready-IsBounded now now' msg m b = by_main (main_pid msg)
  where
    -- whatever name is found, the manager is the old one but for `waiting_ready`
    ready :
        (o : Option String) (n : Manager)
        → n.units ≡ m.units
        → n.fd_store ≡ m.fd_store
        → IsBounded (ready_as now now' (o, n))
    ready none n units stores = same-IsBounded m n units stores b
    ready (some name) n units stores =
        mark_service_ready-IsBounded now now' name n (same-IsBounded m n units stores b)

    by_first : (o : Option (ℕ × String)) → IsBounded (ready_as now now' (take_first o m))
    by_first none = b
    by_first (some (pid, name)) = ready (some name) _ refl refl

    by_main : (o : Option ℕ) → IsBounded (ready_as now now' (resolve_by o msg m))
    by_main none = elim (Bool-cases (has_key m.waiting_ready msg.pid)) [
      | inl h ↦ rw h (ready (get m.waiting_ready msg.pid) _ refl refl)
      | inr h ↦ rw h (by_first (first_waiting m.waiting_ready m.processes))
    ]
    by_main (some pid) = elim (Bool-cases (has_key m.waiting_ready pid)) [
      | inl h ↦ rw h (ready (get m.waiting_ready pid) _ refl refl)
      | inr h ↦ rw h (ready (get m.waiting_ready msg.pid) _ refl refl)
    ]

handle_notify_watchdog_ping-IsBounded :
    (now : Instant) (msg : NotifyMessage) (m : Manager)
    → IsBounded m
    → IsBounded (handle_notify_watchdog_ping now msg m)
unfolding handle_notify_watchdog_ping
handle_notify_watchdog_ping-IsBounded now msg m b = go (process_with_id msg.pid m.processes)
  where
    go : (o : Option String) → IsBounded (map_or m (λ name. arm_watchdog now name m) o)
    go none = b
    go (some name) = arm_watchdog-same now name m b

if-IsBounded :
    (c : Bool) (m n : Manager) → IsBounded n → IsBounded m → IsBounded (if c then n else m)
if-IsBounded true m n h k = h
if-IsBounded false m n h k = k

dispatch_notify-IsBounded :
    (now now' now'' : Instant) (msg : NotifyMessage) (m : Manager)
    → IsBounded m
    → IsBounded (dispatch_notify now now' now'' msg m)
unfolding dispatch_notify
dispatch_notify-IsBounded now now' now'' msg m b =
    if-IsBounded (is_fdstoreremove msg) m₃ _ (handle_fdstoreremove-IsBounded msg m₃ b₃) b₃
  where
    m₁ : Manager
    m₁ = if is_ready msg then handle_notify_ready now now' msg m else m

    m₂ : Manager
    m₂ = if is_watchdog msg then handle_notify_watchdog_ping now'' msg m₁ else m₁

    m₃ : Manager
    m₃ = if is_fdstore msg && has_fds msg then handle_fdstore msg m₂ else m₂

    b₁ : IsBounded m₁
    b₁ = if-IsBounded (is_ready msg) m _ (handle_notify_ready-IsBounded now now' msg m b) b

    b₂ : IsBounded m₂
    b₂ =
        if-IsBounded (is_watchdog msg) m₁ _ (handle_notify_watchdog_ping-IsBounded now'' msg m₁ b₁)
          b₁

    b₃ : IsBounded m₃
    b₃ = if-IsBounded (is_fdstore msg && has_fds msg) m₂ _ (handle_fdstore-IsBounded msg m₂ b₂) b₂

-- Whatever messages come, no service gets more descriptors stored than its
-- `FileDescriptorStoreMax=`, if none has more to begin with.
pub process_notify-IsBounded :
    (messages : List (NotifyMessage × Instant × Instant × Instant)) (m : Manager)
    → IsBounded m
    → IsBounded (process_notify messages m)
unfolding process_notify
process_notify-IsBounded [] m b = b
process_notify-IsBounded ((msg, now, now', now'') ∷ rest) m b =
    process_notify-IsBounded rest
      (if validate_notify_access m msg then dispatch_notify now now' now'' msg m else m)
      (if-IsBounded (validate_notify_access m msg) m _
        (dispatch_notify-IsBounded now now' now'' msg m b) b)

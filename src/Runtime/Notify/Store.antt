-- ===== src/Runtime/Notify/Store.antt =====
-- The descriptors that services leave with the manager (src/manager/runtime/imp/part1.rs and
-- part2.rs), and the handling of all the messages that have come.
pub mod Bounded
use sysd.Prelude.{
  ℕ, String, Bool, true, false, not, ◌&&◌, ◌==◌, string_eq, nat_eq, leb, Option, none, some, List,
  [], ◌∷◌, ◌++◌, Map, get, has_key, insert, keep, length, if◌then◌else◌, ◌>>=◌, map_or, unwrap_or,
}
use sysd.State.{Instant}
use sysd.Manager.{Manager, RawFd}
use sysd.Runtime.Notify.{
  NotifyMessage, is_ready, is_watchdog, is_fdstore, is_fdstoreremove, fdname, find_service_by_pid,
  service_of, validate_notify_access, handle_notify_ready, handle_notify_watchdog_ping,
}

abbrev pub Store : Type 0
Store = List (String × RawFd)

unfoldable pub close_fds : List RawFd → List RawFd → List RawFd
close_fds [] closed = closed
close_fds (fd ∷ fds) closed = close_fds fds (fd ∷ closed)

-- The store, and what has been closed.
unfoldable pub store_fd_entries : Store → String → List RawFd → ℕ → List RawFd → Store × List RawFd
store_fd_entries store fd_name [] max_fds closed = (store, closed)
store_fd_entries store fd_name (fd ∷ fds) max_fds closed =
    let full = store_fd_entries store fd_name fds max_fds (fd ∷ closed) in
    let room = store_fd_entries (store ++ (fd_name, fd) ∷ []) fd_name fds max_fds closed in
    if leb max_fds (length store) then full else room

-- `FileDescriptorStoreMax=` of a service, 0 if it has none.
unfoldable pub max_fds_of : Manager → String → ℕ
max_fds_of m name = unwrap_or 0 (service_of m name >>= (λ s. s.service.file_descriptor_store_max))

abbrev pub or_empty_store : Option Store → Store
or_empty_store none = []
or_empty_store (some store) = store

abbrev pub stored_for : NotifyMessage → String → Store × List RawFd → Manager → Manager
stored_for msg service_name (store, closed) m = record m {
  fd_store = insert m.fd_store service_name store;
  closed = closed;
}

abbrev pub fdstore_for : NotifyMessage → Manager → Option String → Manager
fdstore_for msg m none = record m { closed = close_fds msg.fds m.closed }
fdstore_for msg m (some service_name) =
    if max_fds_of m service_name == 0
    then record m { closed = close_fds msg.fds m.closed }
    else stored_for msg service_name
        (store_fd_entries (or_empty_store (get m.fd_store service_name))
          (unwrap_or "stored" (fdname msg)) msg.fds (max_fds_of m service_name) m.closed)
        m

unfoldable pub handle_fdstore : NotifyMessage → Manager → Manager
unfolding max_fds_of store_fd_entries close_fds
handle_fdstore msg m = fdstore_for msg m (find_service_by_pid m msg.pid)

abbrev pub named : String → String × RawFd → Bool
named fd_name entry = entry.0 == fd_name

abbrev pub fds_of : Store → List RawFd
fds_of [] = []
fds_of ((name, fd) ∷ rest) = fd ∷ fds_of rest

abbrev pub removed_from : String → String → Manager → Option Store → Manager
removed_from service_name fd_name m none = m
removed_from service_name fd_name m (some store) = record m {
  fd_store = insert m.fd_store service_name (keep (λ entry. not (named fd_name entry)) store);
  closed = close_fds (fds_of (keep (named fd_name) store)) m.closed;
}

abbrev pub fdstoreremove_for : NotifyMessage → Manager → Option String → Option String → Manager
fdstoreremove_for msg m none fd_name = m
fdstoreremove_for msg m (some service_name) none = m
fdstoreremove_for msg m (some service_name) (some fd_name) =
    removed_from service_name fd_name m (get m.fd_store service_name)

unfoldable pub handle_fdstoreremove : NotifyMessage → Manager → Manager
unfolding close_fds
handle_fdstoreremove msg m = fdstoreremove_for msg m (find_service_by_pid m msg.pid) (fdname msg)

abbrev pub has_fds : NotifyMessage → Bool
has_fds msg = not (length msg.fds == 0)

-- The readings of the clock are those of `set_running` and of the two armings.
unfoldable pub dispatch_notify : Instant → Instant → Instant → NotifyMessage → Manager → Manager
unfolding handle_fdstore handle_fdstoreremove
dispatch_notify now now' now'' msg m =
    let m₁ = if is_ready msg then handle_notify_ready now now' msg m else m in
    let m₂ = if is_watchdog msg then handle_notify_watchdog_ping now'' msg m₁ else m₁ in
    let m₃ = if is_fdstore msg && has_fds msg then handle_fdstore msg m₂ else m₂ in
    if is_fdstoreremove msg then handle_fdstoreremove msg m₃ else m₃

-- The messages that have come, each with its readings of the clock.
unfoldable pub process_notify :
    List (NotifyMessage × Instant × Instant × Instant) → Manager → Manager
unfolding dispatch_notify
process_notify [] m = m
process_notify ((msg, now, now', now'') ∷ rest) m =
    process_notify rest
      (if validate_notify_access m msg then dispatch_notify now now' now'' msg m else m)

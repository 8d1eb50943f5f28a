-- ===== src/Runtime/Notify.antt =====
-- The messages of services (src/manager/notify_impl.rs) and what the manager does with them
-- (src/manager/runtime/imp/part1.rs). The receiving socket is left out: a message is its text with
-- the sender's process id and the descriptors that came with it.
pub mod Store
pub mod Unknown
mod Tests
use sysd.Prelude.{
  ℕ, ◌+◌, ◌-◌, ◌^◌, String, Bool, true, false, not, ◌&&◌, ◌==◌, string_eq, nat_eq, leb, Option,
  none, some, List, [], ◌∷◌, ◌++◌, Map, get, has_key, insert, remove, modify, keep, length,
  if◌then◌else◌, ◌>>=◌, map_or, unwrap_or, or_else,
}
use sysd.Text.{lines, split_once, from_str_radix}
use sysd.Units.Enums.{NotifyAccess}
use sysd.Units.Sections.{Duration}
use sysd.Units.Kinds.{Service, as_service}
use sysd.State.{Instant, set_running}
use sysd.Manager.{Manager, RawFd}

pub record NotifyMessage : Type 0 where
  pub pid : ℕ
  pub fields : Map String String
  pub fds : List RawFd

unfoldable pub parse_fields : List String → Map String String → Map String String
parse_fields [] fields = fields
parse_fields (line ∷ rest) fields = elim (split_once b'=' line) [
  | none ↦ parse_fields rest fields
  | some (key, value) ↦ parse_fields rest (insert fields key value)
]

unfoldable pub parse_notify_message : String → ℕ → List RawFd → NotifyMessage
unfolding parse_fields
parse_notify_message msg pid fds = record {
  pid = pid;
  fields = parse_fields (lines msg) [];
  fds = fds;
}

abbrev is_set : String → NotifyMessage → Bool
is_set key msg = map_or false (λ v. v == "1") (get msg.fields key)

unfoldable pub is_ready : NotifyMessage → Bool
is_ready = is_set "READY"

unfoldable pub is_watchdog : NotifyMessage → Bool
is_watchdog = is_set "WATCHDOG"

unfoldable pub is_fdstore : NotifyMessage → Bool
is_fdstore = is_set "FDSTORE"

unfoldable pub is_fdstoreremove : NotifyMessage → Bool
is_fdstoreremove = is_set "FDSTOREREMOVE"

unfoldable pub fdname : NotifyMessage → Option String
fdname msg = get msg.fields "FDNAME"

unfoldable pub main_pid : NotifyMessage → Option ℕ
main_pid msg = get msg.fields "MAINPID" >>= from_str_radix (2 ^ 32) 10

-- `child.id() == Some(pid)`.
abbrev has_id : ℕ → Option ℕ → Bool
has_id pid id = map_or false (λ n. n == pid) id

unfoldable pub process_with_id : ℕ → Map String (Option ℕ) → Option String
process_with_id pid [] = none
process_with_id pid ((name, id) ∷ rest) =
    if has_id pid id then some name else process_with_id pid rest

unfoldable pub find_service_by_pid : Manager → ℕ → Option String
unfolding process_with_id
find_service_by_pid m pid = or_else (get m.waiting_ready pid) (process_with_id pid m.processes)

unfoldable pub service_of : Manager → String → Option Service
service_of m name = get m.units name >>= as_service

-- `NotifyAccess::default()` is `main`.
unfoldable pub notify_access_for_service : Manager → String → NotifyAccess
notify_access_for_service m service_name =
    map_or NotifyAccess.main (λ s. s.service.notify_access) (service_of m service_name)

unfoldable pub validate_main_notify_access : Manager → String → ℕ → Bool
validate_main_notify_access m service_name pid =
    map_or false (has_id pid) (get m.processes service_name)

abbrev pub allows : Manager → String → ℕ → NotifyAccess → Bool
allows m service_name pid NotifyAccess.none = false
allows m service_name pid NotifyAccess.main = validate_main_notify_access m service_name pid
allows m service_name pid NotifyAccess.exec = true
allows m service_name pid NotifyAccess.all = true

unfoldable pub validate_notify_access : Manager → NotifyMessage → Bool
unfolding find_service_by_pid notify_access_for_service validate_main_notify_access
validate_notify_access m msg =
    map_or true
      (λ service_name. allows m service_name msg.pid (notify_access_for_service m service_name))
      (find_service_by_pid m msg.pid)

-- `waiting_ready.remove(&pid)`, with the value that it returns.
abbrev pub take_waiting : ℕ → Manager → Option String × Manager
take_waiting pid m =
    (get m.waiting_ready pid, record m { waiting_ready = remove m.waiting_ready pid })

unfoldable pub first_waiting : Map ℕ String → Map String (Option ℕ) → Option (ℕ × String)
first_waiting waiting [] = none
first_waiting waiting ((name, none) ∷ rest) = first_waiting waiting rest
first_waiting waiting ((name, some pid) ∷ rest) =
    if has_key waiting pid then some (pid, name) else first_waiting waiting rest

abbrev pub take_first : Option (ℕ × String) → Manager → Option String × Manager
take_first none m = (none, m)
take_first (some (pid, name)) m =
    (some name, record m { waiting_ready = remove m.waiting_ready pid })

abbrev pub resolve_by_sender : NotifyMessage → Manager → Option String × Manager
resolve_by_sender msg m =
    if has_key m.waiting_ready msg.pid
    then take_waiting msg.pid m
    else take_first (first_waiting m.waiting_ready m.processes) m

abbrev pub resolve_by_main : ℕ → NotifyMessage → Manager → Option String × Manager
resolve_by_main pid msg m =
    if has_key m.waiting_ready pid then take_waiting pid m else take_waiting msg.pid m

abbrev pub resolve_by : Option ℕ → NotifyMessage → Manager → Option String × Manager
resolve_by none msg m = resolve_by_sender msg m
resolve_by (some pid) msg m = resolve_by_main pid msg m

unfoldable pub resolve_ready_service_name : NotifyMessage → Manager → Option String × Manager
resolve_ready_service_name msg m = resolve_by (main_pid msg) msg m

abbrev pub armed : Instant → String → Option Duration → Manager → Manager
armed now name none m = m
armed now name (some wd) m = record m {
  watchdog_deadlines = insert m.watchdog_deadlines name (now + wd);
}

unfoldable pub arm_watchdog : Instant → String → Manager → Manager
unfolding service_of
arm_watchdog now name m = armed now name (service_of m name >>= (λ s. s.service.watchdog_sec)) m

abbrev pub running_as : Instant → String → ℕ → Manager → Manager
running_as now name pid m =
    if has_key m.states name
    then record m {
      states = modify m.states name (set_running pid now);
      active_jobs = m.active_jobs - 1;
    }
    else m

-- `child.id()` of the service's process, 0 if it has none.
abbrev pub id_of : Manager → String → ℕ
id_of m name = unwrap_or 0 (unwrap_or none (get m.processes name))

unfoldable pub mark_service_ready : Instant → Instant → String → Manager → Manager
unfolding arm_watchdog
mark_service_ready now now' name m = arm_watchdog now' name (running_as now name (id_of m name) m)

abbrev pub ready_as : Instant → Instant → Option String × Manager → Manager
ready_as now now' (none, m) = m
ready_as now now' (some name, m) = mark_service_ready now now' name m

unfoldable pub handle_notify_ready : Instant → Instant → NotifyMessage → Manager → Manager
unfolding resolve_ready_service_name mark_service_ready
handle_notify_ready now now' msg m = ready_as now now' (resolve_ready_service_name msg m)

-- Arming does nothing without a `WatchdogSec`, which the source tests for here as well.
unfoldable pub handle_notify_watchdog_ping : Instant → NotifyMessage → Manager → Manager
unfolding process_with_id arm_watchdog
handle_notify_watchdog_ping now msg m =
    map_or m (λ name. arm_watchdog now name m) (process_with_id msg.pid m.processes)

-- ===== src/Manager/Watched.antt =====
-- Slices and path units (src/manager/slice_ops.rs and src/manager/path_ops.rs). The directories that
-- they make are left out; `start_path` answers with the watcher that it starts, and `start` is a
-- parameter of `handle_path_triggered`.
pub mod Turns
use Prim.Native.String.{◌++◌ as append}
use sysd.Prelude.{
  ℕ, String, Bool, true, false, not, pos, Option, none, some, List, [], ◌∷◌, ◌++◌, get, modify,
  string_eq, if◌then◌else◌, map_or, unwrap_or,
}
use sysd.Text.{strip_end}
use sysd.Units.Kinds.{PathUnit, PathSection}
use sysd.State.{
  Instant, ServiceState, set_starting, set_running, set_stopping, set_stopped, is_active,
}
use sysd.Manager.{Manager, ManagerError, Result, ok, err, Outcome}

-- The state of `name` is changed.
abbrev pub with_state : String → (ServiceState → ServiceState) → Manager → Manager
with_state name f m = record m { states = modify m.states name f }

-- `set_starting` and, when the unit has been set up, `set_running(0)`.
abbrev pub started : Instant → Instant → String → Manager → Manager
started now now' name m =
    with_state name (set_running 0 now') (with_state name (set_starting now) m)

abbrev pub stopped : Instant → Instant → String → Manager → Manager
stopped now now' name m =
    with_state name (set_stopped (pos 0) now') (with_state name (set_stopping now) m)

-- A start goes on if the unit is known and not active, a stop if it is active.
abbrev pub unless_active :
    {A : Type 0} → Option ServiceState → String → Manager → Outcome A → Outcome A
unless_active none name m go = (err (ManagerError.not_found name), m)
unless_active (some state) name m go =
    if is_active state then (err (ManagerError.already_active name), m) else go

abbrev pub when_active :
    {A : Type 0} → Option ServiceState → String → Manager → Outcome A → Outcome A
when_active none name m go = (err (ManagerError.not_found name), m)
when_active (some state) name m go =
    if is_active state then go else (err (ManagerError.not_active name), m)

unfoldable pub start_slice : Instant → Instant → String → Manager → Outcome {0} Unit
start_slice now now' name m =
    unless_active (get m.states name) name m (ok tt, started now now' name m)

unfoldable pub stop_slice : Instant → Instant → String → Manager → Outcome {0} Unit
stop_slice now now' name m = when_active (get m.states name) name m (ok tt, stopped now now' name m)

pub data WatchType : Type 0 where
  exists exists_glob changed modified directory_not_empty : WatchType

pub record PathWatch : Type 0 where
  pub path : String
  pub watch_type : WatchType

unfoldable pub watching : WatchType → List String → List PathWatch
watching t [] = []
watching t (p ∷ ps) = record { path = p; watch_type = t } ∷ watching t ps

unfoldable pub watch_list : PathSection → List PathWatch
unfolding watching
watch_list p =
    watching WatchType.exists p.path_exists
    ++ watching WatchType.exists_glob p.path_exists_glob
    ++ watching WatchType.changed p.path_changed
    ++ watching WatchType.modified p.path_modified
    ++ watching WatchType.directory_not_empty p.directory_not_empty

unfoldable pub activated_unit : PathUnit → String
activated_unit p =
    unwrap_or (append (unwrap_or p.name (strip_end ".path" p.name)) ".service") p.path.unit

-- The task that watches, if there is anything to watch: the service that it starts, and the watches.
abbrev pub Watcher : Type 0
Watcher = Option (String × List PathWatch)

abbrev watcher_of : PathUnit → List PathWatch → Watcher
watcher_of p [] = none
watcher_of p (w ∷ ws) = some (activated_unit p, w ∷ ws)

unfoldable pub start_path : Instant → Instant → String → PathUnit → Manager → Outcome Watcher
unfolding watch_list activated_unit
start_path now now' name p m =
    unless_active (get m.states name) name m
      (ok (watcher_of p (watch_list p.path)), started now now' name m)

unfoldable pub stop_path : Instant → Instant → String → Manager → Outcome {0} Unit
stop_path now now' name m = when_active (get m.states name) name m (ok tt, stopped now now' name m)

unfoldable pub handle_path_triggered :
    (String → Manager → Outcome {0} Unit) → String → Manager → Outcome {0} Unit
handle_path_triggered start service_name m =
    if map_or false is_active (get m.states service_name) then (ok tt, m) else start service_name m

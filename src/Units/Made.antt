-- ===== src/Units/Made.antt =====
-- Units as their `new` functions make them, and what they say of themselves
-- (src/units/{service,target,mount,slice,timer,path,unit}.rs).
use Prim.Native.String.{◌++◌}
use text.Mathlib.Text.{starts_with}
use sysd.Prelude.{
  String, Bool, true, false, not, ◌&&◌, ◌||◌, Option, none, some, List, [], ◌∷◌, ◌==◌, string_eq,
  if◌then◌else◌, is_some,
}
use sysd.Units.Defaults.{default_unit_section, default_install_section, from_secs}
use sysd.Units.Kinds.{
  Target, MountSection, Mount, Slice, TimerSection, Timer, PathUnit, AnyUnit, service, target,
  mount, slice, socket, timer, path,
}

unfoldable pub new_target : String → Target
new_target name = record { name = name; unit = default_unit_section; wants_dir = [] }

-- 0o755 is 493.
unfoldable pub default_mount_section : MountSection
default_mount_section = record {
  what = "";
  where_ = "";
  fs_type = none;
  options = none;
  sloppy_options = false;
  lazy_unmount = false;
  force_unmount = false;
  read_write_only = false;
  directory_mode = some 493;
  timeout_sec = none;
}

unfoldable pub new_mount : String → Mount
new_mount name = record {
  name = name;
  unit = default_unit_section;
  mount = default_mount_section;
  install = default_install_section;
}

unfoldable pub new_slice : String → Slice
new_slice name = record { name = name; unit = default_unit_section }

unfoldable pub cgroup_path : Slice → String
cgroup_path s =
    if starts_with s.name "user-" && not (s.name == "user.slice")
    then "/sys/fs/cgroup/user.slice/" ++ s.name
    else if starts_with s.name "machine-" && not (s.name == "machine.slice")
    then "/sys/fs/cgroup/machine.slice/" ++ s.name
    else if starts_with s.name "system-" && not (s.name == "system.slice")
    then "/sys/fs/cgroup/system.slice/" ++ s.name
    else "/sys/fs/cgroup/" ++ s.name

unfoldable pub new_timer_section : TimerSection
new_timer_section = record {
  on_calendar = [];
  on_boot_sec = none;
  on_active_sec = none;
  on_startup_sec = none;
  on_unit_active_sec = none;
  on_unit_inactive_sec = none;
  accuracy_sec = from_secs 60;
  randomized_delay_sec = none;
  persistent = false;
  wake_system = false;
  on_clock_change = false;
  on_timezone_change = false;
  unit = none;
}

unfoldable pub new_timer : String → Timer
new_timer name = record {
  name = name;
  unit = default_unit_section;
  timer = new_timer_section;
  install = default_install_section;
}

unfoldable pub is_monotonic : Timer → Bool
is_monotonic t =
    is_some t.timer.on_boot_sec
    || is_some t.timer.on_startup_sec
    || is_some t.timer.on_active_sec
    || is_some t.timer.on_unit_active_sec
    || is_some t.timer.on_unit_inactive_sec

abbrev pub is_nonempty : {A : Type 0} → List A → Bool
is_nonempty [] = false
is_nonempty (x ∷ xs) = true

unfoldable pub is_realtime : Timer → Bool
is_realtime t = is_nonempty t.timer.on_calendar

unfoldable pub has_watches : PathUnit → Bool
has_watches p =
    is_nonempty p.path.path_exists
    || is_nonempty p.path.path_exists_glob
    || is_nonempty p.path.path_changed
    || is_nonempty p.path.path_modified
    || is_nonempty p.path.directory_not_empty

unfoldable pub unit_type : AnyUnit → String
unit_type (service s) = "service"
unit_type (target t) = "target"
unit_type (mount m) = "mount"
unit_type (slice s) = "slice"
unit_type (socket s) = "socket"
unit_type (timer t) = "timer"
unit_type (path p) = "path"

unfoldable pub is_service : AnyUnit → Bool
is_service (service s) = true
is_service _ = false

unfoldable pub is_mount : AnyUnit → Bool
is_mount (mount m) = true
is_mount _ = false

unfoldable pub is_slice : AnyUnit → Bool
is_slice (slice s) = true
is_slice _ = false

unfoldable pub as_target : AnyUnit → Option Target
as_target (target t) = some t
as_target _ = none

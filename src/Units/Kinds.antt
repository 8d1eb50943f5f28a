-- ===== src/Units/Kinds.antt =====
-- The kinds of units and the type that holds one of them (src/units/{service,target,mount,slice,
-- socket,timer,path,unit}.rs).
use sysd.Prelude.{ℕ, Bool, true, false, String, List, [], ◌++◌, Option, none, some}
use sysd.Units.Sections.{Duration, UnitSection, ServiceSection, InstallSection}

pub record Service : Type 0 where
  pub name : String
  pub instance_name : Option String
  pub unit : UnitSection
  pub service : ServiceSection
  pub install : InstallSection

pub record Target : Type 0 where
  pub name : String
  pub unit : UnitSection
  pub wants_dir : List String

pub record MountSection : Type 0 where
  pub what : String
  pub where_ : String
  pub fs_type : Option String
  pub options : Option String
  pub sloppy_options : Bool
  pub lazy_unmount : Bool
  pub force_unmount : Bool
  pub read_write_only : Bool
  pub directory_mode : Option ℕ
  pub timeout_sec : Option Duration

pub record Mount : Type 0 where
  pub name : String
  pub unit : UnitSection
  pub mount : MountSection
  pub install : InstallSection

pub record Slice : Type 0 where
  pub name : String
  pub unit : UnitSection

pub data ListenType : Type 0 where
  stream datagram fifo netlink : ListenType

pub record Listener : Type 0 where
  pub address : String
  pub listen_type : ListenType

pub record SocketSection : Type 0 where
  pub listeners : List Listener
  pub accept : Bool
  pub service : Option String
  pub socket_mode : Option ℕ
  pub socket_user : Option String
  pub socket_group : Option String
  pub fd_name : Option String
  pub remove_on_stop : Bool
  pub max_connections_per_source : Option ℕ
  pub receive_buffer : Option ℕ
  pub send_buffer : Option ℕ
  pub pass_credentials : Bool
  pub pass_security : Bool
  pub symlinks : List String
  pub defer_trigger : Bool

pub record Socket : Type 0 where
  pub name : String
  pub unit : UnitSection
  pub socket : SocketSection
  pub install : InstallSection

pub data CalendarSpec : Type 0 where
  named : String → CalendarSpec
  day_of_week : String → CalendarSpec
  time : (hour minute second : ℕ) → CalendarSpec
  full : String → CalendarSpec

pub record TimerSection : Type 0 where
  pub on_calendar : List CalendarSpec
  pub on_boot_sec : Option Duration
  pub on_active_sec : Option Duration
  pub on_startup_sec : Option Duration
  pub on_unit_active_sec : Option Duration
  pub on_unit_inactive_sec : Option Duration
  pub accuracy_sec : Duration
  pub randomized_delay_sec : Option Duration
  pub persistent : Bool
  pub wake_system : Bool
  pub on_clock_change : Bool
  pub on_timezone_change : Bool
  pub unit : Option String

pub record Timer : Type 0 where
  pub name : String
  pub unit : UnitSection
  pub timer : TimerSection
  pub install : InstallSection

pub record PathSection : Type 0 where
  pub path_exists : List String
  pub path_exists_glob : List String
  pub path_changed : List String
  pub path_modified : List String
  pub directory_not_empty : List String
  pub unit : Option String
  pub make_directory : Bool
  pub directory_mode : Option ℕ
  pub trigger_limit_interval_sec : Option Duration
  pub trigger_limit_burst : Option ℕ

pub record PathUnit : Type 0 where
  pub name : String
  pub unit : UnitSection
  pub path : PathSection
  pub install : InstallSection

pub data AnyUnit : Type 0 where
  service : Service → AnyUnit
  target : Target → AnyUnit
  mount : Mount → AnyUnit
  slice : Slice → AnyUnit
  socket : Socket → AnyUnit
  timer : Timer → AnyUnit
  path : PathUnit → AnyUnit

unfoldable pub name : AnyUnit → String
name (service s) = s.name
name (target t) = t.name
name (mount m) = m.name
name (slice s) = s.name
name (socket s) = s.name
name (timer t) = t.name
name (path p) = p.name

unfoldable pub unit_section : AnyUnit → UnitSection
unit_section (service s) = s.unit
unit_section (target t) = t.unit
unit_section (mount m) = m.unit
unit_section (slice s) = s.unit
unit_section (socket s) = s.unit
unit_section (timer t) = t.unit
unit_section (path p) = p.unit

unfoldable pub install_section : AnyUnit → Option InstallSection
install_section (service s) = some s.install
install_section (target t) = none
install_section (slice s) = none
install_section (mount m) = some m.install
install_section (socket s) = some s.install
install_section (timer t) = some t.install
install_section (path p) = some p.install

unfoldable pub is_target : AnyUnit → Bool
is_target (target t) = true
is_target _ = false

unfoldable pub is_socket : AnyUnit → Bool
is_socket (socket s) = true
is_socket _ = false

unfoldable pub is_timer : AnyUnit → Bool
is_timer (timer t) = true
is_timer _ = false

unfoldable pub is_path : AnyUnit → Bool
is_path (path p) = true
is_path _ = false

unfoldable pub as_service : AnyUnit → Option Service
as_service (service s) = some s
as_service _ = none

unfoldable pub as_mount : AnyUnit → Option Mount
as_mount (mount m) = some m
as_mount _ = none

unfoldable pub as_slice : AnyUnit → Option Slice
as_slice (slice s) = some s
as_slice _ = none

unfoldable pub as_socket : AnyUnit → Option Socket
as_socket (socket s) = some s
as_socket _ = none

unfoldable pub as_timer : AnyUnit → Option Timer
as_timer (timer t) = some t
as_timer _ = none

unfoldable pub as_path : AnyUnit → Option PathUnit
as_path (path p) = some p
as_path _ = none

-- After, Requires and Wants, in this order.
unfoldable pub unit_dependencies : AnyUnit → List String
unfolding unit_section
unit_dependencies u = (unit_section u).after ++ (unit_section u).requires ++ (unit_section u).wants

unfoldable pub wants_dir : AnyUnit → List String
wants_dir (target t) = t.wants_dir
wants_dir _ = []

-- ===== src/Units/Fields/Others.antt =====
-- The `[Mount]`, `[Socket]` and `[Timer]` sections of a unit file (src/units/parse_units.rs).
use sysd.Prelude.{String, string_eq, nat_eq, unwrap_or, List, [], ◌∷◌, ◌++◌}
use sysd.Units.Kinds.{MountSection, SocketSection, TimerSection, Listener, ListenType, CalendarSpec}
use sysd.Units.Fields.View.{
  SectionView, strings, words, first_string, first_bool, first_parsed, parse_octal,
}
use sysd.Units.Fields.Values.{parse_u32, parse_duration, parse_memory, parse_calendar_spec}

unfoldable pub listening : ListenType → List String → List Listener
listening t [] = []
listening t (address ∷ rest) = record { address = address; listen_type = t } ∷ listening t rest

unfoldable pub calendar_specs : List String → List CalendarSpec
calendar_specs [] = []
calendar_specs (raw ∷ rest) = parse_calendar_spec raw ∷ calendar_specs rest

unfoldable pub apply_mount_section : MountSection → SectionView → MountSection
apply_mount_section mount view = record mount {
  what = unwrap_or "" (first_string view "WHAT");
  where_ = unwrap_or "" (first_string view "WHERE");
  fs_type = first_string view "TYPE";
  options = first_string view "OPTIONS";
  sloppy_options = unwrap_or mount.sloppy_options (first_bool view "SLOPPYOPTIONS");
  lazy_unmount = unwrap_or mount.lazy_unmount (first_bool view "LAZYUNMOUNT");
  force_unmount = unwrap_or mount.force_unmount (first_bool view "FORCEUNMOUNT");
  read_write_only = unwrap_or mount.read_write_only (first_bool view "READWRITEONLY");
  directory_mode = first_parsed view "DIRECTORYMODE" parse_octal;
  timeout_sec = first_parsed view "TIMEOUTSEC" parse_duration;
}

unfoldable pub apply_socket_listeners : SocketSection → SectionView → SocketSection
apply_socket_listeners socket view = record socket {
  listeners =
      listening ListenType.stream (strings view "LISTENSTREAM")
      ++ listening ListenType.datagram (strings view "LISTENDATAGRAM")
      ++ listening ListenType.fifo (strings view "LISTENFIFO")
      ++ listening ListenType.netlink (strings view "LISTENNETLINK");
}

unfoldable pub apply_socket_fields : SocketSection → SectionView → SocketSection
apply_socket_fields socket view = record socket {
  accept = unwrap_or socket.accept (first_bool view "ACCEPT");
  service = first_string view "SERVICE";
  socket_mode = first_parsed view "SOCKETMODE" parse_octal;
  socket_user = first_string view "SOCKETUSER";
  socket_group = first_string view "SOCKETGROUP";
  fd_name = first_string view "FILEDESCRIPTORNAME";
  remove_on_stop = unwrap_or socket.remove_on_stop (first_bool view "REMOVEONSTOP");
  max_connections_per_source = first_parsed view "MAXCONNECTIONSPERSOURCE" parse_u32;
  receive_buffer = first_parsed view "RECEIVEBUFFER" parse_memory;
  send_buffer = first_parsed view "SENDBUFFER" parse_memory;
  pass_credentials = unwrap_or socket.pass_credentials (first_bool view "PASSCREDENTIALS");
  pass_security = unwrap_or socket.pass_security (first_bool view "PASSSECURITY");
  symlinks = words view "SYMLINKS";
  defer_trigger = unwrap_or socket.defer_trigger (first_bool view "DEFERTRIGGER");
}

unfoldable pub apply_timer_section : TimerSection → SectionView → TimerSection
apply_timer_section timer view = record timer {
  on_calendar = calendar_specs (strings view "ONCALENDAR");
  on_boot_sec = first_parsed view "ONBOOTSEC" parse_duration;
  on_startup_sec = first_parsed view "ONSTARTUPSEC" parse_duration;
  on_active_sec = first_parsed view "ONACTIVESEC" parse_duration;
  on_unit_active_sec = first_parsed view "ONUNITACTIVESEC" parse_duration;
  on_unit_inactive_sec = first_parsed view "ONUNITINACTIVESEC" parse_duration;
  accuracy_sec = unwrap_or timer.accuracy_sec (first_parsed view "ACCURACYSEC" parse_duration);
  randomized_delay_sec = first_parsed view "RANDOMIZEDDELAYSEC" parse_duration;
  persistent = unwrap_or timer.persistent (first_bool view "PERSISTENT");
  wake_system = unwrap_or timer.wake_system (first_bool view "WAKESYSTEM");
  on_clock_change = unwrap_or timer.on_clock_change (first_bool view "ONCLOCKCHANGE");
  on_timezone_change = unwrap_or timer.on_timezone_change (first_bool view "ONTIMEZONECHANGE");
  unit = first_string view "UNIT";
}

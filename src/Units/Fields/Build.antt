-- ===== src/Units/Fields/Build.antt =====
-- Units from parsed unit files (the `parse_*` functions of src/units/parse_units.rs, whose results are
-- always `Ok`, and the `new` functions that they start from).
use Prim.Native.Char.{code}
use Prim.Native.String.{[] as empty, ◌∷◌ as front, ◌++◌}
use sysd.Prelude.{
  String, false, ◌==◌, string_eq, nat_eq, if◌then◌else◌, Option, none, unwrap_or, List, [],
}
use sysd.Text.{strip_end, trim_start_matches}
use sysd.Parser.{ParsedFile}
use sysd.Units.Names.{extract_instance}
use sysd.Units.Defaults.{default_unit_section, default_service_section, default_install_section}
use sysd.Units.Sections.{UnitSection, ServiceSection}
use sysd.Units.Kinds.{
  Service, Target, Mount, MountSection, Slice, SocketSection, Socket, Timer, PathSection, PathUnit,
}
use sysd.Units.Made.{new_target, new_mount, new_slice, new_timer}
use sysd.Units.Fields.{
  apply_unit_core, apply_unit_conditions, apply_unit_service_extras, apply_install_core,
  apply_install_extended, apply_install_without_default_instance,
}
use sysd.Units.Fields.View.{
  SectionView, view_of, strings, first_string, first_bool, first_parsed, parse_octal,
}
use sysd.Units.Fields.Services.{
  apply_service_exec_and_restart, apply_service_identity, apply_service_environment,
  apply_service_stdio, apply_service_limits, apply_service_security_core,
  apply_service_security_paths, apply_service_security_extended, apply_service_process_control,
}
use sysd.Units.Fields.Others.{
  apply_mount_section, apply_socket_listeners, apply_socket_fields, apply_timer_section,
}

unfoldable pub new_service : String → Service
new_service name = record {
  name = name;
  instance_name = extract_instance name;
  unit = default_unit_section;
  service = default_service_section;
  install = default_install_section;
}

unfoldable pub new_path : String → PathUnit
new_path name = record {
  name = name;
  unit = default_unit_section;
  path = record {
    path_exists = [];
    path_exists_glob = [];
    path_changed = [];
    path_modified = [];
    directory_not_empty = [];
    unit = none;
    make_directory = false;
    directory_mode = none;
    trigger_limit_interval_sec = none;
    trigger_limit_burst = none;
  };
  install = default_install_section;
}

unfoldable pub new_socket : String → Socket
new_socket name = record {
  name = name;
  unit = default_unit_section;
  socket = record {
    listeners = [];
    accept = false;
    service = none;
    socket_mode = none;
    socket_user = none;
    socket_group = none;
    fd_name = none;
    remove_on_stop = false;
    max_connections_per_source = none;
    receive_buffer = none;
    send_buffer = none;
    pass_credentials = false;
    pass_security = false;
    symlinks = [];
    defer_trigger = false;
  };
  install = default_install_section;
}

-- The core and the conditions, as most kinds of units read them.
abbrev unit_of : SectionView → UnitSection → UnitSection
unit_of view unit = apply_unit_conditions (apply_unit_core unit view) view

abbrev service_section_of :
    (String → Option (List String)) → SectionView → ServiceSection → ServiceSection
service_section_of shlex_split view service =
    let s₁ = apply_service_identity (apply_service_exec_and_restart service view) view in
    let s₂ = apply_service_stdio (apply_service_environment shlex_split s₁ view) view in
    let s₃ = apply_service_security_core (apply_service_limits s₂ view) view in
    let s₄ = apply_service_security_extended (apply_service_security_paths s₃ view) view in
    apply_service_process_control s₄ view

unfoldable pub parse_service : (String → Option (List String)) → String → ParsedFile → Service
unfolding new_service
parse_service shlex_split name parsed =
    let service = new_service name in
    let unit_view = view_of parsed "[Unit]" in
    record service {
      unit = apply_unit_service_extras (unit_of unit_view service.unit) unit_view;
      service = service_section_of shlex_split (view_of parsed "[Service]") service.service;
      install = apply_install_extended service.install (view_of parsed "[Install]");
    }

unfoldable pub parse_target : String → ParsedFile → Target
parse_target name parsed =
    let target = new_target name in
    record target { unit = unit_of (view_of parsed "[Unit]") target.unit }

abbrev path_of : SectionView → PathSection → PathSection
path_of view path = record path {
  path_exists = strings view "PATHEXISTS";
  path_exists_glob = strings view "PATHEXISTSGLOB";
  path_changed = strings view "PATHCHANGED";
  path_modified = strings view "PATHMODIFIED";
  directory_not_empty = strings view "DIRECTORYNOTEMPTY";
  unit = first_string view "UNIT";
  make_directory = unwrap_or path.make_directory (first_bool view "MAKEDIRECTORY");
  directory_mode = first_parsed view "DIRECTORYMODE" parse_octal;
}

unfoldable pub parse_path_unit : String → ParsedFile → PathUnit
unfolding new_path
parse_path_unit name parsed =
    let path_unit = new_path name in
    record path_unit {
      unit = apply_unit_core path_unit.unit (view_of parsed "[Unit]");
      path = path_of (view_of parsed "[Path]") path_unit.path;
      install =
          apply_install_without_default_instance path_unit.install (view_of parsed "[Install]");
    }

unfoldable pub parse_slice : String → ParsedFile → Slice
parse_slice name parsed =
    let slice = new_slice name in
    record slice { unit = unit_of (view_of parsed "[Unit]") slice.unit }

-- The characters of a mount point: a dash is a slash, and a backslash before a dash goes.
unfoldable pub unescaped : String → String
unescaped empty = ""
unescaped (front c empty) = if code c == b'-' then "/" else front c ""
unescaped (front c (front d s)) =
    let escaped = unescaped s in
    let rest = unescaped (front d s) in
    if code c == b'-'
    then "/" ++ rest
    else if code c == 92
    then (if code d == b'-' then "-" ++ escaped else front c rest)
    else front c rest

unfoldable pub mount_point_from_name : String → String
unfolding unescaped
mount_point_from_name name =
    let stem = unwrap_or name (strip_end ".mount" name) in
    if stem == "-" then "/" else "/" ++ unescaped stem

abbrev mount_of : String → MountSection → MountSection
mount_of name mount =
    if mount.where_ == "" then record mount { where_ = mount_point_from_name name } else mount

unfoldable pub parse_mount : String → ParsedFile → Mount
parse_mount name parsed =
    let mount = new_mount name in
    record mount {
      unit = unit_of (view_of parsed "[Unit]") mount.unit;
      mount = mount_of name (apply_mount_section mount.mount (view_of parsed "[Mount]"));
      install = apply_install_core mount.install (view_of parsed "[Install]");
    }

abbrev socket_of : SectionView → SocketSection → SocketSection
socket_of view socket = apply_socket_fields (apply_socket_listeners socket view) view

unfoldable pub parse_socket : String → ParsedFile → Socket
unfolding new_socket
parse_socket name parsed =
    let socket = new_socket name in
    record socket {
      unit = unit_of (view_of parsed "[Unit]") socket.unit;
      socket = socket_of (view_of parsed "[Socket]") socket.socket;
      install = apply_install_extended socket.install (view_of parsed "[Install]");
    }

unfoldable pub parse_timer : String → ParsedFile → Timer
parse_timer name parsed =
    let timer = new_timer name in
    record timer {
      unit = unit_of (view_of parsed "[Unit]") timer.unit;
      timer = apply_timer_section timer.timer (view_of parsed "[Timer]");
      install = apply_install_extended timer.install (view_of parsed "[Install]");
    }

-- What the code calls escaping: both slashes and dashes become dashes.
unfoldable pub dashed : String → String
dashed empty = ""
dashed (front c s) = if code c == b'/' then "-" ++ dashed s else front c (dashed s)

unfoldable pub name_from_mount_point : String → String
unfolding dashed
name_from_mount_point path =
    let stem = trim_start_matches b'/' path in
    if stem == "" then "-.mount" else dashed stem ++ ".mount"

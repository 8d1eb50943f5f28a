-- ===== src/Units/Words.antt =====
-- The words of a unit file's directives (the `parse` functions of src/units/service.rs).
use Prim.Native.Char.{Char, code}
use Prim.Native.String.{String, [] as empty, ◌∷◌ as front, char_at}
use sysd.Prelude.{
  ◌-◌, ◌≡◌, refl, ◌&&◌, ◌||◌, Option, none, some, ◌==◌, nat_eq, string_eq, leb, if◌then◌else◌,
}
use sysd.Units.Enums.{
  ServiceType, RestartPolicy, KillMode, StdOutput, StdInput, NotifyAccess, DevicePolicy,
  RuntimeDirectoryPreserve, ProtectSystem, ProtectHome, ProtectProc,
}

-- U+212A, the Kelvin sign, is the one character outside ASCII whose lower case is an ASCII letter.
-- Other characters outside ASCII stay here as they are: their lower cases hold a character outside
-- ASCII too, so that a text with one of them equals no word below, with or without the change.
lower_char : Char → Char
lower_char c =
    if leb 65 (code c) && leb (code c) 90
    then char_at "abcdefghijklmnopqrstuvwxyz" (code c - 65)
    else if code c == 8490
    then char_at "k" 0
    else c

-- `str::to_lowercase`, as far as a comparison with an ASCII word can tell.
unfoldable pub to_lowercase : String → String
unfolding lower_char
to_lowercase empty = empty
to_lowercase (front c s) = front (lower_char c) (to_lowercase s)

unfoldable pub parse_service_type : String → Option ServiceType
parse_service_type s =
    let word = to_lowercase s in
    if word == "simple"
    then some ServiceType.simple
    else if word == "forking"
    then some ServiceType.forking
    else if word == "notify" || word == "notify-reload"
    then some ServiceType.notify
    else if word == "dbus"
    then some ServiceType.dbus
    else if word == "oneshot"
    then some ServiceType.oneshot
    else if word == "idle"
    then some ServiceType.idle
    else none

unfoldable pub parse_restart_policy : String → Option RestartPolicy
parse_restart_policy s =
    let word = to_lowercase s in
    if word == "no"
    then some RestartPolicy.no
    else if word == "on-failure"
    then some RestartPolicy.on_failure
    else if word == "always"
    then some RestartPolicy.always
    else none

unfoldable pub parse_kill_mode : String → Option KillMode
parse_kill_mode s =
    let word = to_lowercase s in
    if word == "control-group"
    then some KillMode.control_group
    else if word == "process"
    then some KillMode.process
    else if word == "mixed"
    then some KillMode.mixed
    else if word == "none"
    then some KillMode.none
    else none

unfoldable pub parse_std_output : String → Option StdOutput
parse_std_output s =
    let word = to_lowercase s in
    if word == "journal"
    then some StdOutput.journal
    else if word == "inherit"
    then some StdOutput.inherit
    else if word == "null" || word == "/dev/null"
    then some StdOutput.null
    else none

unfoldable pub parse_std_input : String → Option StdInput
parse_std_input s =
    let word = to_lowercase s in
    if word == "null" || word == "/dev/null"
    then some StdInput.null
    else if word == "tty"
    then some StdInput.tty
    else if word == "tty-force"
    then some StdInput.tty_force
    else if word == "tty-fail"
    then some StdInput.tty_fail
    else none

unfoldable pub parse_notify_access : String → Option NotifyAccess
parse_notify_access s =
    let word = to_lowercase s in
    if word == "none"
    then some NotifyAccess.none
    else if word == "main"
    then some NotifyAccess.main
    else if word == "exec"
    then some NotifyAccess.exec
    else if word == "all"
    then some NotifyAccess.all
    else none

unfoldable pub parse_device_policy : String → Option DevicePolicy
parse_device_policy s =
    let word = to_lowercase s in
    if word == "auto"
    then some DevicePolicy.auto
    else if word == "closed"
    then some DevicePolicy.closed
    else if word == "strict"
    then some DevicePolicy.strict
    else none

unfoldable pub parse_runtime_directory_preserve : String → Option RuntimeDirectoryPreserve
parse_runtime_directory_preserve s =
    let word = to_lowercase s in
    if word == "no" || word == "false" || word == "0"
    then some RuntimeDirectoryPreserve.no
    else if word == "yes" || word == "true" || word == "1"
    then some RuntimeDirectoryPreserve.yes
    else if word == "restart"
    then some RuntimeDirectoryPreserve.restart
    else none

unfoldable pub parse_protect_system : String → Option ProtectSystem
parse_protect_system s =
    let word = to_lowercase s in
    if word == "no" || word == "false" || word == "0"
    then some ProtectSystem.no
    else if word == "yes" || word == "true" || word == "1"
    then some ProtectSystem.yes
    else if word == "full"
    then some ProtectSystem.full
    else if word == "strict"
    then some ProtectSystem.strict
    else none

unfoldable pub parse_protect_home : String → Option ProtectHome
parse_protect_home s =
    let word = to_lowercase s in
    if word == "no" || word == "false" || word == "0"
    then some ProtectHome.no
    else if word == "yes" || word == "true" || word == "1"
    then some ProtectHome.yes
    else if word == "read-only"
    then some ProtectHome.read_only
    else if word == "tmpfs"
    then some ProtectHome.tmpfs
    else none

unfoldable pub parse_protect_proc : String → Option ProtectProc
parse_protect_proc s =
    let word = to_lowercase s in
    if word == "default"
    then some ProtectProc.default
    else if word == "invisible"
    then some ProtectProc.invisible
    else if word == "ptraceable"
    then some ProtectProc.ptraceable
    else if word == "noaccess"
    then some ProtectProc.no_access
    else none

words_test :
    (parse_service_type "Forking" ≡ some ServiceType.forking)
    × (parse_kill_mode "CONTROL-group" ≡ some KillMode.control_group)
    × (parse_protect_proc "no-access" ≡ none)
unfolding parse_service_type parse_kill_mode parse_protect_proc to_lowercase
words_test = (refl, refl, refl)

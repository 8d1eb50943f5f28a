-- ===== src/Manager/Mounts/Options.antt =====
-- The options of a mount (src/manager/mount_ops_impl.rs). A mask of flags is the list of its flags.
use sysd.Prelude.{
  String, Bool, true, false, not, ◌&&◌, ◌||◌, ◌==◌, string_eq, Option, none, some, List, [], ◌∷◌,
  Map, get, contains, keep, if◌then◌else◌,
}
use sysd.Text.{starts_with, strip_text, split, trim, join}

pub data MsFlag : Type 0 where
  rdonly nosuid nodev noexec noatime nodiratime relatime strictatime synchronous dirsync silent bind
        move remount :
      MsFlag

pub data ParsedMountOption : Type 0 where
  flag : MsFlag → ParsedMountOption
  data_option graceful : String → ParsedMountOption
  ignore : ParsedMountOption

unfoldable pub should_ignore_mount_option : String → Bool
should_ignore_mount_option option =
    starts_with "x-systemd." option
    || starts_with "x-" option
    || option == "_netdev"
    || option == "nofail"
    || starts_with "comment=" option

unfoldable pub parse_nonstandard_mount_option : String → ParsedMountOption
unfolding should_ignore_mount_option
parse_nonstandard_mount_option option = elim (strip_text "x-systemd.graceful-option=" option) [
  | some graceful_option ↦ graceful graceful_option
  | none ↦ if should_ignore_mount_option option then ignore else data_option option
]

abbrev standard_options : Map String ParsedMountOption
standard_options =
    ("ro", flag MsFlag.rdonly)
    ∷ ("read-only", flag MsFlag.rdonly)
    ∷ ("rw", ignore)
    ∷ ("defaults", ignore)
    ∷ ("nosuid", flag MsFlag.nosuid)
    ∷ ("nodev", flag MsFlag.nodev)
    ∷ ("noexec", flag MsFlag.noexec)
    ∷ ("noatime", flag MsFlag.noatime)
    ∷ ("nodiratime", flag MsFlag.nodiratime)
    ∷ ("relatime", flag MsFlag.relatime)
    ∷ ("strictatime", flag MsFlag.strictatime)
    ∷ ("sync", flag MsFlag.synchronous)
    ∷ ("dirsync", flag MsFlag.dirsync)
    ∷ ("silent", flag MsFlag.silent)
    ∷ ("bind", flag MsFlag.bind)
    ∷ ("move", flag MsFlag.move)
    ∷ ("remount", flag MsFlag.remount)
    ∷ []

unfoldable pub parse_mount_option : String → ParsedMountOption
unfolding parse_nonstandard_mount_option
parse_mount_option option = elim (get standard_options option) [
  | some parsed ↦ parsed
  | none ↦ parse_nonstandard_mount_option option
]

pub record MountOptions : Type 0 where
  pub flags : List MsFlag
  pub data_options : List String
  pub graceful_options : List String

abbrev pub with_option : ParsedMountOption → MountOptions → MountOptions
with_option (flag f) o = record o { flags = f ∷ o.flags }
with_option (data_option text) o = record o { data_options = text ∷ o.data_options }
with_option (graceful text) o = record o {
  data_options = text ∷ o.data_options;
  graceful_options = text ∷ o.graceful_options;
}
with_option ignore o = o

-- The loop over the options, each put before those that the rest of the loop pushes.
unfoldable pub options_loop : List String → MountOptions
unfolding parse_mount_option
options_loop [] = record { flags = []; data_options = []; graceful_options = [] }
options_loop (opt ∷ rest) = with_option (parse_mount_option (trim opt)) (options_loop rest)

unfoldable pub parse_mount_options : String → MountOptions
unfolding options_loop
parse_mount_options options = options_loop (split b',' options)

unfoldable pub mount_data_string : List String → Option String
mount_data_string [] = none
mount_data_string (o ∷ os) = some (join "," (o ∷ os))

unfoldable pub filter_out_graceful_options : List String → List String → List String
filter_out_graceful_options data_options graceful_options =
    keep (λ option. not (contains graceful_options option)) data_options

-- What the system call answers: that it has been done, or an error, with whether it is EINVAL.
pub data SystemResult : Type 0 where
  done : SystemResult
  refused : (is_invalid : Bool) (text : String) → SystemResult

abbrev is_empty : List String → Bool
is_empty [] = true
is_empty (x ∷ xs) = false

unfoldable pub should_retry_without_graceful : SystemResult → List String → Bool
should_retry_without_graceful done graceful_options = false
should_retry_without_graceful (refused is_invalid text) graceful_options =
    is_invalid && not (is_empty graceful_options)

-- `nix::mount::mount`, with the source, the target, the type, the flags and the data.
abbrev pub MountCall : Type 0
MountCall = String → String → String → List MsFlag → Option String → SystemResult

unfoldable pub mount_with_graceful_retry :
    MountCall → String → String → String → MountOptions → SystemResult
unfolding should_retry_without_graceful filter_out_graceful_options mount_data_string
mount_with_graceful_retry call what mount_point fs_type o =
    let result = call what mount_point fs_type o.flags (mount_data_string o.data_options) in
    let filtered = filter_out_graceful_options o.data_options o.graceful_options in
    if should_retry_without_graceful result o.graceful_options
    then call what mount_point fs_type o.flags (mount_data_string filtered)
    else result

-- ===== src/Manager/Mounts/Tests.antt =====
-- Tests of mount units.
use sysd.Prelude.{
  String, ◌≡◌, refl, Bool, true, false, Option, none, some, List, [], ◌∷◌, get, string_eq,
}
use sysd.State
use sysd.State.{ActiveState}
use sysd.DynamicUser
use sysd.Units.Kinds.{Mount}
use sysd.Units.Made.{new_mount}
use sysd.Manager.{Manager}
use sysd.Manager.Mounts.{Mounting, is_mounted, start_mount, mount_unit}
use sysd.Manager.Mounts.Options.{SystemResult, done, refused, MsFlag, parse_mount_options}
use sysd.Manager.Mounts.Settled.{Settles, start_mount-Settles}

parse_mount_options_example :
    parse_mount_options "rw, nosuid,size=1m,x-systemd.graceful-option=usrquota,nofail" ≡ record {
      flags = MsFlag.nosuid ∷ [];
      data_options = "size=1m" ∷ "usrquota" ∷ [];
      graceful_options = "usrquota" ∷ [];
    }
unfolding parse_mount_options sysd.Text.split get sysd.Text.trim sysd.Text.is_whitespace
    sysd.Text.strip_text sysd.Text.starts_with
parse_mount_options_example = refl

is_mounted_example :
    is_mounted (some "tmpfs / x\ntmpfs /my\\040dir/ tmpfs rw 0 0\n") "/my dir" ≡ true
unfolding is_mounted sysd.Text.lines sysd.Text.split_whitespace sysd.Prelude.keep
    sysd.Text.is_whitespace sysd.Text.replace sysd.Text.starts_with sysd.Text.trim_end_matches
is_mounted_example = refl

abbrev tmp : Mount
tmp = record (new_mount "tmp.mount") {
  mount = record (new_mount "tmp.mount").mount {
    what = "tmpfs";
    where_ = "/tmp";
    options = some "x-systemd.graceful-option=usrquota";
  };
}

-- The kernel refuses every option that it is given.
abbrev no_options : Mounting
no_options = record {
  table = none;
  mount_call = λ what where_ fs_type flags text. elim text [
    | none ↦ done
    | some options ↦ refused true "EINVAL: Invalid argument"
  ];
  umount_call = λ where_ lazy_ force. done;
}

mount_unit_example : mount_unit no_options tmp ≡ done
unfolding mount_unit sysd.Manager.Mounts.Options.mount_with_graceful_retry parse_mount_options
    sysd.Text.split sysd.Text.replace sysd.Text.starts_with get sysd.Text.trim
    sysd.Text.is_whitespace sysd.Prelude.keep sysd.Prelude.contains
mount_unit_example = refl

abbrev one_mount : Manager
one_mount = record {
  units = [];
  states = ("tmp.mount", State.new 0) ∷ [];
  processes = [];
  unit_paths = [];
  waiting_ready = [];
  cgroup_paths = [];
  pid_files = [];
  active_jobs = 0;
  waiting_bus_name = [];
  watchdog_deadlines = [];
  dynamic_user_manager = DynamicUser.new;
  dynamic_uids = [];
  fd_store = [];
  pid_to_service = [];
  pending_oneshot_cmds = [];
  socket_fds = [];
  user_environment = [];
  closed = [];
}

start_mount-Settles_example :
    Settles ActiveState.active "tmp.mount" (start_mount no_options 1 2 "tmp.mount" tmp one_mount)
unfolding get State.is_active State.new
start_mount-Settles_example =
    start_mount-Settles no_options 1 2 "tmp.mount" tmp one_mount (State.new 0) refl refl

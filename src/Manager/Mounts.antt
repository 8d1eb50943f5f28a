-- ===== src/Manager/Mounts.antt =====
-- Mount units (src/manager/mount_ops_impl.rs). The system calls and the texts of their errors are
-- parameters, and so is what is mounted: the contents of /proc/mounts. The directory of the mount
-- point and the kernel's log are left out.
pub mod Options
pub mod Settled
mod Tests
use Prim.Native.String.{◌++◌ as append}
use sysd.Prelude.{
  String, Bool, true, false, not, ◌||◌, ◌==◌, string_eq, pos, Option, none, some, List, [], ◌∷◌,
  get, if◌then◌else◌, map_or, unwrap_or,
}
use sysd.Text.{lines, split_whitespace, replace, trim_end_matches}
use sysd.Units.Kinds.{Mount}
use sysd.State.{
  Instant, ServiceState, set_starting, set_running, set_stopping, set_stopped, set_failed,
  is_active,
}
use sysd.Manager.{Manager, ManagerError, Result, ok, err, Outcome}
use sysd.Manager.Watched.{with_state, unless_active, when_active}
use sysd.Manager.Mounts.Options.{
  SystemResult, done, refused, MountCall, parse_mount_options, mount_with_graceful_retry,
}

abbrev normalized : String → String
normalized path = if path == "/" then path else trim_end_matches b'/' path

unfoldable pub unescape_mount_point : String → String
unescape_mount_point raw =
    replace "\\134" "\\" (replace "\\012" "\n" (replace "\\011" "\t" (replace "\\040" " " raw)))

abbrev stands_in : String → List String → Bool
stands_in path [] = false
stands_in path (what ∷ []) = false
stands_in path (what ∷ mount_point ∷ rest) =
    normalized (unescape_mount_point mount_point) == normalized path

unfoldable pub any_line : String → List String → Bool
unfolding unescape_mount_point
any_line path [] = false
any_line path (line ∷ rest) = stands_in path (split_whitespace line) || any_line path rest

-- `none` stands for a table that cannot be read.
unfoldable pub is_mounted : Option String → String → Bool
unfolding any_line
is_mounted table path = map_or false (λ content. any_line path (lines content)) table

unfoldable pub finalize_mount_result :
    Instant → String → Mount → SystemResult → Manager → Outcome {0} Unit
finalize_mount_result now name mnt done m = (ok tt, with_state name (set_running 0 now) m)
finalize_mount_result now name mnt (refused is_invalid text) m =
    let msg =
      append "mount " (
        append mnt.mount.what
          (append " at " (append mnt.mount.where_ (append " failed: " text)))) in
    (err (ManagerError.io msg), with_state name (set_failed msg now) m)

unfoldable pub finalize_umount_result : Instant → String → SystemResult → Manager → Outcome {0} Unit
finalize_umount_result now name done m = (ok tt, with_state name (set_stopped (pos 0) now) m)
finalize_umount_result now name (refused is_invalid text) m =
    let msg = append "umount failed: " text in
    (err (ManagerError.io msg), with_state name (set_failed msg now) m)

-- What mounting and unmounting call; the two Booleans are MNT_DETACH and MNT_FORCE.
pub record Mounting : Type 0 where
  pub table : Option String
  pub mount_call : MountCall
  pub umount_call : String → (lazy_ force : Bool) → SystemResult

unfoldable pub mount_unit : Mounting → Mount → SystemResult
mount_unit sys mnt =
    let options = replace "%%" "%" (unwrap_or "defaults" mnt.mount.options) in
    mount_with_graceful_retry sys.mount_call mnt.mount.what mnt.mount.where_
      (unwrap_or "auto" mnt.mount.fs_type) (parse_mount_options options)

unfoldable pub mount_started : Mounting → Instant → String → Mount → Manager → Outcome {0} Unit
unfolding is_mounted mount_unit finalize_mount_result
mount_started sys now name mnt m =
    if is_mounted sys.table mnt.mount.where_
    then (ok tt, with_state name (set_running 0 now) m)
    else finalize_mount_result now name mnt (mount_unit sys mnt) m

unfoldable pub start_mount :
    Mounting → Instant → Instant → String → Mount → Manager → Outcome {0} Unit
unfolding mount_started
start_mount sys now now' name mnt m =
    unless_active (get m.states name) name m
      (mount_started sys now' name mnt (with_state name (set_starting now) m))

unfoldable pub mount_stopped : Mounting → Instant → String → Mount → Manager → Outcome {0} Unit
unfolding is_mounted finalize_umount_result
mount_stopped sys now name mnt m =
    if not (is_mounted sys.table mnt.mount.where_)
    then (ok tt, with_state name (set_stopped (pos 0) now) m)
    else finalize_umount_result now name
        (sys.umount_call mnt.mount.where_ mnt.mount.lazy_unmount mnt.mount.force_unmount) m

unfoldable pub stop_mount :
    Mounting → Instant → Instant → String → Mount → Manager → Outcome {0} Unit
unfolding mount_stopped
stop_mount sys now now' name mnt m =
    when_active (get m.states name) name m
      (mount_stopped sys now' name mnt (with_state name (set_stopping now) m))

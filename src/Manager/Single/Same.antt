-- ===== src/Manager/Single/Same.antt =====
-- The operations that leave the dynamic user ids as they are: loading, and the starts and stops of the
-- units that are no services (src/manager/mod_impl and the operations of each kind of unit).
use sysd.Prelude.{
  ℕ, String, refl, ◌∙◌, Bool, true, false, not, Option, none, some, List, get, has_key, string_eq,
  if◌then◌else◌,
}
use sysd.Units.Kinds.{Mount, Socket, AnyUnit}
use sysd.Units.Names.{is_bare_template}
use sysd.State.{Instant, ServiceState, is_active}
use sysd.Manager.{Manager, RawFd, Result, ok, err, Outcome, ◌>>=◌, normalize_name}
use sysd.Manager.Load.{
  Disk, LoadNameResolution, continue, already_loaded, find_unit, parse_unit_file, resolved_as,
  instantiated, default_instance_for_unit, template_read, template_found, resolve_load_name,
  resolve_canonical_unit_name, read_file, load_canonical, load_found, load_resolved, load,
}
use sysd.Manager.Service.Accounts.{SameUids}
use sysd.Manager.Watched.{unless_active, when_active}
use sysd.Manager.Mounts.Options.{SystemResult, done, refused}
use sysd.Manager.Mounts.{
  Mounting, is_mounted, mount_unit, mount_started, mount_stopped, finalize_mount_result,
  finalize_umount_result, start_mount, stop_mount,
}
use sysd.Manager.Sockets.{
  SocketCalls, Opening, opened, broken, socket_started, close_sockets, start_socket, stop_socket,
}

pub then-SameUids : (a b c : Manager) → SameUids a b → SameUids b c → SameUids a c
then-SameUids a b c s t = (t.0 ∙ s.0, t.1 ∙ s.1)

module _ {A : Type 0} (m : Manager) where
  pub if-SameUids :
      (b : Bool) (o p : Outcome A)
      → SameUids m o.1
      → SameUids m p.1
      → SameUids m (if b then o else p).1
  if-SameUids true o p s t = s
  if-SameUids false o p s t = t

  pub bind-SameUids :
      {B : Type 0} (o : Outcome A) (f : A → Manager → Outcome B)
      → SameUids m o.1
      → ((a : A) (n : Manager) → SameUids n (f a n).1)
      → SameUids m (o >>= f).1
  bind-SameUids (ok a, n) f s t = then-SameUids m n (f a n).1 s (t a n)
  bind-SameUids (err e, n) f s t = s

  pub unless_active-SameUids :
      (o : Option ServiceState) (name : String) (go : Outcome A)
      → SameUids m go.1
      → SameUids m (unless_active o name m go).1
  unless_active-SameUids none name go s = (refl, refl)
  unless_active-SameUids (some state) name go s = if-SameUids (is_active state) _ go (refl, refl) s

  pub when_active-SameUids :
      (o : Option ServiceState) (name : String) (go : Outcome A)
      → SameUids m go.1
      → SameUids m (when_active o name m go).1
  when_active-SameUids none name go s = (refl, refl)
  when_active-SameUids (some state) name go s = if-SameUids (is_active state) go _ s (refl, refl)

resolved_as-SameUids :
    (o : Option String) (name : String) (now : Instant) (unit : AnyUnit) (m : Manager)
    → SameUids m (resolved_as o name now unit m).1
resolved_as-SameUids none name now unit m = (refl, refl)
resolved_as-SameUids (some named) name now unit m = (refl, refl)

template_read-SameUids :
    (name : String) (now : Instant) (m : Manager) (r : Result AnyUnit)
    → SameUids m (template_read name now m r).1
template_read-SameUids name now m (err e) = (refl, refl)
template_read-SameUids name now m (ok unit) =
    resolved_as-SameUids (instantiated name (default_instance_for_unit unit)) name now unit m

template_found-SameUids :
    (d : Disk) (name : String) (now : Instant) (m : Manager) (r : Result String)
    → SameUids m (template_found d name now m r).1
template_found-SameUids d name now m (err e) = (refl, refl)
template_found-SameUids d name now m (ok path) =
    template_read-SameUids name now m (parse_unit_file d path)

read_file-SameUids :
    (now : Instant) (name : String) (m : Manager) (r : Result AnyUnit)
    → SameUids m (read_file now name m r).1
read_file-SameUids now name m (err e) = (refl, refl)
read_file-SameUids now name m (ok unit) = (refl, refl)

load_canonical-SameUids :
    (d : Disk) (now : Instant) (path : String) (m : Manager) (r : Result String)
    → SameUids m (load_canonical d now path m r).1
load_canonical-SameUids d now path m (err e) = (refl, refl)
load_canonical-SameUids d now path m (ok name) =
    if-SameUids m (has_key m.units name) _ _ (refl, refl)
      (read_file-SameUids now name m (parse_unit_file d path))

load_found-SameUids :
    (d : Disk) (now : Instant) (name : String) (m : Manager) (r : Result String)
    → SameUids m (load_found d now name m r).1
load_found-SameUids d now name m (err e) = (refl, refl)
load_found-SameUids d now name m (ok path) =
    load_canonical-SameUids d now path m (resolve_canonical_unit_name d name path)

load_resolved-SameUids :
    (d : Disk) (now : Instant) (r : LoadNameResolution) (m : Manager)
    → SameUids m (load_resolved d now r m).1
load_resolved-SameUids d now (already_loaded name) m = (refl, refl)
load_resolved-SameUids d now (continue name) m =
    if-SameUids m (has_key m.units name) _ _ (refl, refl)
      (load_found-SameUids d now name m (find_unit d m name))

pub load-SameUids :
    (d : Disk) (now : Instant) (requested : String) (m : Manager)
    → SameUids m (load d now requested m).1
unfolding load resolve_load_name
load-SameUids d now requested m =
    bind-SameUids m (resolve_load_name d now requested m) (load_resolved d now)
      (if-SameUids m (not (is_bare_template (normalize_name requested))) _ _ (refl, refl)
        (template_found-SameUids d (normalize_name requested) now m
          (find_unit d m (normalize_name requested))))
      (load_resolved-SameUids d now)

finalize_mount_result-SameUids :
    (now : Instant) (name : String) (mnt : Mount) (r : SystemResult) (m : Manager)
    → SameUids m (finalize_mount_result now name mnt r m).1
unfolding finalize_mount_result
finalize_mount_result-SameUids now name mnt done m = (refl, refl)
finalize_mount_result-SameUids now name mnt (refused is_invalid text) m = (refl, refl)

finalize_umount_result-SameUids :
    (now : Instant) (name : String) (r : SystemResult) (m : Manager)
    → SameUids m (finalize_umount_result now name r m).1
unfolding finalize_umount_result
finalize_umount_result-SameUids now name done m = (refl, refl)
finalize_umount_result-SameUids now name (refused is_invalid text) m = (refl, refl)

socket_started-SameUids :
    (now : Instant) (name : String) (socket : Socket) (o : Opening) (m : Manager)
    → SameUids m (socket_started now name socket o m).1
socket_started-SameUids now name socket (opened fds) m = (refl, refl)
socket_started-SameUids now name socket (broken fds address e) m = (refl, refl)

close_sockets-SameUids :
    (name : String) (o : Option (List RawFd)) (m : Manager) → SameUids m (close_sockets name o m)
close_sockets-SameUids name none m = (refl, refl)
close_sockets-SameUids name (some fds) m = (refl, refl)

pub start_mount-SameUids :
    (sys : Mounting) (now now' : Instant) (name : String) (mnt : Mount) (m : Manager)
    → SameUids m (start_mount sys now now' name mnt m).1
unfolding start_mount mount_started
start_mount-SameUids sys now now' name mnt m = unless_active-SameUids m (get m.states name) name _ (
    if-SameUids m (is_mounted sys.table mnt.mount.where_) _ _ (refl, refl)
      (finalize_mount_result-SameUids now' name mnt (mount_unit sys mnt) _))

pub stop_mount-SameUids :
    (sys : Mounting) (now now' : Instant) (name : String) (mnt : Mount) (m : Manager)
    → SameUids m (stop_mount sys now now' name mnt m).1
unfolding stop_mount mount_stopped
stop_mount-SameUids sys now now' name mnt m = when_active-SameUids m (get m.states name) name _ (
    if-SameUids m (not (is_mounted sys.table mnt.mount.where_)) _ _ (refl, refl)
      (finalize_umount_result-SameUids now' name _ _))

pub start_socket-SameUids :
    (calls : ℕ → SocketCalls) (now now' : Instant) (name : String) (socket : Socket) (m : Manager)
    → SameUids m (start_socket calls now now' name socket m).1
unfolding start_socket
start_socket-SameUids calls now now' name socket m =
    unless_active-SameUids m (get m.states name) name _
      (socket_started-SameUids now' name socket _ _)

pub stop_socket-SameUids :
    (now now' : Instant) (name : String) (m : Manager) → SameUids m (stop_socket now now' name m).1
unfolding stop_socket
stop_socket-SameUids now now' name m =
    when_active-SameUids m (get m.states name) name _
      (close_sockets-SameUids name (get m.socket_fds name) _)

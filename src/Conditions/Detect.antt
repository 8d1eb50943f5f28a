-- ===== src/Conditions/Detect.antt =====
-- The container or virtual machine that the program runs in, from what the file system shows
-- (src/manager/conditions_impl.rs).
use sysd.Prelude.{
  String, ◌||◌, Option, none, some, List, [], ◌∷◌, map, if◌then◌else◌, ◌>>=◌, or_else, first_some,
  map_or,
}
use sysd.Text.{trim, split, strip_text, has_text}
use sysd.Units.Words.{to_lowercase}
use sysd.FileSystem.{FileSystem}
use sysd.Virtualization.{VirtualizationType, from_container_env}

unfoldable pub detect_container_from_marker_files : FileSystem → Option VirtualizationType
detect_container_from_marker_files fs =
    if fs.exists "/.dockerenv"
    then some VirtualizationType.docker
    else if fs.exists "/run/.containerenv"
    then some VirtualizationType.podman
    else none

abbrev container_of_environ : String → Option VirtualizationType
container_of_environ environ =
    let value = first_some (map (strip_text "container=") (split b'\0' environ)) in
    if has_text "container=" environ
    then some (map_or VirtualizationType.container from_container_env value)
    else none

unfoldable pub detect_container_from_environ : FileSystem → Option VirtualizationType
detect_container_from_environ fs = fs.read_to_string "/proc/1/environ" >>= container_of_environ

abbrev container_of_cgroup : String → Option VirtualizationType
container_of_cgroup cgroup =
    if has_text "/machine.slice/" cgroup || has_text "machine-" cgroup
    then some VirtualizationType.systemd_nspawn
    else none

unfoldable pub detect_container_from_cgroup : FileSystem → Option VirtualizationType
detect_container_from_cgroup fs = fs.read_to_string "/proc/1/cgroup" >>= container_of_cgroup

unfoldable pub detect_container : FileSystem → Option VirtualizationType
unfolding detect_container_from_marker_files detect_container_from_environ
    detect_container_from_cgroup
detect_container fs =
    or_else (or_else (detect_container_from_marker_files fs) (detect_container_from_environ fs))
      (detect_container_from_cgroup fs)

abbrev patterns : List (String × VirtualizationType)
patterns =
    ("virtualbox", VirtualizationType.virtual_box)
    ∷ ("innotek", VirtualizationType.virtual_box)
    ∷ ("oracle", VirtualizationType.virtual_box)
    ∷ ("vmware", VirtualizationType.vmware)
    ∷ ("qemu", VirtualizationType.qemu)
    ∷ ("kvm", VirtualizationType.qemu)
    ∷ ("bochs", VirtualizationType.bochs)
    ∷ ("xen", VirtualizationType.xen)
    ∷ ("hyper-v", VirtualizationType.hyper_v)
    ∷ ("microsoft", VirtualizationType.hyper_v)
    ∷ []

abbrev first_pattern : String → List (String × VirtualizationType) → Option VirtualizationType
first_pattern lower [] = none
first_pattern lower ((needle, vt) ∷ rest) =
    if has_text needle lower then some vt else first_pattern lower rest

abbrev vm_of_dmi : String → Option VirtualizationType
vm_of_dmi content = first_pattern (to_lowercase (trim content)) patterns

unfoldable pub detect_vm_from_dmi : FileSystem → String → Option VirtualizationType
detect_vm_from_dmi fs path = fs.read_to_string path >>= vm_of_dmi

unfoldable pub detect_vm : FileSystem → Option VirtualizationType
unfolding detect_vm_from_dmi
detect_vm fs =
    or_else (detect_vm_from_dmi fs "/sys/class/dmi/id/product_name")
      (detect_vm_from_dmi fs "/sys/class/dmi/id/sys_vendor")

unfoldable pub detect_virtualization : FileSystem → Option VirtualizationType
unfolding detect_container detect_vm
detect_virtualization fs = or_else (detect_container fs) (detect_vm fs)

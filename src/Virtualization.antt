-- ===== src/Virtualization.antt =====
-- The kinds of containers and virtual machines (src/manager/virtualization.rs).
use sysd.Prelude.{String, Bool, true, false, ◌||◌, ◌==◌, string_eq, if◌then◌else◌}
use sysd.Units.Words.{to_lowercase}

pub data VirtualizationType : Type 0 where
  docker podman lxc lxd systemd_nspawn container : VirtualizationType
  qemu virtual_box vmware xen hyper_v bochs vm : VirtualizationType

unfoldable pub is_container : VirtualizationType → Bool
is_container VirtualizationType.docker = true
is_container VirtualizationType.podman = true
is_container VirtualizationType.lxc = true
is_container VirtualizationType.lxd = true
is_container VirtualizationType.systemd_nspawn = true
is_container VirtualizationType.container = true
is_container _ = false

unfoldable pub is_vm : VirtualizationType → Bool
is_vm VirtualizationType.qemu = true
is_vm VirtualizationType.virtual_box = true
is_vm VirtualizationType.vmware = true
is_vm VirtualizationType.xen = true
is_vm VirtualizationType.hyper_v = true
is_vm VirtualizationType.bochs = true
is_vm VirtualizationType.vm = true
is_vm _ = false

abbrev is_name_of : VirtualizationType → String → Bool
is_name_of VirtualizationType.docker name = name == "docker"
is_name_of VirtualizationType.podman name = name == "podman"
is_name_of VirtualizationType.lxc name = name == "lxc"
is_name_of VirtualizationType.lxd name = name == "lxd" || name == "lxc-libvirt"
is_name_of VirtualizationType.systemd_nspawn name = name == "systemd-nspawn"
is_name_of VirtualizationType.container name = name == "container"
is_name_of VirtualizationType.qemu name = name == "qemu" || name == "kvm"
is_name_of VirtualizationType.virtual_box name = name == "oracle" || name == "virtualbox"
is_name_of VirtualizationType.vmware name = name == "vmware"
is_name_of VirtualizationType.xen name = name == "xen"
is_name_of VirtualizationType.hyper_v name = name == "microsoft" || name == "hyper-v"
is_name_of VirtualizationType.bochs name = name == "bochs"
is_name_of VirtualizationType.vm name = name == "vm"

unfoldable pub matches : VirtualizationType → String → Bool
matches v name = is_name_of v (to_lowercase name)

unfoldable pub from_container_env : String → VirtualizationType
from_container_env val =
    let word = to_lowercase val in
    if word == "docker"
    then VirtualizationType.docker
    else if word == "podman"
    then VirtualizationType.podman
    else if word == "lxc"
    then VirtualizationType.lxc
    else if word == "lxd" || word == "lxc-libvirt"
    then VirtualizationType.lxd
    else if word == "systemd-nspawn"
    then VirtualizationType.systemd_nspawn
    else VirtualizationType.container

-- What `{:?}` writes of a type.
unfoldable pub show_type : VirtualizationType → String
show_type VirtualizationType.docker = "Docker"
show_type VirtualizationType.podman = "Podman"
show_type VirtualizationType.lxc = "Lxc"
show_type VirtualizationType.lxd = "Lxd"
show_type VirtualizationType.systemd_nspawn = "SystemdNspawn"
show_type VirtualizationType.container = "Container"
show_type VirtualizationType.qemu = "Qemu"
show_type VirtualizationType.virtual_box = "VirtualBox"
show_type VirtualizationType.vmware = "VMware"
show_type VirtualizationType.xen = "Xen"
show_type VirtualizationType.hyper_v = "HyperV"
show_type VirtualizationType.bochs = "Bochs"
show_type VirtualizationType.vm = "Vm"

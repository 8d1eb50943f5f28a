-- ===== src/Conditions/Kinds.antt =====
-- The words of `ConditionVirtualization=` (src/manager/conditions_impl.rs).
use sysd.Prelude.{◌≡◌, refl, false, not, ◌&&◌, ◌||◌, Option, none, some, string_eq}
use sysd.Virtualization.{VirtualizationType, is_container, is_vm}
use sysd.Conditions.Checks.{check_virtualization_match_with}
use sysd.Units.Words.{to_lowercase}

-- Whatever was detected: `yes` holds when and only when one of `vm` and `container` does, never
-- both, and `no` holds when neither does.
pub check_virtualization_match_with_lem :
    (detected : Option VirtualizationType)
    → (check_virtualization_match_with detected "yes" ≡ (
        check_virtualization_match_with detected "vm"
        || check_virtualization_match_with detected "container"))
      × ((check_virtualization_match_with detected "vm"
            && check_virtualization_match_with detected "container")
          ≡ false)
      × (check_virtualization_match_with detected "no"
          ≡ not (check_virtualization_match_with detected "yes"))
unfolding check_virtualization_match_with is_container is_vm to_lowercase
check_virtualization_match_with_lem none = (refl, refl, refl)
check_virtualization_match_with_lem (some VirtualizationType.docker) = (refl, refl, refl)
check_virtualization_match_with_lem (some VirtualizationType.podman) = (refl, refl, refl)
check_virtualization_match_with_lem (some VirtualizationType.lxc) = (refl, refl, refl)
check_virtualization_match_with_lem (some VirtualizationType.lxd) = (refl, refl, refl)
check_virtualization_match_with_lem (some VirtualizationType.systemd_nspawn) = (refl, refl, refl)
check_virtualization_match_with_lem (some VirtualizationType.container) = (refl, refl, refl)
check_virtualization_match_with_lem (some VirtualizationType.qemu) = (refl, refl, refl)
check_virtualization_match_with_lem (some VirtualizationType.virtual_box) = (refl, refl, refl)
check_virtualization_match_with_lem (some VirtualizationType.vmware) = (refl, refl, refl)
check_virtualization_match_with_lem (some VirtualizationType.xen) = (refl, refl, refl)
check_virtualization_match_with_lem (some VirtualizationType.hyper_v) = (refl, refl, refl)
check_virtualization_match_with_lem (some VirtualizationType.bochs) = (refl, refl, refl)
check_virtualization_match_with_lem (some VirtualizationType.vm) = (refl, refl, refl)

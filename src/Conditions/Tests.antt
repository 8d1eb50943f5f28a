-- ===== src/Conditions/Tests.antt =====
-- Tests of the conditions, on a machine with few files.
use sysd.Prelude.{
  ◌≡◌, refl, String, Bool, true, false, not, Option, none, some, List, [], ◌∷◌, contains, string_eq,
  ◌==◌, if◌then◌else◌, ◌&&◌, is_some, ◌||◌,
}
use sysd.FileSystem.{FileSystem}
use sysd.Virtualization.{VirtualizationType}
use sysd.Units.Sections.{UnitSection}
use sysd.Units.Defaults.{default_unit_section}
use sysd.Conditions.Detect.{detect_virtualization}
use sysd.Conditions.Checks.{check_virtualization_match_with, check_capability, check_kernel_cmdline}
use sysd.Conditions.All.{check_conditions}
use sysd.Conditions.Sound.{check_conditions_lem}

abbrev machine : FileSystem
machine = record {
  exists = contains ("/etc/fstab" ∷ "/etc" ∷ []);
  is_dir = λ path. path == "/etc";
  read_to_string = λ path.
      if path == "/proc/cmdline"
      then some "quiet root=/dev/sda1\n"
      else if path == "/sys/class/dmi/id/sys_vendor"
      then some " QEMU\n"
      else if path == "/proc/self/status"
      then some "Name:\tsysd\nCapEff:\t0000000000000003\n"
      else none;
  read_dir = λ path. if path == "/etc" then some (some "fstab" ∷ []) else none;
  modified = λ path. none;
}

detect_virtualization_example : detect_virtualization machine ≡ some VirtualizationType.qemu
unfolding detect_virtualization contains sysd.Text.has_text sysd.Units.Words.to_lowercase
    sysd.Text.trim sysd.Text.is_whitespace
detect_virtualization_example = refl

check_capability_example : check_capability machine "cap_dac_override" ≡ true
unfolding check_capability sysd.Prelude.get sysd.Text.to_ascii_uppercase sysd.Text.lines
    sysd.Text.strip_text sysd.Text.from_str_radix sysd.Text.trim sysd.Text.is_whitespace
check_capability_example = refl

check_capability-absent_example : check_capability machine "CAP_KILL" ≡ false
unfolding check_capability sysd.Prelude.get sysd.Text.to_ascii_uppercase sysd.Text.lines
    sysd.Text.strip_text sysd.Text.from_str_radix sysd.Text.trim sysd.Text.is_whitespace
check_capability-absent_example = refl

check_kernel_cmdline_example : check_kernel_cmdline machine "root" ≡ true
unfolding check_kernel_cmdline sysd.Text.split_once contains sysd.Text.split_whitespace
    sysd.Prelude.keep sysd.Text.is_whitespace sysd.Text.strip_text
check_kernel_cmdline_example = refl

abbrev section : UnitSection
section = record default_unit_section {
  condition_path_exists = "!/etc/nologin" ∷ "|/etc/fstab" ∷ "|/etc/mtab" ∷ [];
  condition_virtualization = "!container" ∷ [];
}

abbrev failing_section : UnitSection
failing_section = record section { condition_kernel_command_line = "quiet=1" ∷ [] }

check_conditions_example : check_conditions machine section ≡ none
unfolding check_conditions sysd.Conditions.check_condition_list sysd.Text.strip_prefix contains
    default_unit_section check_virtualization_match_with sysd.Units.Words.to_lowercase
    detect_virtualization sysd.Text.has_text sysd.Text.trim sysd.Text.is_whitespace
    sysd.Virtualization.is_container sysd.Conditions.Checks.check_first_boot_condition
check_conditions_example = refl

check_conditions-failing_example :
    check_conditions machine failing_section
    ≡ some "ConditionKernelCommandLine=quiet=1 failed (parameter missing)"
unfolding check_conditions sysd.Conditions.check_condition_list sysd.Text.strip_prefix contains
    default_unit_section check_virtualization_match_with sysd.Units.Words.to_lowercase
    detect_virtualization sysd.Text.has_text sysd.Text.trim sysd.Text.is_whitespace
    sysd.Virtualization.is_container check_kernel_cmdline sysd.Text.split_once
    sysd.Text.split_whitespace sysd.Prelude.keep
check_conditions-failing_example = refl

check_conditions_lem_example : is_some (check_conditions machine failing_section) ≡ true
unfolding sysd.Conditions.Sound.holds sysd.Conditions.parse_condition sysd.Text.strip_prefix
    contains default_unit_section check_virtualization_match_with sysd.Units.Words.to_lowercase
    detect_virtualization sysd.Text.has_text sysd.Text.trim sysd.Text.is_whitespace
    sysd.Virtualization.is_container check_kernel_cmdline sysd.Text.split_once
    sysd.Text.split_whitespace sysd.Prelude.keep
check_conditions_lem_example = check_conditions_lem machine failing_section

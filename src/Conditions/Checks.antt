-- ===== src/Conditions/Checks.antt =====
-- The checks behind the conditions of a unit (src/manager/conditions_impl.rs). `update-done.d`, the
-- files of the kernel and those of the boot are read from the file system.
use Prim.Native.Char.{code}
use Prim.Native.String.{String, ◌++◌ as append}
use sysd.Prelude.{
  ℕ, ◌/◌, ◌%◌, ◌^◌, Bool, true, false, not, ◌&&◌, ◌||◌, ◌==◌, string_eq, nat_eq, ltb, Option, none,
  some, List, [], ◌∷◌, map, Map, get, contains, is_some, if◌then◌else◌, ◌>>=◌, map_or, first_some,
}
use sysd.Text.{
  trim, lines, strip_text, starts_with, has_text, split_once, split_whitespace, to_ascii_uppercase,
  from_str_radix,
}
use sysd.Text.Laws.{any_char}
use sysd.Units.Words.{to_lowercase}
use sysd.FileSystem.{FileSystem}
use sysd.Virtualization.{VirtualizationType, is_vm, is_container, matches}

unfoldable pub check_virtualization_match_with : Option VirtualizationType → String → Bool
check_virtualization_match_with detected check =
    let word = to_lowercase check in
    if word == "yes" || word == "true"
    then is_some detected
    else if word == "no" || word == "false"
    then not (is_some detected)
    else if word == "vm"
    then map_or false is_vm detected
    else if word == "container"
    then map_or false is_container detected
    else map_or false (λ v. matches v word) detected

unfoldable pub check_first_boot : FileSystem → Bool
check_first_boot fs =
    let is_blank =
      λ (id : String). trim id == "" || not (any_char (λ c. not (code c == b'0')) (trim id)) in
    if fs.exists "/run/systemd/first-boot"
    then true
    else map_or true is_blank (fs.read_to_string "/etc/machine-id")

unfoldable pub check_first_boot_condition : FileSystem → Option Bool → Option String
unfolding check_first_boot
check_first_boot_condition fs none = none
check_first_boot_condition fs (some first_boot_wanted) =
    if first_boot_wanted && not (check_first_boot fs)
    then some "ConditionFirstBoot=yes failed (not first boot)"
    else if not first_boot_wanted && check_first_boot fs
    then some "ConditionFirstBoot=no failed (is first boot)"
    else none

abbrev pub capability_numbers : Map String ℕ
capability_numbers =
    ("CAP_CHOWN", 0)
    ∷ ("CAP_DAC_OVERRIDE", 1)
    ∷ ("CAP_DAC_READ_SEARCH", 2)
    ∷ ("CAP_FOWNER", 3)
    ∷ ("CAP_FSETID", 4)
    ∷ ("CAP_KILL", 5)
    ∷ ("CAP_SETGID", 6)
    ∷ ("CAP_SETUID", 7)
    ∷ ("CAP_SETPCAP", 8)
    ∷ ("CAP_LINUX_IMMUTABLE", 9)
    ∷ ("CAP_NET_BIND_SERVICE", 10)
    ∷ ("CAP_NET_BROADCAST", 11)
    ∷ ("CAP_NET_ADMIN", 12)
    ∷ ("CAP_NET_RAW", 13)
    ∷ ("CAP_IPC_LOCK", 14)
    ∷ ("CAP_IPC_OWNER", 15)
    ∷ ("CAP_SYS_MODULE", 16)
    ∷ ("CAP_SYS_RAWIO", 17)
    ∷ ("CAP_SYS_CHROOT", 18)
    ∷ ("CAP_SYS_PTRACE", 19)
    ∷ ("CAP_SYS_PACCT", 20)
    ∷ ("CAP_SYS_ADMIN", 21)
    ∷ ("CAP_SYS_BOOT", 22)
    ∷ ("CAP_SYS_NICE", 23)
    ∷ ("CAP_SYS_RESOURCE", 24)
    ∷ ("CAP_SYS_TIME", 25)
    ∷ ("CAP_SYS_TTY_CONFIG", 26)
    ∷ ("CAP_MKNOD", 27)
    ∷ ("CAP_LEASE", 28)
    ∷ ("CAP_AUDIT_WRITE", 29)
    ∷ ("CAP_AUDIT_CONTROL", 30)
    ∷ ("CAP_SETFCAP", 31)
    ∷ ("CAP_MAC_OVERRIDE", 32)
    ∷ ("CAP_MAC_ADMIN", 33)
    ∷ ("CAP_SYSLOG", 34)
    ∷ ("CAP_WAKE_ALARM", 35)
    ∷ ("CAP_BLOCK_SUSPEND", 36)
    ∷ ("CAP_AUDIT_READ", 37)
    ∷ ("CAP_PERFMON", 38)
    ∷ ("CAP_BPF", 39)
    ∷ ("CAP_CHECKPOINT_RESTORE", 40)
    ∷ []

unfoldable pub capability_number : String → Option ℕ
capability_number name = get capability_numbers (to_ascii_uppercase name)

-- `(caps & (1u64 << cap_num)) != 0`.
abbrev has_bit : ℕ → ℕ → Bool
has_bit n caps = (caps / 2 ^ n) % 2 == 1

unfoldable pub check_capability : FileSystem → String → Bool
unfolding capability_number
check_capability fs cap_name =
    let effective = λ (status : String). first_some (map (strip_text "CapEff:\t") (lines status)) in
    let read = λ (hex : String). from_str_radix (2 ^ 64) 16 (trim hex) in
    map_or false
      (λ cap_num.
        map_or false (has_bit cap_num)
          (fs.read_to_string "/proc/self/status" >>= effective >>= read))
      (capability_number cap_name)

unfoldable pub has_parameter : String → String → Bool
has_parameter param cmdline =
    let parameters = split_whitespace cmdline in
    if is_some (split_once b'=' param)
    then contains parameters param
    else contains parameters param
      || is_some (first_some (map (strip_text (append param "=")) parameters))

unfoldable pub check_kernel_cmdline : FileSystem → String → Bool
unfolding has_parameter
check_kernel_cmdline fs param =
    map_or false (has_parameter param) (fs.read_to_string "/proc/cmdline")

abbrev any_name : String → List (Option String) → Bool
any_name prefix [] = false
any_name prefix (entry ∷ rest) = map_or false (starts_with prefix) entry || any_name prefix rest

unfoldable pub has_efi_var_prefix : FileSystem → String → Bool
has_efi_var_prefix fs prefix =
    map_or false (any_name prefix) (fs.read_dir "/sys/firmware/efi/efivars")

unfoldable pub is_confidential_vm : FileSystem → Bool
is_confidential_vm fs =
    fs.exists "/sys/kernel/security/coco/tdx_guest"
    || fs.exists "/sys/kernel/security/coco/sev_guest"
    || map_or false (has_text "SEV")
        (fs.read_to_string "/sys/devices/system/cpu/vulnerabilities/sev")

unfoldable pub check_security_framework : FileSystem → String → Bool
unfolding has_efi_var_prefix is_confidential_vm
check_security_framework fs framework =
    let word = to_lowercase framework in
    if word == "selinux"
    then fs.exists "/sys/fs/selinux"
    else if word == "apparmor"
    then fs.exists "/sys/kernel/security/apparmor"
    else if word == "smack"
    then fs.exists "/sys/fs/smackfs"
    else if word == "tomoyo"
    then fs.exists "/sys/kernel/security/tomoyo"
    else if word == "ima"
    then fs.exists "/sys/kernel/security/ima"
    else if word == "audit"
    then fs.exists "/proc/self/loginuid"
    else if word == "uefi-secureboot"
    then has_efi_var_prefix fs "SecureBoot-"
    else if word == "tpm2"
    then map_or false (λ v. trim v == "2")
        (fs.read_to_string "/sys/class/tpm/tpm0/tpm_version_major")
    else if word == "measured-uki"
    then has_efi_var_prefix fs "StubInfo-4a67b082-0a4c-41cf-b6c7-440b29bb8c4f"
    else if word == "cvm"
    then is_confidential_vm fs
    else false

-- The comparison of the two files' times, when the flag file exists.
abbrev is_newer : Bool → Option ℕ → Option ℕ → Bool
is_newer trigger none dir = trigger
is_newer trigger (some flag_mtime) none = false
is_newer trigger (some flag_mtime) (some dir_mtime) = ltb flag_mtime dir_mtime

abbrev needs_update_of : FileSystem → String → String → Bool → Bool
needs_update_of fs check_path flag_file trigger =
    if not (fs.exists flag_file)
    then true
    else is_newer trigger (fs.modified flag_file) (fs.modified check_path)

unfoldable pub check_needs_update : FileSystem → String → Bool → Bool
check_needs_update fs path trigger =
    let word = to_lowercase path in
    if word == "/etc"
    then needs_update_of fs "/etc" "/var/lib/systemd/update-done.d/etc" trigger
    else if word == "/var"
    then needs_update_of fs "/var" "/var/lib/systemd/update-done.d/var" trigger
    else false

abbrev has_entries : List (Option String) → Bool
has_entries [] = false
has_entries (entry ∷ rest) = true

unfoldable pub is_directory_not_empty : FileSystem → String → Bool
is_directory_not_empty fs path = fs.is_dir path && map_or false has_entries (fs.read_dir path)

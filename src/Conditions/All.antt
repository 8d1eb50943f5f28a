-- ===== src/Conditions/All.antt =====
-- All the conditions of a unit (`check_conditions` of src/manager/conditions_impl.rs).
use Prim.Native.String.{String, ◌++◌ as append}
use sysd.Prelude.{false, Option, none, some, List, [], ◌∷◌, or_else, first_some}
use sysd.Units.Sections.{UnitSection}
use sysd.FileSystem.{FileSystem}
use sysd.Virtualization.{VirtualizationType, show_type}
use sysd.Conditions.{check_condition_list}
use sysd.Conditions.Detect.{detect_virtualization}
use sysd.Conditions.Checks.{
  check_virtualization_match_with, check_first_boot_condition, check_capability,
  check_kernel_cmdline, check_security_framework, check_needs_update, is_directory_not_empty,
}

-- `{:?}` of what was detected.
abbrev show_detected : Option VirtualizationType → String
show_detected none = "None"
show_detected (some v) = append "Some(" (append (show_type v) ")")

-- The failures of the lists, in the order of the lists.
abbrev groups : FileSystem → UnitSection → Option VirtualizationType → List (Option String)
groups fs section virtualization =
    check_condition_list section.condition_path_exists "ConditionPathExists" "path exists"
      "path missing" fs.exists
    ∷ check_condition_list section.condition_directory_not_empty "ConditionDirectoryNotEmpty"
        "not empty" "empty or missing" (is_directory_not_empty fs)
    ∷ check_condition_list section.condition_virtualization "ConditionVirtualization"
        (append "matched " (show_detected virtualization))
        (append "detected " (show_detected virtualization))
        (check_virtualization_match_with virtualization)
    ∷ check_condition_list section.condition_capability "ConditionCapability" "capability present"
        "capability missing" (check_capability fs)
    ∷ check_condition_list section.condition_kernel_command_line "ConditionKernelCommandLine"
        "parameter present" "parameter missing" (check_kernel_cmdline fs)
    ∷ check_condition_list section.condition_security "ConditionSecurity"
        "security framework active" "security framework not active" (check_security_framework fs)
    ∷ check_condition_list section.condition_needs_update "ConditionNeedsUpdate" "update needed"
        "no update needed" (λ path. check_needs_update fs path false)
    ∷ []

unfoldable pub check_conditions : FileSystem → UnitSection → Option String
check_conditions fs section =
    or_else (first_some (groups fs section (detect_virtualization fs)))
      (check_first_boot_condition fs section.condition_first_boot)

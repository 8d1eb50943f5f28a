-- ===== src/Units/Fields.antt =====
-- What the sections of a unit file set in a unit (src/units/parse_units.rs). Each function changes the
-- fields of a section that its directives name; a Boolean keeps its value when it is not set.
pub mod View
pub mod Values
pub mod Services
pub mod Others
pub mod Build
pub mod Merge
mod Tests
use sysd.Prelude.{
  ℕ, String, ℤ, pos, negsuc, Bool, true, false, ◌||◌, ◌&&◌, not, ◌==◌, string_eq, nat_eq,
  if◌then◌else◌, Option, none, some, ◌>>=◌, unwrap_or, map_or, List, [], ◌∷◌, ◌++◌, map, get,
  has_key, contains,
}
use sysd.Units.Sections.{UnitSection, InstallSection}
use sysd.Units.Fields.View.{
  SectionView, has, values, first, strings, words, first_string, first_pathbuf, first_bool,
  first_parsed, parsed_or_default, parse_limit, parse_octal, parse_restrict_namespaces,
  environment_of, numbers,
}

unfoldable pub apply_unit_core : UnitSection → SectionView → UnitSection
apply_unit_core unit view = record unit {
  description = first_string view "DESCRIPTION";
  after = strings view "AFTER";
  before = strings view "BEFORE";
  requires = strings view "REQUIRES";
  wants = strings view "WANTS";
  conflicts = strings view "CONFLICTS";
  default_dependencies =
      unwrap_or unit.default_dependencies (first_bool view "DEFAULTDEPENDENCIES");
}

unfoldable pub apply_unit_conditions : UnitSection → SectionView → UnitSection
apply_unit_conditions unit view = record unit {
  condition_path_exists = strings view "CONDITIONPATHEXISTS";
  condition_directory_not_empty = strings view "CONDITIONDIRECTORYNOTEMPTY";
  condition_virtualization = strings view "CONDITIONVIRTUALIZATION";
  condition_capability = strings view "CONDITIONCAPABILITY";
  condition_kernel_command_line = strings view "CONDITIONKERNELCOMMANDLINE";
  condition_security = strings view "CONDITIONSECURITY";
  condition_first_boot = first_bool view "CONDITIONFIRSTBOOT";
  condition_needs_update = strings view "CONDITIONNEEDSUPDATE";
}

unfoldable pub apply_unit_service_extras : UnitSection → SectionView → UnitSection
apply_unit_service_extras unit view = record unit {
  binds_to = strings view "BINDSTO";
  ignore_on_isolate = unwrap_or unit.ignore_on_isolate (first_bool view "IGNOREONISOLATE");
}

unfoldable pub apply_install_core : InstallSection → SectionView → InstallSection
apply_install_core install view = record install {
  wanted_by = strings view "WANTEDBY";
  required_by = strings view "REQUIREDBY";
}

unfoldable pub apply_install_extended : InstallSection → SectionView → InstallSection
unfolding apply_install_core
apply_install_extended install view = record (apply_install_core install view) {
  also = strings view "ALSO";
  alias = strings view "ALIAS";
  default_instance = first_string view "DEFAULTINSTANCE";
}

unfoldable pub apply_install_without_default_instance :
    InstallSection → SectionView → InstallSection
unfolding apply_install_core
apply_install_without_default_instance install view = record (apply_install_core install view) {
  also = strings view "ALSO";
  alias = strings view "ALIAS";
}

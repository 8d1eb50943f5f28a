-- ===== src/Units/Fields/Tests.antt =====
-- Tests of the reading of sections, of values and of drop-in files.
use sysd.Prelude.{
  ℕ, String, ◌≡◌, refl, true, false, Option, none, some, List, [], ◌∷◌, get, string_eq, nat_eq,
  IsMap,
}
use sysd.Units.Kinds.{time}
use sysd.Parser.{ParsedFile, ParsedSection}
use sysd.Units.Defaults.{from_secs}
use sysd.Units.Fields.View.{view_of, values, parse_octal}
use sysd.Units.Fields.Values.{parse_duration, parse_memory, parse_i32, parse_calendar_spec}
use sysd.Units.Fields.Build.{
  parse_service, parse_mount, mount_point_from_name, name_from_mount_point,
}
use sysd.Units.Fields.Merge.{merge_parsed_files, merged, IsParsed, values-merge_parsed_files}

abbrev base : ParsedFile
base = ("[Service]", ("EXECSTART", (1, "/bin/a") ∷ []) ∷ ("USER", (2, "root") ∷ []) ∷ []) ∷ []

abbrev dropin_section : ParsedSection
dropin_section =
    ("EXECSTART", (1, "") ∷ (2, "/bin/b") ∷ []) ∷ ("SOCKETS", (3, "s.socket") ∷ []) ∷ []

abbrev dropin : ParsedFile
dropin = ("[Service]", dropin_section) ∷ []

dropin-IsParsed : IsParsed dropin
unfolding get
dropin-IsParsed = ((refl, tt), ((refl, (refl, tt)), tt))

parse_duration_example : parse_duration " 2min " ≡ some (from_secs 120)
unfolding parse_duration sysd.Text.strip_end sysd.Text.trim sysd.Text.is_whitespace
    sysd.Text.from_str_radix
parse_duration_example = refl

parse_duration-week_example : parse_duration "1week" ≡ some (from_secs 604800)
unfolding parse_duration sysd.Text.strip_end sysd.Text.trim sysd.Text.is_whitespace
    sysd.Text.from_str_radix
parse_duration-week_example = refl

parse_memory_example : parse_memory "512M" ≡ some 536870912
unfolding parse_memory sysd.Text.strip_end sysd.Text.trim sysd.Text.is_whitespace
    sysd.Text.from_str_radix
parse_memory_example = refl

parse_octal_example : parse_octal "0755" ≡ some 493
unfolding parse_octal sysd.Text.from_str_radix sysd.Text.trim_start_matches
parse_octal_example = refl

parse_octal-zero_example : parse_octal "0000" ≡ none
unfolding parse_octal sysd.Text.from_str_radix sysd.Text.trim_start_matches
parse_octal-zero_example = refl

parse_calendar_spec_example : parse_calendar_spec "04:30" ≡ time 4 30 0
unfolding parse_calendar_spec sysd.Prelude.contains sysd.Units.Words.to_lowercase sysd.Text.trim
    sysd.Text.is_whitespace sysd.Text.has_text sysd.Text.split sysd.Text.from_str_radix
parse_calendar_spec_example = refl

mount_point_from_name_example : mount_point_from_name "dev-hugepages.mount" ≡ "/dev/hugepages"
unfolding mount_point_from_name sysd.Text.strip_end
mount_point_from_name_example = refl

mount_point_from_name-escaped_example : mount_point_from_name "var-my\\-disk.mount" ≡ "/var/my-disk"
unfolding mount_point_from_name sysd.Text.strip_end
mount_point_from_name-escaped_example = refl

-- The dash of a file's name is not escaped: the way there and back leads elsewhere.
name_from_mount_point_example :
    mount_point_from_name (name_from_mount_point "/srv/my-disk") ≡ "/srv/my/disk"
unfolding mount_point_from_name sysd.Text.strip_end name_from_mount_point
    sysd.Text.trim_start_matches
name_from_mount_point_example = refl

parse_mount_example : (parse_mount "var-tmp.mount" []).mount.where_ ≡ "/var/tmp"
unfolding parse_mount sysd.Units.Fields.Others.apply_mount_section
    sysd.Units.Fields.View.first_string view_of get mount_point_from_name sysd.Text.strip_end
parse_mount_example = refl

parse_mount-mode_example : (parse_mount "var-tmp.mount" []).mount.directory_mode ≡ none
unfolding parse_mount sysd.Units.Fields.Others.apply_mount_section
    sysd.Units.Fields.View.first_string view_of get sysd.Units.Fields.View.first_parsed
parse_mount-mode_example = refl

parse_service_example :
    (parse_service (λ raw. none) "a.service" (merge_parsed_files base dropin)).service.exec_start
    ≡ "/bin/b" ∷ []
unfolding parse_service sysd.Units.Fields.Services.apply_service_process_control
    sysd.Units.Fields.Services.apply_service_security_extended
    sysd.Units.Fields.Services.apply_service_security_paths
    sysd.Units.Fields.Services.apply_service_security_core
    sysd.Units.Fields.Services.apply_service_limits sysd.Units.Fields.Services.apply_service_stdio
    sysd.Units.Fields.Services.apply_service_environment
    sysd.Units.Fields.Services.apply_service_identity
    sysd.Units.Fields.Services.apply_service_exec_and_restart sysd.Units.Fields.View.strings view_of
    get merge_parsed_files sysd.Prelude.insert sysd.Units.Fields.Merge.merge_values
    sysd.Prelude.keep sysd.Parser.or_default sysd.Prelude.remove sysd.Text.digits
    sysd.Text.from_str_radix sysd.Text.in_first sysd.Text.is_whitespace sysd.Text.rsplit_once
    sysd.Text.split_by sysd.Text.split_once sysd.Text.split_whitespace sysd.Text.strip_end
    sysd.Text.to_ascii_lowercase sysd.Text.trim sysd.Text.trim_end sysd.Text.trim_start
    sysd.Units.Defaults.default_install_section sysd.Units.Defaults.default_service_section
    sysd.Units.Defaults.default_unit_section sysd.Units.Fields.Build.new_service
    sysd.Units.Fields.Merge.has_reset sysd.Units.Fields.Merge.merge_section
    sysd.Units.Fields.Values.by_ending sysd.Units.Fields.Values.parse_cpu_quota parse_duration
    parse_i32 parse_memory sysd.Units.Fields.View.all_words sysd.Units.Fields.View.environment_of
    sysd.Units.Fields.View.first sysd.Units.Fields.View.first_bool
    sysd.Units.Fields.View.first_parsed sysd.Units.Fields.View.first_pathbuf
    sysd.Units.Fields.View.first_string sysd.Units.Fields.View.has sysd.Units.Fields.View.numbers
    sysd.Units.Fields.View.parse_environment sysd.Units.Fields.View.parse_limit
    sysd.Units.Fields.View.parse_restrict_namespaces sysd.Units.Fields.View.parse_yes_no
    sysd.Units.Fields.View.parsed_or_default sysd.Units.Fields.View.texts values
    sysd.Units.Fields.View.variables sysd.Units.Fields.View.words
    sysd.Units.Fields.apply_install_core sysd.Units.Fields.apply_install_extended
    sysd.Units.Fields.apply_unit_conditions sysd.Units.Fields.apply_unit_core
    sysd.Units.Fields.apply_unit_service_extras sysd.Units.Names.extract_instance
    sysd.Units.Words.parse_device_policy sysd.Units.Words.parse_kill_mode
    sysd.Units.Words.parse_notify_access sysd.Units.Words.parse_protect_home
    sysd.Units.Words.parse_protect_proc sysd.Units.Words.parse_protect_system
    sysd.Units.Words.parse_restart_policy sysd.Units.Words.parse_runtime_directory_preserve
    sysd.Units.Words.parse_service_type sysd.Units.Words.parse_std_input
    sysd.Units.Words.parse_std_output sysd.Units.Words.to_lowercase
parse_service_example = refl

values-merge_parsed_files_example :
    values (view_of (merge_parsed_files base dropin) "[Service]") "EXECSTART"
    ≡ merged
        (values (view_of base "[Service]") "EXECSTART")
        (values (view_of dropin "[Service]") "EXECSTART")
values-merge_parsed_files_example =
    values-merge_parsed_files base dropin "[Service]" "EXECSTART" dropin-IsParsed

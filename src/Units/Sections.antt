-- ===== src/Units/Sections.antt =====
-- The sections of a unit file (src/units/service.rs). A `Duration` or an `Instant` is a number of
-- nanoseconds, a path is its text, and the unsigned fields are numbers.
use sysd.Prelude.{ℕ, ℤ, Bool, String, List, Option}
use sysd.Units.Enums.{
  ServiceType, RestartPolicy, KillMode, StdOutput, StdInput, NotifyAccess, DevicePolicy,
  RuntimeDirectoryPreserve, ProtectSystem, ProtectHome, ProtectProc,
}

abbrev pub Duration : Type 0
Duration = ℕ

pub record UnitSection : Type 0 where
  pub description : Option String
  pub after : List String
  pub before : List String
  pub requires : List String
  pub wants : List String
  pub conflicts : List String
  pub binds_to : List String
  pub condition_path_exists : List String
  pub condition_directory_not_empty : List String
  pub condition_virtualization : List String
  pub condition_capability : List String
  pub condition_kernel_command_line : List String
  pub condition_security : List String
  pub condition_first_boot : Option Bool
  pub condition_needs_update : List String
  pub default_dependencies : Bool
  pub ignore_on_isolate : Bool

pub record ServiceSection : Type 0 where
  pub service_type : ServiceType
  pub exec_start : List String
  pub exec_start_pre : List String
  pub exec_start_post : List String
  pub exec_stop : List String
  pub exec_reload : List String
  pub restart : RestartPolicy
  pub restart_sec : Duration
  pub timeout_start_sec : Option Duration
  pub timeout_stop_sec : Option Duration
  pub remain_after_exit : Bool
  pub watchdog_sec : Option Duration
  pub notify_access : NotifyAccess
  pub pid_file : Option String
  pub bus_name : Option String
  pub kill_mode : KillMode
  pub user : Option String
  pub group : Option String
  pub working_directory : Option String
  pub environment : List (String × String)
  pub environment_file : List String
  pub unset_environment : List String
  pub standard_output : StdOutput
  pub standard_error : StdOutput
  pub standard_input : StdInput
  pub tty_path : Option String
  pub tty_reset : Bool
  pub memory_max : Option ℕ
  pub cpu_quota : Option ℕ
  pub tasks_max : Option ℕ
  pub limit_nofile : Option ℕ
  pub limit_nproc : Option ℕ
  pub limit_core : Option ℕ
  pub state_directory : List String
  pub runtime_directory : List String
  pub configuration_directory : List String
  pub logs_directory : List String
  pub cache_directory : List String
  pub runtime_directory_preserve : RuntimeDirectoryPreserve
  pub dynamic_user : Bool
  pub oom_score_adjust : Option ℤ
  pub no_new_privileges : Bool
  pub protect_system : ProtectSystem
  pub protect_home : ProtectHome
  pub private_tmp : Bool
  pub private_devices : Bool
  pub private_network : Bool
  pub protect_kernel_modules : Bool
  pub protect_proc : ProtectProc
  pub capability_bounding_set : List String
  pub ambient_capabilities : List String
  pub restrict_namespaces : Option (List String)
  pub read_write_paths : List String
  pub read_only_paths : List String
  pub inaccessible_paths : List String
  pub system_call_filter : List String
  pub system_call_error_number : Option ℤ
  pub system_call_architectures : List String
  pub device_policy : DevicePolicy
  pub device_allow : List String
  pub restrict_realtime : Bool
  pub protect_control_groups : Bool
  pub memory_deny_write_execute : Bool
  pub lock_personality : Bool
  pub protect_kernel_tunables : Bool
  pub protect_kernel_logs : Bool
  pub protect_clock : Bool
  pub protect_hostname : Bool
  pub ignore_sigpipe : Bool
  pub restrict_suid_sgid : Bool
  pub restrict_address_families : Option (List String)
  pub start_limit_burst : Option ℕ
  pub start_limit_interval_sec : Option Duration
  pub sockets : List String
  pub send_sighup : Bool
  pub slice : Option String
  pub delegate : Bool
  pub exec_stop_post : List String
  pub file_descriptor_store_max : Option ℕ
  pub restart_prevent_exit_status : List ℤ

pub record InstallSection : Type 0 where
  pub wanted_by : List String
  pub required_by : List String
  pub also : List String
  pub alias : List String
  pub default_instance : Option String

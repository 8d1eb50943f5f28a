-- ===== src/Units/Defaults.antt =====
-- The values of sections that no directive sets (`Default` in src/units/service.rs).
use sysd.Prelude.{ℕ, ◌*◌, true, false, [], none}
use sysd.Units.Enums.{
  ServiceType, RestartPolicy, KillMode, StdOutput, StdInput, NotifyAccess, DevicePolicy,
  RuntimeDirectoryPreserve, ProtectSystem, ProtectHome, ProtectProc,
}
use sysd.Units.Sections.{UnitSection, ServiceSection, InstallSection, Duration}

-- `Duration::from_secs` and `Duration::from_millis`.
abbrev pub from_secs : ℕ → Duration
from_secs n = n * 1_000_000_000

abbrev pub from_millis : ℕ → Duration
from_millis n = n * 1_000_000

unfoldable pub default_unit_section : UnitSection
default_unit_section = record {
  description = none;
  after = [];
  before = [];
  requires = [];
  wants = [];
  conflicts = [];
  binds_to = [];
  condition_path_exists = [];
  condition_directory_not_empty = [];
  condition_virtualization = [];
  condition_capability = [];
  condition_kernel_command_line = [];
  condition_security = [];
  condition_first_boot = none;
  condition_needs_update = [];
  default_dependencies = true;
  ignore_on_isolate = false;
}

unfoldable pub default_service_section : ServiceSection
default_service_section = record {
  service_type = ServiceType.simple;
  exec_start = [];
  exec_start_pre = [];
  exec_start_post = [];
  exec_stop = [];
  exec_reload = [];
  restart = RestartPolicy.no;
  restart_sec = from_millis 100;
  timeout_start_sec = none;
  timeout_stop_sec = none;
  remain_after_exit = false;
  watchdog_sec = none;
  notify_access = NotifyAccess.main;
  pid_file = none;
  bus_name = none;
  kill_mode = KillMode.control_group;
  user = none;
  group = none;
  working_directory = none;
  environment = [];
  environment_file = [];
  unset_environment = [];
  standard_output = StdOutput.journal;
  standard_error = StdOutput.journal;
  standard_input = StdInput.null;
  tty_path = none;
  tty_reset = false;
  memory_max = none;
  cpu_quota = none;
  tasks_max = none;
  limit_nofile = none;
  limit_nproc = none;
  limit_core = none;
  state_directory = [];
  runtime_directory = [];
  configuration_directory = [];
  logs_directory = [];
  cache_directory = [];
  runtime_directory_preserve = RuntimeDirectoryPreserve.no;
  dynamic_user = false;
  oom_score_adjust = none;
  no_new_privileges = false;
  protect_system = ProtectSystem.no;
  protect_home = ProtectHome.no;
  private_tmp = false;
  private_devices = false;
  private_network = false;
  protect_kernel_modules = false;
  protect_proc = ProtectProc.default;
  capability_bounding_set = [];
  ambient_capabilities = [];
  restrict_namespaces = none;
  read_write_paths = [];
  read_only_paths = [];
  inaccessible_paths = [];
  system_call_filter = [];
  system_call_error_number = none;
  system_call_architectures = [];
  device_policy = DevicePolicy.auto;
  device_allow = [];
  restrict_realtime = false;
  protect_control_groups = false;
  memory_deny_write_execute = false;
  lock_personality = false;
  protect_kernel_tunables = false;
  protect_kernel_logs = false;
  protect_clock = false;
  protect_hostname = false;
  ignore_sigpipe = false;
  restrict_suid_sgid = false;
  restrict_address_families = none;
  start_limit_burst = none;
  start_limit_interval_sec = none;
  sockets = [];
  send_sighup = false;
  slice = none;
  delegate = false;
  exec_stop_post = [];
  file_descriptor_store_max = none;
  restart_prevent_exit_status = [];
}

unfoldable pub default_install_section : InstallSection
default_install_section = record {
  wanted_by = [];
  required_by = [];
  also = [];
  alias = [];
  default_instance = none;
}

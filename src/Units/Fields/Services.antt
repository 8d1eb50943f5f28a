-- ===== src/Units/Fields/Services.antt =====
-- The `[Service]` section of a unit file (src/units/parse_units.rs). The shell quoting of `Environment=`
-- is `shlex::split`, the parameter `shlex_split`.
use sysd.Prelude.{
  String, string_eq, nat_eq, if◌then◌else◌, Option, some, ◌>>=◌, unwrap_or, List, [],
}
use sysd.Units.Enums.{
  ServiceType, RestartPolicy, NotifyAccess, KillMode, StdOutput, StdInput, RuntimeDirectoryPreserve,
  ProtectSystem, ProtectHome, ProtectProc, DevicePolicy,
}
use sysd.Units.Words.{
  parse_service_type, parse_restart_policy, parse_notify_access, parse_kill_mode, parse_std_output,
  parse_std_input, parse_runtime_directory_preserve, parse_protect_system, parse_protect_home,
  parse_protect_proc, parse_device_policy,
}
use sysd.Units.Sections.{ServiceSection}
use sysd.Units.Fields.View.{
  SectionView, has, values, first, strings, words, first_string, first_pathbuf, first_bool,
  first_parsed, parsed_or_default, parse_limit, parse_restrict_namespaces, environment_of, numbers,
}
use sysd.Units.Fields.Values.{parse_u32, parse_i32, parse_duration, parse_memory, parse_cpu_quota}

unfoldable pub apply_service_exec_and_restart : ServiceSection → SectionView → ServiceSection
apply_service_exec_and_restart service view = record service {
  service_type = parsed_or_default ServiceType.simple view "TYPE" parse_service_type;
  exec_start = strings view "EXECSTART";
  exec_start_pre = strings view "EXECSTARTPRE";
  exec_start_post = strings view "EXECSTARTPOST";
  exec_stop = strings view "EXECSTOP";
  exec_reload = strings view "EXECRELOAD";
  restart = parsed_or_default RestartPolicy.no view "RESTART" parse_restart_policy;
  restart_sec = unwrap_or service.restart_sec (first_parsed view "RESTARTSEC" parse_duration);
  timeout_start_sec = first_parsed view "TIMEOUTSTARTSEC" parse_duration;
  timeout_stop_sec = first_parsed view "TIMEOUTSTOPSEC" parse_duration;
  remain_after_exit = unwrap_or service.remain_after_exit (first_bool view "REMAINAFTEREXIT");
}

unfoldable pub apply_service_identity : ServiceSection → SectionView → ServiceSection
apply_service_identity service view = record service {
  watchdog_sec = first_parsed view "WATCHDOGSEC" parse_duration;
  notify_access = parsed_or_default NotifyAccess.main view "NOTIFYACCESS" parse_notify_access;
  pid_file = first_pathbuf view "PIDFILE";
  bus_name = first_string view "BUSNAME";
  kill_mode = parsed_or_default KillMode.control_group view "KILLMODE" parse_kill_mode;
  user = first_string view "USER";
  group = first_string view "GROUP";
  working_directory = first_pathbuf view "WORKINGDIRECTORY";
}

unfoldable pub apply_service_environment :
    (String → Option (List String)) → ServiceSection → SectionView → ServiceSection
apply_service_environment shlex_split service view = record service {
  environment = environment_of shlex_split (unwrap_or [] (values view "ENVIRONMENT"));
  environment_file = strings view "ENVIRONMENTFILE";
  unset_environment = words view "UNSETENVIRONMENT";
}

unfoldable pub apply_service_stdio : ServiceSection → SectionView → ServiceSection
apply_service_stdio service view = record service {
  standard_output = parsed_or_default StdOutput.journal view "STANDARDOUTPUT" parse_std_output;
  standard_error = parsed_or_default StdOutput.journal view "STANDARDERROR" parse_std_output;
  standard_input = parsed_or_default StdInput.null view "STANDARDINPUT" parse_std_input;
  tty_path = first_pathbuf view "TTYPATH";
  tty_reset = unwrap_or service.tty_reset (first_bool view "TTYRESET");
}

unfoldable pub apply_service_limits : ServiceSection → SectionView → ServiceSection
apply_service_limits service view = record service {
  memory_max = first_parsed view "MEMORYMAX" parse_memory;
  cpu_quota = first_parsed view "CPUQUOTA" parse_cpu_quota;
  tasks_max = first_parsed view "TASKSMAX" parse_u32;
  limit_nofile = first_parsed view "LIMITNOFILE" parse_limit;
  limit_nproc = first_parsed view "LIMITNPROC" parse_limit;
  limit_core = first_parsed view "LIMITCORE" parse_limit;
  state_directory = words view "STATEDIRECTORY";
  runtime_directory = words view "RUNTIMEDIRECTORY";
  configuration_directory = words view "CONFIGURATIONDIRECTORY";
  logs_directory = words view "LOGSDIRECTORY";
  cache_directory = words view "CACHEDIRECTORY";
  runtime_directory_preserve =
      parsed_or_default RuntimeDirectoryPreserve.no view "RUNTIMEDIRECTORYPRESERVE"
        parse_runtime_directory_preserve;
  dynamic_user = unwrap_or service.dynamic_user (first_bool view "DYNAMICUSER");
}

unfoldable pub apply_service_security_core : ServiceSection → SectionView → ServiceSection
apply_service_security_core service view = record service {
  oom_score_adjust = first_parsed view "OOMSCOREADJUST" parse_i32;
  no_new_privileges = unwrap_or service.no_new_privileges (first_bool view "NONEWPRIVILEGES");
  protect_system = parsed_or_default ProtectSystem.no view "PROTECTSYSTEM" parse_protect_system;
  protect_home = parsed_or_default ProtectHome.no view "PROTECTHOME" parse_protect_home;
  private_tmp = unwrap_or service.private_tmp (first_bool view "PRIVATETMP");
  private_devices = unwrap_or service.private_devices (first_bool view "PRIVATEDEVICES");
  private_network = unwrap_or service.private_network (first_bool view "PRIVATENETWORK");
  protect_kernel_modules =
      unwrap_or service.protect_kernel_modules (first_bool view "PROTECTKERNELMODULES");
  protect_proc = parsed_or_default ProtectProc.default view "PROTECTPROC" parse_protect_proc;
  capability_bounding_set = words view "CAPABILITYBOUNDINGSET";
  ambient_capabilities = words view "AMBIENTCAPABILITIES";
  restrict_namespaces = first view "RESTRICTNAMESPACES" >>= parse_restrict_namespaces;
}

unfoldable pub apply_service_security_paths : ServiceSection → SectionView → ServiceSection
apply_service_security_paths service view = record service {
  read_write_paths = words view "READWRITEPATHS";
  read_only_paths = words view "READONLYPATHS";
  inaccessible_paths = words view "INACCESSIBLEPATHS";
  system_call_filter = words view "SYSTEMCALLFILTER";
  device_policy = parsed_or_default DevicePolicy.auto view "DEVICEPOLICY" parse_device_policy;
  device_allow = strings view "DEVICEALLOW";
}

unfoldable pub apply_service_security_extended : ServiceSection → SectionView → ServiceSection
apply_service_security_extended service view = record service {
  restrict_realtime = unwrap_or service.restrict_realtime (first_bool view "RESTRICTREALTIME");
  protect_control_groups =
      unwrap_or service.protect_control_groups (first_bool view "PROTECTCONTROLGROUPS");
  memory_deny_write_execute =
      unwrap_or service.memory_deny_write_execute (first_bool view "MEMORYDENYWRITEEXECUTE");
  lock_personality = unwrap_or service.lock_personality (first_bool view "LOCKPERSONALITY");
  protect_kernel_tunables =
      unwrap_or service.protect_kernel_tunables (first_bool view "PROTECTKERNELTUNABLES");
  protect_kernel_logs = unwrap_or service.protect_kernel_logs (first_bool view "PROTECTKERNELLOGS");
  protect_clock = unwrap_or service.protect_clock (first_bool view "PROTECTCLOCK");
  protect_hostname = unwrap_or service.protect_hostname (first_bool view "PROTECTHOSTNAME");
  ignore_sigpipe = unwrap_or service.ignore_sigpipe (first_bool view "IGNORESIGPIPE");
  restrict_suid_sgid = unwrap_or service.restrict_suid_sgid (first_bool view "RESTRICTSUIDSGID");
}

unfoldable pub apply_service_process_control : ServiceSection → SectionView → ServiceSection
apply_service_process_control service view = record service {
  restrict_address_families =
      if has view "RESTRICTADDRESSFAMILIES"
      then some (words view "RESTRICTADDRESSFAMILIES")
      else service.restrict_address_families;
  system_call_error_number = first_parsed view "SYSTEMCALLERRORNUMBER" parse_i32;
  system_call_architectures = words view "SYSTEMCALLARCHITECTURES";
  start_limit_burst = first_parsed view "STARTLIMITBURST" parse_u32;
  start_limit_interval_sec = first_parsed view "STARTLIMITINTERVALSEC" parse_duration;
  sockets = words view "SOCKETS";
  send_sighup = unwrap_or service.send_sighup (first_bool view "SENDSIGHUP");
  slice = first_string view "SLICE";
  delegate = unwrap_or service.delegate (first_bool view "DELEGATE");
  exec_stop_post = strings view "EXECSTOPPOST";
  file_descriptor_store_max = first_parsed view "FILEDESCRIPTORSTOREMAX" parse_u32;
  restart_prevent_exit_status = numbers (words view "RESTARTPREVENTEXITSTATUS");
}

-- ===== src/Units/Enums.antt =====
-- The directives of a unit file that choose from a list of words (src/units/service.rs).
-- ServiceType=
pub data ServiceType : Type 0 where
  simple forking notify dbus oneshot idle : ServiceType

-- Restart=
pub data RestartPolicy : Type 0 where
  no on_failure always : RestartPolicy

-- KillMode=
pub data KillMode : Type 0 where
  control_group process mixed none : KillMode

-- StandardOutput=
pub data StdOutput : Type 0 where
  journal inherit null : StdOutput

-- StandardInput=
pub data StdInput : Type 0 where
  null tty tty_force tty_fail : StdInput

-- NotifyAccess=
pub data NotifyAccess : Type 0 where
  none main exec all : NotifyAccess

-- DevicePolicy=
pub data DevicePolicy : Type 0 where
  auto closed strict : DevicePolicy

-- RuntimeDirectoryPreserve=
pub data RuntimeDirectoryPreserve : Type 0 where
  no yes restart : RuntimeDirectoryPreserve

-- ProtectSystem=
pub data ProtectSystem : Type 0 where
  no yes full strict : ProtectSystem

-- ProtectHome=
pub data ProtectHome : Type 0 where
  no yes read_only tmpfs : ProtectHome

-- ProtectProc=
pub data ProtectProc : Type 0 where
  default invisible ptraceable no_access : ProtectProc

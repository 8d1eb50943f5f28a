-- ===== src/Manager.antt =====
-- The state of the service manager (src/manager/mod_impl.rs) and the errors of its operations
-- (src/manager/mod_impl/part3.rs). The channels, the notify socket, the scopes and the paths of the
-- executor are left out; `closed` records the descriptors that were closed, the newest first.
pub mod Load
pub mod Collect
pub mod Order
pub mod Service
pub mod Watched
pub mod Timers
pub mod Mounts
pub mod Sockets
pub mod Stop
pub mod Single
use sysd.Prelude.{
  ℕ, ℤ, String, Bool, true, false, Option, none, some, List, [], ◌∷◌, Map, ◌||◌, if◌then◌else◌,
}
use Prim.Native.String.{◌++◌}
use sysd.Units.Kinds.{AnyUnit}
use sysd.State.{Instant, ServiceState}
use sysd.DynamicUser.{Inner}
use sysd.Deps.StartOrder.{ends_with}

abbrev pub RawFd : Type 0
RawFd = ℤ

-- A running process is known by its id, which is gone when it has been waited for.
pub record Manager : Type 0 where
  pub units : Map String AnyUnit
  pub states : Map String ServiceState
  pub processes : Map String (Option ℕ)
  pub unit_paths : List String
  pub waiting_ready : Map ℕ String
  pub cgroup_paths : Map String String
  pub pid_files : Map String String
  pub active_jobs : ℕ
  pub waiting_bus_name : Map String String
  pub watchdog_deadlines : Map String Instant
  pub dynamic_user_manager : Inner
  pub dynamic_uids : Map String ℕ
  pub fd_store : Map String (List (String × RawFd))
  pub pid_to_service : Map ℕ String
  pub pending_oneshot_cmds : Map String (ℕ × ℕ × Bool)
  pub socket_fds : Map String (List RawFd)
  pub user_environment : Map String String
  pub closed : List RawFd

pub data ManagerError : Type 0 where
  not_found parse already_active not_active spawn : String → ManagerError
  cycle : List String → ManagerError
  is_target : String → ManagerError
  condition_failed : (unit reason : String) → ManagerError
  no_install_section io start_failed stop_failed masked : String → ManagerError

pub data Result {ℓ} (A : Type ℓ) : Type ℓ where
  ok : A → Result A
  err : ManagerError → Result A

-- What an operation on the manager returns, with the manager that it leaves.
abbrev pub Outcome {ℓ} : Type ℓ → Type ℓ
Outcome A = Result A × Manager

-- `?` on the outcome of an operation.
infixl 10 ◌>>=◌
abbrev pub ◌>>=◌ {ℓ κ} :
    {A : Type ℓ} {B : Type κ} → Outcome A → (A → Manager → Outcome B) → Outcome B
(ok a, m) >>= next = next a m
(err e, m) >>= next = (err e, m)

unfoldable pub normalize_name : String → String
normalize_name name =
    if ends_with name ".service"
      || ends_with name ".target"
      || ends_with name ".mount"
      || ends_with name ".socket"
      || ends_with name ".path"
      || ends_with name ".slice"
      || ends_with name ".timer"
    then name
    else name ++ ".service"

-- ===== src/Runtime/Restart.antt =====
-- What happens to a unit's state when its process has exited (`apply_restart_decision` of
-- src/manager/runtime/imp/part1.rs). The readings of the clock are arguments: `checked` in the rate
-- limit, and `now`, `now'`, `now''` in the one method that sets the new state.
pub mod Decision
pub mod RateLimit
mod Tests
use sysd.Prelude.{
  ℕ, ℤ, pos, String, Bool, true, false, Option, none, some, List, [], ◌==◌, int_eq, string_eq, ◌&&◌,
  not, if◌then◌else◌, contains, show, show_ℤ, show_duration, Map, modify,
}
use Prim.Native.String.{◌++◌}
use sysd.Units.Enums.{RestartPolicy}
use sysd.Units.Sections.{Duration}
use sysd.Units.Defaults.{from_millis}
use sysd.State.{
  Instant, ActiveState, SubState, ServiceState, set_auto_restart, set_stopped, set_failed,
  is_restart_rate_limited, reset_restart_count, interval_or_default,
}

pub record RestartDecisionInput : Type 0 where
  pub restart_policy : RestartPolicy
  pub restart_sec : Duration
  pub remain_after_exit : Bool
  pub is_oneshot : Bool
  pub is_forking : Bool
  pub start_limit_burst : Option ℕ
  pub start_limit_interval_sec : Option Duration
  pub restart_prevent_exit_status : List ℤ

unfoldable pub default_decision_input : RestartDecisionInput
default_decision_input = record {
  restart_policy = RestartPolicy.no;
  restart_sec = from_millis 100;
  remain_after_exit = false;
  is_oneshot = false;
  is_forking = false;
  start_limit_burst = none;
  start_limit_interval_sec = none;
  restart_prevent_exit_status = [];
}

-- The readings of the clock in one decision.
pub record Readings : Type 0 where
  pub checked : Instant
  pub now : Instant
  pub now' : Instant
  pub now'' : Instant

unfoldable pub policy_wants_restart : RestartPolicy → ℤ → Bool
policy_wants_restart RestartPolicy.no code = false
policy_wants_restart RestartPolicy.on_failure code = not (code == pos 0)
policy_wants_restart RestartPolicy.always code = true

abbrev or_zero : Option ℕ → ℕ
or_zero none = 0
or_zero (some n) = n

-- format!("Start limit hit (burst {} in {:?})", ..)
unfoldable pub start_limit_message : Option ℕ → Option Duration → String
start_limit_message burst interval =
    "Start limit hit (burst "
    ++ show (or_zero burst)
    ++ " in "
    ++ show_duration (interval_or_default interval)
    ++ ")"

-- format!("Exit code {}", code)
unfoldable pub exit_code_message : ℤ → String
exit_code_message code = "Exit code " ++ show_ℤ code

-- The branch for exit code 0.
after_clean_exit : RestartDecisionInput → Bool → Readings → ℤ → ServiceState → ServiceState
after_clean_exit i should_restart t code s =
    if i.is_oneshot && i.remain_after_exit
    then reset_restart_count (record s {
      active = ActiveState.active;
      sub = SubState.exited;
      main_pid = none;
      exit_code = some code;
    })
    else if should_restart
    then set_auto_restart i.restart_sec t.now t.now' t.now'' s
    else reset_restart_count (set_stopped code t.now s)

-- The branches for another exit code, or a signal.
after_failure :
    RestartDecisionInput → Bool → Bool → Bool → Readings → ℤ → ServiceState → ServiceState
after_failure i rate_limited exit_prevents should_restart t code s =
    if rate_limited
    then set_failed (start_limit_message i.start_limit_burst i.start_limit_interval_sec) t.now s
    else if exit_prevents
    then set_stopped code t.now s
    else if should_restart
    then set_auto_restart i.restart_sec t.now t.now' t.now'' s
    else set_failed (exit_code_message code) t.now s

-- `apply_restart_decision` from the point where it holds the unit's state.
unfoldable pub decide_restart : RestartDecisionInput → Readings → ℤ → ServiceState → ServiceState
unfolding after_clean_exit after_failure
decide_restart i t code s =
    let wants = policy_wants_restart i.restart_policy code in
    let prevents = contains i.restart_prevent_exit_status code in
    let (s', rate_limited) =
      is_restart_rate_limited i.start_limit_burst i.start_limit_interval_sec t.checked s in
    let should_restart = wants && not prevents && not rate_limited in
    if code == pos 0
    then after_clean_exit i should_restart t code s'
    else after_failure i rate_limited prevents should_restart t code s'

unfoldable pub apply_restart_decision :
    RestartDecisionInput → Readings → ℤ → String → Map String ServiceState → Map String ServiceState
apply_restart_decision i t code name states = modify states name (decide_restart i t code)

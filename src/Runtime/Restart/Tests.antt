-- ===== src/Runtime/Restart/Tests.antt =====
-- A service that is restarted on failure, twice in ten seconds at most.
use sysd.Prelude.{
  ◌+◌, ◌≤◌, ◌≡◌, ◌↔◌, refl, pos, false, none, some, List, [], ◌∷◌, arith, int_eq, contains,
  string_eq,
}
use sysd.Units.Enums.{RestartPolicy}
use sysd.State.{
  Instant, SubState, new, set_auto_restart, is_restart_rate_limited, interval_or_default,
}
use sysd.State.Invariant.{IsConsistent, new-IsConsistent}
use sysd.Runtime.Restart.{RestartDecisionInput, Readings, policy_wants_restart, decide_restart}
use sysd.Runtime.Restart.Decision.{Restarts, decide_restart_iff, decide_restart-IsConsistent}
use sysd.Runtime.Restart.RateLimit.{
  Exit, restarts, InWindow, AllAsk, window, restarts_bound, restarts-eq-min,
}

abbrev twice : RestartDecisionInput
twice = record {
  restart_policy = RestartPolicy.on_failure;
  restart_sec = 100;
  remain_after_exit = false;
  is_oneshot = false;
  is_forking = false;
  start_limit_burst = some 2;
  start_limit_interval_sec = none;
  restart_prevent_exit_status = pos 3 ∷ [];
}

abbrev at : Instant → Readings
at t = record { checked = t; now = t + 1; now' = t + 2; now'' = t + 3 }

restarted : (decide_restart twice (at 5) (pos 1) (new 0)).sub ≡ SubState.auto_restart
unfolding decide_restart policy_wants_restart new is_restart_rate_limited set_auto_restart contains
restarted = refl

decide_restart_iff_example :
    ((decide_restart twice (at 5) (pos 3) (new 0)).sub ≡ SubState.auto_restart)
    ↔ Restarts twice (at 5) (pos 3) (new 0)
decide_restart_iff_example = decide_restart_iff twice (at 5) (pos 3) (new 0)

decide_restart-IsConsistent_example : IsConsistent (decide_restart twice (at 5) (pos 1) (new 0))
decide_restart-IsConsistent_example =
    decide_restart-IsConsistent twice (at 5) (pos 1) (new 0) (new-IsConsistent 0)

abbrev failure : Instant → Exit
failure t = record { code = pos 1; readings = at t; started = t + 200; ran = t + 201; pid = 7 }

abbrev failures : List Exit
failures = failure 5 ∷ failure 1000 ∷ failure 2000 ∷ failure 3000 ∷ []

failures-InWindow : InWindow 0 (window twice 2 (omega arith) refl 0) failures
unfolding interval_or_default
failures-InWindow = (
  omega arith,
  omega arith,
  (omega arith, omega arith, (omega arith, omega arith, (omega arith, omega arith, tt))),
)

failures-AllAsk : AllAsk twice failures
unfolding policy_wants_restart contains
failures-AllAsk =
    ((refl, refl, refl), ((refl, refl, refl), ((refl, refl, refl), ((refl, refl, refl), tt))))

restarts_bound_example : restarts twice failures (new 0) + 0 ≤ 2
unfolding new
restarts_bound_example =
    restarts_bound twice 2 (omega arith) refl 0 failures (new 0) tt failures-InWindow (omega arith)

restarts-eq-min_example : restarts twice failures (new 0) ≡ 2
unfolding new
restarts-eq-min_example =
    restarts-eq-min twice 2 (omega arith) refl 0 failures (new 0) tt failures-InWindow
      failures-AllAsk (omega arith)

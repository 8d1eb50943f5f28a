-- ===== src/State/Tests.antt =====
-- A unit that starts, runs, fails, waits for its restart and starts again.
use sysd.Prelude.{◌≡◌, refl, int_eq}
use sysd.State.{
  ServiceState, SubState, new, set_starting, set_running, set_auto_restart, clear_restart,
}
use sysd.State.Invariant.{
  IsConsistent, Reach, here, next, start, run, schedule, restart, new-IsConsistent,
  Reach-IsConsistent,
}

abbrev waiting : ServiceState
waiting = set_auto_restart 100 20 21 22 (set_running 7 11 (set_starting 10 (new 0)))

waits : waiting.sub ≡ SubState.auto_restart
unfolding set_auto_restart
waits = refl

counts : waiting.restart_count ≡ 1
unfolding set_auto_restart set_running set_starting new
counts = refl

again : Reach (new 0) (set_starting 120 (clear_restart waiting))
again =
    next
      (next (next (next (next here (start 10)) (run 7 11)) (schedule 100 20 21 22)) (restart waits))
      (start 120)

Reach-IsConsistent_example : IsConsistent (set_starting 120 (clear_restart waiting))
Reach-IsConsistent_example = Reach-IsConsistent again (new-IsConsistent 0)

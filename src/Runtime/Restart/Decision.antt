-- ===== src/Runtime/Restart/Decision.antt =====
-- Which exits lead to a restart, and what the others lead to.
use mathlib.Core.Option
use sysd.Prelude.{
  ◌+◌, ◌≡◌, ◌↔◌, ◌⊎◌, ℤ, pos, String, Bool, true, false, none, some, ◌&&◌, ◌==◌, int_eq, arith,
  contains, Bool-cases, inl, inr, get, get-modify, string_eq, if◌then◌else◌, Map,
}
use sysd.State.{
  SubState, ActiveState, ServiceState, is_restart_rate_limited, set_auto_restart, set_stopped,
  set_failed, reset_restart_count,
}
use sysd.State.Invariant.{
  IsConsistent, Step-IsConsistent, stopped, schedule, check_limit, reset, fail, exited,
}
use sysd.Runtime.Restart.{
  RestartDecisionInput, Readings, policy_wants_restart, decide_restart, apply_restart_decision,
  after_clean_exit, after_failure,
}

-- Whether the rate limit forbids a restart of the unit.
abbrev pub limited : RestartDecisionInput → Readings → ServiceState → Bool
limited i t s =
    (is_restart_rate_limited i.start_limit_burst i.start_limit_interval_sec t.checked s).1

-- What a restart needs: the policy wants it, the exit code does not forbid it, the rate limit has
-- room, and the exit is not the success of a oneshot that remains after it.
pub record Restarts (i : RestartDecisionInput) (t : Readings) (code : ℤ) (s : ServiceState)
    : Type 0 where
  pub wanted : policy_wants_restart i.restart_policy code ≡ true
  pub allowed : contains i.restart_prevent_exit_status code ≡ false
  pub has_room : limited i t s ≡ false
  pub not_remaining : code ≡ pos 0 → (i.is_oneshot && i.remain_after_exit) ≡ false

module _ (i : RestartDecisionInput) (t : Readings) (code : ℤ) (s : ServiceState) where
  -- After an exit the unit waits for a restart exactly when the policy wants one, the exit code is not
  -- in `RestartPreventExitStatus`, the rate limit has room, and the exit is not the success of a oneshot
  -- that remains after it.
  pub decide_restart_iff :
      ((decide_restart i t code s).sub ≡ SubState.auto_restart) ↔ Restarts i t code s
  unfolding decide_restart set_auto_restart set_stopped set_failed reset_restart_count
  decide_restart_iff = (
    λ h. record {
      wanted = ground arith;
      allowed = ground arith;
      has_room = ground arith;
      not_remaining = ground arith;
    },
    λ r. ground (arith, r.wanted, r.allowed, r.has_room, r.not_remaining),
  )

  -- The unit ends as failed exactly when it did not exit with 0, and the rate limit is reached or
  -- else neither the policy restarts it nor the exit code is one that forbids restarts.
  pub decide_restart-failed_iff : ((decide_restart i t code s).sub ≡ SubState.failed) ↔ (
      ((code == pos 0) ≡ false)
      × ((limited i t s ≡ true)
          ⊎ ((contains i.restart_prevent_exit_status code ≡ false)
              × (policy_wants_restart i.restart_policy code ≡ false))))
  unfolding decide_restart set_auto_restart set_stopped set_failed reset_restart_count
  decide_restart-failed_iff = (λ h. ground arith, λ h. ground arith)

  -- A unit that waits for its restart after the exit waits `restart_sec` from the clock's reading, and
  -- has no main process.
  pub restart_at-decide_restart :
      (decide_restart i t code s).sub ≡ SubState.auto_restart
      → ((decide_restart i t code s).restart_at ≡ some (t.now + i.restart_sec))
        × ((decide_restart i t code s).main_pid ≡ none)
  unfolding decide_restart set_auto_restart set_stopped set_failed reset_restart_count
  restart_at-decide_restart h = ground arith

  -- The exit leaves no main process behind, in whatever branch.
  pub main_pid-decide_restart : (decide_restart i t code s).main_pid ≡ none
  unfolding decide_restart set_auto_restart set_stopped set_failed reset_restart_count
  main_pid-decide_restart = ground arith

module _ (i : RestartDecisionInput) (t : Readings) (code : ℤ) where
  remaining-IsConsistent :
      {s : ServiceState}
      → IsConsistent s
      → IsConsistent (record s {
        active = ActiveState.active;
        sub = SubState.exited;
        main_pid = none;
        exit_code = some code;
      })
  remaining-IsConsistent c = record {
    pair = exited;
    pid_live = ground arith;
    restart_timed = ground arith;
    counted = c.counted;
    failure_told = ground arith;
  }

  after_clean_exit-IsConsistent :
      (b : Bool) {s : ServiceState} → IsConsistent s → IsConsistent (after_clean_exit i b t code s)
  unfolding after_clean_exit
  after_clean_exit-IsConsistent b c = elim (Bool-cases (i.is_oneshot && i.remain_after_exit)) [
    | inl h ↦ rw h (Step-IsConsistent reset (remaining-IsConsistent c))
    | inr h ↦ rw h (elim (Bool-cases b) [
      | inl r ↦ rw r (Step-IsConsistent (schedule i.restart_sec t.now t.now' t.now'') c)
      | inr r ↦ rw r (Step-IsConsistent reset (Step-IsConsistent (stopped code t.now) c))
    ])
  ]

  after_failure-IsConsistent :
      (l p b : Bool) {s : ServiceState}
      → IsConsistent s
      → IsConsistent (after_failure i l p b t code s)
  unfolding after_failure
  after_failure-IsConsistent true p b c = Step-IsConsistent (fail _ t.now) c
  after_failure-IsConsistent false true b c = Step-IsConsistent (stopped code t.now) c
  after_failure-IsConsistent false false true c =
      Step-IsConsistent (schedule i.restart_sec t.now t.now' t.now'') c
  after_failure-IsConsistent false false false c = Step-IsConsistent (fail _ t.now) c

-- If a unit's state is consistent before the decision, it is consistent after it, on every branch.
pub decide_restart-IsConsistent :
    (i : RestartDecisionInput) (t : Readings) (code : ℤ) (s : ServiceState)
    → IsConsistent s
    → IsConsistent (decide_restart i t code s)
unfolding decide_restart
decide_restart-IsConsistent i t code s c =
    let checked =
      Step-IsConsistent (check_limit i.start_limit_burst i.start_limit_interval_sec t.checked) c in
    elim (Bool-cases (code == pos 0)) [
      | inl h ↦ rw h (after_clean_exit-IsConsistent i t code _ checked)
      | inr h ↦ rw h (after_failure-IsConsistent i t code _ _ _ checked)
    ]

-- For every name of the map, `apply_restart_decision` makes the decision on the state of the unit that
-- exited, if the map has one, and leaves the states of the other units alone.
pub get-apply_restart_decision :
    (i : RestartDecisionInput) (t : Readings) (code : ℤ) (name other : String)
    (states : Map String ServiceState)
    → get (apply_restart_decision i t code name states) other ≡ (
        if name == other
        then Option.map (decide_restart i t code) (get states other)
        else get states other)
unfolding apply_restart_decision
get-apply_restart_decision i t code name other states =
    get-modify states name other (decide_restart i t code)

-- ===== src/Runtime/Restart/RateLimit.antt =====
-- The rate limit over a run of exits and restarts (`StartLimitBurst`, `StartLimitIntervalSec`).
use sysd.Prelude.{
  ℕ, suc, ◌+◌, ◌^◌, ◌≤◌, ◌<◌, ◌≡◌, ℤ, Bool, true, false, Option, none, some, List, [], ◌∷◌, int_eq,
  arith, Bool-cases, inl, inr, refl, if◌then◌else◌, length, min, leb, ltb, ltb→lt, ◌-◌, ap,
  contains, ◌&&◌,
}
use sysd.Units.Sections.{Duration}
use sysd.State.{
  Instant, SubState, ServiceState, is_restart_rate_limited, set_auto_restart, set_stopped,
  set_failed, reset_restart_count, clear_restart, set_starting, set_running, interval_or_default,
  interval_expired, start_interval,
}
use sysd.Runtime.Restart.{RestartDecisionInput, Readings, policy_wants_restart, decide_restart}
use sysd.Runtime.Restart.Decision.{limited, decide_restart_iff}

-- One exit of a process: its code, the readings of the clock in the decision, and what the restart
-- that may follow reads and gets, the new process being `pid`.
pub record Exit : Type 0 where
  pub code : ℤ
  pub readings : Readings
  pub started : Instant
  pub ran : Instant
  pub pid : ℕ

abbrev is_auto_restart : SubState → Bool
is_auto_restart SubState.auto_restart = true
is_auto_restart _ = false

auto_restart_of : (s : SubState) → is_auto_restart s ≡ true → s ≡ SubState.auto_restart
auto_restart_of s h = ground arith

-- `process_restarts` for a unit whose restart is due, up to `mark_running_start`.
relaunch : Exit → ServiceState → ServiceState
relaunch x s = set_running x.pid x.ran (set_starting x.started (clear_restart s))

-- How many restarts follow the exits: the run ends when one is not followed by a restart.
pub restarts : RestartDecisionInput → List Exit → ServiceState → ℕ
unfolding relaunch
restarts i [] s = 0
restarts i (x ∷ xs) s =
    let s' = decide_restart i x.readings x.code s in
    let more = restarts i xs (relaunch x s') in if is_auto_restart s'.sub then suc more else 0

-- The exit asks for a restart: the policy wants it, the code does not forbid it, and the unit is no
-- oneshot that remains after its exit.
abbrev pub Asks : RestartDecisionInput → ℤ → Type 0
Asks i code =
    (policy_wants_restart i.restart_policy code ≡ true)
    × (contains i.restart_prevent_exit_status code ≡ false)
    × ((i.is_oneshot && i.remain_after_exit) ≡ false)

abbrev pub AllAsk : RestartDecisionInput → List Exit → Type 0
AllAsk i [] = Unit
AllAsk i (x ∷ xs) = Asks i x.code × AllAsk i xs

relaunch_counters :
    (x : Exit) (s : ServiceState)
    → ((relaunch x s).restart_count ≡ s.restart_count)
      × ((relaunch x s).restart_interval_start ≡ s.restart_interval_start)
unfolding relaunch set_running set_starting clear_restart
relaunch_counters x s = (refl, refl)

-- The decision reads the clock between `t₀` and the end of the window that opens there.
abbrev pub InWindow : Instant → Duration → List Exit → Type 0
InWindow t₀ d [] = Unit
InWindow t₀ d (x ∷ xs) = (t₀ ≤ x.readings.now') × (x.readings.checked ≤ t₀ + d) × InWindow t₀ d xs

-- No interval began before `t₀`.
abbrev pub BeginsAfter : Instant → Option Instant → Type 0
BeginsAfter t₀ none = Unit
BeginsAfter t₀ (some t) = t₀ ≤ t

not_expired :
    (t₀ : Instant) (o : Option Instant) (d : Duration) (checked : Instant)
    → BeginsAfter t₀ o
    → checked ≤ t₀ + d
    → interval_expired o d checked ≡ false
unfolding interval_expired
not_expired t₀ none d checked h w = refl
not_expired t₀ (some t) d checked h w = ground arith

start_interval-BeginsAfter :
    (t₀ : Instant) (o : Option Instant) (now : Instant)
    → BeginsAfter t₀ o
    → t₀ ≤ now
    → BeginsAfter t₀ (start_interval o now)
start_interval-BeginsAfter t₀ none now h w = w
start_interval-BeginsAfter t₀ (some t) now h w = h

module _ (i : RestartDecisionInput) (b : ℕ) (fits : b < 2 ^ 32)
    (limit : i.start_limit_burst ≡ some b) (t₀ : Instant) where
  abbrev pub window : Duration
  window = interval_or_default i.start_limit_interval_sec

  check_in_window :
      (s : ServiceState) (checked : Instant)
      → BeginsAfter t₀ s.restart_interval_start
      → checked ≤ t₀ + window
      → is_restart_rate_limited i.start_limit_burst i.start_limit_interval_sec checked s
        ≡ (s, leb b s.restart_count)
  unfolding is_restart_rate_limited
  check_in_window s checked h w =
      rw
        (limit, is_restart_rate_limited, not_expired t₀ s.restart_interval_start window checked h w)

  -- A restart in the window is one more in the count, which had room.
  restart_in_window :
      (t : Readings) (code : ℤ) (s : ServiceState)
      → BeginsAfter t₀ s.restart_interval_start
      → t.checked ≤ t₀ + window
      → (decide_restart i t code s).sub ≡ SubState.auto_restart
      → ((decide_restart i t code s).restart_count ≡ s.restart_count + 1)
        × (s.restart_count < b)
        × ((decide_restart i t code s).restart_interval_start
            ≡ start_interval s.restart_interval_start t.now')
  unfolding decide_restart set_auto_restart set_stopped set_failed reset_restart_count
  restart_in_window t code s h w r = ground (arith, check_in_window s t.checked h w)

  -- With room in the count an exit that asks for a restart has it.
  restart_with_room :
      (t : Readings) (code : ℤ) (s : ServiceState)
      → BeginsAfter t₀ s.restart_interval_start
      → t.checked ≤ t₀ + window
      → Asks i code
      → s.restart_count < b
      → (decide_restart i t code s).sub ≡ SubState.auto_restart
  restart_with_room t code s h w a room = (decide_restart_iff i t code s).1 (record {
    wanted = a.0;
    allowed = a.1;
    has_room = rw (check_in_window s t.checked h w, limited) (ground arith);
    not_remaining = λ _. a.2;
  })

  -- With `StartLimitBurst` set to `b`, below 2 ^ 32: if the interval of the rate limit has not begun
  -- before `t₀`, every decision reads the clock between `t₀` and `t₀` and the length of the window,
  -- and no more than `b` restarts are counted at first, then the restarts that follow the exits and
  -- those counted at first are together at most `b`.
  pub restarts_bound :
      (xs : List Exit) (s : ServiceState)
      → BeginsAfter t₀ s.restart_interval_start
      → InWindow t₀ window xs
      → s.restart_count ≤ b
      → restarts i xs s + s.restart_count ≤ b
  unfolding restarts
  restarts_bound [] s h w c = omega arith
  restarts_bound (x ∷ xs) s h w c =
      elim (Bool-cases (is_auto_restart (decide_restart i x.readings x.code s).sub)) [
        | inl again ↦
            let s' = decide_restart i x.readings x.code s in
            let (count, room, start) =
              restart_in_window x.readings x.code s h w.1 (auto_restart_of s'.sub again) in
            let (same_count, same_start) = relaunch_counters x s' in
            let begins =
              start_interval-BeginsAfter t₀ s.restart_interval_start x.readings.now' h w.0 in
            let rest =
              restarts_bound xs (relaunch x s') (rw (same_start, start) begins) w.2
                (omega (arith, same_count, count)) in
            rw again (omega (arith, rest, same_count, count))
        | inr over ↦ rw over (omega arith)
      ]

  -- With `StartLimitBurst` set to `b`, below 2 ^ 32, with the interval not begun before `t₀`, every
  -- decision within the window that opens at `t₀` and at most `b` restarts counted at first: if every
  -- exit asks for a restart, then the restarts are as many as the exits, or as the room left in the
  -- count if that is less.
  pub restarts-eq-min :
      (xs : List Exit) (s : ServiceState)
      → BeginsAfter t₀ s.restart_interval_start
      → InWindow t₀ window xs
      → AllAsk i xs
      → s.restart_count ≤ b
      → restarts i xs s ≡ min (length xs) (b - s.restart_count)
  unfolding restarts
  restarts-eq-min [] s h w a c = omega arith
  restarts-eq-min (x ∷ xs) s h w a c =
      let s' = decide_restart i x.readings x.code s in
      elim (Bool-cases (ltb s.restart_count b)) [
        | inl room ↦
            let again = restart_with_room x.readings x.code s h w.1 a.0 (ltb→lt _ _ room) in
            let (count, _, start) = restart_in_window x.readings x.code s h w.1 again in
            let (same_count, same_start) = relaunch_counters x s' in
            let begins =
              start_interval-BeginsAfter t₀ s.restart_interval_start x.readings.now' h w.0 in
            let rest =
              restarts-eq-min xs (relaunch x s') (rw (same_start, start) begins) w.2 a.1
                (omega (arith, same_count, count, ltb→lt _ _ room)) in
            rw (ap is_auto_restart again) (omega (arith, rest, same_count, count, ltb→lt _ _ room))
        | inr full ↦ elim (Bool-cases (is_auto_restart s'.sub)) [
          | inl again ↦ absurd (
              ground
                (arith, restart_in_window x.readings x.code s h w.1 (auto_restart_of s'.sub again)))
          | inr over ↦ rw over (ground arith)
        ]
      ]

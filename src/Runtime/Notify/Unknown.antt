-- ===== src/Runtime/Notify/Unknown.antt =====
-- A message from a process that belongs to no service (src/manager/runtime/imp/part1.rs).
use mathlib.Core.Option
use sysd.Prelude.{
  ℕ, String, ◌≡◌, refl, ap, ◌∙◌, true, false, Option, none, some, [], ◌∷◌, ◌++◌, Map, IsMap, ◌==◌,
  if◌then◌else◌, get, has_key, get-modify, string_eq, nat_eq, beq_self, remove, arith, Bool-cases,
  Option-cases, inl, inr, ◌>>=◌,
}
use sysd.Units.Sections.{Duration}
use sysd.State.{Instant, set_running}
use sysd.Manager.{Manager}
use sysd.Runtime.Notify.{
  NotifyMessage, main_pid, find_service_by_pid, service_of, first_waiting, validate_notify_access,
  handle_notify_ready, resolve_ready_service_name, mark_service_ready, arm_watchdog, armed,
  running_as, id_of, ready_as, take_first,
}

arm_watchdog-states :
    (now : Instant) (name : String) (m : Manager) → (arm_watchdog now name m).states ≡ m.states
unfolding arm_watchdog
arm_watchdog-states now name m = go (service_of m name >>= (λ s. s.service.watchdog_sec))
  where
    go : (o : Option Duration) → (armed now name o m).states ≡ m.states
    go none = refl
    go (some wd) = refl

-- None of the processes has an id that waits.
abbrev pub NoneWaits : Map ℕ String → Map String (Option ℕ) → Type 0
NoneWaits waiting [] = Unit
NoneWaits waiting ((name, none) ∷ rest) = NoneWaits waiting rest
NoneWaits waiting ((name, some pid) ∷ rest) = (has_key waiting pid ≡ false) × NoneWaits waiting rest

-- `name` with the id `pid` is the first of the processes whose id waits.
pub record IsFirst (waiting : Map ℕ String) (processes : Map String (Option ℕ)) (name : String)
    (pid : ℕ) : Type 0 where
  pub before : Map String (Option ℕ)
  pub after : Map String (Option ℕ)
  pub placed : processes ≡ before ++ (name, some pid) ∷ after
  pub passed : NoneWaits waiting before
  pub waits : has_key waiting pid ≡ true

-- What the search finds, told without it.
abbrev Found : Map ℕ String → Map String (Option ℕ) → Option (ℕ × String) → Type 0
Found waiting processes none = NoneWaits waiting processes
Found waiting processes (some (pid, name)) = IsFirst waiting processes name pid

passing_none :
    (waiting : Map ℕ String) (processes : Map String (Option ℕ)) (n : String)
    → (o : Option (ℕ × String)) → Found waiting processes o
    → Found waiting ((n, none) ∷ processes) o
passing_none waiting processes n none f = f
passing_none waiting processes n (some (pid, name)) f = record {
  before = (n, none) ∷ f.before;
  after = f.after;
  placed = ap (λ ps. (n, none) ∷ ps) f.placed;
  passed = f.passed;
  waits = f.waits;
}

passing :
    (waiting : Map ℕ String) (processes : Map String (Option ℕ)) (n : String) (p : ℕ)
    → (o : Option (ℕ × String)) → has_key waiting p ≡ false
    → Found waiting processes o
    → Found waiting ((n, some p) ∷ processes) o
passing waiting processes n p none h f = (h, f)
passing waiting processes n p (some (pid, name)) h f = record {
  before = (n, some p) ∷ f.before;
  after = f.after;
  placed = ap (λ ps. (n, some p) ∷ ps) f.placed;
  passed = (h, f.passed);
  waits = f.waits;
}

first_waiting-Found :
    (waiting : Map ℕ String) (processes : Map String (Option ℕ))
    → Found waiting processes (first_waiting waiting processes)
unfolding first_waiting
first_waiting-Found waiting [] = tt
first_waiting-Found waiting ((n, none) ∷ rest) =
    passing_none waiting rest n (first_waiting waiting rest) (first_waiting-Found waiting rest)
first_waiting-Found waiting ((n, some p) ∷ rest) = elim (Bool-cases (has_key waiting p)) [
  | inl h ↦ rw h (record { before = []; after = rest; placed = refl; passed = tt; waits = h })
  | inr h ↦
      rw h
        (passing waiting rest n p (first_waiting waiting rest) h (first_waiting-Found waiting rest))
]

-- A key that stands in a map is found there.
get-middle :
    (before : Map String (Option ℕ)) (name : String) (v : Option ℕ) (after : Map String (Option ℕ))
    → IsMap (before ++ (name, v) ∷ after)
    → get (before ++ (name, v) ∷ after) name ≡ some v
unfolding get
get-middle [] name v after im = rw (beq_self name) refl
get-middle ((k, w) ∷ before) name v after im = elim (Bool-cases (k == name)) [
  | inl h ↦
      let k-eq = (string_eq.beq_iff k name).0 h in
      absurd (ground (arith, get-middle before name v after im.1, im.0, k-eq))
  | inr h ↦ rw h (get-middle before name v after im.1)
]

get-mark_service_ready :
    (now now' : Instant) (name : String) (m : Manager) (pid : ℕ) (n : String)
    → get m.processes name ≡ some (some pid)
    → get (mark_service_ready now now' name m).states n
      ≡ (if name == n then Option.map (set_running pid now) (get m.states n) else get m.states n)
unfolding mark_service_ready
get-mark_service_ready now now' name m pid n h =
    ap (λ states. get states n)
      (arm_watchdog-states now' name (running_as now name (id_of m name) m))
    ∙ elim (Bool-cases (has_key m.states name)) [
      | inl k ↦ rw (k, h) (get-modify m.states name n (set_running pid now))
      | inr k ↦ rw k (elim (Bool-cases (name == n)) [
        | inl e ↦ rw e (ground (arith, k, (string_eq.beq_iff name n).0 e))
        | inr e ↦ rw e refl
      ])
    ]

-- What is left of a message that is let through: nothing has happened as no process of a service
-- waits, or the first that does is taken for the one that is ready.
pub data Mistaken (now : Instant) (m handled : Manager) : Type 0 where
  ignored : NoneWaits m.waiting_ready m.processes → handled ≡ m → Mistaken now m handled
  taken :
      (name : String) (pid : ℕ)
      → IsFirst m.waiting_ready m.processes name pid
      → handled.waiting_ready ≡ remove m.waiting_ready pid
      → ((n : String)
          → get handled.states n ≡ (
              if name == n
              then Option.map (set_running pid now) (get m.states n)
              else get m.states n))
      → Mistaken now m handled

arm_watchdog-waiting :
    (now : Instant) (name : String) (m : Manager)
    → (arm_watchdog now name m).waiting_ready ≡ m.waiting_ready
unfolding arm_watchdog
arm_watchdog-waiting now name m = go (service_of m name >>= (λ s. s.service.watchdog_sec))
  where
    go : (o : Option Duration) → (armed now name o m).waiting_ready ≡ m.waiting_ready
    go none = refl
    go (some wd) = refl

mark_service_ready-waiting :
    (now now' : Instant) (name : String) (m : Manager)
    → (mark_service_ready now now' name m).waiting_ready ≡ m.waiting_ready
unfolding mark_service_ready
mark_service_ready-waiting now now' name m =
    arm_watchdog-waiting now' name (running_as now name (id_of m name) m)
    ∙ elim (Bool-cases (has_key m.states name)) [ inl k ↦ rw k refl | inr k ↦ rw k refl ]

ready_as-Mistaken :
    (now now' : Instant) (m : Manager) (o : Option (ℕ × String))
    → IsMap m.processes
    → Found m.waiting_ready m.processes o
    → Mistaken now m (ready_as now now' (take_first o m))
ready_as-Mistaken now now' m none im f = ignored f refl
ready_as-Mistaken now now' m (some (pid, name)) im f =
    let m' = record m { waiting_ready = remove m.waiting_ready pid } in
    let at : get m.processes name ≡ some (some pid) =
      rw (f.placed) (get-middle f.before name (some pid) f.after (rw (f.placed) at im)) in
    taken name pid f (mark_service_ready-waiting now now' name m')
      (λ n. get-mark_service_ready now now' name m' pid n at)

-- A message without `MAINPID`, from a process that belongs to no service, is let through whatever
-- `NotifyAccess=` the services have. If it is handled as `READY=1`, then the first of the
-- processes of services whose id waits to become ready is taken for the sender: its id waits no
-- longer and its service is set running, and no other state changes. If none waits, nothing happens.
pub handle_notify_ready-unknown :
    (now now' : Instant) (msg : NotifyMessage) (m : Manager)
    → IsMap m.processes
    → find_service_by_pid m msg.pid ≡ none
    → main_pid msg ≡ none
    → (validate_notify_access m msg ≡ true) × Mistaken now m (handle_notify_ready now now' msg m)
unfolding validate_notify_access handle_notify_ready find_service_by_pid resolve_ready_service_name
handle_notify_ready-unknown now now' msg m im unknown no_main =
    let found = first_waiting-Found m.waiting_ready m.processes in
    (
      rw unknown refl,
      rw (no_main, not_waiting)
          (ready_as-Mistaken now now' m (first_waiting m.waiting_ready m.processes) im found),
    )
  where
    not_waiting : has_key m.waiting_ready msg.pid ≡ false
    not_waiting = elim (Option-cases (get m.waiting_ready msg.pid)) [
      | inl h ↦ rw h refl
      | inr (n, h) ↦ absurd (ground (arith, h, unknown))
    ]

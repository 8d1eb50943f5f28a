-- ===== src/Manager/Single/Reload.antt =====
-- Reading the unit files again and what goes with it (src/manager/mod_impl/part3.rs): `reload_units`,
-- `sync_units`, `reset_failed` and the environment of the user. The hash of a
-- service's configuration is a parameter, of the values that the source hashes.
use sysd.Prelude.{
  ℕ, ◌+◌, String, ◌≡◌, refl, sym, beq_self, Bool, true, false, not, ◌==◌, string_eq, nat_eq, Option,
  none, some, List, [], ◌∷◌, ◌++◌, Map, get, has_key, insert, remove, keys, contains, contains-keys,
  get-insert, or_else, if◌then◌else◌, map_or, Bool-cases, inl, inr, arith, is_some, ◌>>=◌,
}
use sysd.Deps.StartOrder.{ends_with}
use sysd.Units.Kinds.{Service, AnyUnit, as_service}
use sysd.State.{ServiceState, ActiveState, SubState, is_active}
use sysd.Manager.{Manager, Result, ok, err, Outcome}
use sysd.Manager.Load.{Disk, find_unit, parse_unit_file}
use sysd.Manager.Single.{World, restart}

abbrev pub parsed : Result AnyUnit → Option AnyUnit
parsed (ok u) = some u
parsed (err e) = none

abbrev pub found : Disk → Result String → Option AnyUnit
found d (ok path) = parsed (parse_unit_file d path)
found d (err e) = none

-- The unit that stands in the file of that name now, unless the name is a scope's.
unfoldable pub reread : Disk → Manager → String → Option AnyUnit
reread d m name = if ends_with name ".scope" then none else found d (find_unit d m name)

abbrev stored : Option AnyUnit → String → Map String AnyUnit × ℕ → Map String AnyUnit × ℕ
stored none name (units, n) = (units, n)
stored (some u) name (units, n) = (insert units name u, n + 1)

unfoldable pub reload_loop :
    Disk → Manager → List String → Map String AnyUnit × ℕ → Map String AnyUnit × ℕ
unfolding reread
reload_loop d m [] r = r
reload_loop d m (name ∷ names) r = reload_loop d m names (stored (reread d m name) name r)

-- The number of the units that were read, and the manager.
unfoldable pub reload_units : Disk → Manager → ℕ × Manager
unfolding reload_loop
reload_units d m =
    let r = reload_loop d m (keys m.units) (m.units, 0) in (r.1, record m { units = r.0 })

get-stored :
    (new : Option AnyUnit) (name n : String) (r : Map String AnyUnit × ℕ)
    → get (stored new name r).0 n ≡ (if name == n then or_else new (get r.0 n) else get r.0 n)
get-stored none name n (units, k) = ground arith
get-stored (some u) name n (units, k) = ground (arith, get-insert units name n u)

again :
    (b : Bool) (new old : Option AnyUnit)
    → (if b then or_else new (or_else new old) else or_else new old) ≡ or_else new old
again true none old = refl
again true (some u) old = refl
again false new old = refl

get-reload_loop :
    (d : Disk) (m : Manager) (names : List String) (r : Map String AnyUnit × ℕ) (n : String)
    → get (reload_loop d m names r).0 n
      ≡ (if contains names n then or_else (reread d m n) (get r.0 n) else get r.0 n)
unfolding reload_loop contains
get-reload_loop d m [] r n = refl
get-reload_loop d m (name ∷ names) r n = elim (Bool-cases (name == n)) [
  | inl h ↦
      rw
        (
          sym ((string_eq.beq_iff name n).0 h),
          get-reload_loop d m names (stored (reread d m name) name r) name,
          get-stored (reread d m name) name name r,
          beq_self name,
        )
        (again (contains names name) (reread d m name) (get r.0 name))
  | inr h ↦
      rw
        (
          get-reload_loop d m names (stored (reread d m name) name r) n,
          get-stored (reread d m name) name n r,
          h,
        )
        refl
]

none_left :
    (old new : Option AnyUnit)
    → (if is_some old then or_else new old else old)
      ≡ (if is_some old then or_else new old else none)
none_left none new = refl
none_left (some u) new = refl

-- After a reload each unit that was loaded is the one that its file holds now, or as it was when there
-- is no file that can be read or when it is a scope; no other unit is loaded.
pub get-reload_units :
    (d : Disk) (m : Manager) (n : String)
    → get (reload_units d m).1.units n
      ≡ (if has_key m.units n then or_else (reread d m n) (get m.units n) else none)
unfolding reload_units
get-reload_units d m n =
    rw (get-reload_loop d m (keys m.units) (m.units, 0) n, contains-keys m.units n)
      (none_left (get m.units n) (reread d m n))

-- What `service_config_hash` hashes.
abbrev pub Config : Type 0
Config =
    List String
    × List (String × String)
    × List String
    × Option String
    × Option String
    × Option String

abbrev pub config : Service → Config
config s = (
  s.service.exec_start, s.service.environment, s.service.environment_file,
  s.service.working_directory, s.service.user, s.service.group,
)

module _ (hash : Config → ℕ) where
  abbrev with_hash : String → Option Service → Map String ℕ → Map String ℕ
  with_hash name none hashes = hashes
  with_hash name (some s) hashes = (name, hash (config s)) ∷ hashes

  unfoldable pub snapshot_service_hashes : Map String AnyUnit → Map String ℕ
  snapshot_service_hashes [] = []
  snapshot_service_hashes ((name, unit) ∷ rest) =
      with_hash name (as_service unit) (snapshot_service_hashes rest)

  unfoldable pub service_config_changed : Manager → String → ℕ → Bool
  service_config_changed m name old_hash =
      map_or false (λ s. not (hash (config s) == old_hash)) (get m.units name >>= as_service)

  abbrev pub noted : String → Outcome {0} Unit → Bool × Manager
  noted name (ok done, m) = (true, m)
  noted name (err e, m) = (false, m)

  unfoldable pub restart_changed_running_service : World → World → String → Manager → Bool × Manager
  restart_changed_running_service w w' name m =
      if map_or false is_active (get m.states name)
      then noted name (restart w w' name m)
      else (false, m)

  unfoldable pub sync_loop :
      World → World → Map String ℕ → List String → Manager → List String × Manager
  unfolding service_config_changed restart_changed_running_service
  sync_loop w w' [] restarted m = (restarted, m)
  sync_loop w w' ((name, old_hash) ∷ rest) restarted m =
      let unchanged = sync_loop w w' rest restarted m in
      let (done, m') = restart_changed_running_service w w' name m in
      let changed = sync_loop w w' rest (if done then restarted ++ name ∷ [] else restarted) m' in
      if service_config_changed m name old_hash then changed else unchanged

  unfoldable pub sync_units : World → World → Manager → List String × Manager
  unfolding snapshot_service_hashes sync_loop
  sync_units w w' m = sync_loop w w' (snapshot_service_hashes m.units) [] (reload_units w.disk m).1

abbrev is_failed : ActiveState → Bool
is_failed ActiveState.failed = true
is_failed _ = false

unfoldable pub reset_state : ServiceState → ServiceState
reset_state s =
    if is_failed s.active
    then record s { active = ActiveState.inactive; sub = SubState.dead; error = none }
    else s

unfoldable pub reset_states : Map String ServiceState → Map String ServiceState
unfolding reset_state
reset_states [] = []
reset_states ((name, s) ∷ rest) = (name, reset_state s) ∷ reset_states rest

unfoldable pub reset_failed : Manager → Manager
unfolding reset_states
reset_failed m = record m { states = reset_states m.states }

unfoldable pub import_all : List (String × String) → Map String String → Map String String
import_all [] env = env
import_all ((key, value) ∷ vars) env = import_all vars (insert env key value)

unfoldable pub import_environment : List (String × String) → Manager → Manager
unfolding import_all
import_environment vars m = record m { user_environment = import_all vars m.user_environment }

unfoldable pub unset_all : List String → Map String String → Map String String
unset_all [] env = env
unset_all (name ∷ names) env = unset_all names (remove env name)

unfoldable pub unset_environment : List String → Manager → Manager
unfolding unset_all
unset_environment names m = record m { user_environment = unset_all names m.user_environment }

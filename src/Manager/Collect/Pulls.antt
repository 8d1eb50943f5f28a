-- ===== src/Manager/Collect/Pulls.antt =====
-- What the units of a manager pull in, when more of them are loaded
-- (src/manager/mod_impl/part1.rs).
use sysd.Prelude.{
  String, ◌≡◌, refl, true, Option, none, some, List, ◌==◌, string_eq, contains, Map, get, has_key,
  insert, get-insert, Bool-cases, inl, inr,
}
use sysd.Units.Kinds.{AnyUnit, unit_section, wants_dir}
use sysd.State
use sysd.State.{Instant}
use sysd.Manager.{Manager, Result, ok, err, Outcome, ◌>>=◌, normalize_name}
use sysd.Units.Kinds.{name}
use sysd.Units.Names.{set_name, set_service_name, is_bare_template}
use sysd.State.{ServiceState}
use sysd.Manager.Load.{
  Disk, Reading, whole, broken, parse_unit_file, parse_reading, find_unit, apply_canonical_name,
  read_file, load_file, load_name, load_found, load_canonical, template_found, template_read,
  resolved_as, instantiated, default_instance_for_unit, load, load_resolved, resolve_load_name,
  resolve_canonical_unit_name, LoadNameResolution, continue, already_loaded,
}
use sysd.Manager.Collect.{pulled_in}

module _ (names : List String) where
  -- What the units of a manager pull in are names of the list.
  abbrev pub PullsIn : Manager → Type 0
  PullsIn m =
      (n dep : String) → contains (pulled_in (get m.units n)) dep ≡ true → contains names dep ≡ true

  -- What the units on the disk pull in are names of the list.
  abbrev pub DiskPulls : Disk → Type 0
  DiskPulls d =
      (path : String) (u : AnyUnit)
      → d.load_unit path ≡ whole u
      → (dep : String) → contains (pulled_in (some u)) dep ≡ true
      → contains names dep ≡ true

  insert-PullsIn :
      (m : Manager) (states : Map String ServiceState) (k : String) (u : AnyUnit)
      → ((dep : String) → contains (pulled_in (some u)) dep ≡ true → contains names dep ≡ true)
      → PullsIn m
      → PullsIn (record m { states = states; units = insert m.units k u })
  insert-PullsIn m states k u h p n dep e = elim (Bool-cases (k == n)) [
    | inl same ↦ h dep (rw (get-insert, same) at e)
    | inr other ↦ p n dep (rw (get-insert, other) at e)
  ]

  pulled_in-set_name :
      (name : String) (u : AnyUnit) → pulled_in (some (set_name name u)) ≡ pulled_in (some u)
  unfolding set_name set_service_name unit_section wants_dir
  pulled_in-set_name name (AnyUnit.service s) = refl
  pulled_in-set_name name (AnyUnit.target s) = refl
  pulled_in-set_name name (AnyUnit.mount s) = refl
  pulled_in-set_name name (AnyUnit.slice s) = refl
  pulled_in-set_name name (AnyUnit.socket s) = refl
  pulled_in-set_name name (AnyUnit.timer s) = refl
  pulled_in-set_name name (AnyUnit.path s) = refl

  pulled_in-apply_canonical_name :
      (cn : String) (u : AnyUnit)
      → pulled_in (some (apply_canonical_name cn u)) ≡ pulled_in (some u)
  unfolding apply_canonical_name
  pulled_in-apply_canonical_name cn u = elim (Bool-cases (name u == cn)) [
    | inl same ↦ rw same refl
    | inr other ↦ rw other (pulled_in-set_name cn u)
  ]

  load_file-PullsIn :
      (d : Disk) (now : Instant) (cn path : String) (m : Manager)
      → DiskPulls d
      → PullsIn m
      → PullsIn (load_file d now cn path m).1
  unfolding parse_unit_file
  load_file-PullsIn d now cn path m h p = elim (Bool-cases (has_key m.units cn)) [
    | inl old ↦ rw old p
    | inr new ↦ rw new (go (d.load_unit path) refl)
  ]
    where
      go : (r : Reading) → d.load_unit path ≡ r → PullsIn (read_file now cn m (parse_reading r)).1
      go (broken e) q = p
      go (whole u) q =
          insert-PullsIn m (insert m.states cn (State.new now)) cn (apply_canonical_name cn u)
            (λ dep k. h path u q dep (rw pulled_in-apply_canonical_name at k)) p

  load_canonical-PullsIn :
      (d : Disk) (now : Instant) (path : String) (m : Manager) (r : Result String)
      → DiskPulls d
      → PullsIn m
      → PullsIn (load_canonical d now path m r).1
  load_canonical-PullsIn d now path m (err e) h p = p
  load_canonical-PullsIn d now path m (ok cn) h p = load_file-PullsIn d now cn path m h p

  load_found-PullsIn :
      (d : Disk) (now : Instant) (name : String) (m : Manager) (r : Result String)
      → DiskPulls d
      → PullsIn m
      → PullsIn (load_found d now name m r).1
  load_found-PullsIn d now name m (err e) h p = p
  load_found-PullsIn d now name m (ok path) h p =
      load_canonical-PullsIn d now path m (resolve_canonical_unit_name d name path) h p

  load_name-PullsIn :
      (d : Disk) (now : Instant) (name : String) (m : Manager)
      → DiskPulls d
      → PullsIn m
      → PullsIn (load_name d now name m).1
  load_name-PullsIn d now name m h p = elim (Bool-cases (has_key m.units name)) [
    | inl old ↦ rw old p
    | inr new ↦ rw new (load_found-PullsIn d now name m (find_unit d m name) h p)
  ]

  template_found-PullsIn :
      (d : Disk) (name : String) (now : Instant) (m : Manager) (r : Result String)
      → DiskPulls d
      → PullsIn m
      → PullsIn (template_found d name now m r).1
  unfolding parse_unit_file
  template_found-PullsIn d name now m (err e) h p = p
  template_found-PullsIn d name now m (ok path) h p = go (d.load_unit path) refl
    where
      go :
          (r : Reading)
          → d.load_unit path ≡ r
          → PullsIn (template_read name now m (parse_reading r)).1
      go (broken e) q = p
      go (whole u) q = resolved (instantiated name (default_instance_for_unit u))
        where
          resolved : (o : Option String) → PullsIn (resolved_as o name now u m).1
          resolved (some named) = p
          resolved none =
              insert-PullsIn m (insert m.states name (State.new now)) name u (h path u q) p

  resolve_load_name-PullsIn :
      (d : Disk) (now : Instant) (requested : String) (m : Manager)
      → DiskPulls d
      → PullsIn m
      → PullsIn (resolve_load_name d now requested m).1
  unfolding resolve_load_name
  resolve_load_name-PullsIn d now requested m h p =
      elim (Bool-cases (is_bare_template (normalize_name requested))) [
        | inl bare ↦ rw bare (
            template_found-PullsIn d (normalize_name requested) now m
              (find_unit d m (normalize_name requested)) h p)
        | inr plain ↦ rw plain p
      ]

  pub load-PullsIn :
      (d : Disk) (now : Instant) (requested : String) (m : Manager)
      → DiskPulls d
      → PullsIn m
      → PullsIn (load d now requested m).1
  unfolding load
  load-PullsIn d now requested m h p =
      go (resolve_load_name d now requested m) (resolve_load_name-PullsIn d now requested m h p)
    where
      go : (o : Outcome LoadNameResolution) → PullsIn o.1 → PullsIn (o >>= load_resolved d now).1
      go (err e, m') k = k
      go (ok (already_loaded name), m') k = k
      go (ok (continue name), m') k = load_name-PullsIn d now name m' h k

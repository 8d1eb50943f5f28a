-- ===== src/Manager/Order.antt =====
-- The start of a unit with all that it needs: `resolve_start_order`, `build_start_graph` and
-- `start_with_deps` (src/manager/mod_impl/part1.rs).
pub mod Graph
pub mod Started
pub mod Fates
mod Tests
use sysd.Prelude.{
  ℕ, String, Bool, true, false, ◌==◌, string_eq, Option, none, some, List, [], ◌∷◌, ◌++◌, Map, get,
  modify, contains, keep, if◌then◌else◌, map_or,
}
use sysd.Units.Kinds.{AnyUnit, unit_section}
use sysd.State.{Instant, ServiceState, is_active, set_running}
use sysd.Deps
use sysd.Deps.{DepGraph, add_alias, add_node, add_unit_with_name}
use sysd.Deps.StartOrder.{start_order_for}
use sysd.Deps.Kahn.{Sorted}
use sysd.Manager.{
  Manager, ManagerError, is_target, cycle, Result, ok, err, Outcome, ◌>>=◌, normalize_name,
}
use sysd.Manager.Load.{Disk, ensure_unit_loaded}
use sysd.Manager.Collect.{Collecting, collect_start_dependencies}

unfoldable pub add_aliases : Map String String → DepGraph → DepGraph
add_aliases [] g = g
add_aliases ((alias, canonical) ∷ rest) g = add_aliases rest (add_alias alias canonical g)

-- The two loops over the units whose names are loaded.
unfoldable pub add_nodes : List String → Map String AnyUnit → DepGraph → DepGraph
add_nodes loaded [] g = g
add_nodes loaded ((key, unit) ∷ rest) g =
    add_nodes loaded rest (if contains loaded key then add_node key g else g)

unfoldable pub add_units : List String → Map String AnyUnit → DepGraph → DepGraph
add_units loaded [] g = g
add_units loaded ((key, unit) ∷ rest) g =
    add_units loaded rest (if contains loaded key then add_unit_with_name key unit g else g)

unfoldable pub build_start_graph : Manager → List String → Map String String → DepGraph
unfolding add_aliases add_nodes add_units
build_start_graph m loaded aliases =
    add_units loaded m.units (add_nodes loaded m.units (add_aliases aliases Deps.new))

-- The order, or the error of a cycle; `none` is no answer of the source.
abbrev order_of : Option Sorted → Manager → Option (Outcome (List String))
order_of none m = none
order_of (some (Sorted.ok order)) m = some (ok order, m)
order_of (some (Sorted.cycle nodes)) m = some (err (cycle nodes), m)

abbrev order_from :
    ℕ → Disk → (ℕ → Instant) → String → Outcome {0} Unit → Option (Outcome (List String))
order_from fuel d clock name (err e, m) = some (err e, m)
order_from fuel d clock name (ok done, m) =
    let c = collect_start_dependencies fuel d clock name m in
    order_of (start_order_for (build_start_graph c.manager c.loaded c.aliases) name) c.manager

unfoldable pub resolve_start_order :
    ℕ → Disk → Instant → (ℕ → Instant) → String → Manager → Option (Outcome (List String))
unfolding build_start_graph
resolve_start_order fuel d now clock name m =
    order_from fuel d clock name (ensure_unit_loaded d now name m)

-- Whether the unit at the root requires another.
unfoldable pub is_required : Manager → String → String → Bool
is_required m root_name unit_name =
    map_or false (λ u. contains (unit_section u).requires unit_name) (get m.units root_name)

abbrev pub is_reached : ManagerError → Bool
is_reached (is_target t) = true
is_reached _ = false

-- The errors of a unit's start: a target is reached, what the root requires fails the start, and
-- the rest is passed over. `now` is the reading of the clock at a target.
unfoldable pub start_error : Instant → String → String → ManagerError → Manager → Outcome {0} Unit
unfolding is_required
start_error now root_name unit_name e m =
    if is_reached e
    then (ok tt, record m { states = modify m.states unit_name (set_running 0 now) })
    else if is_required m root_name unit_name
    then (err e, m)
    else (ok tt, m)

abbrev is_running : Manager → String → Bool
is_running m unit_name = map_or false is_active (get m.states unit_name)

-- What is left to do when one unit of the order has been started, with the list `started`.
abbrev started_with :
    Instant → String → String → List String → Outcome {0} Unit → Outcome (List String)
started_with now root_name unit_name started (ok done, m) = (ok (started ++ unit_name ∷ []), m)
started_with now root_name unit_name started (err e, m) =
    start_error now root_name unit_name e m >>= (λ done m'. (ok started, m'))

-- Starting one unit is `start_single` of src/manager/mod_impl/part2.rs.
module _ (start_single : String → Manager → Outcome {0} Unit) where
  unfoldable pub start_dependency_unit :
      Instant → String → String → List String → Manager → Outcome (List String)
  unfolding start_error
  start_dependency_unit now root_name unit_name started m =
      if is_running m unit_name
      then (ok started, m)
      else started_with now root_name unit_name started (start_single unit_name m)

  -- The loop over the order, with a reading of the clock for each place in it.
  unfoldable pub start_loop :
      (String → Instant) → String → List String → List String → Manager → Outcome (List String)
  unfolding start_dependency_unit
  start_loop clock root_name [] started m = (ok started, m)
  start_loop clock root_name (unit_name ∷ rest) started m =
      start_dependency_unit (clock unit_name) root_name unit_name started m
      >>= start_loop clock root_name rest

  abbrev pub started_from :
      (String → Instant) → String → Option (Outcome (List String)) → Option (Outcome (List String))
  started_from clock root_name none = none
  started_from clock root_name (some (err e, m)) = some (err e, m)
  started_from clock root_name (some (ok order, m)) = some (start_loop clock root_name order [] m)

  unfoldable pub start_with_deps :
      ℕ
      → Disk
      → Instant
      → (ℕ → Instant)
      → (String → Instant)
      → String
      → Manager
      → Option (Outcome (List String))
  unfolding start_loop resolve_start_order
  start_with_deps fuel d now clock clock' requested m =
      let name = normalize_name requested in
      started_from clock' name (resolve_start_order fuel d now clock name m)

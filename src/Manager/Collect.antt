-- ===== src/Manager/Collect.antt =====
-- The units that a start needs, with all that they require and want, each loaded if it is not yet
-- (`collect_start_dependencies` of src/manager/mod_impl/part1.rs). Each loading has its reading of
-- the clock, by the number of the round.
pub mod Pulls
pub mod Closed
use sysd.Prelude.{
  ℕ, zero, suc, ◌+◌, String, Bool, true, false, not, ◌||◌, ◌==◌, string_eq, Option, none, some,
  List, [], ◌∷◌, ◌++◌, Map, get, has_key, insert, contains, set_insert, if◌then◌else◌,
}
use sysd.Units.Kinds.{AnyUnit, unit_section, wants_dir}
use sysd.State.{Instant}
use sysd.Manager.{Manager, ManagerError, Result, ok, err, Outcome}
use sysd.Manager.Load.{Disk, load}

-- What the loop keeps: the stack `to_load`, with its top first, and the sets.
pub record Collecting : Type 0 where
  pub to_load : List String
  pub queued : List String
  pub loaded : List String
  pub aliases : Map String String
  pub manager : Manager

abbrev pub loaded_name : Outcome String → Option String × Manager
loaded_name (ok canonical, m) = (some canonical, m)
loaded_name (err e, m) = (none, m)

unfoldable pub load_dependency_unit : Disk → Instant → String → Manager → Option String × Manager
load_dependency_unit d now unit_name m =
    if has_key m.units unit_name then (some unit_name, m) else loaded_name (load d now unit_name m)

unfoldable pub queue_dependency : String → Collecting → Collecting
queue_dependency dep c =
    if contains c.queued dep
    then c
    else record c { to_load = dep ∷ c.to_load; queued = set_insert dep c.queued }

unfoldable pub queue_dependencies : List String → Collecting → Collecting
queue_dependencies [] c = c
queue_dependencies (dep ∷ deps) c = queue_dependencies deps (queue_dependency dep c)

-- What is queued for a unit: what it requires, what it wants, and what its `.wants` directory names.
abbrev pub pulled_in : Option AnyUnit → List String
pulled_in none = []
pulled_in (some unit) =
    (unit_section unit).requires ++ ((unit_section unit).wants ++ wants_dir unit)

unfoldable pub queue_unit_dependencies : String → Collecting → Collecting
unfolding queue_dependencies
queue_unit_dependencies actual_name c =
    queue_dependencies (pulled_in (get c.manager.units actual_name)) c

-- What becomes of the name that was taken from the stack.
abbrev pub take_in : String → Option String → Collecting → Collecting
take_in unit_name none c = c
take_in unit_name (some actual_name) c = queue_unit_dependencies actual_name (record c {
  aliases =
      if not (unit_name == actual_name) then insert c.aliases unit_name actual_name else c.aliases;
  loaded = set_insert actual_name c.loaded;
})

-- One round of the loop, on the name that was taken from the stack.
unfoldable pub collect_round : Disk → Instant → String → Collecting → Collecting
unfolding load_dependency_unit queue_unit_dependencies
collect_round d now unit_name c =
    if contains c.loaded unit_name || has_key c.aliases unit_name
    then c
    else (let (actual, m) = load_dependency_unit d now unit_name c.manager in
        take_in unit_name actual (record c { manager = m }))

-- The loop on fuel; one that stops for want of fuel still has names to load.
unfoldable pub collect_loop : ℕ → Disk → (ℕ → Instant) → Collecting → Collecting
unfolding collect_round
collect_loop zero d clock c = c
collect_loop (suc fuel) d clock c = elim c.to_load [
  | [] ↦ c
  | unit_name ∷ rest ↦
      collect_loop fuel d clock
        (collect_round d (clock fuel) unit_name (record c { to_load = rest }))
]

unfoldable pub start_collecting : String → Manager → Collecting
start_collecting name m = record {
  to_load = name ∷ [];
  queued = name ∷ [];
  loaded = [];
  aliases = [];
  manager = m;
}

unfoldable pub collect_start_dependencies : ℕ → Disk → (ℕ → Instant) → String → Manager → Collecting
unfolding collect_loop start_collecting
collect_start_dependencies fuel d clock name m = collect_loop fuel d clock (start_collecting name m)

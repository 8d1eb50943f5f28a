-- ===== src/Deps.antt =====
-- The dependency graph that orders the start of units (src/manager/deps.rs). A `HashMap` or
-- `HashSet` is a list, and its iteration order is the list's.
pub mod Kahn
pub mod Build
pub mod StartOrder
mod Tests
use sysd.Prelude.{
  ℕ, zero, suc, String, Bool, true, false, not, ◌&&◌, ◌||◌, Option, none, some, List, [], ◌∷◌, ◌++◌,
  ◌==◌, string_eq, if◌then◌else◌, contains, set_insert, Map, get, insert,
}
use sysd.Units.Sections.{UnitSection}
use sysd.Units.Kinds.{Service, AnyUnit, name, unit_section, is_target, is_socket, wants_dir}

abbrev pub Edges : Type 0
Edges = Map String (List String)

pub record DepGraph : Type 0 where
  pub edges : Edges  -- a node, and the nodes that must start before it
  pub nodes : List String
  pub aliases : Map String String

unfoldable pub new : DepGraph
new = record { edges = []; nodes = []; aliases = [] }

unfoldable pub add_alias : String → String → DepGraph → DepGraph
add_alias alias canonical g =
    if not (alias == canonical) then record g { aliases = insert g.aliases alias canonical } else g

unfoldable pub add_node : String → DepGraph → DepGraph
add_node name g = record g { nodes = set_insert name g.nodes }

abbrev or_name : String → Option String → String
or_name name none = name
or_name name (some canonical) = canonical

unfoldable pub resolve : DepGraph → String → String
resolve g name = or_name name (get g.aliases name)

-- The edges of a node that has none yet are the empty set (`entry(..).or_default()`).
abbrev pub or_empty : Option (List String) → List String
or_empty none = []
or_empty (some deps) = deps

unfoldable pub deps_of : Edges → String → List String
deps_of edges name = or_empty (get edges name)

unfoldable pub insert_edge : String → String → Edges → Edges
unfolding deps_of
insert_edge from to edges = insert edges from (set_insert to (deps_of edges from))

-- An edge to a node that is not loaded is dropped.
unfoldable pub add_edge : String → String → DepGraph → DepGraph
add_edge from to g =
    let resolved_to = resolve g to in
    if contains g.nodes resolved_to
    then record g { edges = insert_edge from resolved_to g.edges }
    else g

unfoldable pub add_reverse_edge : String → String → DepGraph → DepGraph
add_reverse_edge dependent target g =
    let resolved = resolve g target in
    if contains g.nodes resolved
    then record g { edges = insert_edge resolved dependent g.edges }
    else g

-- The `for` loops over a list of names.
unfoldable pub add_edges : String → List String → DepGraph → DepGraph
add_edges from [] g = g
add_edges from (dep ∷ deps) g = add_edges from deps (add_edge from dep g)

unfoldable pub add_reverse_edges : String → List String → DepGraph → DepGraph
add_reverse_edges dependent [] g = g
add_reverse_edges dependent (target ∷ targets) g =
    add_reverse_edges dependent targets (add_reverse_edge dependent target g)

unfoldable pub add_service : Service → DepGraph → DepGraph
add_service s g =
    let g₁ = add_edges s.name s.unit.after (add_node s.name g) in
    let g₂ = add_reverse_edges s.name s.unit.before g₁ in
    let g₃ = add_edges s.name s.unit.requires g₂ in add_edges s.name s.unit.wants g₃

unfoldable pub add_default_dependencies : String → AnyUnit → DepGraph → DepGraph
add_default_dependencies name u g =
    let g' =
      if is_socket u
      then add_reverse_edge name "sockets.target" (add_edge name "sysinit.target" g)
      else add_edge name "basic.target" g in
    add_reverse_edge name "shutdown.target" g'

unfoldable pub add_unit_with_name : String → AnyUnit → DepGraph → DepGraph
add_unit_with_name name u g =
    let section = unit_section u in
    let g₀ = add_node name g in
    let g₁ =
      if section.default_dependencies && not (is_target u)
      then add_default_dependencies name u g₀
      else g₀ in
    let g₂ = add_reverse_edges name section.before (add_edges name section.after g₁) in
    let g₃ = add_edges name section.wants (add_edges name section.requires g₂) in
    add_edges name (wants_dir u) g₃

unfoldable pub add_unit : AnyUnit → DepGraph → DepGraph
add_unit u = add_unit_with_name (name u) u

unfoldable pub dependencies : DepGraph → String → List String
dependencies g name = deps_of g.edges name

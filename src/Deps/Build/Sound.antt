-- ===== src/Deps/Build/Sound.antt =====
-- About all the graphs that the program builds (src/manager/deps.rs).
use sysd.Prelude.{
  String, ◌≡◌, Bool, true, List, [], ◌∷◌, ◌==◌, string_eq, contains, contains-set_insert,
  set_insert-IsSetList, get, arith, Bool-cases, inl, inr, eq_iff,
}
use sysd.Units.Kinds.{Service, AnyUnit, name, unit_section, wants_dir}
use sysd.Deps.{
  DepGraph, new, add_alias, add_node, resolve, deps_of, add_service, add_unit_with_name, add_unit,
  dependencies,
}
use sysd.Deps.Build.{links, Grows}
use sysd.Deps.Kahn.Order.{IsGraph}
use sysd.Deps.Build.Units.{
  forward, backward, service_edges, unit_edges, add_service-Grows, add_unit_with_name-Grows,
}

-- The graphs that the program builds.
pub data Built : DepGraph → Type 0 where
  built_new : Built new
  built_alias :
      {g : DepGraph} (alias canonical : String) → Built g → Built (add_alias alias canonical g)
  built_node : {g : DepGraph} (name : String) → Built g → Built (add_node name g)
  built_service : {g : DepGraph} (s : Service) → Built g → Built (add_service s g)
  built_unit : {g : DepGraph} (u : AnyUnit) → Built g → Built (add_unit u g)
  built_named :
      {g : DepGraph} (name : String) (u : AnyUnit) → Built g → Built (add_unit_with_name name u g)

-- Both ends of each edge are nodes.
abbrev pub IsClosed : DepGraph → Type 0
IsClosed g =
    (n m : String)
    → contains (dependencies g n) m ≡ true
    → (contains g.nodes n ≡ true) × (contains g.nodes m ≡ true)

links-known :
    (g : DepGraph) (l : List String) (m : String) → links g l m ≡ true → contains g.nodes m ≡ true
unfolding links
links-known g [] m h = cc
links-known g (d ∷ l) m h = ground (arith, links-known g l m, eq_iff (resolve g d) m)

abbrev IsSound : DepGraph → Type 0
IsSound g = IsGraph g × IsClosed g

Grows-IsSound :
    {g h : DepGraph} {more : String → String → Bool}
    → Grows g h more
    → ((n m : String) → more n m ≡ true → (contains g.nodes n ≡ true) × (contains g.nodes m ≡ true))
    → IsSound g
    → IsSound h
unfolding dependencies
Grows-IsSound {g} {h} p known s = (
  record { edges = p.proper s.0.edges; nodes = rw p.alike.nodes s.0.nodes },
  λ n m e. rw p.alike.nodes (ground (arith, p.edges n m, known n m, s.1 n m)),
)

add_node-IsSound : (name : String) (g : DepGraph) → IsSound g → IsSound (add_node name g)
unfolding add_node dependencies
add_node-IsSound name g s = (
  record { edges = s.0.edges; nodes = set_insert-IsSetList name g.nodes s.0.nodes },
  λ n m e.
      ground
        (arith, s.1 n m, contains-set_insert name g.nodes n, contains-set_insert name g.nodes m),
)

add_node-known : (name : String) (g : DepGraph) → contains (add_node name g).nodes name ≡ true
unfolding add_node
add_node-known name g = ground (arith, contains-set_insert name g.nodes name, eq_iff name name)

-- The edges that a known name asks for have known ends.
module _ (g : DepGraph) (name : String) (k : contains g.nodes name ≡ true) (l : List String)
    (n m : String) where
  forward-known :
      forward g name l n m ≡ true → (contains g.nodes n ≡ true) × (contains g.nodes m ≡ true)
  forward-known h = ground (arith, links-known g l m, eq_iff name n)

  backward-known :
      backward g name l n m ≡ true → (contains g.nodes n ≡ true) × (contains g.nodes m ≡ true)
  backward-known h = ground (arith, links-known g l n, eq_iff name m)

-- The edges that a unit asks for have known ends.
unit_edges-known :
    (g : DepGraph) (name : String) (u : AnyUnit)
    → contains g.nodes name ≡ true
    → (n m : String) → unit_edges g name u n m ≡ true
    → (contains g.nodes n ≡ true) × (contains g.nodes m ≡ true)
unit_edges-known g name u k n m h =
    let f = λ (l : List String). forward-known g name k l n m in
    let b = λ (l : List String). backward-known g name k l n m in
    let section = unit_section u in
    ground (
      arith,
      f section.after,
      b section.before,
      f section.requires,
      f section.wants,
      f (wants_dir u),
      f ("sysinit.target" ∷ []),
      f ("basic.target" ∷ []),
      b ("sockets.target" ∷ []),
      b ("shutdown.target" ∷ []),
    )

service_edges-known :
    (g : DepGraph) (s : Service)
    → contains g.nodes s.name ≡ true
    → (n m : String) → service_edges g s n m ≡ true
    → (contains g.nodes n ≡ true) × (contains g.nodes m ≡ true)
service_edges-known g s k n m h =
    let f = λ (l : List String). forward-known g s.name k l n m in
    ground (
      arith,
      f s.unit.after,
      backward-known g s.name k s.unit.before n m,
      f s.unit.requires,
      f s.unit.wants,
    )

new-IsSound : IsSound new
unfolding new dependencies deps_of get contains
new-IsSound = (record { edges = record { keyed = tt; sets = λ n. tt }; nodes = tt }, λ n m h. cc)

add_alias-IsSound :
    (alias canonical : String) (g : DepGraph) → IsSound g → IsSound (add_alias alias canonical g)
unfolding add_alias dependencies
add_alias-IsSound alias canonical g s = elim (Bool-cases (alias == canonical)) [
  | inl h ↦ rw h s
  | inr h ↦ rw h (record { edges = s.0.edges; nodes = s.0.nodes }, s.1)
]

add_unit_with_name-IsSound :
    (name : String) (u : AnyUnit) (g : DepGraph) → IsSound g → IsSound (add_unit_with_name name u g)
add_unit_with_name-IsSound name u g s =
    Grows-IsSound (add_unit_with_name-Grows name u g)
      (unit_edges-known (add_node name g) name u (add_node-known name g))
      (add_node-IsSound name g s)

add_unit-IsSound : (u : AnyUnit) (g : DepGraph) → IsSound g → IsSound (add_unit u g)
unfolding add_unit
add_unit-IsSound u g s = add_unit_with_name-IsSound (name u) u g s

-- Whatever units, aliases and names the program has added, the graph has each node once, each set
-- of edges once, no dependency twice in a set, and both ends of each edge among its nodes.
pub Built-IsGraph : {g : DepGraph} → Built g → IsGraph g × IsClosed g
Built-IsGraph built_new = new-IsSound
Built-IsGraph (built_alias {g} alias canonical b) =
    add_alias-IsSound alias canonical g (Built-IsGraph b)
Built-IsGraph (built_node {g} name b) = add_node-IsSound name g (Built-IsGraph b)
Built-IsGraph (built_service {g} s b) =
    Grows-IsSound (add_service-Grows s g)
      (service_edges-known (add_node s.name g) s (add_node-known s.name g))
      (add_node-IsSound s.name g (Built-IsGraph b))
Built-IsGraph (built_unit {g} u b) = add_unit-IsSound u g (Built-IsGraph b)
Built-IsGraph (built_named {g} name u b) = add_unit_with_name-IsSound name u g (Built-IsGraph b)

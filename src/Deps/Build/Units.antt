-- ===== src/Deps/Build/Units.antt =====
-- What the addition of a unit does to the graph (`add_service` and `add_unit_with_name` of
-- src/manager/deps.rs).
use sysd.Prelude.{
  String, ◌≡◌, refl, ◌∙◌, Bool, true, false, not, ◌||◌, ◌&&◌, List, [], ◌∷◌, ◌==◌, string_eq,
  contains, arith, if◌then◌else◌,
}
use sysd.Units.Kinds.{Service, AnyUnit, name, unit_section, is_target, is_socket, wants_dir}
use sysd.Deps.{
  DepGraph, add_node, add_edge, add_reverse_edge, add_edges, add_reverse_edges, add_service,
  add_default_dependencies, add_unit_with_name, dependencies,
}
use sysd.Deps.Build.{links, links-Alike, Grows, add_edge-Grows, add_reverse_edge-Grows}

pub Grows-refl : (g : DepGraph) → Grows g g (λ n m. false)
Grows-refl g = record {
  alike = record { nodes = refl; aliases = refl };
  edges = λ n m. ground arith;
  proper = λ s. s;
}

-- Two steps one after the other; what the second adds may be said of the first graph.
pub Grows-trans :
    {g h k : DepGraph} {more also all : String → String → Bool}
    → Grows g h more
    → Grows h k also
    → ((n m : String) → all n m ≡ (more n m || also n m))
    → Grows g k all
Grows-trans p q e = record {
  alike = record {
    nodes = q.alike.nodes ∙ p.alike.nodes;
    aliases = q.alike.aliases ∙ p.alike.aliases;
  };
  edges = λ n m. ground (arith, p.edges n m, q.edges n m, e n m);
  proper = λ s. q.proper (p.proper s);
}

Grows-congr :
    {g h : DepGraph} {more also : String → String → Bool}
    → Grows g h more
    → ((n m : String) → also n m ≡ more n m)
    → Grows g h also
Grows-congr p e = record {
  alike = p.alike;
  edges = λ n m. ground (arith, p.edges n m, e n m);
  proper = p.proper;
}

-- `name` gets the dependencies that the list names, or becomes a dependency of what it names.
abbrev pub forward : DepGraph → String → List String → String → String → Bool
forward g name l n m = (name == n) && links g l m

abbrev pub backward : DepGraph → String → List String → String → String → Bool
backward g name l n m = (name == m) && links g l n

add_edges-Grows :
    (from : String) (l : List String) (g : DepGraph)
    → Grows g (add_edges from l g) (forward g from l)
unfolding add_edges
add_edges-Grows from [] g = Grows-congr (Grows-refl g) (λ n m. unfold links in ground arith)
add_edges-Grows from (d ∷ l) g =
    let p = add_edge-Grows from d g in
    Grows-trans p (add_edges-Grows from l (add_edge from d g))
      λ n m. unfold links in ground (arith, links-Alike g (add_edge from d g) l m p.alike)

add_reverse_edges-Grows :
    (dependent : String) (l : List String) (g : DepGraph)
    → Grows g (add_reverse_edges dependent l g) (backward g dependent l)
unfolding add_reverse_edges
add_reverse_edges-Grows dependent [] g =
    Grows-congr (Grows-refl g) (λ n m. unfold links in ground arith)
add_reverse_edges-Grows dependent (d ∷ l) g =
    let p = add_reverse_edge-Grows dependent d g in
    Grows-trans p (add_reverse_edges-Grows dependent l (add_reverse_edge dependent d g)) λ n m.
      unfold links in ground (arith, links-Alike g (add_reverse_edge dependent d g) l n p.alike)

-- The same steps, with their names looked up in an earlier graph.
module _ {g h : DepGraph} {more : String → String → Bool} (p : Grows g h more) (name : String) where
  then_edges :
      (l : List String) → Grows g (add_edges name l h) (λ n m. more n m || forward g name l n m)
  then_edges l =
      Grows-trans p (add_edges-Grows name l h) (λ n m. ground (arith, links-Alike g h l m p.alike))

  then_reverse_edges :
      (l : List String)
      → Grows g (add_reverse_edges name l h) (λ n m. more n m || backward g name l n m)
  then_reverse_edges l =
      Grows-trans p (add_reverse_edges-Grows name l h)
        (λ n m. ground (arith, links-Alike g h l n p.alike))

  then_edge :
      (to : String) → Grows g (add_edge name to h) (λ n m. more n m || forward g name (to ∷ []) n m)
  then_edge to =
      Grows-trans p (add_edge-Grows name to h)
        (λ n m. ground (arith, links-Alike g h (to ∷ []) m p.alike))

  then_reverse_edge :
      (to : String)
      → Grows g (add_reverse_edge name to h) (λ n m. more n m || backward g name (to ∷ []) n m)
  then_reverse_edge to =
      Grows-trans p (add_reverse_edge-Grows name to h)
        (λ n m. ground (arith, links-Alike g h (to ∷ []) n p.alike))

-- The edges that the settings of a service ask for.
abbrev pub service_edges : DepGraph → Service → String → String → Bool
service_edges g s n m =
    forward g s.name s.unit.after n m
    || backward g s.name s.unit.before n m
    || forward g s.name s.unit.requires n m
    || forward g s.name s.unit.wants n m

pub add_service-Grows :
    (s : Service) (g : DepGraph)
    → Grows (add_node s.name g) (add_service s g) (service_edges (add_node s.name g) s)
unfolding add_service
add_service-Grows s g =
    let g₀ = add_node s.name g in
    Grows-congr
      (then_edges
        (then_edges
          (then_reverse_edges (add_edges-Grows s.name s.unit.after g₀) s.name s.unit.before) s.name
          s.unit.requires)
        s.name s.unit.wants)
      (λ n m. ground arith)

-- The edges that `DefaultDependencies=` gives.
abbrev pub default_edges : DepGraph → String → AnyUnit → String → String → Bool
default_edges g name u n m =
    (if is_socket u
      then forward g name ("sysinit.target" ∷ []) n m || backward g name ("sockets.target" ∷ []) n m
      else forward g name ("basic.target" ∷ []) n m)
    || backward g name ("shutdown.target" ∷ []) n m

type_defaults-Grows :
    (name : String) (g : DepGraph) (socket : Bool)
    → Grows g
        (if socket
          then add_reverse_edge name "sockets.target" (add_edge name "sysinit.target" g)
          else add_edge name "basic.target" g)
        (λ n m.
          if socket
          then forward g name ("sysinit.target" ∷ []) n m
            || backward g name ("sockets.target" ∷ []) n m
          else forward g name ("basic.target" ∷ []) n m)
type_defaults-Grows name g true =
    then_reverse_edge (add_edge-Grows name "sysinit.target" g) name "sockets.target"
type_defaults-Grows name g false = add_edge-Grows name "basic.target" g

add_default_dependencies-Grows :
    (name : String) (u : AnyUnit) (g : DepGraph)
    → Grows g (add_default_dependencies name u g) (default_edges g name u)
unfolding add_default_dependencies
add_default_dependencies-Grows name u g =
    then_reverse_edge (type_defaults-Grows name g (is_socket u)) name "shutdown.target"

-- The default dependencies, where the unit takes them.
defaults-Grows :
    (name : String) (u : AnyUnit) (g : DepGraph) (b : Bool)
    → Grows g
        (if b then add_default_dependencies name u g else g)
        (λ n m. b && default_edges g name u n m)
defaults-Grows name u g true =
    Grows-congr (add_default_dependencies-Grows name u g) (λ n m. ground arith)
defaults-Grows name u g false = Grows-congr (Grows-refl g) (λ n m. ground arith)

-- The edges that a unit asks for.
abbrev pub unit_edges : DepGraph → String → AnyUnit → String → String → Bool
unit_edges g name u n m =
    let section = unit_section u in
    ((section.default_dependencies && not (is_target u)) && default_edges g name u n m)
    || forward g name section.after n m
    || backward g name section.before n m
    || forward g name section.requires n m
    || forward g name section.wants n m
    || forward g name (wants_dir u) n m

pub add_unit_with_name-Grows :
    (name : String) (u : AnyUnit) (g : DepGraph)
    → Grows (add_node name g) (add_unit_with_name name u g) (unit_edges (add_node name g) name u)
unfolding add_unit_with_name
add_unit_with_name-Grows name u g =
    let g₀ = add_node name g in
    let section = unit_section u in
    let p = defaults-Grows name u g₀ (section.default_dependencies && not (is_target u)) in
    let p₂ = then_reverse_edges (then_edges p name section.after) name section.before in
    let p₃ = then_edges (then_edges p₂ name section.requires) name section.wants in
    Grows-congr (then_edges p₃ name (wants_dir u)) (λ n m. ground arith)

-- After `add_service` the graph has the edges it had, one from the service to each loaded unit
-- that `After=`, `Requires=` or `Wants=` names, and one to the service from each loaded unit that
-- `Before=` names; a name stands for the unit that it is an alias of.
pub add_service-dependencies :
    (s : Service) (g : DepGraph) (n m : String)
    → contains (dependencies (add_service s g) n) m
      ≡ (contains (dependencies g n) m || service_edges (add_node s.name g) s n m)
unfolding dependencies add_node
add_service-dependencies s g n m = (add_service-Grows s g).edges n m

-- After `add_unit_with_name` the graph has the edges it had, those of the unit's settings and of
-- its `.wants` directory, and, unless the unit is a target or refuses them, the default ones.
pub add_unit_with_name-dependencies :
    (name : String) (u : AnyUnit) (g : DepGraph) (n m : String)
    → contains (dependencies (add_unit_with_name name u g) n) m
      ≡ (contains (dependencies g n) m || unit_edges (add_node name g) name u n m)
unfolding dependencies add_node
add_unit_with_name-dependencies name u g n m = (add_unit_with_name-Grows name u g).edges n m

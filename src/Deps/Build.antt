-- ===== src/Deps/Build.antt =====
-- How the graph is built (src/manager/deps.rs): what each addition of an edge does.
pub mod Units
pub mod Sound
use sysd.Prelude.{
  String, ◌≡◌, refl, sym, ◌∙◌, Bool, true, false, not, ◌||◌, ◌&&◌, none, some, List, [], ◌∷◌, ◌==◌,
  string_eq, contains, contains-set_insert, set_insert-IsSetList, set_insert, IsSetList, Map, get,
  IsMap, insert, insert-IsMap, get-insert, arith, Bool-cases, inl, inr, eq_iff, if◌then◌else◌,
}
use sysd.Units.Kinds.{Service, AnyUnit, name, unit_section, is_target, is_socket, wants_dir}
use sysd.Deps.{
  DepGraph, Edges, new, add_alias, add_node, resolve, deps_of, insert_edge, add_edge,
  add_reverse_edge, add_edges, add_reverse_edges, add_service, add_default_dependencies,
  add_unit_with_name, add_unit, dependencies,
}
use sysd.Deps.Kahn.Degrees.{IsEdges}
use sysd.Deps.Kahn.Order.{IsGraph}

-- `n` has `m` among its dependencies.
abbrev pub has_edge : DepGraph → String → String → Bool
has_edge g n m = contains (deps_of g.edges n) m

-- `m` is what a name of the list stands for, and is loaded.
unfoldable pub links : DepGraph → List String → String → Bool
links g [] m = false
links g (d ∷ l) m = (contains g.nodes (resolve g d) && (resolve g d == m)) || links g l m

deps_of-insert_edge :
    (from to : String) (edges : Edges) (n m : String)
    → contains (deps_of (insert_edge from to edges) n) m
      ≡ (contains (deps_of edges n) m || ((from == n) && (to == m)))
unfolding insert_edge deps_of
deps_of-insert_edge from to edges n m = ground (
  arith,
  get-insert edges from n (set_insert to (deps_of edges from)),
  eq_iff from n,
  contains-set_insert to (deps_of edges from) m,
)

insert_edge-IsEdges :
    (from to : String) (edges : Edges) → IsEdges edges → IsEdges (insert_edge from to edges)
unfolding insert_edge deps_of
insert_edge-IsEdges from to edges s = record {
  keyed = insert-IsMap edges from _ s.keyed;
  sets = λ n. elim (Bool-cases (from == n)) [
    | inl same ↦ rw (get-insert, same) (set_insert-IsSetList to (deps_of edges from) (s.sets from))
    | inr other ↦ rw (get-insert, other) (s.sets n)
  ];
}

module _ (from to : String) (g : DepGraph) where
  add_edge-nodes : (add_edge from to g).nodes ≡ g.nodes
  unfolding add_edge
  add_edge-nodes = ground arith

  add_edge-aliases : (add_edge from to g).aliases ≡ g.aliases
  unfolding add_edge
  add_edge-aliases = ground arith

  has_edge-add_edge :
      (n m : String)
      → has_edge (add_edge from to g) n m ≡ (
          has_edge g n m || ((from == n) && contains g.nodes (resolve g to) && (resolve g to == m)))
  unfolding add_edge
  has_edge-add_edge n m = ground (arith, deps_of-insert_edge from (resolve g to) g.edges n m)

  add_edge-IsEdges : IsEdges g.edges → IsEdges (add_edge from to g).edges
  unfolding add_edge
  add_edge-IsEdges s = elim (Bool-cases (contains g.nodes (resolve g to))) [
    | inl h ↦ rw h (insert_edge-IsEdges from (resolve g to) g.edges s)
    | inr h ↦ rw h s
  ]

  add_reverse_edge-nodes : (add_reverse_edge from to g).nodes ≡ g.nodes
  unfolding add_reverse_edge
  add_reverse_edge-nodes = ground arith

  add_reverse_edge-aliases : (add_reverse_edge from to g).aliases ≡ g.aliases
  unfolding add_reverse_edge
  add_reverse_edge-aliases = ground arith

  has_edge-add_reverse_edge :
      (n m : String)
      → has_edge (add_reverse_edge from to g) n m ≡ (
          has_edge g n m || ((from == m) && contains g.nodes (resolve g to) && (resolve g to == n)))
  unfolding add_reverse_edge
  has_edge-add_reverse_edge n m =
      ground (arith, deps_of-insert_edge (resolve g to) from g.edges n m)

  add_reverse_edge-IsEdges : IsEdges g.edges → IsEdges (add_reverse_edge from to g).edges
  unfolding add_reverse_edge
  add_reverse_edge-IsEdges s = elim (Bool-cases (contains g.nodes (resolve g to))) [
    | inl h ↦ rw h (insert_edge-IsEdges (resolve g to) from g.edges s)
    | inr h ↦ rw h s
  ]

-- Two graphs with the same nodes and aliases: they differ in their edges.
pub record Alike (g h : DepGraph) : Type 0 where
  pub nodes : h.nodes ≡ g.nodes
  pub aliases : h.aliases ≡ g.aliases

pub links-Alike :
    (g h : DepGraph) (l : List String) (m : String) → Alike g h → links h l m ≡ links g l m
unfolding links resolve
links-Alike g h [] m a = refl
links-Alike g h (d ∷ l) m a = rw (a.nodes, a.aliases, links-Alike g h l m a)

-- What a step of the construction adds: the edges that `more` names.
pub record Grows (g h : DepGraph) (more : String → String → Bool) : Type 0 where
  pub alike : Alike g h
  pub edges : (n m : String) → has_edge h n m ≡ (has_edge g n m || more n m)
  pub proper : IsEdges g.edges → IsEdges h.edges

pub add_edge-Grows :
    (from to : String) (g : DepGraph)
    → Grows g (add_edge from to g) (λ n m. (from == n) && links g (to ∷ []) m)
unfolding links
add_edge-Grows from to g = record {
  alike = record { nodes = add_edge-nodes from to g; aliases = add_edge-aliases from to g };
  edges = λ n m. ground (arith, has_edge-add_edge from to g n m);
  proper = add_edge-IsEdges from to g;
}

pub add_reverse_edge-Grows :
    (dependent target : String) (g : DepGraph)
    → Grows g
        (add_reverse_edge dependent target g)
        (λ n m. (dependent == m) && links g (target ∷ []) n)
unfolding links
add_reverse_edge-Grows dependent target g = record {
  alike = record {
    nodes = add_reverse_edge-nodes dependent target g;
    aliases = add_reverse_edge-aliases dependent target g;
  };
  edges = λ n m. ground (arith, has_edge-add_reverse_edge dependent target g n m);
  proper = add_reverse_edge-IsEdges dependent target g;
}

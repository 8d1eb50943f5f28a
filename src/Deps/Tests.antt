-- ===== src/Deps/Tests.antt =====
-- Small graphs: a chain of services, and one with a cycle.
use sysd.Prelude.{
  ℕ, ◌<◌, String, ◌≡◌, ◌≢◌, ◌↔◌, refl, true, false, none, some, List, [], ◌∷◌, ◌++◌, ◌==◌, nat_eq,
  string_eq, if◌then◌else◌, contains, set_insert, set_remove, keep, count_if, get, insert,
  IsSetList, arith, eq_iff, subst,
}
use sysd.Units.Defaults.{default_unit_section, default_service_section, default_install_section}
use sysd.Units.Kinds.{Service, service, unit_section, is_target, is_socket, wants_dir}
use sysd.Deps.{
  DepGraph, new, resolve, deps_of, add_node, add_edge, add_edges, add_reverse_edges, insert_edge,
  add_service, add_unit_with_name, dependencies,
}
use sysd.Deps.Build.{links}
use sysd.Deps.Build.Units.{add_unit_with_name-dependencies}
use sysd.Deps.Build.Sound.{Built, built_new, built_node, built_service, Built-IsGraph, IsClosed}
use sysd.Deps.Kahn.{
  enqueue, offer_initial, initial_zero_in_degree_queue, unblock, queue_newly_unblocked_nodes, visit,
  drain_loop, collect, start_drain, kahn_drain, compute_in_degree, ok, cycle, toposort,
}
use sysd.Deps.Kahn.Order.{IsGraph, IsOrdered}
use sysd.Deps.Kahn.LeftOut.{IsRanking}
use sysd.Deps.Kahn.Toposort.{toposort-ok, toposort-cycle, toposort-acyclic}
use sysd.Deps.StartOrder.Search.{Needs, transitive_deps_iff}
use sysd.Deps.StartOrder.Break.{IsLeft, NotBehind, break_cycle-some}
use sysd.Deps.StartOrder.Total.{
  start_order_for-total, start_order_for-acyclic, toposort_subset-front,
}
use sysd.Deps.StartOrder.{
  need, need_all, search_loop, start_search, transitive_deps, ends_with, unit_type_priority,
  precedes, least, break_cycle, next_round, subset_loop, toposort_subset, start_order_for,
}

abbrev service_after : String → List String → Service
service_after name after = record {
  name = name;
  instance_name = none;
  unit = record default_unit_section { after = after };
  service = default_service_section;
  install = default_install_section;
}

-- What the program builds for the chain: the edge to a unit that is not loaded is left out.
abbrev chain_built : DepGraph
chain_built =
    add_service (service_after "web.service" ("db.service" ∷ "gone.service" ∷ []))
      (add_service (service_after "db.service" ("disk.mount" ∷ [])) (add_node "disk.mount" new))

abbrev chain : DepGraph
chain = record {
  edges = ("db.service", "disk.mount" ∷ []) ∷ ("web.service", "db.service" ∷ []) ∷ [];
  nodes = "disk.mount" ∷ "db.service" ∷ "web.service" ∷ [];
  aliases = [];
}

chain_built_lem : chain_built ≡ chain
unfolding add_service new add_node set_insert contains add_edges add_edge resolve get insert_edge
    insert deps_of add_reverse_edges default_unit_section
chain_built_lem = refl

abbrev loop_built : DepGraph
loop_built = add_service (service_after "c.service" ("b.service" ∷ [])) (
    add_service (service_after "b.service" ("a.target" ∷ [])) (
      add_service (service_after "a.target" ("b.service" ∷ "c.service" ∷ []))
        (add_node "c.service" (add_node "b.service" (add_node "d.service" new)))))

abbrev loop : DepGraph
loop = record {
  edges =
      ("a.target", "b.service" ∷ "c.service" ∷ [])
      ∷ ("b.service", "a.target" ∷ [])
      ∷ ("c.service", "b.service" ∷ [])
      ∷ [];
  nodes = "d.service" ∷ "b.service" ∷ "c.service" ∷ "a.target" ∷ [];
  aliases = [];
}

loop_built_lem : loop_built ≡ loop
unfolding add_service new add_node set_insert contains add_edges add_edge resolve get insert_edge
    insert deps_of add_reverse_edges default_unit_section
loop_built_lem = refl

chain_Built : Built chain_built
chain_Built = built_service _ (built_service _ (built_node "disk.mount" built_new))

loop_Built : Built loop_built
loop_Built = built_service _ (
    built_service _ (
      built_service _
        (built_node "c.service" (built_node "b.service" (built_node "d.service" built_new)))))

Built-IsGraph_example : IsGraph chain_built × IsClosed chain_built
Built-IsGraph_example = Built-IsGraph chain_Built

chain-IsGraph : IsGraph chain
chain-IsGraph = subst IsGraph chain_built_lem (Built-IsGraph chain_Built).0

loop-IsGraph : IsGraph loop
loop-IsGraph = subst IsGraph loop_built_lem (Built-IsGraph loop_Built).0

abbrev chain_order : List String
chain_order = "disk.mount" ∷ "db.service" ∷ "web.service" ∷ []

chain-toposort : toposort chain ≡ ok chain_order
unfolding toposort kahn_drain start_drain initial_zero_in_degree_queue offer_initial enqueue
    drain_loop visit queue_newly_unblocked_nodes unblock collect compute_in_degree keep set_insert
    set_remove contains insert get count_if
chain-toposort = refl

loop-toposort : toposort loop ≡ cycle ("b.service" ∷ "c.service" ∷ "a.target" ∷ [])
unfolding toposort kahn_drain start_drain initial_zero_in_degree_queue offer_initial enqueue
    drain_loop visit queue_newly_unblocked_nodes unblock collect compute_in_degree keep set_insert
    set_remove contains insert get count_if
loop-toposort = refl

loop-start_order_for :
    start_order_for loop "c.service" ≡ some (ok ("a.target" ∷ "b.service" ∷ "c.service" ∷ []))
unfolding start_order_for transitive_deps search_loop start_search need_all need toposort_subset
    subset_loop next_round break_cycle least precedes unit_type_priority ends_with kahn_drain
    start_drain initial_zero_in_degree_queue offer_initial enqueue drain_loop visit
    queue_newly_unblocked_nodes unblock collect compute_in_degree keep set_insert set_remove
    contains insert get count_if deps_of
loop-start_order_for = refl

abbrev chain_rank : String → ℕ
chain_rank n = if n == "disk.mount" then 0 else if n == "db.service" then 1 else 2

chain_falls :
    (n m : String) → contains (deps_of chain.edges n) m ≡ true → chain_rank m < chain_rank n
unfolding deps_of get contains
chain_falls n m e = ground (
  arith,
  eq_iff "db.service" n,
  eq_iff "web.service" n,
  eq_iff "disk.mount" m,
  eq_iff "db.service" m,
  eq_iff n "db.service",
  eq_iff n "disk.mount",
  eq_iff m "db.service",
  eq_iff m "disk.mount",
  eq_iff "db.service" "disk.mount",
  eq_iff "web.service" "disk.mount",
  eq_iff "web.service" "db.service",
)

chain-IsRanking : IsRanking chain.edges chain.nodes chain_rank
chain-IsRanking n m k₁ k₂ e = chain_falls n m e

toposort-ok_example :
    IsOrdered chain.nodes chain.edges [] chain_order
    × IsSetList chain_order
    × ((n : String) → contains chain_order n ≡ contains chain.nodes n)
toposort-ok_example = toposort-ok chain chain-IsGraph chain_order chain-toposort

abbrev loop_left : List String
loop_left = "b.service" ∷ "c.service" ∷ "a.target" ∷ []

toposort-cycle_example :
    (loop_left ≢ [])
    × ((n : String)
        → contains loop_left n ≡ true
        → (m : String) × (contains loop_left m ≡ true) × (contains (deps_of loop.edges n) m ≡ true))
toposort-cycle_example = toposort-cycle loop loop-IsGraph loop_left loop-toposort

toposort-acyclic_example : (order : List String) × (toposort chain ≡ ok order)
toposort-acyclic_example = toposort-acyclic chain chain-IsGraph chain_rank chain-IsRanking

transitive_deps_iff_example :
    (contains (transitive_deps loop "b.service") "c.service" ≡ true)
    ↔ Needs loop "b.service" "c.service"
transitive_deps_iff_example = transitive_deps_iff loop "b.service" "c.service"

start_order_for-total_example :
    (order : List String) × (start_order_for loop "c.service" ≡ some (ok order))
    × IsSetList order
    × ((n : String) → (contains order n ≡ true) ↔ Needs loop "c.service" n)
start_order_for-total_example = start_order_for-total loop "c.service" loop-IsGraph

chain_needed :
    transitive_deps chain "web.service" ≡ ("web.service" ∷ "db.service" ∷ "disk.mount" ∷ [])
unfolding transitive_deps search_loop start_search need_all need set_insert contains deps_of get
chain_needed = refl

needed-IsRanking : IsRanking chain.edges (transitive_deps chain "web.service") chain_rank
needed-IsRanking n m k₁ k₂ e = chain_falls n m e

chain-start_order_for : start_order_for chain "web.service" ≡ some (ok chain_order)
unfolding start_order_for transitive_deps search_loop start_search need_all need toposort_subset
    subset_loop next_round break_cycle least precedes unit_type_priority ends_with kahn_drain
    start_drain initial_zero_in_degree_queue offer_initial enqueue drain_loop visit
    queue_newly_unblocked_nodes unblock collect compute_in_degree keep set_insert set_remove
    contains insert get count_if deps_of
chain-start_order_for = refl

start_order_for-acyclic_example :
    IsOrdered (transitive_deps chain "web.service") chain.edges [] chain_order
start_order_for-acyclic_example =
    start_order_for-acyclic chain "web.service" chain_rank chain_order chain-IsGraph
      needed-IsRanking chain-start_order_for

abbrev some_degrees : List (String × ℕ)
some_degrees = ("a.service", 1) ∷ ("b.mount", 2) ∷ ("c.mount", 1) ∷ ("d.target", 1) ∷ []

break_cycle_example :
    break_cycle some_degrees ("d.target" ∷ [])
    ≡ some (("a.service", 1) ∷ ("b.mount", 2) ∷ ("c.mount", 0) ∷ ("d.target", 1) ∷ [])
unfolding break_cycle least precedes unit_type_priority ends_with keep contains insert
break_cycle_example = refl

break_cycle-some_example :
    (n : String) × (degree : ℕ) × IsLeft some_degrees ("d.target" ∷ []) (n, degree)
    × ((("a.service", 1) ∷ ("b.mount", 2) ∷ ("c.mount", 0) ∷ ("d.target", 1) ∷ [])
        ≡ insert some_degrees n 0)
    × ((k : String) (d : ℕ)
        → IsLeft some_degrees ("d.target" ∷ []) (k, d)
        → NotBehind (n, degree) (k, d))
break_cycle-some_example =
    break_cycle-some some_degrees ("d.target" ∷ [])
      (("a.service", 1) ∷ ("b.mount", 2) ∷ ("c.mount", 0) ∷ ("d.target", 1) ∷ [])
      (unfold get in (refl, (refl, (refl, (refl, tt))))) break_cycle_example

loop_subset :
    toposort_subset loop loop.nodes
    ≡ some ("d.service" ∷ "a.target" ∷ "b.service" ∷ "c.service" ∷ [])
unfolding toposort_subset subset_loop next_round break_cycle least precedes unit_type_priority
    ends_with kahn_drain start_drain initial_zero_in_degree_queue offer_initial enqueue drain_loop
    visit queue_newly_unblocked_nodes unblock collect compute_in_degree keep set_insert set_remove
    contains insert get count_if deps_of
loop_subset = refl

toposort_subset-front_example :
    (first more : List String) × (("d.service" ∷ "a.target" ∷ "b.service" ∷ "c.service" ∷ [])
      ≡ first ++ more)
    × IsOrdered loop.nodes loop.edges [] first
    × ((n : String)
        → contains more n ≡ true
        → (m : String) × (contains more m ≡ true) × (contains (deps_of loop.edges n) m ≡ true))
toposort_subset-front_example =
    toposort_subset-front loop loop.nodes loop-IsGraph loop-IsGraph.nodes
      ("d.service" ∷ "a.target" ∷ "b.service" ∷ "c.service" ∷ []) loop_subset

add_unit_with_name-dependencies_example :
    contains
      (dependencies
        (add_unit_with_name "x@1.service"
          (service (service_after "x@.service" ("db.service" ∷ [])))
          chain)
        "x@1.service")
      "basic.target"
    ≡ false
unfolding add_node dependencies deps_of get set_insert contains links resolve default_unit_section
    unit_section is_target is_socket wants_dir
add_unit_with_name-dependencies_example =
    add_unit_with_name-dependencies "x@1.service"
      (service (service_after "x@.service" ("db.service" ∷ []))) chain "x@1.service" "basic.target"

-- ===== src/Manager/Order/Graph.antt =====
-- The graph of a start, and the order that comes of it (src/manager/mod_impl/part1.rs).
use sysd.Prelude.{
  ℕ, String, ◌≡◌, refl, ap, ◌∙◌, ◌↔◌, Bool, true, false, ◌&&◌, ◌||◌, some, List, [], ◌∷◌, ◌==◌,
  string_eq, contains, contains-set_insert, Map, has_key, keys, contains-keys, IsSetList,
  if◌then◌else◌, arith, eq_iff, Bool-cases, inl, inr, beq_self,
}
use sysd.Units.Kinds.{AnyUnit}
use sysd.State.{Instant}
use sysd.Deps
use sysd.Deps.{DepGraph, add_alias, add_node, add_unit_with_name}
use sysd.Deps.Build.Units.{add_unit_with_name-Grows}
use sysd.Deps.Build.Sound.{Built, built_new, built_alias, built_node, built_named, Built-IsGraph}
use sysd.Deps.StartOrder.Search.{Needs, itself, dependency}
use sysd.Deps.StartOrder.Total.{start_order_for-total}
use sysd.Manager.{Manager, ok}
use sysd.Manager.Load.{Disk, ensure_unit_loaded}
use sysd.Manager.Collect.{Collecting, collect_start_dependencies}
use sysd.Manager.Order.{
  add_aliases, add_nodes, add_units, build_start_graph, order_of, resolve_start_order,
}

add_aliases-Built :
    (aliases : Map String String) (g : DepGraph) → Built g → Built (add_aliases aliases g)
unfolding add_aliases
add_aliases-Built [] g b = b
add_aliases-Built ((alias, canonical) ∷ rest) g b =
    add_aliases-Built rest _ (built_alias alias canonical b)

add_nodes-Built :
    (loaded : List String) (units : Map String AnyUnit) (g : DepGraph)
    → Built g
    → Built (add_nodes loaded units g)
unfolding add_nodes
add_nodes-Built loaded [] g b = b
add_nodes-Built loaded ((key, unit) ∷ rest) g b = elim (Bool-cases (contains loaded key)) [
  | inl h ↦ rw h (add_nodes-Built loaded rest (add_node key g) (built_node key b))
  | inr h ↦ rw h (add_nodes-Built loaded rest g b)
]

add_units-Built :
    (loaded : List String) (units : Map String AnyUnit) (g : DepGraph)
    → Built g
    → Built (add_units loaded units g)
unfolding add_units
add_units-Built loaded [] g b = b
add_units-Built loaded ((key, unit) ∷ rest) g b = elim (Bool-cases (contains loaded key)) [
  | inl h ↦
      rw h (add_units-Built loaded rest (add_unit_with_name key unit g) (built_named key unit b))
  | inr h ↦ rw h (add_units-Built loaded rest g b)
]

pub build_start_graph-Built :
    (m : Manager) (loaded : List String) (aliases : Map String String)
    → Built (build_start_graph m loaded aliases)
unfolding build_start_graph
build_start_graph-Built m loaded aliases =
    add_units-Built loaded m.units _
      (add_nodes-Built loaded m.units _ (add_aliases-Built aliases _ built_new))

add_aliases-nodes :
    (aliases : Map String String) (g : DepGraph) → (add_aliases aliases g).nodes ≡ g.nodes
unfolding add_aliases add_alias
add_aliases-nodes [] g = refl
add_aliases-nodes ((alias, canonical) ∷ rest) g =
    add_aliases-nodes rest (add_alias alias canonical g) ∙ ground arith

if_nodes :
    (b : Bool) (g h : DepGraph) (n : String)
    → contains (if b then g else h).nodes n ≡ (if b then contains g.nodes n else contains h.nodes n)
if_nodes true g h n = refl
if_nodes false g h n = refl

add_nodes-nodes :
    (loaded : List String) (units : Map String AnyUnit) (g : DepGraph) (n : String)
    → contains (add_nodes loaded units g).nodes n
      ≡ (contains g.nodes n || (contains loaded n && contains (keys units) n))
unfolding add_nodes keys contains add_node
add_nodes-nodes loaded [] g n = ground arith
add_nodes-nodes loaded ((key, unit) ∷ rest) g n =
    add_nodes-nodes loaded rest (if contains loaded key then add_node key g else g) n
    ∙ ground (
      arith,
      if_nodes (contains loaded key) (add_node key g) g n,
      contains-set_insert key g.nodes n,
      eq_iff key n,
    )

add_unit_with_name-nodes :
    (key : String) (unit : AnyUnit) (g : DepGraph) (n : String)
    → contains (add_unit_with_name key unit g).nodes n ≡ (contains g.nodes n || (key == n))
unfolding add_node
add_unit_with_name-nodes key unit g n =
    ap (λ nodes. contains nodes n) (add_unit_with_name-Grows key unit g).alike.nodes
    ∙ contains-set_insert key g.nodes n

add_units-nodes :
    (loaded : List String) (units : Map String AnyUnit) (g : DepGraph) (n : String)
    → contains (add_units loaded units g).nodes n
      ≡ (contains g.nodes n || (contains loaded n && contains (keys units) n))
unfolding add_units keys contains
add_units-nodes loaded [] g n = ground arith
add_units-nodes loaded ((key, unit) ∷ rest) g n =
    add_units-nodes loaded rest (if contains loaded key then add_unit_with_name key unit g else g) n
    ∙ ground (
      arith,
      if_nodes (contains loaded key) (add_unit_with_name key unit g) g n,
      add_unit_with_name-nodes key unit g n,
      eq_iff key n,
    )

-- The nodes of the graph are the names that are loaded and have a unit.
pub build_start_graph-nodes :
    (m : Manager) (loaded : List String) (aliases : Map String String) (n : String)
    → contains (build_start_graph m loaded aliases).nodes n
      ≡ (contains loaded n && has_key m.units n)
unfolding build_start_graph contains Deps.new
build_start_graph-nodes m loaded aliases n =
    let g = add_aliases aliases Deps.new in
    ground (
      arith,
      add_units-nodes loaded m.units (add_nodes loaded m.units g) n,
      add_nodes-nodes loaded m.units g n,
      ap (λ nodes. contains nodes n) (add_aliases-nodes aliases Deps.new),
      contains-keys m.units n,
    )

Needs-node : (g : DepGraph) (target n : String) → Needs g target n → contains g.nodes target ≡ true
Needs-node g target _ (itself h) = h
Needs-node g target _ (dependency m needs e h) = Needs-node g target _ needs

-- A unit that could be loaded always gets an order: it holds, each once, exactly the units that
-- the graph of the loaded units needs for the name that was asked for.
pub resolve_start_order-ok :
    (fuel : ℕ) (d : Disk) (now : Instant) (clock : ℕ → Instant) (name : String) (m m' : Manager)
    → ensure_unit_loaded d now name m ≡ (ok tt, m')
    → let c : Collecting = collect_start_dependencies fuel d clock name m' in
      let g : DepGraph = build_start_graph c.manager c.loaded c.aliases in
      (order : List String) × (resolve_start_order fuel d now clock name m
        ≡ some (ok order, c.manager))
      × IsSetList order
      × ((n : String) → (contains order n ≡ true) ↔ Needs g name n)
unfolding resolve_start_order
resolve_start_order-ok fuel d now clock name m m' h =
    let c = collect_start_dependencies fuel d clock name m' in
    let g = build_start_graph c.manager c.loaded c.aliases in
    let (order, e, s, same) =
      start_order_for-total g name
        (Built-IsGraph (build_start_graph-Built c.manager c.loaded c.aliases)).0 in
    (order, rw h (ap (λ o. order_of o c.manager) e), s, same)

empty_of : (order : List String) → ((n : String) → contains order n ≡ true → ⊥) → order ≡ []
unfolding contains
empty_of [] h = refl
empty_of (x ∷ rest) h = absurd (h x (ground (arith, beq_self x)))

-- A name that could be loaded, but under which no unit stands, as the name of a link to another
-- unit: its start order is empty, so that nothing is started for it.
pub resolve_start_order-alias :
    (fuel : ℕ) (d : Disk) (now : Instant) (clock : ℕ → Instant) (name : String) (m m' : Manager)
    → ensure_unit_loaded d now name m ≡ (ok tt, m')
    → has_key (collect_start_dependencies fuel d clock name m').manager.units name ≡ false
    → resolve_start_order fuel d now clock name m
      ≡ some (ok [], (collect_start_dependencies fuel d clock name m').manager)
resolve_start_order-alias fuel d now clock name m m' h absent =
    let c = collect_start_dependencies fuel d clock name m' in
    let (order, e, s, same) = resolve_start_order-ok fuel d now clock name m m' h in
    let nothing : order ≡ [] = empty_of order (λ n k.
      let node =
        Needs-node (build_start_graph c.manager c.loaded c.aliases) name n ((same n).0 k) in
      ground (arith, node, absent, build_start_graph-nodes c.manager c.loaded c.aliases name)) in
    e ∙ ap (λ o. some (ok o, c.manager)) nothing

-- ===== src/Deps/Kahn/Degrees.antt =====
-- The in-degrees of `kahn_drain` (src/manager/deps.rs): a node's degree is the number of its
-- dependencies among the nodes that are not yet emitted.
use mathlib.Core.Option
use sysd.Prelude.{
  ℕ, ◌+◌, ◌-◌, String, ◌≡◌, refl, sym, ap, Bool, true, false, not, ◌||◌, ◌&&◌, Option, none, some,
  List, [], ◌∷◌, ◌++◌, ◌==◌, nat_eq, string_eq, contains, contains-snoc, contains-set_insert,
  Option-cases, count_if, IsSetList, Map, get, insert, get-insert, has_key, IsMap, insert-IsMap,
  keys, contains-keys, arith, Bool-cases, inl, inr, eq_iff, if◌then◌else◌,
}
use sysd.Deps.{Edges, deps_of}
use sysd.Deps.Kahn.{
  Drain, enqueue, lower, unblock, queue_newly_unblocked_nodes, visit, zero_degrees, count_degrees,
  compute_in_degree,
}
use sysd.Deps.Kahn.Loop.{visit-result}
use sysd.Deps.Kahn.Queue.{IsDraining, emit, visit-eq, enqueue-in_degree}

-- The dependencies of a node among `ks` that are not emitted.
unfoldable pub is_open : List String → List String → String → Bool
is_open ks emitted m = contains ks m && not (contains emitted m)

unfoldable pub open_deps : List String → List String → List String → ℕ
open_deps ks emitted deps = count_if (is_open ks emitted) deps

get-lower :
    (dependent : String) (o : Option ℕ) (d : Drain) (n : String)
    → get d.in_degree dependent ≡ o
    → get (lower dependent o d).in_degree n
      ≡ (if dependent == n then Option.map (λ g. g - 1) (get d.in_degree n) else get d.in_degree n)
unfolding lower
get-lower dependent none d n h = ground (arith, eq_iff dependent n)
get-lower dependent (some old) d n h = ground (
  arith,
  eq_iff dependent n,
  get-insert d.in_degree dependent n (old - 1),
  enqueue-in_degree (record d { in_degree = insert d.in_degree dependent (old - 1) }) dependent,
)

get-unblock :
    (node dependent : String) (deps : List String) (d : Drain) (n : String)
    → get (unblock node dependent deps d).in_degree n ≡ (
        if (dependent == n) && contains deps node && not (contains d.emitted n)
        then Option.map (λ g. g - 1) (get d.in_degree n)
        else get d.in_degree n)
unfolding unblock
get-unblock node dependent deps d n =
    ground (arith, get-lower dependent (get d.in_degree dependent) d n refl, eq_iff dependent n)

unblock-emitted :
    (node dependent : String) (deps : List String) (d : Drain)
    → (unblock node dependent deps d).emitted ≡ d.emitted
unfolding unblock lower enqueue
unblock-emitted node dependent deps d = ground arith

get-queue_newly :
    (edges : Edges) (node : String) (d : Drain) (n : String)
    → IsMap edges
    → get (queue_newly_unblocked_nodes edges node d).in_degree n ≡ (
        if contains (deps_of edges n) node && not (contains d.emitted n)
        then Option.map (λ g. g - 1) (get d.in_degree n)
        else get d.in_degree n)
unfolding queue_newly_unblocked_nodes deps_of get contains
get-queue_newly [] node d n m = refl
get-queue_newly ((dependent, deps) ∷ edges) node d n m = ground (
  arith,
  get-queue_newly edges node (unblock node dependent deps d) n m.1,
  get-unblock node dependent deps d n,
  unblock-emitted node dependent deps d,
  eq_iff dependent n,
  m.0,
)

-- Emitting a node closes one dependency of those that have it.
open_deps-snoc :
    (ks emitted : List String) (node : String) (deps : List String)
    → IsSetList deps
    → contains ks node ≡ true
    → contains emitted node ≡ false
    → open_deps ks emitted deps
      ≡ open_deps ks (emitted ++ node ∷ []) deps + (if contains deps node then 1 else 0)
unfolding open_deps count_if is_open contains
open_deps-snoc ks emitted node [] s k e = omega arith
open_deps-snoc ks emitted node (x ∷ deps) s k e = ground (
  arith,
  open_deps-snoc ks emitted node deps s.1 k e,
  contains-snoc emitted node x,
  eq_iff x node,
  eq_iff node x,
  s.0,
)

-- The edges of a graph: each node once, and each of its dependencies once.
pub record IsEdges (edges : Edges) : Type 0 where
  pub keyed : IsMap edges
  pub sets : (n : String) → IsSetList (deps_of edges n)

-- The degrees are exact for the nodes that are not emitted.
abbrev pub IsExact : List String → Edges → Drain → Type 0
IsExact ks edges d =
    (n : String) (g : ℕ)
    → get d.in_degree n ≡ some g
    → contains d.result n ≡ false
    → g ≡ open_deps ks d.result (deps_of edges n)

-- The node at the front of the queue has no open dependency.
pub front_closed :
    {ks : List String} (edges : Edges) {d : Drain} (node : String) (rest : List String)
    → d.queue ≡ node ∷ rest
    → IsDraining ks d
    → IsExact ks edges d
    → open_deps ks d.result (deps_of edges node) ≡ 0
unfolding contains
front_closed edges {d = d} node rest front w x =
    sym (x node 0 (w.queue_zero node queued) (w.queue_fresh node queued))
  where
    queued : contains d.queue node ≡ true
    queued = rw front (ground (arith, eq_iff node node))

pub emit-in_degree :
    (edges : Edges) (node : String) (rest : List String) (d : Drain) (n : String)
    → IsMap edges
    → get (queue_newly_unblocked_nodes edges node (emit node rest d)).in_degree n ≡ (
        if contains (deps_of edges n) node && not (contains d.emitted n || (node == n))
        then Option.map (λ g. g - 1) (get d.in_degree n)
        else get d.in_degree n)
unfolding emit
emit-in_degree edges node rest d n m =
    ground (
      arith,
      get-queue_newly edges node (emit node rest d) n m,
      contains-set_insert node d.emitted n,
    )

pub visit-IsExact :
    {ks : List String} (edges : Edges) {d : Drain} (node : String) (rest : List String)
    → IsEdges edges
    → d.queue ≡ node ∷ rest
    → IsDraining ks d
    → IsExact ks edges d
    → IsExact ks edges (visit edges node rest d)
unfolding contains
visit-IsExact {ks} edges {d} node rest s front w x n g =
    rw (visit-result edges node rest front w, visit-eq node rest front w edges)
      λ degree left. elim (Option-cases (get d.in_degree n)) [
        | inl gone ↦ absurd (ground (arith, emit-in_degree edges node rest d n s.keyed))
        | inr (old, had) ↦ ground (
          arith,
          emit-in_degree edges node rest d n s.keyed,
          contains-snoc d.result node n,
          x n old had,
          ap (λ r. contains r n) w.same_result,
          open_deps-snoc ks d.result node (deps_of edges n) (s.sets n) known fresh,
        )
      ]
  where
    queued : contains d.queue node ≡ true
    queued = rw front (ground (arith, eq_iff node node))

    fresh : contains d.result node ≡ false
    fresh = w.queue_fresh node queued

    known : contains ks node ≡ true
    known = ground (arith, w.known node, w.queue_zero node queued)

get-zero_degrees :
    (ns : List String) (n : String)
    → get (zero_degrees ns) n ≡ (if contains ns n then some 0 else none)
unfolding get contains
get-zero_degrees [] n = refl
get-zero_degrees (m ∷ ns) n = ground (arith, get-zero_degrees ns n)

zero_degrees-IsMap : (ns : List String) → IsSetList ns → IsMap (zero_degrees ns)
zero_degrees-IsMap [] s = tt
zero_degrees-IsMap (n ∷ ns) s = (rw (get-zero_degrees ns n, s.0), zero_degrees-IsMap ns s.1)

get-count_degrees :
    (nodes : List String) (edges : Edges) (degrees : Map String ℕ) (n : String)
    → IsMap edges
    → get (count_degrees nodes edges degrees) n ≡ (
        if contains nodes n && has_key edges n
        then some (count_if (λ m. contains nodes m) (deps_of edges n))
        else get degrees n)
unfolding count_degrees deps_of get
get-count_degrees nodes [] degrees n m = ground arith
get-count_degrees nodes ((from, deps) ∷ edges) degrees n m = ground (
  arith,
  get-count_degrees nodes edges (insert degrees from (count_if (λ d. contains nodes d) deps)) n m.1,
  get-count_degrees nodes edges degrees n m.1,
  get-insert degrees from n (count_if (λ d. contains nodes d) deps),
  eq_iff from n,
  m.0,
)

count_degrees-IsMap :
    (nodes : List String) (edges : Edges) (degrees : Map String ℕ)
    → IsMap degrees
    → IsMap (count_degrees nodes edges degrees)
unfolding count_degrees
count_degrees-IsMap nodes [] degrees m = m
count_degrees-IsMap nodes ((from, deps) ∷ edges) degrees m =
    elim (Bool-cases (contains nodes from)) [
      | inl h ↦ rw h (count_degrees-IsMap nodes edges _ (insert-IsMap degrees from _ m))
      | inr h ↦ rw h (count_degrees-IsMap nodes edges degrees m)
    ]

-- Before anything is emitted every dependency among the nodes is open.
all_open :
    (nodes deps : List String) → open_deps nodes [] deps ≡ count_if (λ m. contains nodes m) deps
unfolding open_deps count_if is_open contains
all_open nodes [] = refl
all_open nodes (d ∷ deps) = ground (arith, all_open nodes deps)

none_open :
    (nodes : List String) (edges : Edges) (n : String)
    → has_key edges n ≡ false
    → open_deps nodes [] (deps_of edges n) ≡ 0
unfolding deps_of open_deps count_if
none_open nodes edges n h = ground arith

module _ (edges : Edges) (nodes : List String) (s : IsEdges edges) where
  -- The degree of a node is the number of its dependencies among the nodes.
  pub get-compute_in_degree :
      (n : String)
      → get (compute_in_degree edges nodes) n
        ≡ (if contains nodes n then some (open_deps nodes [] (deps_of edges n)) else none)
  unfolding compute_in_degree
  get-compute_in_degree n = ground (
    arith,
    get-count_degrees nodes edges (zero_degrees nodes) n s.keyed,
    get-zero_degrees nodes n,
    all_open nodes (deps_of edges n),
    none_open nodes edges n,
  )

  pub compute_in_degree-IsMap : IsSetList nodes → IsMap (compute_in_degree edges nodes)
  unfolding compute_in_degree
  compute_in_degree-IsMap h =
      count_degrees-IsMap nodes edges (zero_degrees nodes) (zero_degrees-IsMap nodes h)

  pub compute_in_degree-keys :
      (n : String) → contains (keys (compute_in_degree edges nodes)) n ≡ contains nodes n
  compute_in_degree-keys n =
      ground (arith, contains-keys (compute_in_degree edges nodes) n, get-compute_in_degree n)

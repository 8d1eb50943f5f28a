-- ===== src/Deps/Kahn/Order.antt =====
-- What `toposort` returns (src/manager/deps.rs): an order that respects the graph's edges, or the
-- nodes of a cycle.
use sysd.Prelude.{
  ℕ, String, ◌≡◌, ◌≢◌, refl, sym, ◌∙◌, Map, true, false, not, ◌&&◌, List, [], ◌∷◌, ◌++◌, nat_eq,
  string_eq, contains, count_if, length, IsSetList, IsMap, keys, arith, Bool-cases, inl, inr,
  eq_iff,
}
use mathlib.Core.List.{append-nil, append_assoc}
use sysd.Deps.{DepGraph, Edges, deps_of}
use sysd.Deps.Kahn.{Drain, visit, start_drain, kahn_drain, compute_in_degree}
use sysd.Deps.Kahn.Queue.{IsDraining}
use sysd.Deps.Kahn.Start.{start-IsDraining, start-result, start-in_degree}
use sysd.Deps.Kahn.Loop.{
  visit-IsDraining, visit-result, drain_loop_ind, Drained, kahn_drain-Drained,
}
use sysd.Deps.Kahn.Degrees.{
  is_open, open_deps, IsEdges, IsExact, front_closed, visit-IsExact, get-compute_in_degree,
  compute_in_degree-IsMap, compute_in_degree-keys,
}

-- Each node of the order has all its dependencies among `ks` in `seen` or before it.
abbrev pub IsOrdered : List String → Edges → List String → List String → Type 0
IsOrdered ks edges seen [] = Unit
IsOrdered ks edges seen (n ∷ order) =
    ((m : String)
      → contains (deps_of edges n) m ≡ true
      → contains ks m ≡ true
      → contains seen m ≡ true)
    × IsOrdered ks edges (seen ++ n ∷ []) order

IsOrdered-snoc :
    (ks : List String) (edges : Edges) (seen order : List String) (n : String)
    → IsOrdered ks edges seen order
    → ((m : String)
        → contains (deps_of edges n) m ≡ true
        → contains ks m ≡ true
        → contains (seen ++ order) m ≡ true)
    → IsOrdered ks edges seen (order ++ n ∷ [])
IsOrdered-snoc ks edges seen [] n o h = ((rw append-nil at h), tt)
IsOrdered-snoc ks edges seen (x ∷ order) n o h =
    (o.0, IsOrdered-snoc ks edges (seen ++ x ∷ []) order n o.1 (rw append_assoc h))

-- With no open dependency left every dependency is emitted.
closed_emitted :
    (ks emitted deps : List String)
    → open_deps ks emitted deps ≡ 0
    → (m : String) → contains deps m ≡ true
    → contains ks m ≡ true
    → contains emitted m ≡ true
unfolding open_deps count_if is_open contains
closed_emitted ks emitted [] h m d k = cc
closed_emitted ks emitted (x ∷ deps) h m d k =
    let rest : open_deps ks emitted deps ≡ 0 = ground arith in
    ground (arith, closed_emitted ks emitted deps rest m, eq_iff x m)

-- An open dependency can be found.
pub find_open :
    (ks emitted deps : List String)
    → open_deps ks emitted deps ≢ 0
    → (m : String) × (contains deps m ≡ true)
      × (contains ks m ≡ true)
      × (contains emitted m ≡ false)
unfolding open_deps count_if is_open contains
find_open ks emitted [] h = absurd (h refl)
find_open ks emitted (x ∷ deps) h = elim (Bool-cases (contains ks x && not (contains emitted x))) [
  | inl here ↦ (x, ground (arith, eq_iff x x), ground arith, ground arith)
  | inr there ↦
      let (m, d, k, e) = find_open ks emitted deps (rw there at h) in (m, ground arith, k, e)
]

-- The drain of a whole graph keeps the degrees exact and the result in order.
pub record IsSorting (ks : List String) (edges : Edges) (d : Drain) : Type 0 where
  pub inv : IsDraining ks d
  pub exact : IsExact ks edges d
  pub ordered : IsOrdered ks edges [] d.result

pub visit-IsSorting :
    {ks : List String} (edges : Edges) {d : Drain} (node : String) (rest : List String)
    → IsEdges edges
    → d.queue ≡ node ∷ rest
    → IsSorting ks edges d
    → IsSorting ks edges (visit edges node rest d)
visit-IsSorting {ks} edges {d} node rest s front w = record {
  inv = visit-IsDraining edges node rest front w.inv;
  exact = visit-IsExact edges node rest s front w.inv w.exact;
  ordered = rw (visit-result edges node rest front w.inv) (
      IsOrdered-snoc ks edges [] d.result node w.ordered (
        closed_emitted ks d.result (deps_of edges node)
          (front_closed edges node rest front w.inv w.exact)));
}

pub IsOrdered-weaken :
    (ks js : List String) (edges : Edges) (seen order : List String)
    → ((m : String) → contains js m ≡ contains ks m)
    → IsOrdered ks edges seen order
    → IsOrdered js edges seen order
IsOrdered-weaken ks js edges seen [] h o = tt
IsOrdered-weaken ks js edges seen (n ∷ order) h o =
    (λ m d k. o.0 m d (sym (h m) ∙ k), IsOrdered-weaken ks js edges (seen ++ n ∷ []) order h o.1)

pub open_deps_congr :
    (ks js emitted deps : List String)
    → ((m : String) → contains js m ≡ contains ks m)
    → open_deps js emitted deps ≡ open_deps ks emitted deps
unfolding open_deps count_if is_open
open_deps_congr ks js emitted [] h = refl
open_deps_congr ks js emitted (x ∷ deps) h =
    ground (arith, h x, open_deps_congr ks js emitted deps h)

-- A graph as the program builds it.
pub record IsGraph (g : DepGraph) : Type 0 where
  pub edges : IsEdges g.edges
  pub nodes : IsSetList g.nodes

-- The drain over a set of nodes, with nothing emitted before.
module _ (edges : Edges) (nodes : List String) (proper : IsEdges edges)
    (set : IsSetList nodes) where
  unfoldable pub degrees : Map String ℕ
  degrees = compute_in_degree edges nodes

  unfoldable pub drained : Drain
  drained = kahn_drain edges degrees []

  pub degrees-IsMap : IsMap degrees
  unfolding degrees
  degrees-IsMap = compute_in_degree-IsMap edges nodes proper set

  pub degrees-keys : (n : String) → contains (keys degrees) n ≡ contains nodes n
  unfolding degrees
  degrees-keys = compute_in_degree-keys edges nodes proper

  start-IsSorting : IsSorting (keys degrees) edges (start_drain degrees [])
  unfolding degrees contains
  start-IsSorting = record {
    inv = start-IsDraining degrees [] degrees-IsMap tt (λ n h. cc);
    exact = λ n g d fresh. ground (
      arith,
      start-in_degree degrees [] degrees-IsMap tt (λ n h. cc),
      rw (start-in_degree degrees [] degrees-IsMap tt (λ n h. cc)) at d,
      get-compute_in_degree edges nodes proper n,
      start-result degrees [] degrees-IsMap tt (λ n h. cc),
      open_deps_congr nodes (keys degrees) [] (deps_of edges n) degrees-keys,
    );
    ordered = rw (start-result degrees [] degrees-IsMap tt (λ n h. cc)) tt;
  }

  pub drained-IsSorting : IsSorting (keys degrees) edges drained
  unfolding drained kahn_drain
  drained-IsSorting =
      drain_loop_ind (IsSorting (keys degrees) edges) edges
        (λ d node rest front w. visit-IsSorting edges node rest proper front w) (length degrees)
        (start_drain degrees []) start-IsSorting

  pub drained_all : Drained degrees [] drained
  unfolding drained contains
  drained_all = kahn_drain-Drained edges degrees [] degrees-IsMap tt (λ n h. cc)

-- ===== src/Deps/StartOrder.antt =====
-- The start order of a unit and all that it needs: `start_order_for`, `transitive_deps`,
-- `toposort_subset`, `break_cycle` and `unit_type_priority` (src/manager/deps.rs).
pub mod Search
pub mod Break
pub mod Subset
pub mod Total
use Prim.Native.String.{len, slice}
use sysd.Prelude.{
  ℕ, zero, suc, ◌+◌, ◌-◌, ◌*◌, String, Bool, true, false, not, ◌||◌, ◌&&◌, Option, none, some, List,
  [], ◌∷◌, ◌++◌, ◌==◌, nat_eq, string_eq, if◌then◌else◌, ltb, leb, contains, set_insert, keep,
  length, Map, insert,
}
use sysd.Deps.{DepGraph, Edges, deps_of}
use sysd.Deps.Kahn.{Drain, kahn_drain, compute_in_degree, Sorted, ok}

-- What the loop of `transitive_deps` keeps.
pub record Finding : Type 0 where
  pub needed : List String
  pub to_visit : List String

-- `if self.nodes.contains(dep) && needed.insert(dep) { to_visit.push_back(dep) }`.
unfoldable pub need : List String → String → Finding → Finding
need nodes dep s =
    if contains nodes dep && not (contains s.needed dep)
    then record { needed = set_insert dep s.needed; to_visit = s.to_visit ++ dep ∷ [] }
    else s

unfoldable pub need_all : List String → List String → Finding → Finding
need_all nodes [] s = s
need_all nodes (dep ∷ deps) s = need_all nodes deps (need nodes dep s)

-- The loop on fuel; a search that stops for want of fuel still has nodes to visit.
unfoldable pub search_loop : ℕ → DepGraph → Finding → Finding
search_loop zero g s = s
search_loop (suc fuel) g s = elim s.to_visit [
  | [] ↦ s
  | node ∷ rest ↦
      search_loop fuel g (need_all g.nodes (deps_of g.edges node) (record s { to_visit = rest }))
]

unfoldable pub start_search : DepGraph → String → Finding
start_search g target =
    if contains g.nodes target
    then record { needed = set_insert target []; to_visit = target ∷ [] }
    else record { needed = []; to_visit = [] }

-- Each node is visited once at most: their number is the fuel.
unfoldable pub transitive_deps : DepGraph → String → List String
transitive_deps g target = (search_loop (length g.nodes) g (start_search g target)).needed

-- `str::ends_with`.
unfoldable pub ends_with : String → String → Bool
ends_with s t = leb (len t) (len s) && (slice s (len s - len t) (len s) == t)

unfoldable pub unit_type_priority : String → ℕ
unit_type_priority name =
    if ends_with name ".target"
    then 0
    else if ends_with name ".mount"
    then 1
    else if ends_with name ".socket"
    then 2
    else if ends_with name ".path" || ends_with name ".timer" || ends_with name ".slice"
    then 3
    else 4

-- A key of `min_by_key` is less than another: the pairs (priority, degree) in their order.
unfoldable pub precedes : String × ℕ → String × ℕ → Bool
precedes (n, degree) (m, other) =
    let p = unit_type_priority n in
    let q = unit_type_priority m in ltb p q || ((p == q) && ltb degree other)

-- The first of the least entries (`min_by_key`): `best` is the least so far.
unfoldable pub least : String × ℕ → List (String × ℕ) → String × ℕ
least best [] = best
least best (x ∷ xs) = least (if precedes x best then x else best) xs

abbrev pub remaining : Map String ℕ → List String → List (String × ℕ)
remaining in_degree result = keep (λ (n, degree). ltb 0 degree && not (contains result n)) in_degree

abbrev pub set_zero : Map String ℕ → List (String × ℕ) → Option (Map String ℕ)
set_zero in_degree [] = none
set_zero in_degree (x ∷ xs) = some (insert in_degree (least x xs).0 0)

-- `none` where the source returns `false`, and changes no degree.
unfoldable pub break_cycle : Map String ℕ → List String → Option (Map String ℕ)
break_cycle in_degree result = set_zero in_degree (remaining in_degree result)

-- The degrees of the next round of `toposort_subset`, after a round that ended with `d`: `none`
-- where the loop breaks off.
unfoldable pub next_round : List String → Drain → List String → Option (Map String ℕ)
unfolding break_cycle
next_round subset d result =
    if leb (length subset) (length d.result)
    then none
    else if length d.result == length result
    then break_cycle d.in_degree d.result
    else some d.in_degree

-- The loop of `toposort_subset` on fuel: `none` where the fuel does not suffice.
unfoldable pub subset_loop :
    ℕ → Edges → List String → Map String ℕ → List String → Option (List String)
subset_loop zero edges subset in_degree result = none
subset_loop (suc fuel) edges subset in_degree result =
    let d = kahn_drain edges in_degree result in
    elim (next_round subset d result) [
      | none ↦ some d.result
      | some degrees ↦ subset_loop fuel edges subset degrees d.result
    ]

-- A round emits a node or breaks a cycle, and a cycle is broken only after a round that emits
-- nothing: two rounds for each node, and two more, are enough.
unfoldable pub toposort_subset : DepGraph → List String → Option (List String)
toposort_subset g subset =
    subset_loop (2 * length subset + 2) g.edges subset (compute_in_degree g.edges subset) []

abbrev as_ok : Option (List String) → Option Sorted
as_ok none = none
as_ok (some order) = some (ok order)

-- `none` where the fuel does not suffice.
unfoldable pub start_order_for : DepGraph → String → Option Sorted
start_order_for g target = as_ok (toposort_subset g (transitive_deps g target))

-- ===== src/Deps/Kahn.antt =====
-- Kahn's algorithm as the program runs it: `kahn_drain`, its two helpers, and `toposort`
-- (src/manager/deps.rs).
pub mod Queue
pub mod Start
pub mod Loop
pub mod Degrees
pub mod Order
pub mod Again
pub mod LeftOut
pub mod Toposort
use sysd.Prelude.{
  ℕ, zero, suc, ◌-◌, String, not, ◌||◌, Option, none, some, List, [], ◌∷◌, ◌++◌, ◌==◌, nat_eq,
  string_eq, if◌then◌else◌, contains, set_insert, set_remove, keep, count_if, length, Map, get,
  insert,
}
use sysd.Deps.{DepGraph, Edges}

-- What the loop of `kahn_drain` keeps.
pub record Drain : Type 0 where
  pub in_degree : Map String ℕ
  pub emitted : List String
  pub queued : List String
  pub queue : List String
  pub result : List String

-- A node joins the queue unless `queued` has it: `if queued.insert(node) { queue.push_back(node) }`.
unfoldable pub enqueue : String → Drain → Drain
enqueue node d =
    if contains d.queued node
    then d
    else record d { queued = set_insert node d.queued; queue = d.queue ++ node ∷ [] }

-- The body of the `for` loop of `initial_zero_in_degree_queue`.
unfoldable pub offer_initial : String → ℕ → Drain → Drain
offer_initial node degree d =
    if not (degree == 0) || contains d.emitted node then d else enqueue node d

unfoldable pub initial_zero_in_degree_queue : Map String ℕ → Drain → Drain
initial_zero_in_degree_queue [] d = d
initial_zero_in_degree_queue ((node, degree) ∷ rest) d =
    initial_zero_in_degree_queue rest (offer_initial node degree d)

-- The degree of a dependent falls by one, and stops at 0 (`saturating_sub`).
unfoldable pub lower : String → Option ℕ → Drain → Drain
unfolding enqueue
lower dependent none d = d
lower dependent (some degree) d =
    let d' = record d { in_degree = insert d.in_degree dependent (degree - 1) } in
    if degree - 1 == 0 then enqueue dependent d' else d'

unfoldable pub unblock : String → String → List String → Drain → Drain
unfolding lower
unblock node dependent deps d =
    if not (contains deps node) || contains d.emitted dependent
    then d
    else lower dependent (get d.in_degree dependent) d

unfoldable pub queue_newly_unblocked_nodes : Edges → String → Drain → Drain
queue_newly_unblocked_nodes [] node d = d
queue_newly_unblocked_nodes ((dependent, deps) ∷ edges) node d =
    queue_newly_unblocked_nodes edges node (unblock node dependent deps d)

-- One round of the `while` loop, after `node` left the front of the queue.
unfoldable pub visit : Edges → String → List String → Drain → Drain
visit edges node rest d =
    let d' = record d { queue = rest; queued = set_remove node d.queued } in
    if contains d.emitted node
    then d'
    else queue_newly_unblocked_nodes edges node
        (record d' { emitted = set_insert node d.emitted; result = d.result ++ node ∷ [] })

-- The loop on fuel; a drain that stops for want of fuel still has a queue.
unfoldable pub drain_loop : ℕ → Edges → Drain → Drain
drain_loop zero edges d = d
drain_loop (suc fuel) edges d = elim d.queue [
  | [] ↦ d
  | node ∷ rest ↦ drain_loop fuel edges (visit edges node rest d)
]

-- `iter().cloned().collect()` into a set.
unfoldable pub collect : List String → List String → List String
collect set [] = set
collect set (x ∷ xs) = collect (set_insert x set) xs

-- The drain before the first round.
unfoldable pub start_drain : Map String ℕ → List String → Drain
start_drain in_degree result = initial_zero_in_degree_queue in_degree (record {
  in_degree = in_degree;
  emitted = collect [] result;
  queued = [];
  queue = [];
  result = result;
})

-- Each node of `in_degree` is visited once at most: its number is the fuel.
unfoldable pub kahn_drain : Edges → Map String ℕ → List String → Drain
kahn_drain edges in_degree result =
    drain_loop (length in_degree) edges (start_drain in_degree result)

abbrev zero_degrees : List String → Map String ℕ
zero_degrees [] = []
zero_degrees (n ∷ ns) = (n, 0) ∷ zero_degrees ns

-- The `for` loop of `compute_in_degree`.
count_degrees : List String → Edges → Map String ℕ → Map String ℕ
count_degrees nodes [] in_degree = in_degree
count_degrees nodes ((from, deps) ∷ edges) in_degree = count_degrees nodes edges (
    if contains nodes from
    then insert in_degree from (count_if (λ d. contains nodes d) deps)
    else in_degree)

unfoldable pub compute_in_degree : Edges → List String → Map String ℕ
unfolding count_degrees
compute_in_degree edges nodes = count_degrees nodes edges (zero_degrees nodes)

-- `Ok` and `Err(CycleError)`.
pub data Sorted : Type 0 where
  ok : List String → Sorted
  cycle : List String → Sorted

unfoldable pub toposort : DepGraph → Sorted
toposort g =
    let result = (kahn_drain g.edges (compute_in_degree g.edges g.nodes) []).result in
    if length result == length g.nodes
    then ok result
    else cycle (keep (λ n. not (contains result n)) g.nodes)

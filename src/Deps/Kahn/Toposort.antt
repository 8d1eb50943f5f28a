-- ===== src/Deps/Kahn/Toposort.antt =====
-- What `toposort` returns (src/manager/deps.rs).
use sysd.Prelude.{
  ℕ, String, ◌≡◌, ◌≢◌, sym, true, ◌⊎◌, List, [], nat_eq, string_eq, contains, length,
  contains_of_length, IsSetList, keys, arith, inl, inr,
}
use sysd.Deps.{DepGraph, deps_of}
use sysd.Deps.Kahn.{Drain, ok, cycle, toposort}
use sysd.Deps.Kahn.LeftOut.{
  IsRanking, left_out, left_out-nonempty, left_out-blocked, result_in_nodes, all_drained,
}
use sysd.Deps.Kahn.Order.{
  IsOrdered, IsOrdered-weaken, IsGraph, degrees, drained, degrees-keys, drained-IsSorting,
}

module _ (g : DepGraph) (wf : IsGraph g) where
  abbrev drain : Drain
  drain = drained g.edges g.nodes wf.edges wf.nodes

  toposort_cases :
      (length drain.result ≡ length g.nodes) × (toposort g ≡ ok drain.result)
      ⊎ (length drain.result ≢ length g.nodes)
        × (toposort g ≡ cycle (left_out g.edges g.nodes wf.edges wf.nodes))
  unfolding toposort drained degrees left_out
  toposort_cases = ground arith

  -- If the graph has no node twice, no key of its edges twice and no dependency of a node twice,
  -- then an order that `toposort` returns holds each node of the graph once, each behind all its
  -- dependencies among the nodes.
  pub toposort-ok :
      (order : List String)
      → toposort g ≡ ok order
      → IsOrdered g.nodes g.edges [] order
        × IsSetList order
        × ((n : String) → contains order n ≡ contains g.nodes n)
  toposort-ok order h = elim toposort_cases [
    | inl (same, all) ↦
        let e : order ≡ drain.result = cc in
        let w = drained-IsSorting g.edges g.nodes wf.edges wf.nodes in
        rw e (
          IsOrdered-weaken (keys (degrees g.edges g.nodes wf.edges wf.nodes)) g.nodes g.edges []
              drain.result (λ m. sym (degrees-keys g.edges g.nodes wf.edges wf.nodes m)) w.ordered,
          w.inv.result_set,
          λ n. ground (
            arith,
            (result_in_nodes g.edges g.nodes wf.edges wf.nodes) n,
            contains_of_length drain.result g.nodes w.inv.result_set
                (result_in_nodes g.edges g.nodes wf.edges wf.nodes) (omega (arith, same)) n,
          ),
        )
    | inr (short, some_left) ↦ cc
  ]

  -- If the graph has no node twice, no key of its edges twice and no dependency of a node twice,
  -- and `toposort` reports a cycle, then it names at least one node, and each node that it names
  -- has a dependency among those that it names.
  pub toposort-cycle :
      (ns : List String)
      → toposort g ≡ cycle ns
      → (ns ≢ [])
        × ((n : String)
            → contains ns n ≡ true
            → (m : String) × (contains ns m ≡ true) × (contains (deps_of g.edges n) m ≡ true))
  toposort-cycle ns h = elim toposort_cases [
    | inl (same, all) ↦ cc
    | inr (short, some_left) ↦
        let e : ns ≡ (left_out g.edges g.nodes wf.edges wf.nodes) = cc in
        rw e (
          left_out-nonempty g.edges g.nodes wf.edges wf.nodes short,
          left_out-blocked g.edges g.nodes wf.edges wf.nodes,
        )
  ]

  -- If the graph has no node twice, no key of its edges twice and no dependency of a node twice,
  -- and some ranking of the names falls along every edge between its nodes, so that it has no
  -- cycle, then `toposort` returns an order.
  pub toposort-acyclic :
      (rank : String → ℕ)
      → IsRanking g.edges g.nodes rank
      → (order : List String) × (toposort g ≡ ok order)
  toposort-acyclic rank down = elim toposort_cases [
    | inl (same, all) ↦ (drain.result, all)
    | inr (short, some_left) ↦
        absurd (short (all_drained g.edges g.nodes wf.edges wf.nodes rank down))
  ]

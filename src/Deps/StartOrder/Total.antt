-- ===== src/Deps/StartOrder/Total.antt =====
-- About the whole of `toposort_subset` and `start_order_for` (src/manager/deps.rs).
use sysd.Prelude.{
  ℕ, ◌+◌, ◌*◌, String, ◌≡◌, refl, sym, ◌∙◌, ap, true, false, ◌↔◌, some, List, [], ◌∷◌, ◌++◌, nat_eq,
  string_eq, contains, contains-append, length, length-append, length-le_of_subset, List-cases,
  IsSetList, keys, arith, inl, inr, eq_iff,
}
use mathlib.Core.List.{append-nil}
use sysd.Deps.{DepGraph, deps_of}
use sysd.Deps.Kahn.{ok, compute_in_degree}
use sysd.Deps.Kahn.Degrees.{compute_in_degree-IsMap, compute_in_degree-keys}
use sysd.Deps.Kahn.Order.{
  IsGraph, IsOrdered, IsOrdered-weaken, drained, degrees, degrees-keys, drained-IsSorting,
}
use sysd.Deps.Kahn.LeftOut.{IsRanking, left_out, left_out_iff, left_out-blocked, all_drained}
use sysd.Deps.StartOrder.{toposort_subset, transitive_deps, start_order_for}
use sysd.Deps.StartOrder.Search.{Needs, transitive_deps_iff, transitive_deps-IsSetList}
use sysd.Deps.StartOrder.Subset.{IsWhole, subset_loop-total}

-- What stands at the front of a list without repetition does not stand behind it.
apart :
    (xs ys : List String) (n : String)
    → IsSetList (xs ++ ys)
    → contains xs n ≡ true
    → contains ys n ≡ false
unfolding contains
apart [] ys n s h = cc
apart (x ∷ xs) ys n s h =
    ground (arith, apart xs ys n s.1, s.0, contains-append xs ys x, eq_iff x n)

module _ (g : DepGraph) (subset : List String) (wf : IsGraph g) (s : IsSetList subset) where
  abbrev front : List String
  front = (drained g.edges subset wf.edges s).result

  toposort_subset-IsWhole :
      (order : List String) × (toposort_subset g subset ≡ some order)
      × IsWhole g.edges wf.edges.keyed subset s front order
  unfolding toposort_subset contains drained degrees
  toposort_subset-IsWhole =
      subset_loop-total g.edges wf.edges.keyed subset s (2 * length subset + 2)
        (compute_in_degree g.edges subset) []
        (record {
          map = compute_in_degree-IsMap g.edges subset wf.edges s;
          set = tt;
          known = λ n h. cc;
          over = compute_in_degree-keys g.edges subset wf.edges;
        })
        (inl (omega arith))

  -- If the graph has no node twice, no key of its edges twice and no dependency of a node twice,
  -- then for every set of names the loop of `toposort_subset` ends within its fuel, and what it
  -- returns holds each name of the set once and no other.
  pub toposort_subset-total :
      (order : List String) × (toposort_subset g subset ≡ some order)
      × IsSetList order
      × ((n : String) → contains order n ≡ contains subset n)
  toposort_subset-total = let (order, e, w) = toposort_subset-IsWhole in (order, e, w.set, w.whole)

  behind_left_out :
      (order more : List String)
      → IsWhole g.edges wf.edges.keyed subset s front order
      → order ≡ front ++ more
      → (n : String) → contains more n ≡ contains (left_out g.edges subset wf.edges s) n
  behind_left_out order more w e n = ground (
    arith,
    w.whole n,
    ap (λ l. contains l n) e,
    contains-append front more n,
    left_out_iff g.edges subset wf.edges s n,
    apart front more n (rw e at w.set),
  )

  all_front :
      (order more : List String)
      → IsWhole g.edges wf.edges.keyed subset s front order
      → order ≡ front ++ more
      → length front ≡ length subset
      → order ≡ front
  all_front order more w e full = elim (List-cases more) [
    | inl nothing ↦ e ∙ ap (λ l. front ++ l) nothing ∙ append-nil front
    | inr (x, rest, some_more) ↦ absurd (
        omega (
          arith,
          ap length e,
          ap length some_more,
          length-append front more,
          full,
          length-le_of_subset order subset w.set (λ n h. sym (w.whole n) ∙ h),
        ))
  ]

  -- If the graph has no node twice, no key of its edges twice and no dependency of a node twice,
  -- then what `toposort_subset` returns for a set begins with an order that respects the edges
  -- within the set, and each name behind that has a dependency which is also behind it: only the
  -- names of cycles, and those that need them, may stand before one of their dependencies.
  pub toposort_subset-front :
      (order : List String)
      → toposort_subset g subset ≡ some order
      → (first more : List String) × (order ≡ first ++ more)
        × IsOrdered subset g.edges [] first
        × ((n : String)
            → contains more n ≡ true
            → (m : String) × (contains more m ≡ true) × (contains (deps_of g.edges n) m ≡ true))
  toposort_subset-front order h =
      let (order', e, w) = toposort_subset-IsWhole in
      let same : order ≡ order' = cc in
      let (more, grown) = w.grows in
      let left = behind_left_out order' more w grown in
      (
        front,
        more,
        same ∙ grown,
        IsOrdered-weaken (keys (degrees g.edges subset wf.edges s)) subset g.edges [] front
            (λ m. sym (degrees-keys g.edges subset wf.edges s m))
            (drained-IsSorting g.edges subset wf.edges s).ordered,
        λ n b.
            let (m, m_left, dep) =
              left_out-blocked g.edges subset wf.edges s n (sym (left n) ∙ b) in
            (m, left m ∙ m_left, dep),
      )

-- If the graph has no node twice, no key of its edges twice and no dependency of a node twice,
-- then, whatever cycles it has, `start_order_for` does not fail: it returns an order in which
-- each node that the target needs stands once, and nothing else.
pub start_order_for-total :
    (g : DepGraph) (target : String)
    → IsGraph g
    → (order : List String) × (start_order_for g target ≡ some (ok order))
      × IsSetList order
      × ((n : String) → (contains order n ≡ true) ↔ Needs g target n)
unfolding start_order_for
start_order_for-total g target wf =
    let (order, e, s, same) =
      toposort_subset-total g (transitive_deps g target) wf (transitive_deps-IsSetList g target) in
    (
      order,
      rw e refl,
      s,
      λ n.
          let (found, needed) = transitive_deps_iff g target n in
          (λ h. found (sym (same n) ∙ h), λ h. same n ∙ needed h),
    )

-- If the graph has no node twice, no key of its edges twice and no dependency of a node twice,
-- and some ranking of the names falls along every edge between the nodes that the target needs,
-- so that they have no cycle, then in the order that `start_order_for` returns each of them
-- stands behind all its dependencies among them.
pub start_order_for-acyclic :
    (g : DepGraph) (target : String) (rank : String → ℕ) (order : List String)
    → IsGraph g
    → IsRanking g.edges (transitive_deps g target) rank
    → start_order_for g target ≡ some (ok order)
    → IsOrdered (transitive_deps g target) g.edges [] order
unfolding start_order_for
start_order_for-acyclic g target rank order wf down h =
    let needed = transitive_deps g target in
    let s = transitive_deps-IsSetList g target in
    let (order', e, w) = toposort_subset-IsWhole g needed wf s in
    let same : order ≡ order' = cc in
    let full =
      all_front g needed wf s order' w.grows.0 w w.grows.1
        (all_drained g.edges needed wf.edges s rank down) in
    rw (same ∙ full) (
      IsOrdered-weaken (keys (degrees g.edges needed wf.edges s)) needed g.edges []
        (front g needed wf s) (λ m. sym (degrees-keys g.edges needed wf.edges s m))
        (drained-IsSorting g.edges needed wf.edges s).ordered)

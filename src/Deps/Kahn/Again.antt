-- ===== src/Deps/Kahn/Again.antt =====
-- About what a drain leaves for the next one (src/manager/deps.rs).
use sysd.Prelude.{
  ℕ, ◌-◌, ◌<◌, String, ◌≡◌, refl, ap, true, false, not, ◌||◌, Option, none, some, List, [], ◌∷◌,
  ◌==◌, nat_eq, string_eq, contains, contains-append, IsSetList, length, length-append, Map, get,
  insert-IsMap, IsMap, keys, arith, Bool-cases, List-cases, inl, inr,
}
use sysd.Deps.{Edges}
use sysd.Deps.Kahn.{
  Drain, enqueue, lower, unblock, queue_newly_unblocked_nodes, visit, start_drain, kahn_drain,
}
use sysd.Deps.Kahn.Queue.{IsDraining, visit-eq}
use sysd.Deps.Kahn.Start.{start-IsDraining, start-in_degree}
use sysd.Deps.Kahn.Loop.{visit-IsDraining, drain_loop_ind, kahn_drain-Drained}
use sysd.Deps.Kahn.Degrees.{emit-in_degree}

lower-IsMap :
    (n : String) (o : Option ℕ) (d : Drain) → IsMap d.in_degree → IsMap (lower n o d).in_degree
unfolding lower enqueue
lower-IsMap n none d m = m
lower-IsMap n (some g) d m = elim (Bool-cases (g - 1 == 0)) [
  | inl h ↦ elim (Bool-cases (contains d.queued n)) [
    | inl q ↦ rw (h, q) (insert-IsMap d.in_degree n (g - 1) m)
    | inr q ↦ rw (h, q) (insert-IsMap d.in_degree n (g - 1) m)
  ]
  | inr h ↦ rw h (insert-IsMap d.in_degree n (g - 1) m)
]

unblock-IsMap :
    (node dependent : String) (deps : List String) (d : Drain)
    → IsMap d.in_degree
    → IsMap (unblock node dependent deps d).in_degree
unfolding unblock
unblock-IsMap node dependent deps d m =
    elim (Bool-cases (not (contains deps node) || contains d.emitted dependent)) [
      | inl h ↦ rw h m
      | inr h ↦ rw h (lower-IsMap dependent (get d.in_degree dependent) d m)
    ]

queue_newly-IsMap :
    (edges : Edges) (node : String) (d : Drain)
    → IsMap d.in_degree
    → IsMap (queue_newly_unblocked_nodes edges node d).in_degree
unfolding queue_newly_unblocked_nodes
queue_newly-IsMap [] node d m = m
queue_newly-IsMap ((dependent, deps) ∷ edges) node d m =
    queue_newly-IsMap edges node (unblock node dependent deps d)
      (unblock-IsMap node dependent deps d m)

visit-IsMap :
    (edges : Edges) (node : String) (rest : List String) (d : Drain)
    → IsMap d.in_degree
    → IsMap (visit edges node rest d).in_degree
unfolding visit
visit-IsMap edges node rest d m = elim (Bool-cases (contains d.emitted node)) [
  | inl h ↦ rw h m
  | inr h ↦ rw h (queue_newly-IsMap edges node _ m)
]

module _ (edges : Edges) (in_degree : Map String ℕ) (result : List String) (e : IsMap edges)
    (m : IsMap in_degree) (s : IsSetList result)
    (known : (n : String) → contains result n ≡ true → contains (keys in_degree) n ≡ true) where
  pub kahn_drain-IsMap : IsMap (kahn_drain edges in_degree result).in_degree
  unfolding kahn_drain
  kahn_drain-IsMap =
      drain_loop_ind (λ d. IsMap d.in_degree) edges
        (λ d node rest front. visit-IsMap edges node rest d) (length in_degree)
        (start_drain in_degree result) (rw (start-in_degree in_degree result m s known) m)

  zero_kept :
      (n : String)
      → get in_degree n ≡ some 0
      → get (kahn_drain edges in_degree result).in_degree n ≡ some 0
  unfolding kahn_drain
  zero_kept n z =
      (drain_loop_ind (λ d. IsDraining (keys in_degree) d × (get d.in_degree n ≡ some 0)) edges
        (λ d node rest front (w, h). (
          visit-IsDraining edges node rest front w,
          rw (visit-eq node rest front w edges)
              (ground (arith, emit-in_degree edges node rest d n e)),
        ))
        (length in_degree) (start_drain in_degree result)
        (
          start-IsDraining in_degree result m s known,
          rw (start-in_degree in_degree result m s known) z,
        )).1

  -- With a node of degree 0 that is not emitted the drain emits something.
  pub kahn_drain-progress :
      (n : String)
      → get in_degree n ≡ some 0
      → contains result n ≡ false
      → length result < length (kahn_drain edges in_degree result).result
  kahn_drain-progress n z fresh =
      let w = kahn_drain-Drained edges in_degree result m s known in
      elim (List-cases w.grows.0) [
        | inl nothing ↦
            let absent : contains w.grows.0 n ≡ false = rw nothing (unfold contains in refl) in
            absurd (
              ground (
                arith,
                w.zero_emitted n (zero_kept n z),
                ap (λ r. contains r n) w.grows.1,
                contains-append result w.grows.0 n,
                absent,
              ))
        | inr (x, more, some_new) ↦
            omega (arith, ap length w.grows.1, length-append result w.grows.0, ap length some_new)
      ]

-- ===== src/Deps/Kahn/Loop.antt =====
-- About the `while` loop of `kahn_drain` (src/manager/deps.rs).
use mathlib.Core.List.{append-nil, append_assoc}
use sysd.Prelude.{
  ℕ, zero, suc, ◌+◌, ◌≤◌, String, ◌≡◌, refl, sym, ◌∙◌, ap, true, some, List, [], ◌∷◌, ◌++◌, nat_eq,
  string_eq, contains, List-cases, length, length-append, length-le_of_subset, IsSetList, Map, get,
  IsMap, keys, length-keys, arith, Bool-cases, inl, inr, eq_iff,
}
use sysd.Deps.{Edges}
use sysd.Deps.Kahn.{
  Drain, enqueue, lower, unblock, queue_newly_unblocked_nodes, visit, drain_loop, start_drain,
  kahn_drain,
}
use sysd.Deps.Kahn.Queue.{
  IsDraining, ZeroQueued, emit, visit-eq, emit-IsDraining, emit-ZeroQueued, queue_newly-IsDraining,
  queue_newly-ZeroQueued,
}
use sysd.Deps.Kahn.Start.{start-IsDraining, start-ZeroQueued, start-result}

unblock-result :
    (node dependent : String) (deps : List String) (d : Drain)
    → (unblock node dependent deps d).result ≡ d.result
unfolding unblock lower enqueue
unblock-result node dependent deps d = ground arith

pub queue_newly-result :
    (edges : Edges) (node : String) (d : Drain)
    → (queue_newly_unblocked_nodes edges node d).result ≡ d.result
unfolding queue_newly_unblocked_nodes
queue_newly-result [] node d = refl
queue_newly-result ((dependent, deps) ∷ edges) node d =
    queue_newly-result edges node (unblock node dependent deps d)
    ∙ unblock-result node dependent deps d

module _ {ks : List String} (edges : Edges) {d : Drain} (node : String) (rest : List String)
    (front : d.queue ≡ node ∷ rest) (w : IsDraining ks d) where
  pub visit-result : (visit edges node rest d).result ≡ d.result ++ node ∷ []
  unfolding emit
  visit-result =
      rw (visit-eq node rest front w edges) (queue_newly-result edges node (emit node rest d))

  pub visit-IsDraining : IsDraining ks (visit edges node rest d)
  visit-IsDraining =
      rw (visit-eq node rest front w edges)
        (queue_newly-IsDraining edges node (emit-IsDraining node rest front w))

  pub visit-ZeroQueued : ZeroQueued d → ZeroQueued (visit edges node rest d)
  visit-ZeroQueued z = rw (visit-eq node rest front w edges) (
      queue_newly-ZeroQueued edges node (emit-IsDraining node rest front w)
        (emit-ZeroQueued node rest front w z))

-- A rule for the loop: what each round keeps holds at the end.
pub drain_loop_ind :
    (P : Drain → Type 0) (edges : Edges)
    → ((d : Drain) (node : String) (rest : List String)
        → d.queue ≡ node ∷ rest
        → P d
        → P (visit edges node rest d))
    → (fuel : ℕ) (d : Drain) → P d
    → P (drain_loop fuel edges d)
unfolding drain_loop
drain_loop_ind P edges keep zero d p = p
drain_loop_ind P edges keep (suc fuel) d p =
    go
      (λ node rest e.
        drain_loop_ind P edges keep fuel (visit edges node rest d) (keep d node rest e p))
      d.queue refl
  where
    go :
        ((node : String) (rest : List String)
          → d.queue ≡ node ∷ rest
          → P (drain_loop fuel edges (visit edges node rest d)))
        → (q : List String) → d.queue ≡ q
        → P (elim q [ [] ↦ d | node ∷ rest ↦ drain_loop fuel edges (visit edges node rest d) ])
    go later [] e = p
    go later (node ∷ rest) e = later node rest e

-- A node in the queue is one more than the result has, so the result is not yet all nodes.
result_room :
    {ks : List String} {d : Drain} (node : String) (rest : List String)
    → d.queue ≡ node ∷ rest
    → IsDraining ks d
    → suc (length d.result) ≤ length ks
unfolding contains
result_room {ks} {d} node rest front w =
    length-le_of_subset (node ∷ d.result) ks (w.queue_fresh node front_queued, w.result_set)
      λ n h.
        ground
          (arith, w.result_known n, w.known node, w.queue_zero node front_queued, eq_iff node n)
  where
    front_queued : contains d.queue node ≡ true
    front_queued = rw front (ground (arith, eq_iff node node))

-- With a round for each node that is not yet emitted the loop ends by its test.
pub drain_loop_done :
    {ks : List String} (edges : Edges) (fuel : ℕ) (d : Drain)
    → IsDraining ks d
    → length ks ≤ fuel + length d.result
    → (drain_loop fuel edges d).queue ≡ []
unfolding drain_loop
drain_loop_done edges zero d w h = elim (List-cases d.queue) [
  | inl empty ↦ empty
  | inr (node, rest, front) ↦ absurd (omega (arith, result_room node rest front w))
]
drain_loop_done {ks} edges (suc fuel) d w h =
    go
      (λ node rest e.
        drain_loop_done edges fuel (visit edges node rest d) (visit-IsDraining edges node rest e w)
          (omega (
            arith,
            ap length (visit-result edges node rest e w),
            length-append d.result (node ∷ []),
          )))
      d.queue refl
  where
    go :
        ((node : String) (rest : List String)
          → d.queue ≡ node ∷ rest
          → (drain_loop fuel edges (visit edges node rest d)).queue ≡ [])
        → (q : List String) → d.queue ≡ q
        → let d' : Drain = elim q [
          | [] ↦ d
          | node ∷ rest ↦ drain_loop fuel edges (visit edges node rest d)
        ] in
          d'.queue ≡ []
    go later [] e = e
    go later (node ∷ rest) e = later node rest e

-- The result only grows at its end.
abbrev pub Extends : List String → List String → Type 0
Extends xs ys = (more : List String) × (ys ≡ xs ++ more)

drain_loop-Extends :
    {ks : List String} (edges : Edges) (fuel : ℕ) (d : Drain)
    → IsDraining ks d
    → Extends d.result (drain_loop fuel edges d).result
drain_loop-Extends {ks} edges fuel d w =
    (drain_loop_ind (λ d'. IsDraining ks d' × Extends d.result d'.result) edges
      (λ d' node rest front (w', (more, e)). (
        visit-IsDraining edges node rest front w',
        (
          more ++ node ∷ [],
          visit-result edges node rest front w'
              ∙ ap (λ r. r ++ node ∷ []) e
              ∙ append_assoc d.result more (node ∷ []),
        ),
      ))
      fuel d (w, ([], sym (append-nil d.result)))).1

-- What one drain does, whatever was emitted before it.
pub record Drained (in_degree : Map String ℕ) (result : List String) (d : Drain) : Type 0 where
  pub inv : IsDraining (keys in_degree) d
  pub empty : d.queue ≡ []
  pub zero_emitted : (n : String) → get d.in_degree n ≡ some 0 → contains d.result n ≡ true
  pub grows : Extends result d.result

module _ (edges : Edges) (in_degree : Map String ℕ) (result : List String) (m : IsMap in_degree)
    (s : IsSetList result)
    (known : (n : String) → contains result n ≡ true → contains (keys in_degree) n ≡ true) where
  drained_inv :
      IsDraining (keys in_degree) (kahn_drain edges in_degree result)
      × ZeroQueued (kahn_drain edges in_degree result)
  unfolding kahn_drain
  drained_inv =
      drain_loop_ind (λ d. IsDraining (keys in_degree) d × ZeroQueued d) edges
        (λ d node rest front (w, z).
          (visit-IsDraining edges node rest front w, visit-ZeroQueued edges node rest front w z))
        (length in_degree) (start_drain in_degree result)
        (start-IsDraining in_degree result m s known, start-ZeroQueued in_degree result m s known)

  drained_empty : (kahn_drain edges in_degree result).queue ≡ []
  unfolding kahn_drain
  drained_empty =
      drain_loop_done edges (length in_degree) (start_drain in_degree result)
        (start-IsDraining in_degree result m s known) (omega (arith, length-keys in_degree))

  drained_grows : Extends result (kahn_drain edges in_degree result).result
  unfolding kahn_drain
  drained_grows =
      let grown =
        drain_loop-Extends edges (length in_degree) (start_drain in_degree result)
          (start-IsDraining in_degree result m s known) in
      (grown.0, grown.1 ∙ ap (λ r. r ++ grown.0) (start-result in_degree result m s known))

  -- The drain ends with an empty queue, it has emitted every node with no open dependency, and it
  -- has kept what was emitted before.
  pub kahn_drain-Drained : Drained in_degree result (kahn_drain edges in_degree result)
  kahn_drain-Drained = record {
    inv = drained_inv.0;
    empty = drained_empty;
    zero_emitted = λ n g. emitted n g;
    grows = drained_grows;
  }
    where
      emitted :
          (n : String)
          → get (kahn_drain edges in_degree result).in_degree n ≡ some 0
          → contains (kahn_drain edges in_degree result).result n ≡ true
      emitted n g = elim (Bool-cases (contains (kahn_drain edges in_degree result).result n)) [
        | inl done ↦ done
        | inr left ↦
            absurd
              (unfold contains in cc (drained_inv.1 n g left, ap (λ q. contains q n) drained_empty))
      ]

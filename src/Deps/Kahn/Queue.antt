-- ===== src/Deps/Kahn/Queue.antt =====
-- The queue of `kahn_drain` (src/manager/deps.rs): what each round keeps.
use sysd.Prelude.{
  ℕ, ◌-◌, String, ◌≡◌, refl, ap, true, false, not, ◌||◌, Option, none, some, List, [], ◌∷◌, ◌++◌,
  ◌==◌, nat_eq, string_eq, contains, contains-snoc, set_insert, set_remove, IsSetList,
  IsSetList-snoc, get, insert, has_key, get-insert, arith, Bool-cases, inl, inr, eq_iff,
}
use sysd.Deps.{Edges}
use sysd.Deps.Kahn.{Drain, enqueue, lower, unblock, queue_newly_unblocked_nodes, visit}

-- What holds of a drain over the nodes `ks`: `queued` and `emitted` are the queue and the result,
-- neither lists a node twice, nothing in the queue is in the result, and both hold nodes only.
pub record IsDraining (ks : List String) (d : Drain) : Type 0 where
  pub same_queue : d.queued ≡ d.queue
  pub same_result : d.emitted ≡ d.result
  pub result_set : IsSetList d.result
  pub queue_set : IsSetList d.queue
  pub queue_fresh : (n : String) → contains d.queue n ≡ true → contains d.result n ≡ false
  pub queue_zero : (n : String) → contains d.queue n ≡ true → get d.in_degree n ≡ some 0
  pub result_known : (n : String) → contains d.result n ≡ true → contains ks n ≡ true
  pub known : (n : String) → has_key d.in_degree n ≡ contains ks n

-- Every node with no open dependency is in the queue or in the result.
abbrev pub ZeroQueued : Drain → Type 0
ZeroQueued d =
    (n : String)
    → get d.in_degree n ≡ some 0
    → contains d.result n ≡ false
    → contains d.queue n ≡ true

pub enqueue-IsDraining :
    {ks : List String} {d : Drain} (node : String)
    → IsDraining ks d
    → contains d.result node ≡ false
    → get d.in_degree node ≡ some 0
    → IsDraining ks (enqueue node d)
unfolding enqueue set_insert
enqueue-IsDraining {ks} {d} node w fresh z = elim (Bool-cases (contains d.queued node)) [
  | inl old ↦ rw old w
  | inr new ↦ rw new (record {
    same_queue = ap (λ q. q ++ node ∷ []) w.same_queue;
    same_result = w.same_result;
    result_set = w.result_set;
    queue_set = IsSetList-snoc d.queue node w.queue_set (rw w.same_queue at new);
    queue_fresh = λ n. ground (arith, contains-snoc d.queue node n, w.queue_fresh n, eq_iff node n);
    queue_zero = λ n. ground (arith, contains-snoc d.queue node n, w.queue_zero n, eq_iff node n);
    result_known = w.result_known;
    known = w.known;
  })
]

-- A node whose degree is known may be given a lower one.
lowered-IsDraining :
    {ks : List String} {d : Drain} (n : String) (old : ℕ)
    → IsDraining ks d
    → get d.in_degree n ≡ some old
    → IsDraining ks (record d { in_degree = insert d.in_degree n (old - 1) })
lowered-IsDraining {ks} {d} n old w g = record {
  same_queue = w.same_queue;
  same_result = w.same_result;
  result_set = w.result_set;
  queue_set = w.queue_set;
  queue_fresh = w.queue_fresh;
  queue_zero =
      λ m. ground (arith, get-insert d.in_degree n m (old - 1), w.queue_zero m, eq_iff n m);
  result_known = w.result_known;
  known = λ m. ground (arith, get-insert d.in_degree n m (old - 1), w.known m, eq_iff n m);
}

lower-IsDraining :
    {ks : List String} {d : Drain} (n : String) (o : Option ℕ)
    → IsDraining ks d
    → contains d.result n ≡ false
    → get d.in_degree n ≡ o
    → IsDraining ks (lower n o d)
unfolding lower
lower-IsDraining n none w fresh g = w
lower-IsDraining {ks} {d} n (some old) w fresh g = elim (Bool-cases (old - 1 == 0)) [
  | inl last ↦ rw last (
      enqueue-IsDraining n (lowered-IsDraining n old w g) fresh
        (ground (arith, get-insert d.in_degree n n (old - 1), eq_iff n n)))
  | inr more ↦ rw more (lowered-IsDraining n old w g)
]

pub unblock-IsDraining :
    {ks : List String} {d : Drain} (node dependent : String) (deps : List String)
    → IsDraining ks d
    → IsDraining ks (unblock node dependent deps d)
unfolding unblock
unblock-IsDraining {ks} {d} node dependent deps w =
    elim (Bool-cases (not (contains deps node) || contains d.emitted dependent)) [
      | inl blocked ↦ rw blocked w
      | inr open' ↦ rw open' (
          lower-IsDraining dependent (get d.in_degree dependent) w
            (rw (← w.same_result) (ground arith)) refl)
    ]

module _ (d : Drain) (node : String) where
  pub contains-enqueue :
      {ks : List String}
      → IsDraining ks d
      → (n : String) → contains (enqueue node d).queue n ≡ (contains d.queue n || (node == n))
  unfolding enqueue
  contains-enqueue w n =
      ground
        (arith, contains-snoc d.queue node n, eq_iff node n, ap (λ q. contains q node) w.same_queue)

  pub enqueue-in_degree : (enqueue node d).in_degree ≡ d.in_degree
  unfolding enqueue
  enqueue-in_degree = ground arith

  pub enqueue-result : (enqueue node d).result ≡ d.result
  unfolding enqueue
  enqueue-result = ground arith

lower-ZeroQueued :
    {ks : List String} {d : Drain} (dependent : String) (o : Option ℕ)
    → IsDraining ks d
    → get d.in_degree dependent ≡ o
    → ZeroQueued d
    → ZeroQueued (lower dependent o d)
unfolding lower
lower-ZeroQueued dependent none w o z n g fresh = z n g fresh
lower-ZeroQueued {ks} {d} dependent (some old) w o z n g fresh =
    let d' = record d { in_degree = insert d.in_degree dependent (old - 1) } in
    ground (
      arith,
      z n,
      contains-enqueue d' dependent (lowered-IsDraining dependent old w o) n,
      enqueue-in_degree d' dependent,
      enqueue-result d' dependent,
      get-insert d.in_degree dependent n (old - 1),
      eq_iff dependent n,
    )

unblock-ZeroQueued :
    {ks : List String} {d : Drain} (node dependent : String) (deps : List String)
    → IsDraining ks d
    → ZeroQueued d
    → ZeroQueued (unblock node dependent deps d)
unfolding unblock
unblock-ZeroQueued {ks} {d} node dependent deps w z =
    elim (Bool-cases (not (contains deps node) || contains d.emitted dependent)) [
      | inl blocked ↦ rw blocked z
      | inr free ↦ rw free (lower-ZeroQueued dependent (get d.in_degree dependent) w refl z)
    ]

pub queue_newly-ZeroQueued :
    {ks : List String} (edges : Edges) {d : Drain} (node : String)
    → IsDraining ks d
    → ZeroQueued d
    → ZeroQueued (queue_newly_unblocked_nodes edges node d)
unfolding queue_newly_unblocked_nodes
queue_newly-ZeroQueued [] node w z = z
queue_newly-ZeroQueued ((dependent, deps) ∷ edges) node w z =
    queue_newly-ZeroQueued edges node (unblock-IsDraining node dependent deps w)
      (unblock-ZeroQueued node dependent deps w z)

pub queue_newly-IsDraining :
    {ks : List String} (edges : Edges) {d : Drain} (node : String)
    → IsDraining ks d
    → IsDraining ks (queue_newly_unblocked_nodes edges node d)
unfolding queue_newly_unblocked_nodes
queue_newly-IsDraining [] node w = w
queue_newly-IsDraining ((dependent, deps) ∷ edges) node w =
    queue_newly-IsDraining edges node (unblock-IsDraining node dependent deps w)

set_remove_absent : (n : String) (xs : List String) → contains xs n ≡ false → set_remove n xs ≡ xs
unfolding set_remove contains
set_remove_absent n [] h = refl
set_remove_absent n (x ∷ xs) h = ground (arith, set_remove_absent n xs)

set_remove_front :
    (n : String) (xs : List String) → contains xs n ≡ false → set_remove n (n ∷ xs) ≡ xs
set_remove_front n xs h = unfold set_remove in ground (arith, eq_iff n n, set_remove_absent n xs h)

-- The drain at the moment when `node` is emitted.
unfoldable pub emit : String → List String → Drain → Drain
emit node rest d = record d {
  queue = rest;
  queued = set_remove node d.queued;
  emitted = set_insert node d.emitted;
  result = d.result ++ node ∷ [];
}

module _ {ks : List String} {d : Drain} (node : String) (rest : List String)
    (front : d.queue ≡ node ∷ rest) (w : IsDraining ks d) where
  front_fresh : contains d.result node ≡ false
  front_fresh = w.queue_fresh node (rw front (unfold contains in ground (arith, eq_iff node node)))

  pub visit-eq :
      (edges : Edges)
      → visit edges node rest d ≡ queue_newly_unblocked_nodes edges node (emit node rest d)
  unfolding visit emit
  visit-eq edges = rw w.same_result (rw front_fresh)

  rest_fresh : contains rest node ≡ false
  rest_fresh = (rw front at w.queue_set).0

  in_queue : (n : String) → contains rest n ≡ true → contains d.queue n ≡ true
  in_queue n h = rw front (unfold contains in ground arith)

  front_known : contains ks node ≡ true
  front_known = ground (
    arith,
    w.known node,
    w.queue_zero node (rw front (unfold contains in ground (arith, eq_iff node node))),
  )

  pub emit-ZeroQueued : ZeroQueued d → ZeroQueued (emit node rest d)
  unfolding emit contains
  emit-ZeroQueued z n g fresh =
      ground
        (arith, contains-snoc d.result node n, z n g, eq_iff node n, ap (λ q. contains q n) front)

  pub emit-IsDraining : IsDraining ks (emit node rest d)
  unfolding emit set_insert contains
  emit-IsDraining = record {
    same_queue = rw (w.same_queue, front) (set_remove_front node rest rest_fresh);
    same_result = rw (w.same_result) (rw front_fresh refl);
    result_set = IsSetList-snoc d.result node w.result_set front_fresh;
    queue_set = (rw front at w.queue_set).1;
    queue_fresh = λ n h. ground (
      arith,
      contains-snoc d.result node n,
      w.queue_fresh n (in_queue n h),
      eq_iff node n,
      rest_fresh,
    );
    queue_zero = λ n h. w.queue_zero n (in_queue n h);
    result_known = λ n.
        ground (arith, contains-snoc d.result node n, w.result_known n, eq_iff node n, front_known);
    known = w.known;
  }

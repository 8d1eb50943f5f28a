-- ===== src/Deps/Kahn/Start.antt =====
-- The first queue of `kahn_drain` (`initial_zero_in_degree_queue` of src/manager/deps.rs).
use mathlib.Core.List.{append-nil, append_assoc}
use sysd.Prelude.{
  ℕ, String, ◌≡◌, refl, sym, ◌∙◌, ap, true, false, not, ◌||◌, ◌&&◌, ◌⊎◌, none, some, List, [], ◌∷◌,
  ◌++◌, ◌==◌, nat_eq, string_eq, contains, contains-snoc, set_insert, IsSetList, Map, get, IsMap,
  keys, contains-keys, arith, Bool-cases, inl, inr, eq_iff,
}
use sysd.Deps.Kahn.{Drain, initial_zero_in_degree_queue, offer_initial, collect, start_drain}
use sysd.Deps.Kahn.Queue.{
  IsDraining, ZeroQueued, enqueue-IsDraining, contains-enqueue, enqueue-in_degree, enqueue-result,
}

-- Collecting a list with no repetition into a set gives the list.
collect-append :
    (set xs : List String)
    → IsSetList xs
    → ((n : String) → contains xs n ≡ true → contains set n ≡ false)
    → collect set xs ≡ set ++ xs
unfolding collect
collect-append set [] s apart = sym (append-nil set)
collect-append set (x ∷ xs) s apart =
    rw (fresh_insert) (collect-append (set ++ x ∷ []) xs s.1 later ∙ append_assoc set (x ∷ []) xs)
  where
    fresh : contains set x ≡ false
    fresh = apart x (unfold contains in ground (arith, eq_iff x x))

    fresh_insert : set_insert x set ≡ set ++ x ∷ []
    fresh_insert = unfold set_insert in rw fresh

    later : (n : String) → contains xs n ≡ true → contains (set ++ x ∷ []) n ≡ false
    later n h =
        ground
          (arith, contains-snoc set x n, apart n (unfold contains in ground arith), s.0, eq_iff x n)

-- A later entry of a map is an entry of the map.
get_of_tail :
    {V : Type 0} (k : String) (w : V) (m : Map String V)
    → get m k ≡ none
    → (n : String) (v : V) → get m n ≡ some v
    → get ((k, w) ∷ m) n ≡ some v
unfolding get
get_of_tail k w m fresh n v h = ground (arith, eq_iff k n)

module _ (node : String) (degree : ℕ) (d : Drain) where
  offer-in_degree : (offer_initial node degree d).in_degree ≡ d.in_degree
  unfolding offer_initial
  offer-in_degree = ground (arith, enqueue-in_degree d node)

  offer-result : (offer_initial node degree d).result ≡ d.result
  unfolding offer_initial
  offer-result = ground (arith, enqueue-result d node)

  offer-IsDraining :
      {ks : List String}
      → IsDraining ks d
      → get d.in_degree node ≡ some degree
      → IsDraining ks (offer_initial node degree d)
  unfolding offer_initial
  offer-IsDraining w g = elim (Bool-cases (not (degree == 0) || contains d.emitted node)) [
    | inl skip ↦ rw skip w
    | inr take ↦ rw take (
        enqueue-IsDraining node w (ground (arith, ap (λ r. contains r node) w.same_result))
          (ground arith))
  ]

  contains-offer :
      {ks : List String}
      → IsDraining ks d
      → (n : String)
      → contains (offer_initial node degree d).queue n
        ≡ (contains d.queue n || ((degree == 0) && not (contains d.result node) && (node == n)))
  unfolding offer_initial
  contains-offer w n =
      ground (arith, contains-enqueue d node w n, ap (λ r. contains r node) w.same_result)

initial-in_degree :
    (l : Map String ℕ) (d : Drain) → (initial_zero_in_degree_queue l d).in_degree ≡ d.in_degree
unfolding initial_zero_in_degree_queue
initial-in_degree [] d = refl
initial-in_degree ((node, degree) ∷ l) d =
    initial-in_degree l (offer_initial node degree d) ∙ offer-in_degree node degree d

pub initial-result :
    (l : Map String ℕ) (d : Drain) → (initial_zero_in_degree_queue l d).result ≡ d.result
unfolding initial_zero_in_degree_queue
initial-result [] d = refl
initial-result ((node, degree) ∷ l) d =
    initial-result l (offer_initial node degree d) ∙ offer-result node degree d

-- The entries of `l` are entries of `m`.
abbrev Entries : Map String ℕ → Map String ℕ → Type 0
Entries l m = (n : String) (v : ℕ) → get l n ≡ some v → get m n ≡ some v

head_entry : (k : String) (v : ℕ) (l m : Map String ℕ) → Entries ((k, v) ∷ l) m → get m k ≡ some v
head_entry k v l m sub = sub k v (unfold get in ground (arith, eq_iff k k))

tail-Entries :
    (k : String) (v : ℕ) (l m : Map String ℕ)
    → get l k ≡ none
    → Entries ((k, v) ∷ l) m
    → Entries l m
tail-Entries k v l m fresh sub n w g = sub n w (get_of_tail k v l fresh n w g)

initial-IsDraining :
    {ks : List String} (l : Map String ℕ) (d : Drain)
    → IsMap l
    → Entries l d.in_degree
    → IsDraining ks d
    → IsDraining ks (initial_zero_in_degree_queue l d)
unfolding initial_zero_in_degree_queue
initial-IsDraining [] d m sub w = w
initial-IsDraining ((node, degree) ∷ l) d m sub w =
    initial-IsDraining l (offer_initial node degree d) m.1
      (rw (offer-in_degree node degree d) (tail-Entries node degree l d.in_degree m.0 sub))
      (offer-IsDraining node degree d w (head_entry node degree l d.in_degree sub))

-- What the queue held, and every node of `l` with degree 0 that is not emitted, is in the queue.
contains-initial :
    {ks : List String} (l : Map String ℕ) (d : Drain)
    → IsMap l
    → Entries l d.in_degree
    → IsDraining ks d
    → (n : String)
    → (contains d.queue n ≡ true) ⊎ (get l n ≡ some 0) × (contains d.result n ≡ false)
    → contains (initial_zero_in_degree_queue l d).queue n ≡ true
unfolding initial_zero_in_degree_queue
contains-initial [] d m sub w n h = unfold get in ground arith
contains-initial ((node, degree) ∷ l) d m sub w n h =
    contains-initial l (offer_initial node degree d) m.1
      (rw (offer-in_degree node degree d) (tail-Entries node degree l d.in_degree m.0 sub))
      (offer-IsDraining node degree d w (head_entry node degree l d.in_degree sub)) n
      (unfold get in
        ground (arith, contains-offer node degree d w n, offer-result node degree d, eq_iff node n))

-- A drain begins well, whatever was emitted before it.
module _ (in_degree : Map String ℕ) (result : List String) (m : IsMap in_degree)
    (s : IsSetList result)
    (known : (n : String) → contains result n ≡ true → contains (keys in_degree) n ≡ true) where
  before : Drain
  before = record {
    in_degree = in_degree;
    emitted = collect [] result;
    queued = [];
    queue = [];
    result = result;
  }

  before-IsDraining : IsDraining (keys in_degree) before
  unfolding before contains
  before-IsDraining = record {
    same_queue = refl;
    same_result = collect-append [] result s (λ n h. refl);
    result_set = s;
    queue_set = tt;
    queue_fresh = λ n h. cc;
    queue_zero = λ n h. cc;
    result_known = known;
    known = λ n. sym (contains-keys in_degree n);
  }

  pub start-IsDraining : IsDraining (keys in_degree) (start_drain in_degree result)
  unfolding start_drain before
  start-IsDraining = initial-IsDraining in_degree before m (λ n v h. h) before-IsDraining

  pub start-ZeroQueued : ZeroQueued (start_drain in_degree result)
  unfolding start_drain before
  start-ZeroQueued n g fresh =
      contains-initial in_degree before m (λ k v h. h) before-IsDraining n
        (inr (
          rw (← initial-in_degree in_degree before) g,
          rw (← initial-result in_degree before) fresh,
        ))

  pub start-result : (start_drain in_degree result).result ≡ result
  unfolding start_drain before
  start-result = initial-result in_degree before

  pub start-in_degree : (start_drain in_degree result).in_degree ≡ in_degree
  unfolding start_drain before
  start-in_degree = initial-in_degree in_degree before

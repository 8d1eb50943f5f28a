-- ===== src/Deps/StartOrder/Search.antt =====
-- What `transitive_deps` finds (src/manager/deps.rs).
use sysd.Prelude.{
  ℕ, zero, suc, ◌+◌, ◌≤◌, String, ◌≡◌, refl, ap, true, false, not, ◌||◌, ◌&&◌, List, [], ◌∷◌, ◌==◌,
  nat_eq, string_eq, ◌↔◌, subst, contains, contains-set_insert, contains-snoc, set_insert,
  set_insert-IsSetList, IsSetList, length, length-append, length-le_of_subset, Bool-cases,
  List-cases, inl, inr, arith, eq_iff,
}
use sysd.Deps.{DepGraph, deps_of}
use sysd.Deps.StartOrder.{Finding, need, need_all, search_loop, start_search, transitive_deps}

-- The nodes that a target needs: itself, and the dependencies of what it needs, if they are loaded.
pub data Needs (g : DepGraph) (target : String) : String → Type 0 where
  itself : contains g.nodes target ≡ true → Needs g target target
  dependency :
      {n : String} (m : String)
      → Needs g target n
      → contains (deps_of g.edges n) m ≡ true
      → contains g.nodes m ≡ true
      → Needs g target m

module _ (nodes : List String) (dep : String) (s : Finding) where
  contains-need :
      (n : String)
      → contains (need nodes dep s).needed n
        ≡ (contains s.needed n || (contains nodes n && (dep == n)))
  unfolding need
  contains-need n = ground (arith, contains-set_insert dep s.needed n, eq_iff dep n)

  contains-need_to_visit :
      (n : String)
      → contains (need nodes dep s).to_visit n
        ≡ (contains s.to_visit n || (contains nodes n && (dep == n) && not (contains s.needed n)))
  unfolding need
  contains-need_to_visit n = ground (arith, contains-snoc s.to_visit dep n, eq_iff dep n)

  need-IsSetList : IsSetList s.needed → IsSetList (need nodes dep s).needed
  unfolding need
  need-IsSetList h = elim (Bool-cases (contains nodes dep && not (contains s.needed dep))) [
    | inl new ↦ rw new (set_insert-IsSetList dep s.needed h)
    | inr old ↦ rw old h
  ]

  length-need :
      length (need nodes dep s).to_visit + length s.needed
      ≡ length s.to_visit + length (need nodes dep s).needed
  unfolding need set_insert
  length-need =
      ground (arith, length-append s.to_visit (dep ∷ []), length-append s.needed (dep ∷ []))

module _ (nodes : List String) where
  contains-need_all :
      (deps : List String) (s : Finding) (n : String)
      → contains (need_all nodes deps s).needed n
        ≡ (contains s.needed n || (contains nodes n && contains deps n))
  unfolding need_all contains
  contains-need_all [] s n = ground arith
  contains-need_all (d ∷ deps) s n =
      ground (arith, contains-need_all deps (need nodes d s) n, contains-need nodes d s n)

  contains-need_all_to_visit :
      (deps : List String) (s : Finding) (n : String)
      → contains (need_all nodes deps s).to_visit n ≡ (
          contains s.to_visit n
          || (contains nodes n && contains deps n && not (contains s.needed n)))
  unfolding need_all contains
  contains-need_all_to_visit [] s n = ground arith
  contains-need_all_to_visit (d ∷ deps) s n = ground (
    arith,
    contains-need_all_to_visit deps (need nodes d s) n,
    contains-need nodes d s n,
    contains-need_to_visit nodes d s n,
  )

  need_all-IsSetList :
      (deps : List String) (s : Finding)
      → IsSetList s.needed
      → IsSetList (need_all nodes deps s).needed
  unfolding need_all
  need_all-IsSetList [] s h = h
  need_all-IsSetList (d ∷ deps) s h =
      need_all-IsSetList deps (need nodes d s) (need-IsSetList nodes d s h)

  length-need_all :
      (deps : List String) (s : Finding)
      → length (need_all nodes deps s).to_visit + length s.needed
        ≡ length s.to_visit + length (need_all nodes deps s).needed
  unfolding need_all
  length-need_all [] s = refl
  length-need_all (d ∷ deps) s =
      omega (arith, length-need_all deps (need nodes d s), length-need nodes d s)

-- What the search keeps: a node whose dependencies are not all found yet is to be visited.
record IsSearching (g : DepGraph) (target : String) (s : Finding) : Type 0 where
  set : IsSetList s.needed
  known : (n : String) → contains s.needed n ≡ true → contains g.nodes n ≡ true
  pending : (n : String) → contains s.to_visit n ≡ true → contains s.needed n ≡ true
  closed :
      (n m : String)
      → contains s.needed n ≡ true
      → contains s.to_visit n ≡ false
      → contains (deps_of g.edges n) m ≡ true
      → contains g.nodes m ≡ true
      → contains s.needed m ≡ true
  sound : (n : String) → contains s.needed n ≡ true → Needs g target n
  found : contains g.nodes target ≡ true → contains s.needed target ≡ true

module _ (g : DepGraph) (target : String) (s : Finding) (node : String) (rest : List String) where
  next : Finding
  next = need_all g.nodes (deps_of g.edges node) (record s { to_visit = rest })

  in_next :
      (n : String)
      → contains next.needed n
        ≡ (contains s.needed n || (contains g.nodes n && contains (deps_of g.edges node) n))
  unfolding next
  in_next = contains-need_all g.nodes (deps_of g.edges node) (record s { to_visit = rest })

  in_next_to_visit :
      (n : String)
      → contains next.to_visit n ≡ (
          contains rest n
          || (contains g.nodes n && contains (deps_of g.edges node) n && not (contains s.needed n)))
  unfolding next
  in_next_to_visit =
      contains-need_all_to_visit g.nodes (deps_of g.edges node) (record s { to_visit = rest })

  module _ (front : s.to_visit ≡ node ∷ rest) (w : IsSearching g target s) where
    in_to_visit : (n : String) → contains s.to_visit n ≡ ((node == n) || contains rest n)
    in_to_visit n = rw front (unfold contains in refl)

    node_needed : contains s.needed node ≡ true
    node_needed = w.pending node (ground (arith, in_to_visit node, eq_iff node node))

    next-IsSearching : IsSearching g target next
    next-IsSearching = record {
      set =
          unfold next in
          need_all-IsSetList g.nodes (deps_of g.edges node) (record s { to_visit = rest }) w.set;
      known = λ n. ground (arith, in_next n, w.known n);
      pending = λ n. ground (arith, in_next n, in_next_to_visit n, in_to_visit n, w.pending n);
      closed = λ n m. ground (
        arith,
        in_next n,
        in_next m,
        in_next_to_visit n,
        in_to_visit n,
        w.closed n m,
        eq_iff node n,
      );
      sound = λ n h. elim (Bool-cases (contains s.needed n)) [
        | inl old ↦ w.sound n old
        | inr new ↦
            dependency n (w.sound node node_needed) (ground (arith, in_next n))
              (ground (arith, in_next n))
      ];
      found = λ h. ground (arith, in_next target, w.found h);
    }

-- The fuel that a search has left is enough: each node is found once.
Enough : ℕ → DepGraph → Finding → Type 0
Enough fuel g s = length s.to_visit + length g.nodes ≤ fuel + length s.needed

abbrev after : DepGraph → Finding → String → List String → Finding
after g s node rest = need_all g.nodes (deps_of g.edges node) (record s { to_visit = rest })

loop-IsSearching :
    (fuel : ℕ) (g : DepGraph) (target : String) (s : Finding)
    → IsSearching g target s
    → Enough fuel g s
    → IsSearching g target (search_loop fuel g s) × ((search_loop fuel g s).to_visit ≡ [])
unfolding search_loop Enough
loop-IsSearching zero g target s w enough = (
  w,
  elim (List-cases s.to_visit) [
    | inl e ↦ e
    | inr (n, rest, e) ↦
        absurd
          (omega (arith, length-le_of_subset s.needed g.nodes w.set w.known, enough, ap length e))
  ],
)
loop-IsSearching (suc fuel) g target s w enough = go s.to_visit refl λ node rest e.
    loop-IsSearching fuel g target (after g s node rest)
      (unfold next in next-IsSearching g target s node rest e w)
      (omega (
        arith,
        ap length e,
        enough,
        length-need_all g.nodes (deps_of g.edges node) (record s { to_visit = rest }),
      ))
  where
    go :
        (q : List String)
        → s.to_visit ≡ q
        → ((node : String) (rest : List String)
            → s.to_visit ≡ node ∷ rest
            → let end = search_loop fuel g (after g s node rest) in
              IsSearching g target end × (end.to_visit ≡ []))
        → let end : Finding = elim q [
          | [] ↦ s
          | node ∷ rest ↦ search_loop fuel g (after g s node rest)
        ] in
          IsSearching g target end × (end.to_visit ≡ [])
    go [] e later = (w, e)
    go (node ∷ rest) e later = later node rest e

start-IsSearching : (g : DepGraph) (target : String) → IsSearching g target (start_search g target)
unfolding start_search set_insert contains
start-IsSearching g target = elim (Bool-cases (contains g.nodes target)) [
  | inl h ↦ rw h (record {
    set = (refl, tt);
    known = λ n. ground (arith, eq_iff target n);
    pending = λ n e. e;
    closed = λ n m. ground arith;
    sound = λ n e. subst (Needs g target) (ground (arith, eq_iff target n)) (itself h);
    found = λ e. ground (arith, eq_iff target target);
  })
  | inr h ↦ rw h (record {
    set = tt;
    known = λ n e. cc;
    pending = λ n e. cc;
    closed = λ n m e. cc;
    sound = λ n e. cc;
    found = λ e. cc (h, e);
  })
]

start-Enough : (g : DepGraph) (target : String) → Enough (length g.nodes) g (start_search g target)
unfolding Enough start_search set_insert contains
start-Enough g target = ground arith

searched :
    (g : DepGraph) (target : String)
    → let s = search_loop (length g.nodes) g (start_search g target) in
      IsSearching g target s × (s.to_visit ≡ [])
searched g target =
    loop-IsSearching (length g.nodes) g target (start_search g target) (start-IsSearching g target)
      (start-Enough g target)

Needs-found :
    {g : DepGraph} {target n : String}
    → Needs g target n
    → contains (transitive_deps g target) n ≡ true
unfolding transitive_deps contains
Needs-found {g} {target} (itself h) = (searched g target).0.found h
Needs-found {g} {target} (dependency {n} m path edge known) =
    (searched g target).0.closed n m (Needs-found path) (rw ((searched g target).1) refl) edge known

pub transitive_deps-IsSetList :
    (g : DepGraph) (target : String) → IsSetList (transitive_deps g target)
unfolding transitive_deps
transitive_deps-IsSetList g target = (searched g target).0.set

pub transitive_deps-known :
    (g : DepGraph) (target n : String)
    → contains (transitive_deps g target) n ≡ true
    → contains g.nodes n ≡ true
unfolding transitive_deps
transitive_deps-known g target = (searched g target).0.known

-- For every graph and target, `transitive_deps` holds exactly the nodes that the target needs: the
-- target itself, if it is loaded, and each loaded dependency of a node that it needs.
pub transitive_deps_iff :
    (g : DepGraph) (target n : String)
    → (contains (transitive_deps g target) n ≡ true) ↔ Needs g target n
unfolding transitive_deps
transitive_deps_iff g target n = ((searched g target).0.sound n, Needs-found)

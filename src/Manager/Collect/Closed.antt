-- ===== src/Manager/Collect/Closed.antt =====
-- Which names `collect_start_dependencies` goes through, and that it ends
-- (src/manager/mod_impl/part1.rs).
use sysd.Prelude.{
  ℕ, zero, suc, ◌+◌, ◌≤◌, String, ◌≡◌, refl, ap, true, ◌||◌, Option, none, some, List, [], ◌∷◌,
  string_eq, contains, set_insert, IsSetList-snoc, contains-snoc, IsSetList, length, length-append,
  length-le_of_subset, get, has_key, arith, eq_iff, Bool-cases, List-cases, inl, inr, beq_self,
}
use sysd.State.{Instant}
use sysd.Manager.{Manager, ok, err, Outcome}
use sysd.Units.Kinds.{name}
use sysd.Manager.Collect.Pulls.{PullsIn, DiskPulls, load-PullsIn}
use sysd.Manager.Load.{Disk, load}
use sysd.Manager.Collect.{
  Collecting, load_dependency_unit, queue_dependency, queue_dependencies, queue_unit_dependencies,
  pulled_in, take_in, loaded_name, collect_round, collect_loop, start_collecting,
  collect_start_dependencies,
}

module _ (names : List String) where
  -- The names that were queued are each queued once and of the list, and `rounds` of them were
  -- taken from the stack.
  record Going (rounds : ℕ) (c : Collecting) : Type 0 where
    queued_set : IsSetList c.queued
    queued_names : (n : String) → contains c.queued n ≡ true → contains names n ≡ true
    count : length c.to_load + rounds ≡ length c.queued
    pulls_in : PullsIn names c.manager

  queue_dependency-Going :
      (rounds : ℕ) (dep : String) (c : Collecting)
      → contains names dep ≡ true
      → Going rounds c
      → Going rounds (queue_dependency dep c)
  unfolding queue_dependency set_insert
  queue_dependency-Going rounds dep c h g = elim (Bool-cases (contains c.queued dep)) [
    | inl old ↦ rw old g
    | inr new ↦ rw new (record {
      queued_set = IsSetList-snoc c.queued dep g.queued_set new;
      queued_names =
          λ n k. ground (arith, contains-snoc c.queued dep n, g.queued_names n, eq_iff dep n, k, h);
      count = omega (arith, g.count, length-append c.queued (dep ∷ []));
      pulls_in = g.pulls_in;
    })
  ]

  queue_dependencies-Going :
      (rounds : ℕ) (deps : List String) (c : Collecting)
      → ((dep : String) → contains deps dep ≡ true → contains names dep ≡ true)
      → Going rounds c
      → Going rounds (queue_dependencies deps c)
  unfolding queue_dependencies contains
  queue_dependencies-Going rounds [] c h g = g
  queue_dependencies-Going rounds (dep ∷ deps) c h g =
      queue_dependencies-Going rounds deps (queue_dependency dep c) (λ n k. h n (ground (arith, k)))
        (queue_dependency-Going rounds dep c (h dep (ground (arith, beq_self dep))) g)

  -- One round takes one name, and keeps the rest.
  collect_round-Going :
      (d : Disk) (now : Instant) (rounds : ℕ) (unit_name : String) (c : Collecting)
      → DiskPulls names d
      → Going rounds c
      → Going rounds (collect_round d now unit_name c)
  unfolding collect_round load_dependency_unit queue_unit_dependencies
  collect_round-Going d now rounds unit_name c h g =
      elim (Bool-cases (contains c.loaded unit_name || has_key c.aliases unit_name)) [
        | inl done ↦ rw done g
        | inr fresh ↦ rw fresh (elim (Bool-cases (has_key c.manager.units unit_name)) [
          | inl old ↦ rw old (taken (some unit_name) c.manager g.pulls_in)
          | inr new ↦ rw new (
              loaded (load d now unit_name c.manager)
                (load-PullsIn names d now unit_name c.manager h g.pulls_in))
        ])
      ]
    where
      taken :
          (actual : Option String) (m : Manager)
          → PullsIn names m
          → Going rounds (take_in unit_name actual (record c { manager = m }))
      taken none m p = record {
        queued_set = g.queued_set;
        queued_names = g.queued_names;
        count = g.count;
        pulls_in = p;
      }
      taken (some actual_name) m p =
          queue_dependencies-Going rounds (pulled_in (get m.units actual_name)) _ (p actual_name)
            (record {
              queued_set = g.queued_set;
              queued_names = g.queued_names;
              count = g.count;
              pulls_in = p;
            })

      loaded :
          (o : Outcome String)
          → PullsIn names o.1
          → Going rounds (
              let (actual, m) = loaded_name o in
              take_in unit_name actual (record c { manager = m }))
      loaded (ok canonical, m) p = taken (some canonical) m p
      loaded (err e, m) p = taken none m p

  collect_loop-done :
      (fuel : ℕ) (d : Disk) (clock : ℕ → Instant) (rounds : ℕ) (c : Collecting)
      → DiskPulls names d
      → length names ≤ fuel + rounds
      → Going rounds c
      → (collect_loop fuel d clock c).to_load ≡ []
  unfolding collect_loop
  collect_loop-done zero d clock rounds c h enough g = elim (List-cases c.to_load) [
    | inl none_left ↦ none_left
    | inr (x, rest, some_left) ↦ absurd (
        omega (
          arith,
          enough,
          g.count,
          ap length some_left,
          length-le_of_subset c.queued names g.queued_set g.queued_names,
        ))
  ]
  collect_loop-done (suc fuel) d clock rounds c h enough g =
      go c.to_load refl
        (λ c' g'. collect_loop-done fuel d clock (suc rounds) c' h (omega (arith, enough)) g')
    where
      go :
          (left : List String)
          → c.to_load ≡ left
          → ((c' : Collecting)
              → Going (suc rounds) c'
              → (collect_loop fuel d clock c').to_load ≡ [])
          → (collect_loop (suc fuel) d clock c).to_load ≡ []
      go [] q rest_done = rw q refl
      go (x ∷ rest) q rest_done = rw q (
          rest_done _ (
            collect_round-Going d (clock fuel) (suc rounds) x (record c { to_load = rest }) h
              (record {
                queued_set = g.queued_set;
                queued_names = g.queued_names;
                count = omega (arith, g.count, ap length q);
                pulls_in = g.pulls_in;
              })))

  -- If the units that the manager has, and those on the disk, pull in none but the names of a list,
  -- and the unit asked for is one of them, then as many rounds as the list has names are enough:
  -- nothing is left to load.
  pub collect_start_dependencies-done :
      (d : Disk) (clock : ℕ → Instant) (name : String) (m : Manager)
      → DiskPulls names d
      → PullsIn names m
      → contains names name ≡ true
      → (collect_start_dependencies (length names) d clock name m).to_load ≡ []
  unfolding collect_start_dependencies start_collecting contains
  collect_start_dependencies-done d clock name m h p k =
      collect_loop-done (length names) d clock 0 (start_collecting name m) h (omega arith) (record {
        queued_set = (refl, tt);
        queued_names = λ n e. ground (arith, eq_iff name n, e, k);
        count = refl;
        pulls_in = p;
      })

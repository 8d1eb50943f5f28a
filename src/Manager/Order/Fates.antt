-- ===== src/Manager/Order/Fates.antt =====
-- What becomes of each unit in a start that succeeds, and what a start by the name of a link does
-- (`start_with_deps` of src/manager/mod_impl/part1.rs).
use sysd.Prelude.{
  get, map_or, Option-cases, ℕ, String, ◌≡◌, refl, sym, ap, subst, ◌∙◌, Bool, true, false, some,
  List, [], ◌∷◌, ◌==◌, ◌⊎◌, ◌||◌, ◌&&◌, string_eq, contains, contains-append, IsSetList, arith,
  Bool-cases, inl, inr, unwrap_or, has_key,
}
use sysd.Units.Kinds.{unit_section}
use sysd.State.{Instant, ServiceState, is_active}
use sysd.Deps.StartOrder.Search.{Needs}
use sysd.Manager.{Manager, ManagerError, is_target, ok, err, Outcome, ◌>>=◌, normalize_name}
use sysd.Manager.Load.{Disk, ensure_unit_loaded}
use sysd.Manager.Collect.{Collecting, collect_start_dependencies}
use sysd.Manager.Order.Graph.{resolve_start_order-ok, resolve_start_order-alias}
use sysd.Manager.Order.{
  is_required, start_error, is_running, started_with, start_dependency_unit, start_loop, is_reached,
  build_start_graph, start_with_deps, started_from,
}

bind_ok {ℓ κ} :
    {A : Type ℓ} {B : Type κ} (o : Outcome A) (next : A → Manager → Outcome B) (b : B)
    → (o >>= next).0 ≡ ok b
    → (a : A) × (o.0 ≡ ok a) × ((next a o.1).0 ≡ ok b)
bind_ok (ok a, m) next b h = (a, refl, h)
bind_ok (err e, m) next b h = absurd (ground (arith, h))

target_of : (e : ManagerError) → is_reached e ≡ true → (t : String) × (e ≡ is_target t)
target_of (is_target t) r = (t, refl)
target_of _ r = absurd (ground (arith, r))

module _ (start_single : String → Manager → Outcome {0} Unit) (root_name unit_name : String) where
  -- What happened when it was the turn of the unit, and whether it is put on the list.
  pub data Turn : Bool → Type 0 where
    was_running :
        (at : Manager) (s : ServiceState)
        → get at.states unit_name ≡ some s
        → is_active s ≡ true
        → Turn false
    reached :
        (at : Manager) (t : String) → (start_single unit_name at).0 ≡ err (is_target t) → Turn false
    passed_over :
        (at : Manager) (e : ManagerError)
        → (start_single unit_name at).0 ≡ err e
        → ((t : String) → e ≡ is_target t → ⊥)
        → map_or false
            (λ u. contains (unit_section u).requires unit_name)
            (get (start_single unit_name at).1.units root_name)
          ≡ false
        → Turn false
    started : (at : Manager) → (start_single unit_name at).0 ≡ ok tt → Turn true

  start_error-ok :
      (now : Instant) (e : ManagerError) (m : Manager) (d : Unit {0})
      → (start_error now root_name unit_name e m).0 ≡ ok d
      → is_reached e ≡ false
      → map_or false (λ u. contains (unit_section u).requires unit_name) (get m.units root_name)
        ≡ false
  unfolding start_error is_required
  start_error-ok now e m d h r = elim (Bool-cases (is_required m root_name unit_name)) [
    | inl q ↦ absurd (ground (arith, h, r, q))
    | inr q ↦ q
  ]

  -- The list grows by the unit or not, as its turn says.
  abbrev Grows : List String → List String → Type 0
  Grows before after =
      (b : Bool) × Turn b
      × ((n : String) → contains after n ≡ (contains before n || (b && (unit_name == n))))

  started_with-Grows :
      (now : Instant) (before after : List String) (at : Manager) (o : Outcome {0} Unit)
      → start_single unit_name at ≡ o
      → (started_with now root_name unit_name before o).0 ≡ ok after
      → Grows before after
  unfolding contains
  started_with-Grows now before after at (ok d, m) q h = (
    true,
    started at (rw q refl),
    λ n. ground (arith, contains-append before (unit_name ∷ []) n, h),
  )
  started_with-Grows now before after at (err e, m) q h =
      let (d, a, b) =
        bind_ok (start_error now root_name unit_name e m) (λ d n. (ok before, n)) after h in
      (
        false,
        elim (Bool-cases (is_reached e)) [
          | inl r ↦ let (t, w) = target_of e r in reached at t (rw q (ap err w))
          | inr r ↦
              passed_over at e (rw q refl) (λ t w. ground (arith, ap is_reached w, r))
                (rw q (start_error-ok now e m d a r))
        ],
        λ n. ground (arith, b),
      )

  start_dependency_unit-Grows :
      (now : Instant) (before after : List String) (m : Manager)
      → (start_dependency_unit start_single now root_name unit_name before m).0 ≡ ok after
      → Grows before after
  unfolding start_dependency_unit
  start_dependency_unit-Grows now before after m h = elim (Bool-cases (is_running m unit_name)) [
    | inl r ↦
        let same : ok before ≡ ok after = rw r at h in
        (
          false,
          elim (Option-cases (get m.states unit_name)) [
            | inl k ↦ absurd (ground (arith, r, k))
            | inr (s, k) ↦ was_running m s k (rw k at r)
          ],
          λ n. ground (arith, same),
        )
    | inr r ↦ started_with-Grows now before after m (start_single unit_name m) refl (rw r at h)
  ]

module _ (start_single : String → Manager → Outcome {0} Unit) (root_name : String) where
  -- The unit is not in the order and on the list only if it was before, or its turn has told.
  abbrev Told : List String → List String → List String → String → Type 0
  Told order before all u =
      ((contains order u ≡ false) × (contains all u ≡ contains before u))
      ⊎ ((contains order u ≡ true)
          × (b : Bool) × Turn start_single root_name u b
          × (contains all u ≡ (contains before u || b)))

  first-Told :
      (rest before after all : List String) (x u : String) (b : Bool)
      → (x == u) ≡ true
      → contains rest x ≡ false
      → Turn start_single root_name x b
      → contains after u ≡ (contains before u || (b && (x == u)))
      → Told rest after all u
      → Told (x ∷ rest) before all u
  unfolding contains
  first-Told rest before after all x u b e fresh turn grown (inl (out, same)) = inr (
    ground (arith, e),
    b,
    subst (λ k. Turn start_single root_name k b) ((string_eq.beq_iff x u).0 e) turn,
    ground (arith, same, grown, e),
  )
  first-Told rest before after all x u b e fresh turn grown (inr (within, c, later, same)) =
      let x-eq = (string_eq.beq_iff x u).0 e in absurd (ground (arith, within, fresh, x-eq))

  later-Told :
      (rest before after all : List String) (x u : String) (b : Bool)
      → (x == u) ≡ false
      → contains after u ≡ (contains before u || (b && (x == u)))
      → Told rest after all u
      → Told (x ∷ rest) before all u
  unfolding contains
  later-Told rest before after all x u b e grown (inl (out, same)) =
      inl (ground (arith, e, out), ground (arith, same, grown, e))
  later-Told rest before after all x u b e grown (inr (within, c, turn, same)) =
      inr (ground (arith, e, within), c, turn, ground (arith, same, grown, e))

  start_loop-Told :
      (clock : String → Instant) (order before all : List String) (m : Manager)
      → IsSetList order
      → (start_loop start_single clock root_name order before m).0 ≡ ok all
      → (u : String) → Told order before all u
  unfolding start_loop contains
  start_loop-Told clock [] before all m set h u = inl (refl, ground (arith, h))
  start_loop-Told clock (x ∷ rest) before all m set h u =
      let (after, first, later) =
        bind_ok (start_dependency_unit start_single (clock x) root_name x before m) _ all h in
      let (b, turn, grown) =
        start_dependency_unit-Grows start_single root_name x (clock x) before after m first in
      let told = start_loop-Told clock rest after all _ set.1 later u in
      elim (Bool-cases (x == u)) [
        | inl e ↦ first-Told rest before after all x u b e set.0 turn (grown u) told
        | inr e ↦ later-Told rest before after all x u b e (grown u) told
      ]

-- Whether a unit is on the list of a start, and why.
pub data Fate (start_single : String → Manager → Outcome {0} Unit) (root_name : String)
    (needs : Type 0) (unit_name : String) : Bool → Type 0 where
  not_needed : (needs → ⊥) → Fate start_single root_name needs unit_name false
  needed :
      {b : Bool}
      → needs
      → Turn start_single root_name unit_name b
      → Fate start_single root_name needs unit_name b

module _ (start_single : String → Manager → Outcome {0} Unit) where
  pub start_with_deps-ok :
      (fuel : ℕ) (d : Disk) (now : Instant) (clock : ℕ → Instant) (clock' : String → Instant)
      → (requested : String) (m m' : Manager) (r : Outcome (List String)) (all : List String)
      → (u : String) → ensure_unit_loaded d now (normalize_name requested) m ≡ (ok tt, m')
      → start_with_deps start_single fuel d now clock clock' requested m ≡ some r
      → r.0 ≡ ok all
      → let c : Collecting =
          collect_start_dependencies fuel d clock (normalize_name requested) m' in
        Fate start_single
          (normalize_name requested)
          (Needs (build_start_graph c.manager c.loaded c.aliases) (normalize_name requested) u)
          u
          (contains all u)
  unfolding start_with_deps contains
  start_with_deps-ok fuel d now clock clock' requested m m' r all u h s f =
      let root_name = normalize_name requested in
      let (order, q, set, same) = resolve_start_order-ok fuel d now clock root_name m m' h in
      let run : some (start_loop start_single clock' root_name order [] _) ≡ some r =
        ap (started_from start_single clock' root_name) (sym q) ∙ s in
      elim (start_loop-Told start_single root_name clock' order [] all _ set
        (ap (λ o. (unwrap_or r o).0) run ∙ f) u) [
          | inl (out, e) ↦ rw e (not_needed (λ n. ground (arith, (same u).1 n, out)))
          | inr (within, b, turn, e) ↦ rw e (needed ((same u).0 within) turn)
        ]

  -- `start_with_deps` by a name that can be loaded, but under which no unit stands when what it needs
  -- has been loaded, as the name of a link to another unit: it succeeds with an empty list, whatever
  -- the start of a unit would do, and leaves the manager as the loading does, without a start.
  pub start_with_deps-alias :
      (fuel : ℕ) (d : Disk) (now : Instant) (clock : ℕ → Instant) (clock' : String → Instant)
      → (requested : String) (m m' : Manager)
      → ensure_unit_loaded d now (normalize_name requested) m ≡ (ok tt, m')
      → has_key
          (collect_start_dependencies fuel d clock (normalize_name requested) m').manager.units
          (normalize_name requested)
        ≡ false
      → start_with_deps start_single fuel d now clock clock' requested m
        ≡ some
            (ok [], (collect_start_dependencies fuel d clock (normalize_name requested) m').manager)
  unfolding start_with_deps start_loop
  start_with_deps-alias fuel d now clock clock' requested m m' h absent =
      ap (started_from start_single clock' (normalize_name requested))
        (resolve_start_order-alias fuel d now clock (normalize_name requested) m m' h absent)

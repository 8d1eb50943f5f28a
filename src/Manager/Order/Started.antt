-- ===== src/Manager/Order/Started.antt =====
-- What the start of a unit with all that it needs returns (`start_with_deps` of
-- src/manager/mod_impl/part1.rs).
use sysd.Prelude.{
  ℕ, String, ◌≡◌, refl, sym, ap, ◌∙◌, true, some, List, [], ◌∷◌, ◌⊎◌, string_eq, contains, arith,
  Bool-cases, inl, inr, beq_self, unwrap_or,
}
use sysd.State.{Instant}
use sysd.Deps.StartOrder.Search.{Needs}
use sysd.Manager.{Manager, ManagerError, ok, err, Outcome, ◌>>=◌, normalize_name}
use sysd.Manager.Load.{Disk, ensure_unit_loaded}
use sysd.Manager.Collect.{Collecting, collect_start_dependencies}
use sysd.Manager.Order.Graph.{resolve_start_order-ok}
use sysd.Manager.Order.{
  is_required, start_error, is_running, started_with, start_dependency_unit, start_loop, is_reached,
  build_start_graph, start_with_deps, started_from,
}

-- A chain fails where its first part does, or behind that.
bind_err {ℓ κ} :
    {A : Type ℓ} {B : Type κ} (o : Outcome A) (next : A → Manager → Outcome B) (e : ManagerError)
    → (o >>= next).0 ≡ err e
    → (o.0 ≡ err e) ⊎ ((a : A) × (o.0 ≡ ok a) × ((next a o.1).0 ≡ err e))
bind_err (ok a, m) next e h = inr (a, refl, h)
bind_err (err f, m) next e h = inl (ground (arith, h))

module _ (start_single : String → Manager → Outcome {0} Unit) where
  -- The error of a unit that the root requires.
  pub record Blames (root_name unit_name : String) (e : ManagerError) : Type 0 where
    pub at : Manager
    pub failed : (start_single unit_name at).0 ≡ err e
    pub required : is_required (start_single unit_name at).1 root_name unit_name ≡ true

  start_error-err :
      (now : Instant) (root_name unit_name : String) (f e : ManagerError) (m : Manager)
      → (start_error now root_name unit_name f m).0 ≡ err e
      → (f ≡ e) × (is_required m root_name unit_name ≡ true)
  unfolding start_error
  start_error-err now root_name unit_name f e m h = elim (Bool-cases (is_reached f)) [
    | inl r ↦ absurd (ground arith)
    | inr r ↦ elim (Bool-cases (is_required m root_name unit_name)) [
      | inl q ↦ (ground arith, q)
      | inr q ↦ absurd (ground arith)
    ]
  ]

  start_dependency_unit-err :
      (now : Instant) (root_name unit_name : String) (started : List String) (m : Manager)
      (e : ManagerError)
      → (start_dependency_unit start_single now root_name unit_name started m).0 ≡ err e
      → Blames root_name unit_name e
  unfolding start_dependency_unit
  start_dependency_unit-err now root_name unit_name started m e h =
      elim (Bool-cases (is_running m unit_name)) [
        | inl r ↦ absurd (ground arith)
        | inr r ↦ go (start_single unit_name m) refl (rw r at h)
      ]
    where
      go :
          (o : Outcome {0} Unit)
          → start_single unit_name m ≡ o
          → (started_with now root_name unit_name started o).0 ≡ err e
          → Blames root_name unit_name e
      go (ok done, m') q k = absurd (ground (arith, k))
      go (err f, m') q k =
          elim (bind_err (start_error now root_name unit_name f m') (λ d n. (ok started, n)) e k) [
            | inl b ↦
                let (same, needed) = start_error-err now root_name unit_name f e m' b in
                record { at = m; failed = rw q (ap err same); required = rw q needed }
            | inr (d, b, b') ↦ absurd (ground (arith, b'))
          ]

  -- When the loop over a start order fails, it is with the error of a unit of the order that the
  -- unit at the root requires.
  pub start_loop-err :
      (clock : String → Instant) (root_name : String) (order started : List String) (m : Manager)
      (e : ManagerError)
      → (start_loop start_single clock root_name order started m).0 ≡ err e
      → (unit_name : String) × (contains order unit_name ≡ true) × Blames root_name unit_name e
  unfolding start_loop contains
  start_loop-err clock root_name [] started m e h = absurd (ground (arith, h))
  start_loop-err clock root_name (u ∷ rest) started m e h =
      elim (bind_err (start_dependency_unit start_single (clock u) root_name u started m) _ e h) [
        | inl b ↦
            (u, rw (beq_self u) refl, start_dependency_unit-err (clock u) root_name u started m e b)
        | inr (started', q, b) ↦
            let (v, k, blame) = start_loop-err clock root_name rest started' _ e b in
            (v, ground (arith, k), blame)
      ]

  -- When the start of a unit that could be loaded fails, it is with the error of a unit that its
  -- graph needs and that it requires by name.
  pub start_with_deps-err :
      (fuel : ℕ) (d : Disk) (now : Instant) (clock : ℕ → Instant) (clock' : String → Instant)
      (requested : String) (m m' : Manager) (r : Outcome (List String)) (e : ManagerError)
      → ensure_unit_loaded d now (normalize_name requested) m ≡ (ok tt, m')
      → start_with_deps start_single fuel d now clock clock' requested m ≡ some r
      → r.0 ≡ err e
      → let c : Collecting =
          collect_start_dependencies fuel d clock (normalize_name requested) m' in
        (unit_name : String) × Needs
          (build_start_graph c.manager c.loaded c.aliases)
          (normalize_name requested)
          unit_name
        × Blames (normalize_name requested) unit_name e
  unfolding start_with_deps
  start_with_deps-err fuel d now clock clock' requested m m' r e h s f =
      let root_name = normalize_name requested in
      let (order, q, set, same) = resolve_start_order-ok fuel d now clock root_name m m' h in
      let run : some (start_loop start_single clock' root_name order [] _) ≡ some r =
        ap (started_from start_single clock' root_name) (sym q) ∙ s in
      let (u, k, blame) =
        start_loop-err clock' root_name order [] _ e (ap (λ o. (unwrap_or r o).0) run ∙ f) in
      (u, (same u).0 k, blame)

-- ===== src/Manager/Single/Stopping.antt =====
-- What the change to another target stops (`switch_target` of src/manager/mod_impl/part3.rs).
use sysd.Prelude.{
  ℕ, String, ◌≡◌, refl, sym, ap, subst, ◌∙◌, true, false, not, ◌&&◌, ◌==◌, string_eq, none, some,
  List, [], ◌∷◌, Map, get, keys, contains, IsMap, IsSetList, ◌⊎◌, Option, Option-cases, map_or,
  Bool-cases, inl, inr, arith,
}
use sysd.State.{Instant, ServiceState, is_active}
use sysd.Manager.{Manager, ok, err, Outcome, normalize_name}
use sysd.Manager.Order.{resolve_start_order, start_with_deps}
use sysd.Manager.Stop.{stop}
use sysd.Manager.Stop.Inactive.{IsInactive, stop_unit-IsInactive}
use sysd.Manager.Stop.Touched.{Touched, IsKnown, stop_unit-Touched, stop_unit-inactive}
use sysd.Manager.Single.{World, start_single}
use sysd.Manager.Single.Switch.{
  unneeded, stop_each, answering, start_target, switch_target, contains-unneeded,
}

-- No name lacks the suffix of its kind.
abbrev pub AreNormal : List String → Type 0
AreNormal [] = Unit
AreNormal (name ∷ names) = (normalize_name name ≡ name) × AreNormal names

module _ (w : World) where
  abbrev after_stop : String → Manager → Manager
  after_stop name m = (stop w.mounting w.ending w.now w.now' name m).1

  after_stop-Touched :
      (name : String) (m : Manager) → Touched (normalize_name name) m (after_stop name m)
  unfolding stop
  after_stop-Touched name m =
      stop_unit-Touched (normalize_name name) w.mounting w.ending w.now w.now' _ m

  after_stop-same :
      (name : String) (m : Manager) (s : ServiceState)
      → get m.states (normalize_name name) ≡ some s
      → is_active s ≡ false
      → after_stop name m ≡ m
  unfolding stop
  after_stop-same name m s h k =
      stop_unit-inactive (normalize_name name) w.mounting w.ending w.now w.now' m s h k _

  after_stop-IsInactive :
      (name n : String) (m : Manager) → IsInactive n m → IsInactive n (after_stop name m)
  after_stop-IsInactive name n m (s, h, k) = elim (Bool-cases (normalize_name name == n)) [
    | inl e ↦
        subst (IsInactive n) (sym (after_stop-same name m s (rw ((string_eq.beq_iff _ n).0 e) h) k))
          (s, h, k)
    | inr e ↦ (s, (after_stop-Touched name m).others n e ∙ h, k)
  ]

  stop_each-IsInactive :
      (names : List String) (n : String) (m : Manager)
      → IsInactive n m
      → IsInactive n (stop_each w names m)
  unfolding stop_each
  stop_each-IsInactive [] n m i = i
  stop_each-IsInactive (name ∷ names) n m i =
      stop_each-IsInactive names n (after_stop name m) (after_stop-IsInactive name n m i)

  stop_each-kept :
      (names : List String) (n : String) (m : Manager)
      → AreNormal names
      → contains names n ≡ false
      → get (stop_each w names m).states n ≡ get m.states n
  unfolding stop_each contains
  stop_each-kept [] n m a c = refl
  stop_each-kept (name ∷ names) n m a c =
      stop_each-kept names n (after_stop name m) a.1 (ground (arith, c))
      ∙ (after_stop-Touched name m).others n (rw (a.0) (ground (arith, c)))

  -- A known unit that is stopped is no longer active.
  after_stop-stopped :
      (n : String) (m : Manager)
      → normalize_name n ≡ n
      → IsKnown m n
      → IsInactive n (after_stop n m)
  unfolding stop
  after_stop-stopped n m a (s, h) = elim (Bool-cases (is_active s)) [
    | inl k ↦
        subst (λ name. IsInactive name (after_stop n m)) a
          (stop_unit-IsInactive (normalize_name n) w.mounting w.ending w.now w.now' m s (rw a h) k
            _)
    | inr k ↦ subst (IsInactive n) (sym (after_stop-same n m s (rw a h) k)) (s, h, k)
  ]

  stop_each-stopped :
      (names : List String) (n : String) (m : Manager)
      → normalize_name n ≡ n
      → IsKnown m n
      → contains names n ≡ true
      → IsInactive n (stop_each w names m)
  unfolding stop_each contains
  stop_each-stopped [] n m a s c = absurd (ground (arith, c))
  stop_each-stopped (name ∷ names) n m a s c = elim (Bool-cases (name == n)) [
    | inl e ↦ stop_each-IsInactive names n (after_stop name m) (
        subst (λ k. IsInactive n (after_stop k m)) (sym ((string_eq.beq_iff name n).0 e))
          (after_stop-stopped n m a s))
    | inr e ↦
        stop_each-stopped names n (after_stop name m) a ((after_stop-Touched name m).known n s)
          (ground (arith, c, e))
  ]

unneeded-AreNormal :
    (needed : List String) (states : Map String ServiceState)
    → AreNormal (keys states)
    → AreNormal (unneeded needed states)
unfolding unneeded keys
unneeded-AreNormal needed [] a = tt
unneeded-AreNormal needed ((name, state) ∷ rest) a =
    let later = unneeded-AreNormal needed rest a.1 in
    elim (Bool-cases (is_active state && not (contains needed name))) [
      | inl e ↦ rw e (a.0, later)
      | inr e ↦ rw e later
    ]

get-normal :
    (states : Map String ServiceState) (n : String) (s : ServiceState)
    → AreNormal (keys states)
    → get states n ≡ some s
    → normalize_name n ≡ n
unfolding get keys
get-normal [] n s a h = absurd (ground (arith, h))
get-normal ((name, state) ∷ rest) n s a h = elim (Bool-cases (name == n)) [
  | inl e ↦ subst (λ k. normalize_name k ≡ k) ((string_eq.beq_iff name n).0 e) a.0
  | inr e ↦ get-normal rest n s a.1 (rw e at h)
]

unneeded-IsSetList :
    (needed : List String) (states : Map String ServiceState)
    → IsMap states
    → IsSetList (unneeded needed states)
unfolding unneeded
unneeded-IsSetList needed [] im = tt
unneeded-IsSetList needed ((name, state) ∷ rest) im =
    let later = unneeded-IsSetList needed rest im.1 in
    let fresh =
      contains-unneeded needed rest name im.1
      ∙ ap (λ s. map_or false is_active s && not (contains needed name)) im.0 in
    elim (Bool-cases (is_active state && not (contains needed name))) [
      | inl e ↦ rw e (fresh, later)
      | inr e ↦ rw e later
    ]

-- A unit on the list comes out known and not active, and the state of any other is what it was.
abbrev pub Left : List String → String → Manager → Manager → Type 0
Left stopped n m m' =
    ((contains stopped n ≡ true) × IsInactive n m')
    ⊎ ((contains stopped n ≡ false) × (get m'.states n ≡ get m.states n))

stop_each-Left :
    (w : World) (needed : List String) (m : Manager)
    → IsMap m.states
    → AreNormal (keys m.states)
    → (n : String) → Left (unneeded needed m.states) n m (stop_each w (unneeded needed m.states) m)
stop_each-Left w needed m im a n =
    let names = unneeded needed m.states in
    elim (Bool-cases (contains names n)) [
      | inl e ↦ elim (Option-cases (get m.states n)) [
        | inl h ↦ absurd (ground (arith, e, h, contains-unneeded needed m.states n im))
        | inr (s, h) ↦ inl (e, stop_each-stopped w names n m (get-normal m.states n s a h) (s, h) e)
      ]
      | inr e ↦ inr (e, stop_each-kept w names n m (unneeded-AreNormal needed m.states a) e)
    ]

-- The answer of a change, by that of the start of the target: its error, or the list.
abbrev pub Answers :
    List String → Option (Outcome (List String)) → Option (Outcome (List String)) → Type 0
Answers stopped none answer = answer ≡ none
Answers stopped (some (err e, m)) answer = answer ≡ some (err e, m)
Answers stopped (some (ok started, m)) answer = answer ≡ some (ok stopped, m)

answering-Answers :
    (stopped : List String) (o : Option (Outcome (List String)))
    → Answers stopped o (map_or none (λ outcome. some (answering stopped outcome)) o)
answering-Answers stopped none = refl
answering-Answers stopped (some (err e, m)) = refl
answering-Answers stopped (some (ok started, m)) = refl

-- When the order of the target has been resolved, no name has two states, and no name of a state
-- lacks its suffix, which excludes scopes: the change to the target answers with the error of the
-- start of the target that follows the stops, if it fails, and else with a list of names, each once. On the list are exactly
-- the units of every kind that were active and are not in the order. When the start of the target
-- begins, each of them is known and not active, and every other state is what it was.
pub switch_target-stops :
    (fuel : ℕ) (w w' : World) (clock : ℕ → Instant) (clock' : String → Instant)
    → (requested : String) (m : Manager) (needed : List String) (m₁ : Manager)
    → resolve_start_order fuel w.disk w.now clock (normalize_name requested) m
      ≡ some (ok needed, m₁)
    → IsMap m₁.states
    → AreNormal (keys m₁.states)
    → (m₂ : Manager) × (stopped : List String) × Answers stopped
        (start_with_deps
          (start_single w')
          fuel
          w'.disk
          w'.now
          clock
          clock'
          (normalize_name requested)
          m₂)
        (switch_target fuel w w' clock clock' requested m)
      × IsSetList stopped
      × ((n : String)
          → (contains stopped n
              ≡ (map_or false is_active (get m₁.states n) && not (contains needed n)))
            × Left stopped n m₁ m₂)
unfolding switch_target
switch_target-stops fuel w w' clock clock' requested m needed m₁ r im a =
    let stopped = unneeded needed m₁.states in
    (
      stop_each w stopped m₁,
      stopped,
      rw r (
          answering-Answers stopped (
            start_target fuel w w' clock clock' (normalize_name requested)
              (stop_each w stopped m₁))),
      unneeded-IsSetList needed m₁.states im,
      λ n. (contains-unneeded needed m₁.states n im, stop_each-Left w needed m₁ im a n),
    )

-- ===== src/Manager/Single/Switch.antt =====
-- The change to another target (`switch_target` of src/manager/mod_impl/part3.rs).
use sysd.Prelude.{
  ℕ, String, ◌≡◌, refl, ap, subst, ◌∙◌, false, not, ◌&&◌, string_eq, Option, none, some, List, [],
  ◌∷◌, Map, get, contains, IsMap, if◌then◌else◌, map_or, arith,
}
use sysd.State.{Instant, ServiceState, is_active}
use sysd.Manager.{Manager, ok, err, Outcome, normalize_name}
use sysd.Manager.Order.{resolve_start_order, start_with_deps}
use sysd.Manager.Stop.{stop}
use sysd.Manager.Single.{World, start_single}

-- The active units that are not needed.
unfoldable pub unneeded : List String → Map String ServiceState → List String
unneeded needed [] = []
unneeded needed ((name, state) ∷ rest) =
    let later = unneeded needed rest in
    if is_active state && not (contains needed name) then name ∷ later else later

-- An error of a stop is passed over.
unfoldable pub stop_each : World → List String → Manager → Manager
stop_each w [] m = m
stop_each w (name ∷ rest) m = stop_each w rest (stop w.mounting w.ending w.now w.now' name m).1

abbrev pub answering : List String → Outcome (List String) → Outcome (List String)
answering stopped (ok started, m) = (ok stopped, m)
answering stopped (err e, m) = (err e, m)

-- `w` is the world of the stops and `w'` that of the starts; `fuel` and the clocks are those of
-- `resolve_start_order` and `start_with_deps`.
module _ (fuel : ℕ) (w w' : World) (clock : ℕ → Instant) (clock' : String → Instant) where
  abbrev pub start_target : String → Manager → Option (Outcome (List String))
  start_target = start_with_deps (start_single w') fuel w'.disk w'.now clock clock'

  abbrev pub switched : String → Option (Outcome (List String)) → Option (Outcome (List String))
  switched target none = none
  switched target (some (err e, m)) = some (err e, m)
  switched target (some (ok needed, m)) =
      let to_stop = unneeded needed m.states in
      map_or none (λ outcome. some (answering to_stop outcome))
        (start_target target (stop_each w to_stop m))

  unfoldable pub switch_target : String → Manager → Option (Outcome (List String))
  unfolding unneeded stop_each
  switch_target requested m =
      let target = normalize_name requested in
      switched target (resolve_start_order fuel w.disk w.now clock target m)

pub contains-unneeded :
    (needed : List String) (states : Map String ServiceState) (n : String)
    → IsMap states
    → contains (unneeded needed states) n
      ≡ (map_or false is_active (get states n) && not (contains needed n))
unfolding unneeded get contains
contains-unneeded needed [] n w = refl
contains-unneeded needed ((name, state) ∷ rest) n w =
    let fresh =
      contains-unneeded needed rest name w.1
      ∙ ap (λ s. map_or false is_active s && not (contains needed name)) w.0 in
    ground (arith, contains-unneeded needed rest n w.1, fresh, string_eq.beq_iff name n)

abbrev Answered : Option (Outcome (List String)) → List String → Type 0
Answered none stopped = Unit
Answered (some (err e, m)) stopped = Unit
Answered (some (ok all, m)) stopped = all ≡ stopped

switch_target-Answered :
    (to_stop : List String) (o : Option (Outcome (List String)))
    → Answered (map_or none (λ outcome. some (answering to_stop outcome)) o) to_stop
switch_target-Answered to_stop none = tt
switch_target-Answered to_stop (some (err e, m)) = tt
switch_target-Answered to_stop (some (ok all, m)) = refl

-- When the change to a target succeeds, the names that it answers with are exactly those of the units
-- that were active when the order of the target was resolved and are not in that order.
pub switch_target-ok :
    (fuel : ℕ) (w w' : World) (clock : ℕ → Instant) (clock' : String → Instant)
    → (requested : String) (m : Manager) (needed : List String) (m₁ : Manager)
    → (stopped : List String) (m₂ : Manager) (n : String)
    → resolve_start_order fuel w.disk w.now clock (normalize_name requested) m
      ≡ some (ok needed, m₁)
    → IsMap m₁.states
    → switch_target fuel w w' clock clock' requested m ≡ some (ok stopped, m₂)
    → contains stopped n ≡ (map_or false is_active (get m₁.states n) && not (contains needed n))
unfolding switch_target
switch_target-ok fuel w w' clock clock' requested m needed m₁ stopped m₂ n r im s =
    let to_stop = unneeded needed m₁.states in
    let outcome =
      start_target fuel w w' clock clock' (normalize_name requested) (stop_each w to_stop m₁) in
    let e = rw r at s in
    ap (λ names. contains names n)
      (subst (λ o. Answered o to_stop) e (switch_target-Answered to_stop outcome))
    ∙ contains-unneeded needed m₁.states n im

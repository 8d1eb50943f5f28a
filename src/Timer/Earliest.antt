-- ===== src/Timer/Earliest.antt =====
-- Which of a timer's settings fires it next (src/manager/timer_scheduler_impl.rs).
use sysd.Prelude.{
  ℕ, suc, ◌-◌, ◌≤◌, ◌≡◌, refl, ◌⊎◌, inl, inr, ◌↔◌, Option, none, some, List, [], ◌∷◌, min, arith,
}
use sysd.Units.Sections.{Duration}
use sysd.Units.Kinds.{CalendarSpec, Timer}
use sysd.State.{Instant}
use sysd.Timer.{
  LocalTime, sooner, consider, rest_of, next_calendar_trigger, consider_all, delayed,
  calculate_next_trigger,
}

-- The least of what has the property, or `none` if nothing has it.
abbrev pub Least : (Duration → Type 0) → Option Duration → Type 0
Least P none = (m : Duration) → ¬ P m
Least P (some n) = P n × ((m : Duration) → P m → n ≤ m)

Least-congr :
    (P Q : Duration → Type 0) (next : Option Duration)
    → ((m : Duration) → P m ↔ Q m)
    → Least P next
    → Least Q next
Least-congr P Q none e l = λ m q. l m ((e m).1 q)
Least-congr P Q (some n) e l = ((e n).0 l.0, λ m q. l.1 m ((e m).1 q))

min_cases : (a b : ℕ) → (min a b ≡ a) ⊎ (min a b ≡ b)
min_cases a b = ground arith

consider-Least :
    (P : Duration → Type 0) (c next : Option Duration)
    → Least P next
    → Least (λ m. P m ⊎ (c ≡ some m)) (consider c next)
unfolding consider sooner
consider-Least P none none l = λ m h. elim h [ inl p ↦ l m p | inr e ↦ cc e ]
consider-Least P none (some n) l = (inl l.0, λ m h. elim h [ inl p ↦ l.1 m p | inr e ↦ cc e ])
consider-Least P (some d) none l =
    (inr refl, λ m h. elim h [ inl p ↦ absurd (l m p) | inr e ↦ ground (arith, e) ])
consider-Least P (some d) (some n) l = (
  elim (min_cases n d) [ inl e ↦ inl (rw e l.0) | inr e ↦ inr (rw e refl) ],
  λ m h. elim h [ inl p ↦ omega (arith, l.1 m p) | inr e ↦ ground (arith, e) ],
)

flatten : {A B C D E : Type 0} → ((((((⊥ ⊎ A) ⊎ B) ⊎ C) ⊎ D) ⊎ E) ↔ (A ⊎ B ⊎ C ⊎ D ⊎ E))
flatten = (
  λ h. elim h [
    | inr e ↦ inr (inr (inr (inr e)))
    | inl p ↦ elim p [
      | inr d ↦ inr (inr (inr (inl d)))
      | inl q ↦ elim q [
        | inr c ↦ inr (inr (inl c))
        | inl r ↦ elim r [
          | inr b ↦ inr (inl b)
          | inl u ↦ elim u [ inr a ↦ inl a | inl x ↦ absurd x ]
        ]
      ]
    ]
  ],
  λ h. elim h [
    | inl a ↦ inl (inl (inl (inl (inr a))))
    | inr p ↦ elim p [
      | inl b ↦ inl (inl (inl (inr b)))
      | inr q ↦ elim q [
        | inl c ↦ inl (inl (inr c))
        | inr r ↦ elim r [ inl d ↦ inl (inr d) | inr e ↦ inr e ]
      ]
    ]
  ],
)

module _ (next_monthly_trigger next_yearly_trigger : LocalTime → Option Duration) where
  abbrev pub trigger : LocalTime → CalendarSpec → Option Duration
  trigger = next_calendar_trigger next_monthly_trigger next_yearly_trigger

  -- An entry of the calendar fires after `m`, the entries being read from turn `i` on.
  abbrev pub OnCalendar : (ℕ → LocalTime) → ℕ → List CalendarSpec → Duration → Type 0
  OnCalendar clock i [] m = ⊥
  OnCalendar clock i (spec ∷ specs) m =
      (trigger (clock i) spec ≡ some m) ⊎ OnCalendar clock (suc i) specs m

  consider_all-Least :
      (P : Duration → Type 0) (clock : ℕ → LocalTime) (i : ℕ) (specs : List CalendarSpec)
      (next : Option Duration)
      → Least P next
      → Least
          (λ m. P m ⊎ OnCalendar clock i specs m)
          (consider_all next_monthly_trigger next_yearly_trigger clock i specs next)
  unfolding consider_all
  consider_all-Least P clock i [] next l =
      Least-congr P _ next (λ m. (λ p. inl p, λ h. elim h [ inl p ↦ p | inr e ↦ absurd e ])) l
  consider_all-Least P clock i (spec ∷ specs) next l =
      Least-congr
        (λ m. (P m ⊎ (trigger (clock i) spec ≡ some m)) ⊎ OnCalendar clock (suc i) specs m)
        (λ m. P m ⊎ OnCalendar clock i (spec ∷ specs) m) _
        (λ m. (
          λ h. elim h [
            | inl p ↦ elim p [ inl q ↦ inl q | inr e ↦ inr (inl e) ]
            | inr c ↦ inr (inr c)
          ],
          λ h. elim h [
            | inl q ↦ inl (inl q)
            | inr p ↦ elim p [ inl e ↦ inl (inr e) | inr c ↦ inr c ]
          ],
        ))
        (consider_all-Least (λ m. P m ⊎ (trigger (clock i) spec ≡ some m)) clock (suc i) specs
          (consider (trigger (clock i) spec) next)
          (consider-Least P (trigger (clock i) spec) next l))

  -- The settings of a timer that fire it, each after its own time.
  abbrev pub Candidate : (ℕ → LocalTime) → Duration → Timer → Duration → Type 0
  Candidate clock elapsed t m =
      (rest_of t.timer.on_boot_sec elapsed ≡ some m)
      ⊎ (rest_of t.timer.on_startup_sec elapsed ≡ some m)
      ⊎ (t.timer.on_active_sec ≡ some m)
      ⊎ (t.timer.on_unit_active_sec ≡ some m)
      ⊎ OnCalendar clock 0 t.timer.on_calendar m

  pub calculate_next_trigger_lem :
      (rand_delay : ℕ → ℕ) (clock : ℕ → LocalTime) (instant boot_time : Instant) (t : Timer)
      → (next : Option Duration) × Least (Candidate clock (instant - boot_time) t) next
        × (calculate_next_trigger next_monthly_trigger next_yearly_trigger rand_delay clock instant
              boot_time t
            ≡ delayed rand_delay t.timer.randomized_delay_sec next)
  unfolding calculate_next_trigger
  calculate_next_trigger_lem rand_delay clock instant boot_time t =
      let elapsed = instant - boot_time in
      let l₀ : Least (λ m. ⊥) none = λ m h. h in
      let l₁ = consider-Least _ (rest_of t.timer.on_boot_sec elapsed) none l₀ in
      let l₂ = consider-Least _ (rest_of t.timer.on_startup_sec elapsed) _ l₁ in
      let l₃ = consider-Least _ t.timer.on_active_sec _ l₂ in
      let l₄ = consider-Least _ t.timer.on_unit_active_sec _ l₃ in
      let l₅ = consider_all-Least _ clock 0 t.timer.on_calendar _ l₄ in
      (_, Least-congr _ (Candidate clock elapsed t) _ (λ m. flatten) l₅, refl)

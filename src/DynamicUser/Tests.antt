-- ===== src/DynamicUser/Tests.antt =====
-- A pool from which two services take ids, and one gives its own back.
use sysd.Prelude.{ℕ, ◌≡◌, ◌⊎◌, refl, true, false, ◌||◌, ◌==◌, nat_eq, contains, [], ◌∷◌}
use sysd.DynamicUser.{
  Inner, new, is_dynamic_uid, next_of, search, try_uid, ok, exhausted, allocate, release,
}
use sysd.DynamicUser.Pool.{Run, begun, allocated, released, allocate-cases, Run-IsPool}

abbrev two_taken : Inner
two_taken = record { allocated = 61184 ∷ 61185 ∷ []; next_uid = 61184 }

skips_taken : (allocate two_taken).1 ≡ ok 61186 61186
unfolding allocate search try_uid next_of contains
skips_taken = refl

abbrev used : Inner
used = release 61184 (allocate (allocate new).0).0

used-Run : Run used
used-Run = released 61184 (allocated (allocated begun))

allocate-cases_example :
    ((uid : ℕ) × ((allocate used).1 ≡ ok uid uid)
      × (is_dynamic_uid uid ≡ true)
      × (contains used.allocated uid ≡ false)
      × ((v : ℕ)
          → contains (allocate used).0.allocated v ≡ (contains used.allocated v || (uid == v))))
    ⊎ (allocate used ≡ (used, exhausted))
      × ((uid : ℕ) → is_dynamic_uid uid ≡ true → contains used.allocated uid ≡ true)
allocate-cases_example = allocate-cases used (Run-IsPool used-Run)

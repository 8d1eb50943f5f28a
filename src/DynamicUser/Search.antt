-- ===== src/DynamicUser/Search.antt =====
-- About the loop of `allocate` (src/manager/dynamic_user.rs).
use sysd.Prelude.{
  ℕ, zero, suc, ◌+◌, ◌-◌, ◌≤◌, ◌<◌, ◌≡◌, refl, ◌⊎◌, inl, inr, true, false, List, ◌==◌, nat_eq,
  if◌then◌else◌, leb, contains, arith, Bool-cases,
}
use sysd.DynamicUser.{free, pool_exhausted, next_of, try_uid, search}

abbrev pub InRange : ℕ → Type 0
InRange v = (61184 ≤ v) × (v ≤ 65519)

-- The ids that the loop has tried when it stands at `uid`.
unfoldable pub Tried : ℕ → ℕ → ℕ → Type 0
Tried start uid v =
    ((start ≤ uid) × (start ≤ v) × (v < uid)) ⊎ ((uid < start) × ((start ≤ v) ⊎ (v < uid)))

-- How many ids are left to try.
unfoldable pub left : ℕ → ℕ → ℕ
left start uid = if leb start uid then (65520 - uid) + (start - 61184) else start - uid

next_of-InRange : (uid : ℕ) → InRange uid → InRange (next_of uid)
unfolding next_of
next_of-InRange uid r = ground arith

last-Tried :
    (start uid v : ℕ)
    → InRange start
    → InRange uid
    → InRange v
    → next_of uid ≡ start
    → Tried start uid v ⊎ (v ≡ uid)
unfolding next_of Tried
last-Tried start uid v s u r e = ground arith

next-Tried :
    (start uid v : ℕ)
    → InRange start
    → InRange uid
    → InRange v
    → (next_of uid == start) ≡ false
    → Tried start (next_of uid) v
    → Tried start uid v ⊎ (v ≡ uid)
unfolding next_of Tried
next-Tried start uid v s u r e t = ground arith

next-left :
    (start uid : ℕ)
    → InRange start
    → InRange uid
    → (next_of uid == start) ≡ false
    → left start (next_of uid) < left start uid
unfolding next_of left
next-left start uid s u e = ground arith

some-left : (start uid : ℕ) → InRange start → InRange uid → 0 < left start uid
unfolding left
some-left start uid s u = ground arith

-- The loop finds an id that is free, or every id of the range is taken.
pub search_cases :
    (fuel : ℕ) (allocated : List ℕ) (start uid : ℕ)
    → InRange start
    → InRange uid
    → ((v : ℕ) → InRange v → Tried start uid v → contains allocated v ≡ true)
    → left start uid ≤ fuel
    → ((u : ℕ) × (search fuel allocated start uid ≡ free u)
        × InRange u
        × (contains allocated u ≡ false))
      ⊎ (search fuel allocated start uid ≡ pool_exhausted)
        × ((v : ℕ) → InRange v → contains allocated v ≡ true)
unfolding search try_uid
search_cases zero allocated start uid s u tried enough =
    absurd (omega (arith, some-left start uid s u, enough))
search_cases (suc fuel) allocated start uid s u tried enough =
    elim (Bool-cases (contains allocated uid)) [
      | inr fresh ↦ inl (uid, rw (fresh, search) refl, u, fresh)
      | inl taken ↦ elim (Bool-cases (next_of uid == start)) [
        | inl round ↦ inr (
          rw (taken, round, search) refl,
          λ v r. elim (last-Tried start uid v s u r (ground (arith, round))) [
            | inl t ↦ tried v r t
            | inr e ↦ rw e taken
          ],
        )
        | inr more ↦
            rw (taken, more, search)
              (search_cases fuel allocated start (next_of uid) s (next_of-InRange uid u)
                (λ v r t. elim (next-Tried start uid v s u r more t) [
                  | inl t' ↦ tried v r t'
                  | inr e ↦ rw e taken
                ])
                (omega (arith, next-left start uid s u more, enough)))
      ]
    ]

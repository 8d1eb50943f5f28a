-- ===== src/DynamicUser/Pool.antt =====
-- What `allocate` and `release` promise (src/manager/dynamic_user.rs).
use sysd.Prelude.{
  ℕ, ◌≤◌, ◌≡◌, refl, ◌⊎◌, inl, inr, true, false, ◌||◌, ◌==◌, nat_eq, contains, contains-set_insert,
  contains-set_remove, set_remove, set_insert-IsSetList, keep-IsSetList, IsSetList, arith,
}
use sysd.DynamicUser.{
  Inner, new, is_dynamic_uid, next_of, free, ok, exhausted, take_uid, allocate, release,
}
use sysd.DynamicUser.Search.{InRange, Tried, left, search_cases}

-- What every pool keeps: ids of the range, each once, and the next id to try in the range.
pub record IsPool (p : Inner) : Type 0 where
  pub next : InRange p.next_uid
  pub allocated : (v : ℕ) → contains p.allocated v ≡ true → InRange v
  pub set : IsSetList p.allocated

nothing-Tried : (start v : ℕ) → ¬ Tried start start v
unfolding Tried
nothing-Tried start v t = ground arith

whole-left : (start : ℕ) → InRange start → left start start ≤ 4336
unfolding left
whole-left start r = ground arith

take_uid-IsPool : (uid : ℕ) (p : Inner) → InRange uid → IsPool p → IsPool (take_uid (free uid) p).0
unfolding next_of
take_uid-IsPool uid p r w = record {
  next = ground arith;
  allocated = λ v h. ground (arith, contains-set_insert uid p.allocated v, w.allocated v);
  set = set_insert-IsSetList uid p.allocated w.set;
}

-- If the held ids are of the dynamic range, none twice, and the next id to try is of the range,
-- then `allocate` answers: either it hands out an id of the range that is not held, as user and
-- as group, and from then on exactly that id is held besides, or it reports exhaustion, changes
-- nothing, and every id of the range is held.
pub allocate-cases :
    (p : Inner)
    → IsPool p
    → ((uid : ℕ) × ((allocate p).1 ≡ ok uid uid)
        × (is_dynamic_uid uid ≡ true)
        × (contains p.allocated uid ≡ false)
        × ((v : ℕ) → contains (allocate p).0.allocated v ≡ (contains p.allocated v || (uid == v))))
      ⊎ (allocate p ≡ (p, exhausted))
        × ((uid : ℕ) → is_dynamic_uid uid ≡ true → contains p.allocated uid ≡ true)
unfolding allocate is_dynamic_uid
allocate-cases p w =
    elim (search_cases 4336 p.allocated p.next_uid p.next_uid w.next w.next
      (λ v r t. absurd (nothing-Tried p.next_uid v t)) (whole-left p.next_uid w.next)) [
        | inl (uid, found, r, fresh) ↦ inl (
          uid,
          rw found refl,
          ground arith,
          fresh,
          λ v. rw found (contains-set_insert uid p.allocated v),
        )
        | inr (full, taken) ↦ inr (rw full refl, λ uid h. taken uid (ground arith))
      ]

pub allocate-IsPool : (p : Inner) → IsPool p → IsPool (allocate p).0
unfolding allocate
allocate-IsPool p w =
    elim (search_cases 4336 p.allocated p.next_uid p.next_uid w.next w.next
      (λ v r t. absurd (nothing-Tried p.next_uid v t)) (whole-left p.next_uid w.next)) [
        | inl (uid, found, r, fresh) ↦ rw found (take_uid-IsPool uid p r w)
        | inr (full, taken) ↦ rw full w
      ]

pub release-IsPool : (uid : ℕ) (p : Inner) → IsPool p → IsPool (release uid p)
unfolding release
release-IsPool uid p w = record {
  next = w.next;
  allocated = λ v h. w.allocated v (ground (arith, contains-set_remove uid p.allocated v));
  set = unfold set_remove in keep-IsSetList _ p.allocated w.set;
}

pub new-IsPool : IsPool new
unfolding new contains
new-IsPool = record { next = omega arith; allocated = λ v h. cc; set = tt }

-- The calls of services that start and stop; a start may find the pool exhausted.
pub data Run : Inner → Type 0 where
  begun : Run new
  allocated : {p : Inner} → Run p → Run (allocate p).0
  released : {p : Inner} (uid : ℕ) → Run p → Run (release uid p)

-- Whatever calls are made, the pool holds only ids of the dynamic range, each once, and the next
-- one to try is of the range.
pub Run-IsPool : {p : Inner} → Run p → IsPool p
Run-IsPool begun = new-IsPool
Run-IsPool (allocated {p} r) = allocate-IsPool p (Run-IsPool r)
Run-IsPool (released {p} uid r) = release-IsPool uid p (Run-IsPool r)

-- If the held ids are of the dynamic range, none twice, and the next id to try is of the range,
-- then after the release of an id of the range `allocate` succeeds, with that id or one that was
-- not held before.
pub allocate-release :
    (p : Inner) (uid : ℕ)
    → IsPool p
    → is_dynamic_uid uid ≡ true
    → (next : ℕ) × ((allocate (release uid p)).1 ≡ ok next next)
      × ((contains p.allocated next ≡ false) ⊎ (next ≡ uid))
allocate-release p uid w r = elim (allocate-cases (release uid p) (release-IsPool uid p w)) [
  | inl (next, answer, range, fresh, _) ↦ (
    next,
    answer,
    unfold release in ground (arith, contains-set_remove uid p.allocated next, fresh),
  )
  | inr (_, full) ↦
      absurd (unfold release in ground (arith, full uid r, contains-set_remove uid p.allocated uid))
]

-- ===== src/DynamicUser.antt =====
-- The user ids of `DynamicUser=` (src/manager/dynamic_user.rs). The lock makes each call of the
-- manager one step; the log lines are left out.
pub mod Search
pub mod Pool
mod Tests
use sysd.Prelude.{
  ℕ, zero, suc, ◌+◌, Bool, true, false, not, ◌&&◌, Option, none, some, List, [], ◌==◌, nat_eq,
  if◌then◌else◌, leb, contains, set_insert, set_remove,
}

abbrev pub dynamic_uid_min : ℕ
dynamic_uid_min = 61184

abbrev pub dynamic_uid_max : ℕ
dynamic_uid_max = 65519

-- `DynamicUserManagerInner`.
pub record Inner : Type 0 where
  pub allocated : List ℕ
  pub next_uid : ℕ

unfoldable pub new : Inner
new = record { allocated = []; next_uid = dynamic_uid_min }

unfoldable pub is_dynamic_uid : ℕ → Bool
is_dynamic_uid uid = leb dynamic_uid_min uid && leb uid dynamic_uid_max

-- `if uid >= DYNAMIC_UID_MAX { DYNAMIC_UID_MIN } else { uid + 1 }`.
unfoldable pub next_of : ℕ → ℕ
next_of uid = if leb dynamic_uid_max uid then dynamic_uid_min else uid + 1

-- How the loop of `allocate` ends; `out_of_fuel` is no answer of the source.
pub data Found : Type 0 where
  free : ℕ → Found
  pool_exhausted : Found
  out_of_fuel : Found

-- One round of the loop: its answer, or `none` where it goes on with the next id.
unfoldable pub try_uid : List ℕ → ℕ → ℕ → Option Found
unfolding next_of
try_uid allocated start uid =
    if not (contains allocated uid)
    then some (free uid)
    else if next_of uid == start
    then some pool_exhausted
    else none

unfoldable pub search : ℕ → List ℕ → ℕ → ℕ → Found
search zero allocated start uid = out_of_fuel
search (suc fuel) allocated start uid = elim (try_uid allocated start uid) [
  | some answer ↦ answer
  | none ↦ search fuel allocated start (next_of uid)
]

-- `Ok((uid, gid))` and `Err(PoolExhausted)`.
pub data Allocation : Type 0 where
  ok : (uid gid : ℕ) → Allocation
  exhausted : Allocation
  no_answer : Allocation

abbrev pub take_uid : Found → Inner → Inner × Allocation
take_uid (free uid) p =
    (record { allocated = set_insert uid p.allocated; next_uid = next_of uid }, ok uid uid)
take_uid pool_exhausted p = (p, exhausted)
take_uid out_of_fuel p = (p, no_answer)

-- The range has 4336 ids: they are the fuel.
unfoldable pub allocate : Inner → Inner × Allocation
allocate p = take_uid (search 4336 p.allocated p.next_uid p.next_uid) p

unfoldable pub release : ℕ → Inner → Inner
release uid p = record p { allocated = set_remove uid p.allocated }

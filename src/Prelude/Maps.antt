-- ===== src/Prelude/Maps.antt =====
-- `HashMap` as an association list: the iteration order of the map is the list's.
use mathlib.Core.Path.{◌≡◌, refl, ap}
use mathlib.Core.Bool.{Bool, false}
use mathlib.Core.Option
use mathlib.Core.Option.{Option, none, some}
use mathlib.Core.List.{List, [], ◌∷◌, ◌++◌}
use native.Mathlib.Omega.{arith}
use mathlib.Core.Logic.{inl, inr}
use Prim.Native.Nat.{suc}
use sysd.Prelude.Tests.{Eq, ◌==◌, if◌then◌else◌, is_some, beq_self, Bool-cases}
use sysd.Prelude.Lists.{length, contains}

abbrev pub Map {ℓ κ} : Type ℓ → Type κ → Type (ℓ ⊔ κ)
Map K V = List (K × V)

module _ {ℓ κ} {K : Type ℓ} {V : Type κ} ⦃e : Eq K⦄ where
  -- `HashMap::get`.
  unfoldable pub get : Map K V → K → Option V
  get [] k = none
  get ((j, v) ∷ m) k = if j == k then some v else get m k

  -- `HashMap::contains_key`.
  abbrev pub has_key : Map K V → K → Bool
  has_key m k = is_some (get m k)

  -- `HashMap::insert`.
  unfoldable pub insert : Map K V → K → V → Map K V
  insert [] k v = (k, v) ∷ []
  insert ((j, w) ∷ m) k v = if j == k then (j, v) ∷ m else (j, w) ∷ insert m k v

  -- `HashMap::remove`, without the value that it returns.
  unfoldable pub remove : Map K V → K → Map K V
  remove [] k = []
  remove ((j, w) ∷ m) k = if j == k then remove m k else (j, w) ∷ remove m k

  pub get-insert :
      (m : Map K V) (k j : K) (v : V) → get (insert m k v) j ≡ (if k == j then some v else get m j)
  unfolding get insert
  get-insert [] k j v = refl
  get-insert ((i, w) ∷ m) k j v =
      ground (arith, e.beq_iff k j, e.beq_iff i k, e.beq_iff i j, get-insert m k j v)

  pub get-remove : (m : Map K V) (k j : K) → get (remove m k) j ≡ (if k == j then none else get m j)
  unfolding get remove
  get-remove [] k j = ground arith
  get-remove ((i, w) ∷ m) k j =
      ground (arith, e.beq_iff k j, e.beq_iff i k, e.beq_iff i j, get-remove m k j)

  pub get-insert_self : (m : Map K V) (k : K) (v : V) → get (insert m k v) k ≡ some v
  get-insert_self m k v = rw (get-insert, beq_self k)

module _ {ℓ κ} {K : Type ℓ} {V : Type κ} ⦃e : Eq K⦄ where
  -- `HashMap::get_mut`, and what is then done to the value if there is one.
  unfoldable pub modify : Map K V → K → (V → V) → Map K V
  modify [] k f = []
  modify ((j, w) ∷ m) k f = if j == k then (j, f w) ∷ m else (j, w) ∷ modify m k f

  pub get-modify :
      (m : Map K V) (k j : K) (f : V → V)
      → get (modify m k f) j ≡ (if k == j then Option.map f (get m j) else get m j)
  unfolding get modify
  get-modify [] k j f = ground arith
  get-modify ((i, w) ∷ m) k j f =
      ground (arith, e.beq_iff k j, e.beq_iff i k, e.beq_iff i j, get-modify m k j f)

pub ruleset map_laws = (get-insert, get-remove, get-insert_self, get-modify, beq_self)

module _ {ℓ κ} {K : Type ℓ} {V : Type κ} ⦃e : Eq K⦄ where
  -- No key stands twice.
  abbrev pub IsMap : Map K V → Type κ
  IsMap [] = Unit {κ}
  IsMap ((k, v) ∷ m) = (get m k ≡ none) × IsMap m

  unfoldable pub keys : Map K V → List K
  keys [] = []
  keys ((k, v) ∷ m) = k ∷ keys m

  pub contains-keys : (m : Map K V) (k : K) → contains (keys m) k ≡ has_key m k
  unfolding keys get contains
  contains-keys [] k = refl
  contains-keys ((j, v) ∷ m) k = ground (arith, contains-keys m k)

  pub length-keys : (m : Map K V) → length (keys m) ≡ length m
  unfolding keys
  length-keys [] = refl
  length-keys ((j, v) ∷ m) = ap suc (length-keys m)

  pub insert-IsMap : (m : Map K V) (k : K) (v : V) → IsMap m → IsMap (insert m k v)
  unfolding insert get
  insert-IsMap [] k v h = (refl, tt)
  insert-IsMap ((j, w) ∷ m) k v h = elim (Bool-cases (j == k)) [
    | inl same ↦ rw same h
    | inr other ↦
        rw other
          (ground (arith, get-insert m k j v, e.beq_iff j k, e.beq_iff k j), insert-IsMap m k v h.1)
  ]

module _ {ℓ κ} {K : Type ℓ} {V : Type κ} ⦃e : Eq K⦄ where
  -- A new key is inserted behind the others.
  pub insert-fresh :
      (m : Map K V) (k : K) (v : V) → has_key m k ≡ false → insert m k v ≡ m ++ (k, v) ∷ []
  unfolding insert get
  insert-fresh [] k v h = refl
  insert-fresh ((j, w) ∷ m) k v h = ground (arith, insert-fresh m k v)

  pub keys-snoc : (m : Map K V) (k : K) (v : V) → keys (m ++ (k, v) ∷ []) ≡ keys m ++ k ∷ []
  unfolding keys
  keys-snoc [] k v = refl
  keys-snoc ((j, w) ∷ m) k v = ap (λ r. j ∷ r) (keys-snoc m k v)

-- ===== src/Prelude/Lists.antt =====
-- Lists measured by native numbers, and lists as the sets of the program.
use Prim.Native.Nat.{ℕ, suc, ◌+◌, ◌≤◌}
use mathlib.Core.Path.{◌≡◌, refl, ap}
use mathlib.Core.Logic.{◌⊎◌, inl, inr}
use mathlib.Core.Bool.{Bool, true, false, not, ◌||◌, ◌&&◌}
use mathlib.Core.List.{List, [], ◌∷◌, ◌++◌}
use native.Mathlib.Omega.{arith}
use sysd.Prelude.Tests.{Eq, ◌==◌, if◌then◌else◌, Bool-cases, beq_self}

module _ {ℓ} {A : Type ℓ} where
  abbrev pub length : List A → ℕ
  length [] = 0
  length (x ∷ xs) = suc (length xs)

  pub List-cases : (xs : List A) → (xs ≡ []) ⊎ ((x : A) × (rest : List A) × (xs ≡ x ∷ rest))
  List-cases [] = inl refl
  List-cases (x ∷ xs) = inr (x, xs, refl)

  -- `Iterator::filter` and `Vec::retain`, by a Boolean test.
  unfoldable pub keep : (A → Bool) → List A → List A
  keep p [] = []
  keep p (x ∷ xs) = if p x then x ∷ keep p xs else keep p xs

  unfoldable pub count_if : (A → Bool) → List A → ℕ
  count_if p [] = 0
  count_if p (x ∷ xs) = if p x then suc (count_if p xs) else count_if p xs

  pub length-append : (xs ys : List A) → length (xs ++ ys) ≡ length xs + length ys
  length-append [] ys = omega arith
  length-append (x ∷ xs) ys = omega (arith, length-append xs ys)

  pub length-keep-le : (p : A → Bool) (xs : List A) → length (keep p xs) ≤ length xs
  unfolding keep
  length-keep-le p [] = omega arith
  length-keep-le p (x ∷ xs) = ground (arith, length-keep-le p xs)

module _ {ℓ} {A : Type ℓ} ⦃e : Eq A⦄ where
  -- `Vec::contains` and `HashSet::contains`.
  unfoldable pub contains : List A → A → Bool
  contains [] a = false
  contains (x ∷ xs) a = (x == a) || contains xs a

  -- `HashSet::insert`; the iteration order of the set is the list's.
  unfoldable pub set_insert : A → List A → List A
  unfolding contains
  set_insert a xs = if contains xs a then xs else xs ++ a ∷ []

  -- `HashSet::remove`.
  unfoldable pub set_remove : A → List A → List A
  unfolding keep
  set_remove a = keep (λ x. not (x == a))

  abbrev pub IsSetList : List A → Type 0
  IsSetList [] = Unit
  IsSetList (x ∷ xs) = (contains xs x ≡ false) × IsSetList xs

  pub contains-append :
      (xs ys : List A) (a : A) → contains (xs ++ ys) a ≡ (contains xs a || contains ys a)
  unfolding contains
  contains-append [] ys a = refl
  contains-append (x ∷ xs) ys a = ground (arith, contains-append xs ys a)

  pub contains-snoc :
      (xs : List A) (b a : A) → contains (xs ++ b ∷ []) a ≡ (contains xs a || (b == a))
  unfolding contains
  contains-snoc [] b a = ground arith
  contains-snoc (x ∷ xs) b a = ground (arith, contains-snoc xs b a)

  pub contains-keep :
      (p : A → Bool) (xs : List A) (a : A) → contains (keep p xs) a ≡ (contains xs a && p a)
  unfolding contains keep
  contains-keep p [] a = refl
  contains-keep p (x ∷ xs) a = elim (Bool-cases (x == a)) [
    | inl same ↦ rw ((e.beq_iff x a).0 same) (ground (arith, contains-keep p xs a, beq_self a))
    | inr other ↦ ground (arith, contains-keep p xs a)
  ]

  pub contains-set_insert :
      (b : A) (xs : List A) (a : A) → contains (set_insert b xs) a ≡ (contains xs a || (b == a))
  unfolding set_insert
  contains-set_insert b xs a = ground (arith, contains-snoc xs b a, e.beq_iff b a)

  pub IsSetList-snoc :
      (xs : List A) (b : A) → IsSetList xs → contains xs b ≡ false → IsSetList (xs ++ b ∷ [])
  unfolding contains
  IsSetList-snoc [] b s h = (refl, tt)
  IsSetList-snoc (x ∷ xs) b s h = (
    ground (arith, contains-snoc xs b x, e.beq_iff x b, e.beq_iff b x),
    IsSetList-snoc xs b s.1 (ground arith),
  )

  pub set_insert-IsSetList : (b : A) (xs : List A) → IsSetList xs → IsSetList (set_insert b xs)
  unfolding set_insert
  set_insert-IsSetList b xs s = elim (Bool-cases (contains xs b)) [
    | inl old ↦ rw old s
    | inr new ↦ rw new (IsSetList-snoc xs b s new)
  ]

  pub keep-IsSetList : (p : A → Bool) (xs : List A) → IsSetList xs → IsSetList (keep p xs)
  unfolding keep
  keep-IsSetList p [] s = tt
  keep-IsSetList p (x ∷ xs) s = elim (Bool-cases (p x)) [
    | inl h ↦ rw h (ground (arith, contains-keep p xs x), keep-IsSetList p xs s.1)
    | inr h ↦ rw h (keep-IsSetList p xs s.1)
  ]

module _ {ℓ} {A : Type ℓ} ⦃e : Eq A⦄ where
  pub contains-set_remove :
      (a : A) (xs : List A) (b : A) → contains (set_remove a xs) b ≡ (contains xs b && not (b == a))
  unfolding set_remove
  contains-set_remove a xs b = contains-keep (λ x. not (x == a)) xs b

  length-set_remove-lt :
      (a : A) (xs : List A) → contains xs a ≡ true → suc (length (set_remove a xs)) ≤ length xs
  unfolding contains set_remove keep
  length-set_remove-lt a [] h = cc
  length-set_remove-lt a (x ∷ xs) h =
      ground (arith, length-set_remove-lt a xs, length-keep-le (λ x. not (x == a)) xs)

  -- A set inside another is no longer.
  pub length-le_of_subset :
      (xs ys : List A)
      → IsSetList xs
      → ((a : A) → contains xs a ≡ true → contains ys a ≡ true)
      → length xs ≤ length ys
  length-le_of_subset [] ys s h = omega arith
  length-le_of_subset (x ∷ xs) ys s h = omega (
    arith,
    length-set_remove-lt x ys (unfold contains in h x (ground (arith, beq_self x))),
    length-le_of_subset xs (set_remove x ys) s.1 smaller,
  )
    where
      smaller : (a : A) → contains xs a ≡ true → contains (set_remove x ys) a ≡ true
      smaller a m = elim (Bool-cases (a == x)) [
        | inl same ↦ cc (s.0, m, ap (contains xs) ((e.beq_iff a x).0 same))
        | inr other ↦
            rw (contains-set_remove, other) (rw (h a (unfold contains in ground (arith, m))))
      ]

  -- A set inside another that is no longer holds all of it.
  pub contains_of_length :
      (xs ys : List A)
      → IsSetList xs
      → ((a : A) → contains xs a ≡ true → contains ys a ≡ true)
      → length ys ≤ length xs
      → (a : A) → contains ys a ≡ true
      → contains xs a ≡ true
  contains_of_length xs ys s sub h a m = elim (Bool-cases (contains xs a)) [
    | inl in_xs ↦ in_xs
    | inr out ↦ absurd (
        omega (
          arith,
          length-le_of_subset (a ∷ xs) ys (out, s)
              λ b. unfold contains in ground (arith, sub b, m, e.beq_iff a b),
        ))
  ]

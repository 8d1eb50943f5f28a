-- ===== src/Deps/StartOrder/Break.antt =====
-- About `break_cycle` (src/manager/deps.rs).
use sysd.Prelude.{
  ℕ, ◌<◌, ◌≤◌, String, ◌≡◌, refl, sym, ◌∙◌, ap, true, false, not, ◌&&◌, ◌⊎◌, none, some, List, [],
  ◌∷◌, ◌==◌, nat_eq, string_eq, contains, keep, Map, get, insert, IsMap, ltb, arith, Bool-cases,
  inl, inr, eq_iff, if◌then◌else◌,
}
use sysd.Deps.StartOrder.{precedes, least, remaining, set_zero, break_cycle, unit_type_priority}

-- Every entry of the list has the property.
abbrev All : (String × ℕ → Type 0) → List (String × ℕ) → Type 0
All P [] = Unit
All P (x ∷ xs) = P x × All P xs

least-All :
    (P : String × ℕ → Type 0) (best : String × ℕ) (xs : List (String × ℕ))
    → P best
    → All P xs
    → P (least best xs)
unfolding least
least-All P best [] b a = b
least-All P best (x ∷ xs) b a = elim (Bool-cases (precedes x best)) [
  | inl h ↦ rw h (least-All P x xs a.0 a.1)
  | inr h ↦ rw h (least-All P best xs b a.1)
]

-- An entry that may be picked: its degree is not 0, and it is not emitted.
abbrev pub IsLeft : Map String ℕ → List String → String × ℕ → Type 0
IsLeft m result (n, degree) = (get m n ≡ some degree) × (0 < degree) × (contains result n ≡ false)

remaining-All :
    (m l : Map String ℕ) (result : List String)
    → IsMap l
    → ((n : String) (degree : ℕ) → get l n ≡ some degree → get m n ≡ some degree)
    → All (IsLeft m result) (remaining l result)
unfolding keep get
remaining-All m [] result u sub = tt
remaining-All m ((n, degree) ∷ l) result u sub =
    let later : (k : String) (d : ℕ) → get l k ≡ some d → get m k ≡ some d =
      λ k d h. sub k d (ground (arith, u.0, eq_iff n k)) in
    elim (Bool-cases (ltb 0 degree && not (contains result n))) [
      | inl h ↦ rw h (
        (sub n degree (ground (arith, eq_iff n n)), ground arith, ground arith),
        remaining-All m l result u.1 later,
      )
      | inr h ↦ rw h (remaining-All m l result u.1 later)
    ]

-- Every entry that may be picked is among the remaining ones.
remaining-member :
    (P : String × ℕ → Type 0) (l : Map String ℕ) (result : List String)
    → All P (remaining l result)
    → (n : String) (degree : ℕ) → get l n ≡ some degree
    → 0 < degree
    → contains result n ≡ false
    → P (n, degree)
unfolding keep get
remaining-member P [] result a n degree h pos fresh = cc
remaining-member P ((k, d) ∷ l) result a n degree h pos fresh = elim (Bool-cases (k == n)) [
  | inl same ↦
      let e : k ≡ n = ground (arith, eq_iff k n) in
      let e' : d ≡ degree = ground arith in rw (← e, ← e') ((rw (show_left e e') at a).0)
  | inr other ↦ elim (Bool-cases (ltb 0 d && not (contains result k))) [
    | inl left ↦ remaining-member P l result (rw left at a).1 n degree (ground arith) pos fresh
    | inr out ↦ remaining-member P l result (rw out at a) n degree (ground arith) pos fresh
  ]
]
  where
    show_left : k ≡ n → d ≡ degree → (ltb 0 d && not (contains result k)) ≡ true
    show_left e e' = ground (arith, ap (contains result) e)

-- The first entry is not behind the second.
abbrev pub NotBehind : String × ℕ → String × ℕ → Type 0
NotBehind (n, degree) (k, d) =
    (unit_type_priority n < unit_type_priority k)
    ⊎ (unit_type_priority n ≡ unit_type_priority k) × (degree ≤ d)

precedes-true : (x y : String × ℕ) → precedes x y ≡ true → NotBehind x y
unfolding precedes
precedes-true (n, degree) (k, d) h = ground arith

precedes-false : (x y : String × ℕ) → precedes x y ≡ false → NotBehind y x
unfolding precedes
precedes-false (n, degree) (k, d) h = ground arith

NotBehind-trans : (x y z : String × ℕ) → NotBehind x y → NotBehind y z → NotBehind x z
NotBehind-trans (n, a) (m, b) (k, c) p q = ground arith

least-NotBehind :
    (best : String × ℕ) (xs : List (String × ℕ)) (l : String × ℕ)
    → least best xs ≡ l
    → NotBehind l best × All (NotBehind l) xs
unfolding least
least-NotBehind best [] l e = (rw e (inr (refl, omega arith)), tt)
least-NotBehind best (x ∷ xs) l e = elim (Bool-cases (precedes x best)) [
  | inl h ↦
      let rec = least-NotBehind x xs l (ap (λ b. least (if b then x else best) xs) (sym h) ∙ e) in
      (NotBehind-trans l x best rec.0 (precedes-true x best h), rec)
  | inr h ↦
      let rec =
        least-NotBehind best xs l (ap (λ b. least (if b then x else best) xs) (sym h) ∙ e) in
      (rec.0, (NotBehind-trans l best x rec.0 (precedes-false x best h), rec.1))
]

-- If the degrees have no name twice and `break_cycle` picks a node, then the node is not
-- emitted, its degree is not 0 and is set to 0, and no other such node has a lower priority
-- number, or the same and a lower degree.
pub break_cycle-some :
    (m : Map String ℕ) (result : List String) (broken : Map String ℕ)
    → IsMap m
    → break_cycle m result ≡ some broken
    → (n : String) × (degree : ℕ) × IsLeft m result (n, degree)
      × (broken ≡ insert m n 0)
      × ((k : String) (d : ℕ) → IsLeft m result (k, d) → NotBehind (n, degree) (k, d))
unfolding break_cycle
break_cycle-some m result broken u h = go (remaining m result) refl
  where
    go :
        (l : List (String × ℕ))
        → remaining m result ≡ l
        → (n : String) × (degree : ℕ) × IsLeft m result (n, degree)
          × (broken ≡ insert m n 0)
          × ((k : String) (d : ℕ) → IsLeft m result (k, d) → NotBehind (n, degree) (k, d))
    go [] e = cc (h, ap (set_zero m) e)
    go (x ∷ xs) e =
        let behind = least-NotBehind x xs (least x xs) refl in
        let left = rw e at (remaining-All m m result u (λ n d g. g)) in
        (
          (least x xs).0,
          (least x xs).1,
          least-All (IsLeft m result) x xs left.0 left.1,
          cc (h, ap (set_zero m) e),
          λ k d l. remaining-member (NotBehind (least x xs)) m result (rw e behind) k d l.0 l.1 l.2,
        )

-- `break_cycle` picks no node only if every node that is not emitted has degree 0.
pub break_cycle-none :
    (m : Map String ℕ) (result : List String)
    → break_cycle m result ≡ none
    → (n : String) (degree : ℕ) → get m n ≡ some degree
    → contains result n ≡ false
    → degree ≡ 0
unfolding break_cycle
break_cycle-none m result h n degree g fresh = go (remaining m result) refl
  where
    go : (l : List (String × ℕ)) → remaining m result ≡ l → degree ≡ 0
    go [] e =
        let no : ¬ (0 < degree) =
          λ p. remaining-member (λ x. ⊥) m result (rw e tt) n degree g p fresh in
        omega (arith, no)
    go (x ∷ xs) e = cc (h, ap (set_zero m) e)

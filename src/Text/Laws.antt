-- ===== src/Text/Laws.antt =====
-- Texts put together and taken apart again.
use Prim.Native.Char.{Char, code}
use Prim.Native.String.{String, [] as empty, ◌∷◌ as front, ◌++◌ as append}
use Prim.Native.String.append.{nil, cons}
use Prim.Native.String.compare.{cons-nil}
use text.Mathlib.Text.{is_eq}
use sysd.Prelude.{
  ℕ, ◌≡◌, refl, ap, ◌∙◌, Bool, true, false, ◌&&◌, ◌||◌, some, List, [], ◌∷◌, ◌==◌, nat_eq,
  string_eq, if◌then◌else◌, Bool-cases, inl, inr, arith, eq_iff, beq_self,
}
use sysd.Text.{
  is_whitespace, begins_with, trim_start, trim_end, trim, in_first, lines, split_once, split_by,
  join,
}

-- Whether a character passes the test.
unfoldable pub any_char : (Char → Bool) → String → Bool
any_char p empty = false
any_char p (front c s) = p c || any_char p s

abbrev pub is_char : ℕ → Char → Bool
is_char d c = code c == d

unfoldable pub starts_white : String → Bool
starts_white empty = false
starts_white (front c s) = is_whitespace c

unfoldable pub ends_white : String → Bool
ends_white empty = false
ends_white (front c s) = if s == "" then is_whitespace c else ends_white s

-- A text without white space at its ends.
abbrev pub IsTrimmed : String → Type 0
IsTrimmed s = (starts_white s ≡ false) × (ends_white s ≡ false)

-- A line of a file: a text without a line feed, and trimmed.
abbrev pub IsLine : String → Type 0
IsLine s = (any_char (is_char 10) s ≡ false) × IsTrimmed s

pub front-nonempty : (c : Char) (s : String) → (front c s == "") ≡ false
front-nonempty c s = ap is_eq (cons-nil c s)

pub append-nonempty : (s : String) (c : Char) (t : String) → (append s (front c t) == "") ≡ false
append-nonempty empty c t = rw nil (front-nonempty c t)
append-nonempty (front d s) c t = rw cons (front-nonempty d (append s (front c t)))

trim_start_lem : (s : String) → starts_white s ≡ false → trim_start s ≡ s
unfolding trim_start starts_white
trim_start_lem empty h = refl
trim_start_lem (front c s) h = rw h refl

trim_end_lem : (s : String) → ends_white s ≡ false → trim_end s ≡ s
unfolding trim_end ends_white
trim_end_lem empty h = refl
trim_end_lem (front c s) h = elim (Bool-cases (s == "")) [
  | inl end ↦ let last = (rw end at h) in rw ((eq_iff s "").0 end) (rw last refl)
  | inr more ↦ let later = (rw more at h) in rw (trim_end_lem s later, more) ground arith
]

pub trim_lem : (s : String) → IsTrimmed s → trim s ≡ s
unfolding trim
trim_lem s h = rw (trim_end_lem s h.1) (trim_start_lem s h.0)

pub split_once-append :
    (before : String) (c : Char) (after : String)
    → any_char (is_char (code c)) before ≡ false
    → split_once (code c) (append before (front c after)) ≡ some (before, after)
unfolding any_char split_once
split_once-append empty c after h = rw (nil, split_once, beq_self (code c)) refl
split_once-append (front d s) c after h =
    rw (cons, split_once, split_once-append s c after (ground arith)) ground arith

pub split_by_lem : (p : Char → Bool) (s : String) → any_char p s ≡ false → split_by p s ≡ s ∷ []
unfolding any_char split_by in_first
split_by_lem p empty h = refl
split_by_lem p (front c s) h = rw (split_by_lem p s (ground arith)) ground arith

pub split_by-append :
    (p : Char → Bool) (s : String) (c : Char) (t : String)
    → any_char p s ≡ false
    → p c ≡ true
    → split_by p (append s (front c t)) ≡ s ∷ split_by p t
unfolding any_char split_by in_first
split_by-append p empty c t h q = rw (nil, split_by, q) refl
split_by-append p (front d s) c t h q =
    rw (cons, split_by, split_by-append p s c t (ground arith) q) ground arith

pub begins_with-append :
    (d : ℕ) (s : String) (c : Char) (t : String)
    → begins_with d s ≡ false
    → (code c == d) ≡ false
    → begins_with d (append s (front c t)) ≡ false
unfolding begins_with
begins_with-append d empty c t h q = rw nil q
begins_with-append d (front e s) c t h q = rw cons h

lines-front :
    (c : Char) (s : String) (l : String) (ls : List String)
    → (code c == 10) ≡ false
    → (code c == 13 && begins_with 10 s) ≡ false
    → lines s ≡ l ∷ ls
    → lines (front c s) ≡ front c l ∷ ls
unfolding lines in_first
lines-front c s l ls other no_return h = rw (h, other, no_return) refl

lines-feed : (c : Char) (s : String) → (code c == 10) ≡ true → lines (front c s) ≡ "" ∷ lines s
unfolding lines
lines-feed c s h = rw h refl

return_white : (c : Char) → (code c == 13) ≡ true → is_whitespace c ≡ true
unfolding is_whitespace
return_white c h = rw ((nat_eq.beq_iff (code c) 13).0 h) refl

-- A trimmed line with the line feed behind it is read as that line.
pub lines-append :
    (l : String) (c : Char) (rest : String)
    → (code c == 10) ≡ true
    → any_char (is_char 10) l ≡ false
    → ends_white l ≡ false
    → lines (append l (front c rest)) ≡ l ∷ lines rest
unfolding any_char ends_white begins_with
lines-append empty c rest feed free trimmed = rw nil (lines-feed c rest feed)
lines-append (front d empty) c rest feed free trimmed = rw cons (
    lines-front d _ _ _ (ground arith) (ground (arith, return_white d))
      (lines-append empty c rest feed refl refl))
lines-append (front d (front e l)) c rest feed free trimmed = rw cons (
    lines-front d _ _ _ (ground arith) (rw cons ground arith)
      (lines-append (front e l) c rest feed (ground arith) (rw (front-nonempty e l) at trimmed)))

-- Texts without a character that passes the test.
abbrev pub AllFree : (Char → Bool) → List String → Type 0
AllFree p [] = Unit
AllFree p (s ∷ rest) = (any_char p s ≡ false) × AllFree p rest

pub split_by-join :
    (p : Char → Bool) (c : Char) (s : String) (rest : List String)
    → p c ≡ true
    → AllFree p (s ∷ rest)
    → split_by p (join (front c empty) (s ∷ rest)) ≡ s ∷ rest
unfolding join
split_by-join p c s [] q h = split_by_lem p s h.0
split_by-join p c s (t ∷ rest) q h =
    rw (cons, nil)
      (split_by-append p s c _ h.0 q ∙ ap (λ r. s ∷ r) (split_by-join p c t rest q h.1))

pub IsTrimmed-append :
    (s : String) (c : Char) (t : String)
    → IsTrimmed s
    → is_whitespace c ≡ false
    → IsTrimmed t
    → IsTrimmed (append s (front c t))
unfolding starts_white ends_white
IsTrimmed-append s c t h q u = (go s h.0, ends s)
  where
    go : (s : String) → starts_white s ≡ false → starts_white (append s (front c t)) ≡ false
    go empty k = rw nil q
    go (front d s) k = rw cons k

    last : ends_white (front c t) ≡ false
    last = ground (arith, u.1, q)

    ends : (s : String) → ends_white (append s (front c t)) ≡ false
    ends empty = rw nil last
    ends (front d s) = rw (cons, ends_white, append-nonempty s c t) (ends s)

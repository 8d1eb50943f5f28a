-- ===== src/Prelude/Format.antt =====
-- What `format!` writes of a number and of a `Duration`.
use Prim.Native.Nat.{ℕ, zero, suc, ◌/◌, ◌%◌, ◌^◌}
use Prim.Native.String.{String, ◌++◌}
use mathlib.Core.Path.{◌≡◌, refl}
use sysd.Prelude.Tests.{ltb, nat_eq, ◌==◌, if◌then◌else◌}
use sysd.Prelude.Int.{ℤ, pos, negsuc}

digit : ℕ → String
digit d =
    if d == 0
    then "0"
    else if d == 1
    then "1"
    else if d == 2
    then "2"
    else if d == 3
    then "3"
    else if d == 4
    then "4"
    else if d == 5
    then "5"
    else if d == 6
    then "6"
    else if d == 7
    then "7"
    else if d == 8
    then "8"
    else "9"

-- A number has no more digits than its value, and one more.
decimal : ℕ → ℕ → String
decimal zero n = ""
decimal (suc f) n =
    let front = decimal f (n / 10) in if ltb n 10 then digit n else front ++ digit (n % 10)

-- `{}` of an unsigned number.
unfoldable pub show : ℕ → String
unfolding digit decimal
show n = decimal (suc n) n

-- `{}` of a signed number.
unfoldable pub show_ℤ : ℤ → String
unfolding show
show_ℤ (pos n) = show n
show_ℤ (negsuc n) = "-" ++ show (suc n)

-- The digits behind the point, with no zeros at the end: `width` places hold the value `n`.
fraction : ℕ → ℕ → String
unfolding digit
fraction zero n = ""
fraction (suc width) n =
    let place = 10 ^ width in
    let rest = fraction width (n % place) in if n == 0 then "" else digit (n / place) ++ rest

with_fraction : ℕ → ℕ → ℕ → String → String
unfolding show fraction
with_fraction whole n width unit =
    if n == 0 then show whole ++ unit else show whole ++ "." ++ fraction width n ++ unit

-- `{:?}` of a `Duration`, in nanoseconds.
unfoldable pub show_duration : ℕ → String
unfolding with_fraction
show_duration d =
    if ltb 999_999_999 d
    then with_fraction (d / 1_000_000_000) (d % 1_000_000_000) 9 "s"
    else if ltb 999_999 d
    then with_fraction (d / 1_000_000) (d % 1_000_000) 6 "ms"
    else if ltb 999 d
    then with_fraction (d / 1000) (d % 1000) 3 "µs"
    else with_fraction d 0 0 "ns"

show_test :
    (show_ℤ (negsuc 8) ≡ "-9")
    × (show_duration 1_500_000_000 ≡ "1.5s")
    × (show_duration 100_000_000 ≡ "100ms")
    × (show 4_194_304 ≡ "4194304")
    × (show_duration 1_000_000_050 ≡ "1.00000005s")
unfolding show_ℤ show_duration
show_test = (refl, refl, refl, refl, refl)

-- ===== src/Units/Fields/Values.antt =====
-- Numbers, durations, sizes and calendar expressions (`parse_duration`, `parse_memory` and
-- `parse_cpu_quota` of src/units/service.rs, `CalendarSpec::parse` of src/units/timer.rs). A product
-- that leaves the 64 bits wraps around, as it does in a build without overflow checks.
use Prim.Native.Char.{code}
use Prim.Native.String.{[] as empty, ◌∷◌ as front}
use sysd.Prelude.{
  ℕ, ℤ, zero, suc, pos, negsuc, ◌*◌, ◌%◌, ◌^◌, String, not, ◌&&◌, ◌==◌, string_eq, nat_eq, leb,
  contains, if◌then◌else◌, Option, none, some, ◌>>=◌, unwrap_or, map_or, List, [], ◌∷◌,
}
use sysd.Text.{trim, split, has_text, strip_end, from_str_radix, digits}
use sysd.Units.Words.{to_lowercase}
use sysd.Units.Sections.{Duration}
use sysd.Units.Defaults.{from_secs, from_millis}
use sysd.Units.Kinds.{CalendarSpec, named, day_of_week, time, full}

abbrev pub parse_u32 : String → Option ℕ
parse_u32 s = from_str_radix (2 ^ 32) 10 s

abbrev pub parse_u64 : String → Option ℕ
parse_u64 s = from_str_radix (2 ^ 64) 10 s

abbrev opposite : ℕ → ℤ
opposite zero = pos 0
opposite (suc n) = negsuc n

abbrev in_i32 : ℕ → Option ℤ
in_i32 n = if leb n (2 ^ 31) then some (opposite n) else none

-- `i32::from_str`: a sign may stand first.
unfoldable pub parse_i32 : String → Option ℤ
parse_i32 empty = none
parse_i32 (front c s) =
    if code c == b'-'
    then (if s == "" then none else digits 10 s 0 >>= in_i32)
    else from_str_radix (2 ^ 31) 10 (front c s) >>= (λ n. some (pos n))

-- `parse::<u64>` of `n` and `Duration::from_secs` of its product with `unit`.
abbrev seconds_of : ℕ → String → Option Duration
seconds_of unit n = parse_u64 n >>= (λ v. some (from_secs (v * unit % 2 ^ 64)))

abbrev milliseconds_of : String → Option Duration
milliseconds_of n = parse_u64 n >>= (λ v. some (from_millis v))

-- The first of the endings that the text has says how it is read.
unfoldable pub by_ending :
    {T : Type 0} → List (String × (String → Option T)) → (String → Option T) → String → Option T
by_ending [] otherwise s = otherwise s
by_ending ((ending, read) ∷ rest) otherwise s =
    let later = by_ending rest otherwise s in map_or later read (strip_end ending s)

unfoldable pub parse_duration : String → Option Duration
unfolding by_ending
parse_duration s =
    by_ending
      (("ms", milliseconds_of)
        ∷ ("min", seconds_of 60)
        ∷ ("sec", seconds_of 1)
        ∷ ("week", seconds_of (7 * 86400))
        ∷ ("s", seconds_of 1)
        ∷ ("h", seconds_of 3600)
        ∷ ("d", seconds_of 86400)
        ∷ ("w", seconds_of (7 * 86400))
        ∷ [])
      (seconds_of 1) (trim s)

abbrev bytes_of : ℕ → String → Option ℕ
bytes_of unit n = parse_u64 n >>= (λ v. some (v * unit % 2 ^ 64))

unfoldable pub parse_memory : String → Option ℕ
unfolding by_ending
parse_memory s =
    by_ending
      (("G", bytes_of (1024 * 1024 * 1024))
        ∷ ("M", bytes_of (1024 * 1024))
        ∷ ("K", bytes_of 1024)
        ∷ [])
      parse_u64 (trim s)

unfoldable pub parse_cpu_quota : String → Option ℕ
parse_cpu_quota s = strip_end "%" s >>= parse_u32

abbrev shortcuts : List String
shortcuts =
    "minutely" ∷ "hourly" ∷ "daily" ∷ "weekly" ∷ "monthly" ∷ "yearly" ∷ "quarterly" ∷ "semiannually"
    ∷ "annually" ∷ []

abbrev days : List String
days =
    "mon" ∷ "tue" ∷ "wed" ∷ "thu" ∷ "fri" ∷ "sat" ∷ "sun" ∷ "monday" ∷ "tuesday" ∷ "wednesday"
    ∷ "thursday" ∷ "friday" ∷ "saturday" ∷ "sunday" ∷ []

abbrev second_of : List String → ℕ
second_of [] = 0
second_of (s ∷ rest) = unwrap_or 0 (parse_u32 s)

-- The parts between the colons, as a time if the first two are numbers.
abbrev time_of : List String → Option CalendarSpec
time_of [] = none
time_of (h ∷ []) = none
time_of (h ∷ m ∷ rest) =
    parse_u32 h >>= (λ hour. parse_u32 m >>= (λ minute. some (time hour minute (second_of rest))))

-- `CalendarSpec::parse`.
unfoldable pub parse_calendar_spec : String → CalendarSpec
parse_calendar_spec raw =
    let s = trim raw in
    let word = to_lowercase s in
    if contains shortcuts word
    then named word
    else if contains days word
    then day_of_week s
    else if not (has_text "-" s) && not (has_text "*" s) && has_text ":" s
    then unwrap_or (full s) (time_of (split b':' s))
    else full s

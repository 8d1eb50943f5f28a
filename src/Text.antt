-- ===== src/Text.antt =====
-- The operations of `str` that the program reads text with, by recursion on the text.
pub mod Laws
use Prim.Native.Char.{Char, code}
use Prim.Native.String.{String, [] as empty, ◌∷◌ as front, ◌++◌, char_at}
use sysd.Prelude.{
  map_or, ℕ, zero, suc, Bool, true, false, ◌&&◌, ◌||◌, Option, none, some, List, [], ◌∷◌, ◌==◌,
  nat_eq, string_eq, leb, ltb, is_some, ◌>>=◌, ◌-◌, ◌*◌, ◌+◌, if◌then◌else◌, keep, not,
}

-- `char::is_whitespace`: the characters that Unicode lists as White_Space.
unfoldable pub is_whitespace : Char → Bool
is_whitespace c =
    let n = code c in
    (leb 9 n && leb n 13)
    || n == 32
    || n == 133
    || n == 160
    || n == 5760
    || (leb 8192 n && leb n 8202)
    || n == 8232
    || n == 8233
    || n == 8239
    || n == 8287
    || n == 12288

-- `str::starts_with` of a character.
unfoldable pub begins_with : ℕ → String → Bool
begins_with d empty = false
begins_with d (front c s) = code c == d

-- `str::trim_start`.
unfoldable pub trim_start : String → String
trim_start empty = empty
trim_start (front c s) = let rest = trim_start s in if is_whitespace c then rest else front c s

-- `str::trim_end`.
unfoldable pub trim_end : String → String
trim_end empty = empty
trim_end (front c s) =
    let rest = trim_end s in if is_whitespace c && rest == "" then "" else front c rest

-- `str::trim`.
unfoldable pub trim : String → String
unfolding trim_start trim_end
trim s = trim_start (trim_end s)

-- `str::trim_start_matches` of a character.
unfoldable pub trim_start_matches : ℕ → String → String
trim_start_matches d empty = empty
trim_start_matches d (front c s) =
    let rest = trim_start_matches d s in if code c == d then rest else front c s

unfoldable pub in_first : Char → List String → List String
in_first c [] = front c empty ∷ []
in_first c (line ∷ rest) = front c line ∷ rest

-- `str::lines`: a line ends at a line feed, with the carriage return before it if there is one.
unfoldable pub lines : String → List String
unfolding in_first begins_with
lines empty = []
lines (front c s) =
    let rest = lines s in
    if code c == 10
    then "" ∷ rest
    else if code c == 13 && begins_with 10 s
    then rest
    else in_first c rest

-- `str::split_once` of a character, which is also `find` with `split_at`, less the character.
unfoldable pub split_once : ℕ → String → Option (String × String)
split_once d empty = none
split_once d (front c s) =
    let rest = split_once d s in
    if code c == d
    then some ("", s)
    else elim rest [ none ↦ none | some (before, after) ↦ some (front c before, after) ]

-- `str::split` at the characters that pass the test: there is always a first part.
unfoldable pub split_by : (Char → Bool) → String → List String
unfolding in_first
split_by p empty = "" ∷ []
split_by p (front c s) = let rest = split_by p s in if p c then "" ∷ rest else in_first c rest

-- `str::split` of a character.
unfoldable pub split : ℕ → String → List String
unfolding split_by
split d = split_by (λ c. code c == d)

-- `str::split_whitespace`: the parts between white space that are not empty.
unfoldable pub split_whitespace : String → List String
unfolding split_by
split_whitespace s = keep (λ word. not (word == "")) (split_by is_whitespace s)

-- `str::strip_prefix` of a character.
unfoldable pub strip_prefix : ℕ → String → Option String
strip_prefix d empty = none
strip_prefix d (front c s) = if code c == d then some s else none

-- The `join` of a list of texts.
unfoldable pub join : String → List String → String
join separator [] = ""
join separator (s ∷ []) = s
join separator (s ∷ t ∷ rest) = s ++ (separator ++ join separator (t ∷ rest))

-- `str::strip_prefix`, the prefix first.
unfoldable pub strip_text : String → String → Option String
strip_text empty s = some s
strip_text (front d p) empty = none
strip_text (front d p) (front c s) =
    let rest = strip_text p s in if code c == code d then rest else none

-- `str::starts_with`, the prefix first.
unfoldable pub starts_with : String → String → Bool
unfolding strip_text
starts_with prefix s = is_some (strip_text prefix s)

-- `str::contains`, what is looked for first.
unfoldable pub has_text : String → String → Bool
unfolding starts_with
has_text needle empty = starts_with needle ""
has_text needle (front c s) =
    let later = has_text needle s in starts_with needle (front c s) || later

-- `str::to_ascii_uppercase`.
unfoldable pub to_ascii_uppercase : String → String
to_ascii_uppercase empty = empty
to_ascii_uppercase (front c s) =
    front
      (if leb 97 (code c) && leb (code c) 122
        then char_at "ABCDEFGHIJKLMNOPQRSTUVWXYZ" (code c - 97)
        else c)
      (to_ascii_uppercase s)

abbrev digit_value : ℕ → ℕ → Option ℕ
digit_value radix n =
    let value =
      if leb 48 n && leb n 57
      then n - 48
      else if leb 97 n && leb n 122
      then n - 87
      else if leb 65 n && leb n 90
      then n - 55
      else radix in
    if ltb value radix then some value else none

-- The number that the digits behind `n` continue.
unfoldable pub digits : ℕ → String → ℕ → Option ℕ
digits radix empty n = some n
digits radix (front c s) n = do d ← digit_value radix (code c); digits radix s (n * radix + d)

abbrev in_range : ℕ → ℕ → Option ℕ
in_range limit n = if ltb n limit then some n else none

-- `from_str_radix` of an unsigned type with the numbers below `limit`: one `+` may stand first, at
-- least one digit follows, and a number out of range is refused.
unfoldable pub from_str_radix : ℕ → ℕ → String → Option ℕ
unfolding digits
from_str_radix limit radix empty = none
from_str_radix limit radix (front c s) =
    let body = if code c == b'+' then s else front c s in
    if body == "" then none else digits radix body 0 >>= in_range limit

-- `str::rsplit_once` of a character, which is also `rfind` with the parts around it.
unfoldable pub rsplit_once : ℕ → String → Option (String × String)
rsplit_once d empty = none
rsplit_once d (front c s) = elim (rsplit_once d s) [
  | some (before, after) ↦ some (front c before, after)
  | none ↦ if code c == d then some ("", s) else none
]

-- `str::to_ascii_lowercase`.
unfoldable pub to_ascii_lowercase : String → String
to_ascii_lowercase empty = empty
to_ascii_lowercase (front c s) =
    front
      (if leb 65 (code c) && leb (code c) 90
        then char_at "abcdefghijklmnopqrstuvwxyz" (code c - 65)
        else c)
      (to_ascii_lowercase s)

-- `str::strip_suffix`, the suffix first: what stands before it, if the text ends with it.
unfoldable pub strip_end : String → String → Option String
strip_end suffix empty = if suffix == "" then some "" else none
strip_end suffix (front c s) =
    let rest = strip_end suffix s in
    if front c s == suffix then some "" else map_or none (λ before. some (front c before)) rest

unfoldable pub text_length : String → ℕ
text_length empty = 0
text_length (front c s) = suc (text_length s)

-- The loop of `str::replace`: `skip` characters of a match are left, and `n` stand behind its first.
unfoldable pub replace_loop : String → String → ℕ → ℕ → String → String
replace_loop pattern to n skip empty = ""
replace_loop pattern to n (suc skip) (front c s) = replace_loop pattern to n skip s
replace_loop pattern to n zero (front c s) =
    let matched = replace_loop pattern to n n s in
    let kept = replace_loop pattern to n zero s in
    if starts_with pattern (front c s) then to ++ matched else front c kept

-- `str::replace` of a pattern that is not empty.
unfoldable pub replace : String → String → String → String
unfolding text_length replace_loop
replace pattern to s = replace_loop pattern to (text_length pattern - 1) 0 s

-- `str::trim_end_matches` of a character.
unfoldable pub trim_end_matches : ℕ → String → String
trim_end_matches d empty = empty
trim_end_matches d (front c s) =
    let rest = trim_end_matches d s in if code c == d && rest == "" then "" else front c rest

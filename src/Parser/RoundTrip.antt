-- ===== src/Parser/RoundTrip.antt =====
-- Unit files as they are written, and read again (src/units/parser.rs).
use Prim.Native.Char.{Char}
use Prim.Native.String.{String, [] as empty, ◌∷◌ as front, ◌++◌ as append}
use sysd.Prelude.{
  ℕ, ◌≡◌, refl, ap, true, false, not, some, List, [], ◌∷◌, map, keep, contains, ◌==◌, string_eq,
  if◌then◌else◌,
}
use sysd.Text.{
  is_whitespace, begins_with, trim, trim_start_matches, split, split_by, split_whitespace, join,
}
use sysd.Text.Laws.{
  any_char, is_char, IsTrimmed, trim_lem, split_once-append, split_by-join, begins_with-append,
  AllFree, append-nonempty,
}
use sysd.Parser.{
  to_uppercase, is_skipped, space_separated_keys, single_value_keys, values_of, parse_line,
}

-- Words: texts that are not empty and hold no white space.
abbrev pub AllWords : List String → Type 0
AllWords [] = Unit
AllWords (s ∷ rest) = ((s == "") ≡ false × (any_char is_whitespace s ≡ false)) × AllWords rest

abbrev pub AllTrimmed : List String → Type 0
AllTrimmed [] = Unit
AllTrimmed (s ∷ rest) = IsTrimmed s × AllTrimmed rest

-- The values of a key that `values_of` reads as they are, by the key's kind.
pub data HasValues (name : String) : List String → Type 0 where
  words :
      {values : List String}
      → contains space_separated_keys name ≡ true
      → AllWords values
      → HasValues name values
  whole :
      {value : String}
      → contains space_separated_keys name ≡ false
      → contains single_value_keys name ≡ true
      → HasValues name (value ∷ [])
  parts :
      {value : String} {rest : List String}
      → contains space_separated_keys name ≡ false
      → contains single_value_keys name ≡ false
      → AllFree (is_char b',') (value ∷ rest)
      → AllTrimmed (value ∷ rest)
      → HasValues name (value ∷ rest)

-- The values of an entry as a file writes them.
unfoldable pub print_values : String → List String → String
print_values name values = join (if contains space_separated_keys name then " " else ",") values

unfoldable pub print_entry : String × List String → String
unfolding print_values
print_entry (name, values) = append name (front "=" (print_values name values))

-- An entry that reads as it is written: the name is in upper case, trimmed, without `=`, and no
-- comment or header begins with it; the values are written as a trimmed text that does not begin
-- with `=`, and are read as they are; the whole stands on one line.
pub record IsEntry (upper : Char → String) (e : String × List String) : Type 0 where
  pub name_upper : to_uppercase upper e.0 ≡ e.0
  pub name_trimmed : IsTrimmed e.0
  pub name_free : any_char (is_char b'=') e.0 ≡ false
  pub no_hash : begins_with b'#' e.0 ≡ false
  pub no_semicolon : begins_with b';' e.0 ≡ false
  pub no_bracket : begins_with b'[' e.0 ≡ false
  pub one_line : any_char (is_char 10) (print_entry e) ≡ false
  pub values_trimmed : IsTrimmed (print_values e.0 e.1)
  pub no_equals : begins_with b'=' (print_values e.0 e.1) ≡ false
  pub has_values : HasValues e.0 e.1

trim_start_matches_lem : (d : ℕ) (s : String) → begins_with d s ≡ false → trim_start_matches d s ≡ s
unfolding begins_with trim_start_matches
trim_start_matches_lem d empty h = refl
trim_start_matches_lem d (front c s) h = rw h refl

map-trim : (values : List String) → AllTrimmed values → map trim values ≡ values
map-trim [] h = refl
map-trim (v ∷ vs) h = rw (trim_lem v h.0) (ap (λ r. v ∷ r) (map-trim vs h.1))

keep-words :
    (values : List String) → AllWords values → keep (λ word. not (word == "")) values ≡ values
unfolding keep
keep-words [] h = refl
keep-words (v ∷ vs) h = rw h.0.0 (ap (λ r. v ∷ r) (keep-words vs h.1))

AllWords-AllFree : (values : List String) → AllWords values → AllFree is_whitespace values
AllWords-AllFree [] h = tt
AllWords-AllFree (v ∷ vs) h = (h.0.1, AllWords-AllFree vs h.1)

split_whitespace-join :
    (values : List String) → AllWords values → split_whitespace (join " " values) ≡ values
unfolding split_whitespace split_by keep is_whitespace join
split_whitespace-join [] h = refl
split_whitespace-join (v ∷ vs) h =
    rw (split_by-join is_whitespace " " v vs refl (AllWords-AllFree (v ∷ vs) h))
      (keep-words (v ∷ vs) h)

map-split-join :
    (v : String) (vs : List String)
    → AllFree (is_char b',') (v ∷ vs)
    → AllTrimmed (v ∷ vs)
    → map trim (split b',' (join "," (v ∷ vs))) ≡ v ∷ vs
unfolding split
map-split-join v vs free trimmed =
    rw (split_by-join (is_char b',') "," v vs refl free) (map-trim (v ∷ vs) trimmed)

print_values-parts :
    (name : String) (values : List String)
    → contains space_separated_keys name ≡ false
    → print_values name values ≡ join "," values
unfolding print_values
print_values-parts name values k = rw k refl

values_of-print_values :
    (name : String) (values : List String)
    → HasValues name values
    → values_of name (print_values name values) ≡ values
unfolding values_of print_values join
values_of-print_values name values (words k h) = rw k (split_whitespace-join values h)
values_of-print_values name _ (whole k one) = rw (k, one) refl
values_of-print_values name _ (parts k many free trimmed) =
    rw (print_values-parts name _ k, k, many) (map-split-join _ _ free trimmed)

is_skipped-print_entry :
    (upper : Char → String) (e : String × List String)
    → IsEntry upper e
    → is_skipped (print_entry e) ≡ false
unfolding is_skipped print_entry
is_skipped-print_entry upper (name, values) h =
    rw
      (
        begins_with-append b'#' name "=" (print_values name values) h.no_hash refl,
        begins_with-append b';' name "=" (print_values name values) h.no_semicolon refl,
        append-nonempty name "=" (print_values name values),
      )
      refl

-- The line of an entry is read as that entry.
pub parse_line-print_entry :
    (upper : Char → String) (e : String × List String)
    → IsEntry upper e
    → parse_line upper (print_entry e) ≡ some e
unfolding parse_line print_entry
parse_line-print_entry upper (name, values) h =
    rw
      (
        is_skipped-print_entry upper (name, values) h,
        split_once-append name "=" (print_values name values) h.name_free,
        trim_lem name h.name_trimmed,
        h.name_upper,
        trim_start_matches_lem b'=' (print_values name values) h.no_equals,
        trim_lem (print_values name values) h.values_trimmed,
        values_of-print_values name values h.has_values,
      )
      refl

-- ===== src/Units/Fields/View.antt =====
-- The values of one section of a unit file, and the readings of them (src/units/parse_units.rs).
use sysd.Prelude.{
  ℕ, ℤ, ◌-◌, ◌^◌, String, Bool, false, ◌||◌, ◌==◌, string_eq, nat_eq, if◌then◌else◌, Option, none,
  some, ◌>>=◌, unwrap_or, map_or, List, [], ◌∷◌, ◌++◌, get, has_key,
}
use sysd.Text.{split_whitespace, split_once, trim_start_matches, from_str_radix, to_ascii_lowercase}
use sysd.Parser.{ParsedFile, ParsedSection}
use sysd.Units.Fields.Values.{parse_i32}

abbrev pub SectionView : Type 0
SectionView = Option ParsedSection

unfoldable pub view_of : ParsedFile → String → SectionView
view_of parsed name = get parsed name

unfoldable pub has : SectionView → String → Bool
has view key = map_or false (λ section. has_key section key) view

unfoldable pub values : SectionView → String → Option (List (ℕ × String))
values view key = view >>= (λ section. get section key)

abbrev first_value : List (ℕ × String) → Option String
first_value [] = none
first_value ((line, value) ∷ rest) = some value

unfoldable pub first : SectionView → String → Option String
unfolding values
first view key = values view key >>= first_value

unfoldable pub texts : List (ℕ × String) → List String
texts [] = []
texts ((line, value) ∷ rest) = value ∷ texts rest

unfoldable pub strings : SectionView → String → List String
unfolding values texts
strings view key = map_or [] texts (values view key)

unfoldable pub all_words : List (ℕ × String) → List String
all_words [] = []
all_words ((line, value) ∷ rest) = split_whitespace value ++ all_words rest

unfoldable pub words : SectionView → String → List String
unfolding values all_words
words view key = map_or [] all_words (values view key)

unfoldable pub first_string : SectionView → String → Option String
unfolding first
first_string view key = first view key

-- A path is its text.
unfoldable pub first_pathbuf : SectionView → String → Option String
unfolding first
first_pathbuf view key = first view key

unfoldable pub parse_yes_no : String → Bool
parse_yes_no value =
    let word = to_ascii_lowercase value in
    word == "yes" || word == "true" || word == "1" || word == "on"

unfoldable pub first_bool : SectionView → String → Option Bool
unfolding first parse_yes_no
first_bool view key = first view key >>= (λ value. some (parse_yes_no value))

unfoldable pub first_parsed : {T : Type 0} → SectionView → String → (String → Option T) → Option T
unfolding first
first_parsed view key parse = first view key >>= parse

-- The default of the type comes first.
unfoldable pub parsed_or_default : {T : Type 0} → T → SectionView → String → (String → Option T) → T
unfolding first_parsed
parsed_or_default d view key parse = unwrap_or d (first_parsed view key parse)

unfoldable pub parse_limit : String → Option ℕ
parse_limit value =
    if to_ascii_lowercase value == "infinity"
    then some (2 ^ 64 - 1)
    else from_str_radix (2 ^ 64) 10 value

unfoldable pub parse_octal : String → Option ℕ
parse_octal value = from_str_radix (2 ^ 32) 8 (trim_start_matches b'0' value)

unfoldable pub parse_restrict_namespaces : String → Option (List String)
parse_restrict_namespaces value =
    let lower = to_ascii_lowercase value in
    if lower == "yes" || lower == "true" || lower == "1" || lower == "on"
    then some []
    else if lower == "no" || lower == "false" || lower == "0" || lower == "off"
    then none
    else some (split_whitespace value)

abbrev with_pair : Option (String × String) → List (String × String) → List (String × String)
with_pair none vars = vars
with_pair (some pair) vars = pair ∷ vars

unfoldable pub variables : List String → List (String × String)
variables [] = []
variables (part ∷ parts) = with_pair (split_once b'=' part) (variables parts)

-- `shlex::split` is the parameter.
unfoldable pub parse_environment :
    (String → Option (List String)) → String → Option (List (String × String))
unfolding variables
parse_environment shlex_split raw = shlex_split raw >>= (λ parts. some (variables parts))

unfoldable pub environment_of :
    (String → Option (List String)) → List (ℕ × String) → List (String × String)
unfolding parse_environment
environment_of shlex_split [] = []
environment_of shlex_split ((line, value) ∷ rest) =
    unwrap_or [] (parse_environment shlex_split value) ++ environment_of shlex_split rest

abbrev with_number : Option ℤ → List ℤ → List ℤ
with_number none ns = ns
with_number (some n) ns = n ∷ ns

unfoldable pub numbers : List String → List ℤ
unfolding parse_i32
numbers [] = []
numbers (raw ∷ rest) = with_number (parse_i32 raw) (numbers rest)

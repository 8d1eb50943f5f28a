-- ===== src/Parser.antt =====
-- The reader of unit files (src/units/parser.rs): the sections of a file, each a map from the key,
-- in upper case, to the values of its lines with their numbers. `char::to_uppercase`, which comes
-- from Unicode's tables, is the parameter `upper`, from a character to the characters that it
-- becomes. Reading the file itself and the shell quoting of `Environment` are left out.
pub mod Tests
pub mod Blocks
pub mod Entries
pub mod RoundTrip
pub mod WholeFile
use Prim.Native.Char.{Char}
use Prim.Native.String.{String, [] as empty, ◌∷◌ as front, ◌++◌ as append}
use sysd.Prelude.{
  ℕ, ◌+◌, ◌%◌, ◌^◌, Bool, true, false, ◌||◌, ◌==◌, string_eq, if◌then◌else◌, Option, none, some,
  List, [], ◌∷◌, ◌++◌, map, Map, get, has_key, insert, contains, not,
}
use sysd.Text.{begins_with, trim, trim_start_matches, lines, split_once, split, split_whitespace}

abbrev pub ParsedSection : Type 0
ParsedSection = Map String (List (ℕ × String))

abbrev pub ParsedFile : Type 0
ParsedFile = Map String ParsedSection

-- `Result<ParsedFile, ParseError>` with the one error that `parse_file` returns.
pub data Parsed : Type 0 where
  ok : ParsedFile → Parsed
  duplicate_section : String → Parsed

abbrev space_separated_keys : List String
space_separated_keys =
    "AFTER" ∷ "BEFORE" ∷ "REQUIRES" ∷ "WANTS" ∷ "CONFLICTS" ∷ "WANTEDBY" ∷ "REQUIREDBY"
    ∷ "CONDITIONPATHEXISTS" ∷ []

abbrev single_value_keys : List String
single_value_keys =
    "EXECSTART" ∷ "EXECSTARTPRE" ∷ "EXECSTARTPOST" ∷ "EXECSTOP" ∷ "EXECSTOPPRE" ∷ "EXECSTOPPOST"
    ∷ "EXECRELOAD" ∷ "EXECCONDITION" ∷ "DESCRIPTION" ∷ "DOCUMENTATION" ∷ "OPTIONS" ∷ "WHAT"
    ∷ "WHERE" ∷ "TYPE" ∷ "WORKINGDIRECTORY" ∷ "ROOTDIRECTORY" ∷ "PIDFILE" ∷ "BUSNAME" ∷ "TTYPATH"
    ∷ "ENVIRONMENTFILE" ∷ "PASSEDFILE" ∷ "CAPABILITYBOUNDINGSET" ∷ "AMBIENTCAPABILITIES"
    ∷ "SYSTEMCALLFILTER" ∷ "READWRITEPATHS" ∷ "READONLYPATHS" ∷ "INACCESSIBLEPATHS" ∷ "USER"
    ∷ "GROUP" ∷ []

-- `str::to_uppercase`.
unfoldable pub to_uppercase : (Char → String) → String → String
to_uppercase upper empty = ""
to_uppercase upper (front c s) = append (upper c) (to_uppercase upper s)

-- The lines that the loop over a section passes over.
unfoldable pub is_skipped : String → Bool
is_skipped line = begins_with b'#' line || begins_with b';' line || line == ""

unfoldable pub values_of : String → String → List String
values_of name value =
    if contains space_separated_keys name
    then split_whitespace value
    else if contains single_value_keys name
    then value ∷ []
    else map trim (split b',' value)

-- The key and the values of a line that has any: `split_at(pos)` leaves the `=` at the head of what
-- follows, and `trim_start_matches` then drops it with the others behind it.
unfoldable pub parse_line : (Char → String) → String → Option (String × List String)
unfolding is_skipped to_uppercase values_of
parse_line upper line = if is_skipped line then none else elim (split_once b'=' line) [
  | none ↦ none
  | some (before, after) ↦
      let name = to_uppercase upper (trim before) in
      let value = trim (trim_start_matches b'=' after) in some (name, values_of name value)
]

-- `entry_number += 1`, which wraps at 2 ^ 32 as a release build does.
unfoldable pub numbered : ℕ → List String → List (ℕ × String)
numbered n [] = []
numbered n (v ∷ vs) = (n, v) ∷ numbered ((n + 1) % 2 ^ 32) vs

unfoldable pub number_after : ℕ → List String → ℕ
number_after n [] = n
number_after n (v ∷ vs) = number_after ((n + 1) % 2 ^ 32) vs

-- `entries.entry(name).or_default()`.
unfoldable pub or_default : Option (List (ℕ × String)) → List (ℕ × String)
or_default none = []
or_default (some vs) = vs

-- The loop over the lines of a section, from the entries and the number so far.
unfoldable pub section_loop : (Char → String) → List String → ℕ → ParsedSection → ParsedSection
unfolding parse_line numbered number_after or_default
section_loop upper [] n entries = entries
section_loop upper (line ∷ rest) n entries = elim (parse_line upper line) [
  | none ↦ section_loop upper rest n entries
  | some (name, values) ↦
      section_loop upper rest (number_after n values)
        (insert entries name (or_default (get entries name) ++ numbered n values))
]

unfoldable pub parse_section : (Char → String) → List String → ParsedSection
unfolding section_loop
parse_section upper section_lines = section_loop upper section_lines 0 []

-- `if sections.contains_key(&name)`, where a section ends.
unfoldable pub store_section : (Char → String) → ParsedFile → String → List String → Parsed
unfolding parse_section
store_section upper sections name section_lines =
    if has_key sections name
    then duplicate_section name
    else ok (insert sections name (parse_section upper section_lines))

-- `return Err(...)` where a section cannot be stored.
unfoldable pub and_then : Parsed → (ParsedFile → Parsed) → Parsed
and_then (ok sections) next = next sections
and_then (duplicate_section name) next = duplicate_section name

-- The lines before the first section are skipped.
unfoldable pub skip_to_section : List String → List String
skip_to_section [] = []
skip_to_section (line ∷ rest) =
    let later = skip_to_section rest in if begins_with b'[' line then line ∷ rest else later

-- The loop over the lines behind the first header, with the section that is being read.
unfoldable pub file_loop :
    (Char → String) → List String → ParsedFile → String → List String → Parsed
unfolding store_section and_then
file_loop upper [] sections name body =
    if not (name == "") then store_section upper sections name body else ok sections
file_loop upper (line ∷ rest) sections name body =
    let going = file_loop upper rest sections name (body ++ line ∷ []) in
    let next = λ (stored : ParsedFile). file_loop upper rest stored line [] in
    if begins_with b'[' line then and_then (store_section upper sections name body) next else going

unfoldable pub parse_file : (Char → String) → String → Parsed
unfolding skip_to_section file_loop
parse_file upper content = elim (skip_to_section (map trim (lines content))) [
  | [] ↦ ok []
  | first_section ∷ rest ↦ file_loop upper rest [] first_section []
]

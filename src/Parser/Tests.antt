-- ===== src/Parser/Tests.antt =====
-- Tests of the reader of unit files.
use Prim.Native.Char.{Char, code}
use Prim.Native.String.{String, [] as empty, ◌∷◌ as front, char_at}
use sysd.Prelude.{◌≡◌, refl, if◌then◌else◌, leb, ◌&&◌, ◌-◌, List, [], ◌∷◌, some, get, string_eq}
use sysd.Text.{trim, lines, split_whitespace, split}
use sysd.Parser.{parse_file, parse_section, ok, duplicate_section}
use sysd.Parser.Blocks.{parse_file-stored}
use sysd.Parser.Entries.{get-parse_section}
use sysd.Parser.RoundTrip.{IsEntry, words, parts}
use sysd.Parser.WholeFile.{
  Entry, File, AllSections, IsSection, print_file, number_file, parse_file-print_file,
}

-- `char::to_uppercase` of the characters of ASCII.
abbrev ascii_upper : Char → String
ascii_upper c =
    if leb 97 (code c) && leb (code c) 122
    then front (char_at "ABCDEFGHIJKLMNOPQRSTUVWXYZ" (code c - 97)) empty
    else front c empty

trim_example : trim " \t a b \r\n" ≡ "a b"
unfolding trim sysd.Text.is_whitespace
trim_example = refl

lines_example : lines "a\r\nb\n\nc\r" ≡ "a" ∷ "b" ∷ "" ∷ "c\r" ∷ []
unfolding lines
lines_example = refl

split_whitespace_example : split_whitespace "  a.service\tb.target " ≡ "a.service" ∷ "b.target" ∷ []
unfolding split_whitespace sysd.Prelude.keep sysd.Text.is_whitespace
split_whitespace_example = refl

split_example : split 44 ",a,b" ≡ "" ∷ "a" ∷ "b" ∷ []
unfolding split
split_example = refl

parse_file_example :
    parse_file ascii_upper
      "x\n[Unit]\n# c\nAfter=a b\nafter = c\nDescription==A, b\n[Service]\nEnvironment=A=1, B\n"
    ≡ ok (
        (
          "[Unit]",
          ("AFTER", (0, "a") ∷ (1, "b") ∷ (2, "c") ∷ []) ∷ ("DESCRIPTION", (3, "A, b") ∷ []) ∷ [],
        )
        ∷ ("[Service]", ("ENVIRONMENT", (0, "A=1") ∷ (1, "B") ∷ []) ∷ [])
        ∷ [])
unfolding parse_file lines trim sysd.Text.is_whitespace sysd.Prelude.get sysd.Prelude.insert
    sysd.Text.split_once sysd.Prelude.contains split_whitespace sysd.Text.trim_start_matches split
    sysd.Prelude.keep
parse_file_example = refl

parse_file-again_example : parse_file ascii_upper "[A]\n[B]\n[A]\n" ≡ duplicate_section "[A]"
unfolding parse_file lines trim sysd.Text.is_whitespace sysd.Prelude.get sysd.Prelude.insert
parse_file-again_example = refl

parse_file-stored_example :
    parse_file ascii_upper "[A]\nx=1,2\n[B]\n[A]\n" ≡ duplicate_section "[A]"
unfolding sysd.Parser.Blocks.first_repeated sysd.Parser.Blocks.grouped lines trim
    sysd.Text.is_whitespace sysd.Prelude.contains
parse_file-stored_example = parse_file-stored ascii_upper "[A]\nx=1,2\n[B]\n[A]\n"

get-parse_section_example :
    get (parse_section ascii_upper ("a=1" ∷ "b=2,3" ∷ "#" ∷ "A=4" ∷ [])) "A"
    ≡ some ((0, "1") ∷ (3, "4") ∷ [])
unfolding sysd.Parser.Entries.has_line sysd.Parser.Entries.read_lines sysd.Parser.parse_line
    sysd.Text.begins_with sysd.Text.split_once trim sysd.Text.is_whitespace
    sysd.Parser.Entries.numbered_of sysd.Parser.numbered sysd.Prelude.contains split
    sysd.Text.trim_start_matches sysd.Parser.number_after
get-parse_section_example = get-parse_section ascii_upper ("a=1" ∷ "b=2,3" ∷ "#" ∷ "A=4" ∷ []) "A"

abbrev after_entry : Entry
after_entry = ("AFTER", "a.service" ∷ "b.target" ∷ [])

abbrev environment_entry : Entry
environment_entry = ("ENVIRONMENT", "A=1" ∷ "B" ∷ [])

abbrev two_sections : File
two_sections = ("[Unit]", after_entry ∷ []) ∷ ("[Service]", environment_entry ∷ []) ∷ []

after_entry-IsEntry : IsEntry ascii_upper after_entry
unfolding sysd.Parser.to_uppercase sysd.Text.Laws.starts_white sysd.Text.is_whitespace
    sysd.Text.Laws.ends_white sysd.Text.Laws.any_char sysd.Text.begins_with
    sysd.Parser.RoundTrip.print_entry sysd.Text.join sysd.Prelude.contains
after_entry-IsEntry = record {
  name_upper = refl;
  name_trimmed = (refl, refl);
  name_free = refl;
  no_hash = refl;
  no_semicolon = refl;
  no_bracket = refl;
  one_line = refl;
  values_trimmed = (refl, refl);
  no_equals = refl;
  has_values = words refl ((refl, refl), ((refl, refl), tt));
}

environment_entry-IsEntry : IsEntry ascii_upper environment_entry
unfolding sysd.Parser.to_uppercase sysd.Text.Laws.starts_white sysd.Text.is_whitespace
    sysd.Text.Laws.ends_white sysd.Text.Laws.any_char sysd.Text.begins_with
    sysd.Parser.RoundTrip.print_entry sysd.Text.join sysd.Prelude.contains
environment_entry-IsEntry = record {
  name_upper = refl;
  name_trimmed = (refl, refl);
  name_free = refl;
  no_hash = refl;
  no_semicolon = refl;
  no_bracket = refl;
  one_line = refl;
  values_trimmed = (refl, refl);
  no_equals = refl;
  has_values = parts refl refl (refl, (refl, tt)) ((refl, refl), ((refl, refl), tt));
}

two_sections-AllSections : AllSections ascii_upper two_sections
unfolding sysd.Text.Laws.any_char sysd.Text.Laws.starts_white sysd.Text.is_whitespace
    sysd.Text.Laws.ends_white sysd.Text.begins_with sysd.Parser.Blocks.first_repeated
    sysd.Prelude.contains
two_sections-AllSections = (unit_section, (service_section, tt))
  where
    unit_section : IsSection ascii_upper "[Unit]" (after_entry ∷ [])
    unit_section = record {
      header_line = (refl, (refl, refl));
      bracket = refl;
      distinct = refl;
      all = (after_entry-IsEntry, tt);
    }

    service_section : IsSection ascii_upper "[Service]" (environment_entry ∷ [])
    service_section = record {
      header_line = (refl, (refl, refl));
      bracket = refl;
      distinct = refl;
      all = (environment_entry-IsEntry, tt);
    }

parse_file-print_file_example :
    parse_file ascii_upper (print_file two_sections) ≡ ok (number_file two_sections)
unfolding sysd.Parser.Blocks.first_repeated sysd.Prelude.contains
parse_file-print_file_example =
    parse_file-print_file ascii_upper two_sections two_sections-AllSections refl

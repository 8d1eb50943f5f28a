-- ===== src/Parser/WholeFile.antt =====
-- A whole unit file written and read again (`parse_file` of src/units/parser.rs).
use Prim.Native.Char.{Char}
use Prim.Native.String.{String, ◌∷◌ as front, ◌++◌ as append}
use mathlib.Core.List.{append-nil, append_assoc}
use sysd.Prelude.{
  ℕ, ◌≡◌, refl, sym, ap, ◌∙◌, true, false, none, List, [], ◌∷◌, ◌++◌, map, get, has_key, keys,
  contains, contains-keys, insert-fresh, keys-snoc, string_eq, Bool-cases, inl, inr, arith,
}
use sysd.Text.{is_whitespace, begins_with, trim, lines}
use sysd.Text.Laws.{IsLine, trim_lem, begins_with-append, lines-append, IsTrimmed-append}
use sysd.Parser.{
  ParsedSection, ParsedFile, ok, numbered, number_after, or_default, section_loop, parse_section,
  parse_file,
}
use sysd.Parser.Blocks.{
  grouped, sections_of, headers, first_repeated, parsed_sections, parse_file-stored,
}
use sysd.Parser.RoundTrip.{IsEntry, print_entry, print_values, parse_line-print_entry}

abbrev pub Entry : Type 0
Entry = String × List String

abbrev pub File : Type 0
File = List (String × List Entry)

abbrev pub names : List Entry → List String
names [] = []
names ((name, values) ∷ rest) = name ∷ names rest

-- The entries with their numbers, each value's counted from `n`.
unfoldable pub number_entries : ℕ → List Entry → ParsedSection
number_entries n [] = []
number_entries n ((name, values) ∷ rest) =
    (name, numbered n values) ∷ number_entries (number_after n values) rest

abbrev pub number_file : File → ParsedFile
number_file [] = []
number_file ((header, entries) ∷ rest) = (header, number_entries 0 entries) ∷ number_file rest

unfoldable pub print_lines : List String → String
print_lines [] = ""
print_lines (line ∷ rest) = append line (front "\n" (print_lines rest))

abbrev pub file_lines : File → List String
file_lines [] = []
file_lines ((header, entries) ∷ rest) = header ∷ map print_entry entries ++ file_lines rest

unfoldable pub print_file : File → String
unfolding print_lines
print_file file = print_lines (file_lines file)

abbrev pub AllEntries : (Char → String) → List Entry → Type 0
AllEntries upper [] = Unit
AllEntries upper (e ∷ rest) = IsEntry upper e × AllEntries upper rest

-- A section that reads as it is written: the header is a line that begins with `[`, no name stands
-- twice, and the entries read as they are written.
pub record IsSection (upper : Char → String) (header : String) (entries : List Entry) : Type 0 where
  pub header_line : IsLine header
  pub bracket : begins_with b'[' header ≡ true
  pub distinct : first_repeated [] (names entries) ≡ none
  pub all : AllEntries upper entries

abbrev pub AllSections : (Char → String) → File → Type 0
AllSections upper [] = Unit
AllSections upper ((header, entries) ∷ rest) =
    IsSection upper header entries × AllSections upper rest

abbrev AllLines : List String → Type 0
AllLines [] = Unit
AllLines (l ∷ ls) = IsLine l × AllLines ls

map-trim-lines : (ls : List String) → AllLines ls → map trim (lines (print_lines ls)) ≡ ls
unfolding print_lines lines
map-trim-lines [] h = refl
map-trim-lines (l ∷ ls) h =
    rw (lines-append l "\n" (print_lines ls) refl h.0.0 h.0.1.1, trim_lem l h.0.1)
      (ap (λ r. l ∷ r) (map-trim-lines ls h.1))

print_entry-IsLine : (upper : Char → String) (e : Entry) → IsEntry upper e → IsLine (print_entry e)
unfolding print_entry is_whitespace
print_entry-IsLine upper (name, values) h = (
  h.one_line,
  IsTrimmed-append name "=" (print_values name values) h.name_trimmed refl h.values_trimmed,
)

entries-AllLines :
    (upper : Char → String) (entries : List Entry) (ls : List String)
    → AllEntries upper entries
    → AllLines ls
    → AllLines (map print_entry entries ++ ls)
entries-AllLines upper [] ls h k = k
entries-AllLines upper (e ∷ es) ls h k =
    (print_entry-IsLine upper e h.0, entries-AllLines upper es ls h.1 k)

file_lines-AllLines :
    (upper : Char → String) (file : File) → AllSections upper file → AllLines (file_lines file)
file_lines-AllLines upper [] h = tt
file_lines-AllLines upper ((header, entries) ∷ rest) h = (
  h.0.header_line,
  entries-AllLines upper entries (file_lines rest) h.0.all (file_lines-AllLines upper rest h.1),
)

-- The header of each section, and its entries as lines.
abbrev printed : File → List (String × List String)
printed [] = []
printed ((header, entries) ∷ rest) = (header, map print_entry entries) ∷ printed rest

grouped-entries :
    (upper : Char → String) (entries : List Entry) (ls : List String)
    → AllEntries upper entries
    → grouped (map print_entry entries ++ ls)
      ≡ (map print_entry entries ++ (grouped ls).0, (grouped ls).1)
unfolding grouped print_entry
grouped-entries upper [] ls h = refl
grouped-entries upper ((name, values) ∷ rest) ls h =
    rw
      (
        begins_with-append b'[' name "=" (print_values name values) h.0.no_bracket refl,
        grouped-entries upper rest ls h.1,
      )
      refl

grouped-file_lines :
    (upper : Char → String) (file : File)
    → AllSections upper file
    → grouped (file_lines file) ≡ ([], printed file)
unfolding grouped
grouped-file_lines upper [] h = refl
grouped-file_lines upper ((header, entries) ∷ rest) h =
    rw
      (
        h.0.bracket,
        grouped-entries upper entries (file_lines rest) h.0.all,
        grouped-file_lines upper rest h.1,
        append-nil (map print_entry entries),
      )
      refl

first_repeated-fresh :
    (seen : List String) (h : String) (hs : List String)
    → first_repeated seen (h ∷ hs) ≡ none
    → (contains seen h ≡ false) × (first_repeated (seen ++ h ∷ []) hs ≡ none)
unfolding first_repeated
first_repeated-fresh seen h hs k = elim (Bool-cases (contains seen h)) [
  | inl again ↦ absurd (ground (arith, k, again))
  | inr fresh ↦ (fresh, (rw fresh at k))
]

get_fresh : (m : ParsedSection) (k : String) → has_key m k ≡ false → get m k ≡ none
get_fresh m k h = ground arith

section_loop-entries :
    (upper : Char → String) (entries : List Entry) (n : ℕ) (before : ParsedSection)
    → AllEntries upper entries
    → first_repeated (keys before) (names entries) ≡ none
    → section_loop upper (map print_entry entries) n before ≡ before ++ number_entries n entries
unfolding section_loop number_entries or_default
section_loop-entries upper [] n before h k = sym (append-nil before)
section_loop-entries upper ((name, values) ∷ rest) n before h k =
    let (fresh, later) = first_repeated-fresh (keys before) name (names rest) k in
    let new : has_key before name ≡ false = sym (contains-keys before name) ∙ fresh in
    rw (section_loop, parse_line-print_entry upper (name, values) h.0)
      (rw (get_fresh before name new, insert-fresh before name (numbered n values) new)
        (section_loop-entries upper rest (number_after n values)
            (before ++ (name, numbered n values) ∷ []) h.1 (rw keys-snoc later)
          ∙ append_assoc before _ _))

parsed_sections-printed :
    (upper : Char → String) (file : File)
    → AllSections upper file
    → parsed_sections upper (printed file) ≡ number_file file
unfolding parse_section keys
parsed_sections-printed upper [] h = refl
parsed_sections-printed upper ((header, entries) ∷ rest) h =
    rw (section_loop-entries upper entries 0 [] h.0.all h.0.distinct)
      (ap (λ r. (header, number_entries 0 entries) ∷ r) (parsed_sections-printed upper rest h.1))

-- The headers of a file.
abbrev pub file_headers : File → List String
file_headers [] = []
file_headers ((header, entries) ∷ rest) = header ∷ file_headers rest

headers-printed : (file : File) → headers (printed file) ≡ file_headers file
headers-printed [] = refl
headers-printed ((header, entries) ∷ rest) = ap (λ r. header ∷ r) (headers-printed rest)

sections_of-print_file :
    (upper : Char → String) (file : File)
    → AllSections upper file
    → sections_of (print_file file) ≡ printed file
unfolding print_file
sections_of-print_file upper file h =
    ap (λ ls. (grouped ls).1) (map-trim-lines (file_lines file) (file_lines-AllLines upper file h))
    ∙ ap (λ g. g.1) (grouped-file_lines upper file h)

-- A file whose sections read as they are written, with no header twice, is read back from its text:
-- every section with its entries in their order, each value with its number in its section.
pub parse_file-print_file :
    (upper : Char → String) (file : File)
    → AllSections upper file
    → first_repeated [] (file_headers file) ≡ none
    → parse_file upper (print_file file) ≡ ok (number_file file)
parse_file-print_file upper file h distinct =
    parse_file-stored upper (print_file file)
    ∙ rw
        (
          sections_of-print_file upper file h,
          headers-printed file,
          distinct,
          parsed_sections-printed upper file h,
        )
        refl

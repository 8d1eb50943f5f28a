-- ===== src/Parser/Entries.antt =====
-- The entries of a section, line by line: `parse_section` of src/units/parser.rs.
use Prim.Native.Char.{Char}
use mathlib.Core.List.{append-nil, append_assoc}
use sysd.Prelude.{
  ℕ, ◌≡◌, refl, sym, ap, ◌∙◌, String, Bool, false, ◌||◌, Option, none, some, List, [], ◌∷◌, ◌++◌,
  get, insert, get-insert, eq_iff, ◌==◌, string_eq, if◌then◌else◌, inl, inr, arith, Option-cases,
  is_some,
}
use sysd.Parser.{
  ParsedSection, parse_line, numbered, number_after, or_default, section_loop, parse_section,
}

-- The keys of the lines that have one, with their values.
unfoldable pub read_lines : (Char → String) → List String → List (String × List String)
read_lines upper [] = []
read_lines upper (line ∷ rest) =
    let later = read_lines upper rest in
    elim (parse_line upper line) [ none ↦ later | some entry ↦ entry ∷ later ]

-- The values of a key, each with its number, when the numbers start at `n`.
unfoldable pub numbered_of : String → ℕ → List (String × List String) → List (ℕ × String)
numbered_of key n [] = []
numbered_of key n ((name, values) ∷ rest) =
    let later = numbered_of key (number_after n values) rest in
    if name == key then numbered n values ++ later else later

unfoldable pub has_line : String → List (String × List String) → Bool
has_line key [] = false
has_line key ((name, values) ∷ rest) = (name == key) || has_line key rest

-- What a map that holds `old` at a key holds there when the lines have been read.
abbrev extended : Option (List (ℕ × String)) → Bool → List (ℕ × String) → Option (List (ℕ × String))
extended old any more = if is_some old || any then some (or_default old ++ more) else none

get-section_loop :
    (upper : Char → String) (ls : List String) (n : ℕ) (entries : ParsedSection) (key : String)
    → get (section_loop upper ls n entries) key
      ≡ extended
          (get entries key)
          (has_line key (read_lines upper ls))
          (numbered_of key n (read_lines upper ls))
unfolding section_loop read_lines numbered_of has_line or_default
get-section_loop upper [] n entries key = go (get entries key)
  where
    go : (old : Option (List (ℕ × String))) → old ≡ extended old false []
    go none = refl
    go (some vs) = ap some (sym (append-nil vs))
get-section_loop upper (line ∷ rest) n entries key = elim (Option-cases (parse_line upper line)) [
  | inl h ↦ rw (h, section_loop, read_lines) (get-section_loop upper rest n entries key)
  | inr ((name, values), h) ↦
      rw (h, section_loop, read_lines)
        (get-section_loop upper rest (number_after n values)
            (insert entries name (or_default (get entries name) ++ numbered n values)) key
          ∙ rw get-insert ground (
            arith,
            eq_iff name key,
            append_assoc (or_default (get entries key)) (numbered n values)
                (numbered_of key (number_after n values) (read_lines upper rest)),
          ))
]

-- A key of a section has the values of all the lines that name it, in the order of the lines and
-- each with its number among all the values of the section; a key that no line names has no entry.
pub get-parse_section :
    (upper : Char → String) (ls : List String) (key : String)
    → get (parse_section upper ls) key ≡ (
        if has_line key (read_lines upper ls)
        then some (numbered_of key 0 (read_lines upper ls))
        else none)
unfolding parse_section or_default get
get-parse_section upper ls key = get-section_loop upper ls 0 [] key

-- ===== src/Parser/Blocks.antt =====
-- The sections of a file as its lines group them, and `parse_file` of src/units/parser.rs.
use Prim.Native.Char.{Char}
use mathlib.Core.List.{append-nil, append_assoc}
use Prim.Native.String.compare.{cons-nil}
use text.Mathlib.Text.{is_eq}
use Prim.Native.String.{[] as empty, ◌∷◌ as front}
use sysd.Prelude.{
  ℕ, ◌≡◌, refl, sym, ap, ◌∙◌, String, true, false, Option, none, some, List, [], ◌∷◌, ◌++◌, map,
  has_key, keys, contains, contains-keys, insert-fresh, keys-snoc, ◌==◌, string_eq, if◌then◌else◌,
  Bool-cases, inl, inr,
}
use sysd.Text.{begins_with, trim, lines}
use sysd.Parser.{
  Parsed, ok, duplicate_section, ParsedFile, parse_section, store_section, skip_to_section,
  file_loop, parse_file, and_then,
}

-- The lines before the first header, and each header with the lines up to the next.
unfoldable pub grouped : List String → List String × List (String × List String)
grouped [] = ([], [])
grouped (line ∷ rest) =
    let (lead, blocks) = grouped rest in
    if begins_with b'[' line then ([], (line, lead) ∷ blocks) else (line ∷ lead, blocks)

-- The headers of a file with the lines behind each.
abbrev pub sections_of : String → List (String × List String)
sections_of content = (grouped (map trim (lines content))).1

abbrev pub headers : List (String × List String) → List String
headers [] = []
headers ((header, body) ∷ blocks) = header ∷ headers blocks

-- The first of the texts that stands before, or among those seen already.
unfoldable pub first_repeated : List String → List String → Option String
first_repeated seen [] = none
first_repeated seen (h ∷ hs) =
    let later = first_repeated (seen ++ h ∷ []) hs in if contains seen h then some h else later

abbrev pub parsed_sections : (Char → String) → List (String × List String) → ParsedFile
parsed_sections upper [] = []
parsed_sections upper ((header, body) ∷ blocks) =
    (header, parse_section upper body) ∷ parsed_sections upper blocks

abbrev pub stored :
    (Char → String) → ParsedFile → List (String × List String) → Option String → Parsed
stored upper sections blocks none = ok (sections ++ parsed_sections upper blocks)
stored upper sections blocks (some h) = duplicate_section h

begins_with-nonempty : (d : ℕ) (s : String) → begins_with d s ≡ true → (s == "") ≡ false
unfolding begins_with
begins_with-nonempty d empty h = absurd cc
begins_with-nonempty d (front c s) h = ap is_eq (cons-nil c s)

and_then-cong :
    (r : Parsed) (f g : ParsedFile → Parsed)
    → ((m : ParsedFile) → f m ≡ g m)
    → and_then r f ≡ and_then r g
unfolding and_then
and_then-cong (ok m) f g h = h m
and_then-cong (duplicate_section s) f g h = refl

-- Each section is stored in turn.
assemble : (Char → String) → ParsedFile → List (String × List String) → Parsed
assemble upper sections [] = ok sections
assemble upper sections ((header, body) ∷ blocks) =
    and_then (store_section upper sections header body)
      (λ (now : ParsedFile). assemble upper now blocks)

file_loop-assemble :
    (upper : Char → String) (rest : List String) (sections : ParsedFile) (name : String)
    (body : List String)
    → (name == "") ≡ false
    → file_loop upper rest sections name body
      ≡ assemble upper sections ((name, body ++ (grouped rest).0) ∷ (grouped rest).1)
unfolding file_loop assemble grouped and_then
file_loop-assemble upper [] sections name body h =
    rw (h, append-nil) (go (store_section upper sections name body))
  where
    go : (r : Parsed) → r ≡ and_then r (λ now. ok now)
    go (ok m) = refl
    go (duplicate_section s) = refl
file_loop-assemble upper (line ∷ rest) sections name body h =
    elim (Bool-cases (begins_with b'[' line)) [
      | inl opens ↦ rw opens (
          and_then-cong (store_section upper sections name body) _ _ (λ now.
            file_loop-assemble upper rest now line [] (begins_with-nonempty b'[' line opens))
          ∙ ap
              (λ b.
                assemble upper sections ((name, b) ∷ (line, (grouped rest).0) ∷ (grouped rest).1))
              (sym (append-nil body)))
      | inr goes ↦ rw goes (
          file_loop-assemble upper rest sections name (body ++ line ∷ []) h
          ∙ ap (λ b. assemble upper sections ((name, b) ∷ (grouped rest).1))
              (append_assoc body (line ∷ []) (grouped rest).0))
    ]

stored-cons :
    (upper : Char → String) (sections : ParsedFile) (header : String) (body : List String)
    (blocks : List (String × List String)) (again : Option String)
    → stored upper (sections ++ (header, parse_section upper body) ∷ []) blocks again
      ≡ stored upper sections ((header, body) ∷ blocks) again
stored-cons upper sections header body blocks none = ap ok (append_assoc sections _ _)
stored-cons upper sections header body blocks (some h) = refl

assemble-stored :
    (upper : Char → String) (blocks : List (String × List String)) (sections : ParsedFile)
    → assemble upper sections blocks
      ≡ stored upper sections blocks (first_repeated (keys sections) (headers blocks))
unfolding assemble first_repeated store_section and_then
assemble-stored upper [] sections = ap ok (sym (append-nil sections))
assemble-stored upper ((header, body) ∷ blocks) sections =
    elim (Bool-cases (has_key sections header)) [
      | inl again ↦ rw (contains-keys, again) refl
      | inr fresh ↦
          rw (contains-keys, fresh)
            (rw (insert-fresh sections header (parse_section upper body) fresh) (
              assemble-stored upper blocks (sections ++ (header, parse_section upper body) ∷ [])
              ∙ rw keys-snoc (stored-cons upper sections header body blocks _)))
    ]

-- What is left behind the lines before the first header is empty, or starts with that header.
abbrev Splits : List String → List (String × List String) → Type 0
Splits [] blocks = blocks ≡ []
Splits (line ∷ rest) blocks =
    (begins_with b'[' line ≡ true) × (blocks ≡ (line, (grouped rest).0) ∷ (grouped rest).1)

skip_to_section-Splits : (ls : List String) → Splits (skip_to_section ls) (grouped ls).1
unfolding skip_to_section grouped
skip_to_section-Splits [] = refl
skip_to_section-Splits (line ∷ rest) = elim (Bool-cases (begins_with b'[' line)) [
  | inl opens ↦ rw opens (opens, refl)
  | inr goes ↦ rw goes (skip_to_section-Splits rest)
]

-- The sections of a file are those between its headers, each read by itself, and reading fails
-- when and only when a header stands twice, with the name of the first that does.
pub parse_file-stored :
    (upper : Char → String) (content : String)
    → parse_file upper content
      ≡ stored upper [] (sections_of content) (first_repeated [] (headers (sections_of content)))
unfolding parse_file keys first_repeated
parse_file-stored upper content = go (skip_to_section ls) (grouped ls).1 (skip_to_section-Splits ls)
  where
    ls : List String
    ls = map trim (lines content)

    go :
        (left : List String) (blocks : List (String × List String))
        → Splits left blocks
        → elim left [ [] ↦ ok [] | first_section ∷ rest ↦ file_loop upper rest [] first_section [] ]
          ≡ stored upper [] blocks (first_repeated [] (headers blocks))
    go [] blocks h = rw h refl
    go (line ∷ rest) blocks h = rw h.1 (
        file_loop-assemble upper rest [] line [] (begins_with-nonempty b'[' line h.0)
        ∙ assemble-stored upper ((line, (grouped rest).0) ∷ (grouped rest).1) [])

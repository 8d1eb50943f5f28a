-- ===== src/Units/Fields/Merge.antt =====
-- Drop-in files (src/units/parse_units.rs): what one adds to the parsed unit file. An empty value takes
-- away the values that the key has had.
use sysd.Prelude.{
  ℕ, String, ◌≡◌, refl, sym, ap, ◌∙◌, ◌>>=◌, Option-cases, Bool, false, not, ◌||◌, ◌==◌, string_eq,
  if◌then◌else◌, Option, none, some, List, [], ◌∷◌, ◌++◌, get, insert, remove, keep, IsMap,
  get-insert, get-remove, Bool-cases, beq_self, arith, inl, inr,
}
use sysd.Parser.{ParsedSection, ParsedFile, or_default}
use sysd.Units.Fields.View.{values, view_of}

abbrev pub Values : Type 0
Values = List (ℕ × String)

abbrev is_value : ℕ × String → Bool
is_value (line, value) = not (value == "")

unfoldable pub has_reset : Values → Bool
has_reset [] = false
has_reset ((line, value) ∷ rest) = value == "" || has_reset rest

abbrev pub restored : ParsedSection → String → Values → ParsedSection
restored section key [] = section
restored section key (v ∷ vs) = insert section key (v ∷ vs)

unfoldable pub merge_values : ParsedSection → String → Values → ParsedSection
unfolding has_reset
merge_values section key vs =
    if has_reset vs
    then restored (remove section key) key (keep is_value vs)
    else insert section key (or_default (get section key) ++ vs)

unfoldable pub merge_section : ParsedSection → ParsedSection → ParsedSection
merge_section section [] = section
merge_section section ((key, vs) ∷ rest) = merge_section (merge_values section key vs) rest

abbrev or_empty_section : Option ParsedSection → ParsedSection
or_empty_section none = []
or_empty_section (some section) = section

unfoldable pub merge_parsed_files : ParsedFile → ParsedFile → ParsedFile
unfolding merge_section
merge_parsed_files base [] = base
merge_parsed_files base ((name, section) ∷ rest) =
    merge_parsed_files (insert base name (merge_section (or_empty_section (get base name)) section))
      rest

abbrev nonempty : Values → Option Values
nonempty [] = none
nonempty (v ∷ vs) = some (v ∷ vs)

-- What a key has after a drop-in, by what it had and what the drop-in gives it.
abbrev pub merged : Option Values → Option Values → Option Values
merged old none = old
merged old (some vs) =
    if has_reset vs then nonempty (keep is_value vs) else some (or_default old ++ vs)

get-restored :
    (section : ParsedSection) (key k : String) (vs : Values)
    → get (restored (remove section key) key vs) k
      ≡ (if key == k then nonempty vs else get section k)
get-restored section key k [] = get-remove section key k
get-restored section key k (v ∷ vs) =
    ground (arith, get-insert (remove section key) key k (v ∷ vs), get-remove section key k)

get-merge_values :
    (section : ParsedSection) (key k : String) (vs : Values)
    → get (merge_values section key vs) k
      ≡ (if key == k then merged (get section k) (some vs) else get section k)
unfolding merge_values
get-merge_values section key k vs = elim (Bool-cases (has_reset vs)) [
  | inl h ↦ rw h (get-restored section key k (keep is_value vs))
  | inr h ↦ rw h ground (
    arith,
    get-insert section key k (or_default (get section key) ++ vs),
    string_eq.beq_iff key k,
  )
]

-- A drop-in whose keys are distinct changes each of its keys once, whatever the order of the keys: the
-- values are added behind those that the key had, but after an empty value only the drop-in's own
-- values that are not empty stay, and a key that keeps none is gone. Other keys stay as they are.
pub get-merge_section :
    (section dropin : ParsedSection) (k : String)
    → IsMap dropin
    → get (merge_section section dropin) k ≡ merged (get section k) (get dropin k)
unfolding merge_section get
get-merge_section section [] k w = refl
get-merge_section section ((key, vs) ∷ rest) k w = elim (Bool-cases (key == k)) [
  | inl h ↦
      rw
        (
          sym ((string_eq.beq_iff key k).0 h),
          get-merge_section (merge_values section key vs) rest key w.1,
          get-merge_values,
          w.0,
          beq_self key,
        )
        refl
  | inr h ↦
      rw (get-merge_section (merge_values section key vs) rest k w.1, get-merge_values, h) refl
]

-- The sections that a drop-in names, each once, are merged, and the others stay as they are.
abbrev pub merged_section : Option ParsedSection → Option ParsedSection → Option ParsedSection
merged_section old none = old
merged_section old (some section) = some (merge_section (or_empty_section old) section)

pub get-merge_parsed_files :
    (base dropin : ParsedFile) (name : String)
    → IsMap dropin
    → get (merge_parsed_files base dropin) name ≡ merged_section (get base name) (get dropin name)
unfolding merge_parsed_files get
get-merge_parsed_files base [] name w = refl
get-merge_parsed_files base ((n, section) ∷ rest) name w = elim (Bool-cases (n == name)) [
  | inl h ↦
      rw
        (
          sym ((string_eq.beq_iff n name).0 h),
          get-merge_parsed_files
              (insert base n (merge_section (or_empty_section (get base n)) section)) rest n w.1,
          get-insert,
          w.0,
          beq_self n,
        )
        refl
  | inr h ↦
      rw
        (
          get-merge_parsed_files
              (insert base n (merge_section (or_empty_section (get base n)) section)) rest name w.1,
          get-insert,
          h,
        )
        refl
]

get-or_empty_section :
    (old : Option ParsedSection) (key : String)
    → get (or_empty_section old) key ≡ (old >>= (λ section. get section key))
unfolding get
get-or_empty_section none key = refl
get-or_empty_section (some section) key = refl

-- The keys of each section are distinct.
abbrev pub AreMaps : ParsedFile → Type 0
AreMaps [] = Unit
AreMaps ((name, section) ∷ rest) = IsMap section × AreMaps rest

abbrev IsMapIf : Option ParsedSection → Type 0
IsMapIf none = Unit
IsMapIf (some section) = IsMap section

get-IsMapIf : (file : ParsedFile) (name : String) → AreMaps file → IsMapIf (get file name)
unfolding get
get-IsMapIf [] name w = tt
get-IsMapIf ((n, section) ∷ rest) name w = elim (Bool-cases (n == name)) [
  | inl h ↦ rw h w.0
  | inr h ↦ rw h (get-IsMapIf rest name w.1)
]

-- The sections of a parsed file are distinct, and so are the keys of each.
abbrev pub IsParsed : ParsedFile → Type 0
IsParsed file = IsMap file × AreMaps file

-- What a view of a parsed file reads after a drop-in with distinct sections and keys, whatever their order:
-- the drop-in's values of the key behind those that the key had, but after an empty value only the
-- drop-in's own values that are not empty, and nothing if there are none. A key that the drop-in
-- does not give in that section reads as before.
pub values-merge_parsed_files :
    (base dropin : ParsedFile) (name key : String)
    → IsParsed dropin
    → values (view_of (merge_parsed_files base dropin) name) key
      ≡ merged (values (view_of base name) key) (values (view_of dropin name) key)
unfolding values view_of
values-merge_parsed_files base dropin name key w = elim (Option-cases (get dropin name)) [
  | inl h ↦ rw (get-merge_parsed_files base dropin name w.0, h) refl
  | inr (section, h) ↦
      rw (get-merge_parsed_files base dropin name w.0, h)
        (get-merge_section (or_empty_section (get base name)) section key
            (rw h at (get-IsMapIf dropin name w.1))
          ∙ ap (λ old. merged old (get section key)) (get-or_empty_section (get base name) key))
]

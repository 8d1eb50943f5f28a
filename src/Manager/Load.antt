-- ===== src/Manager/Load.antt =====
-- Loading a unit by name (src/manager/mod_impl/part1.rs). The disk is a parameter: the calls of
-- `std::path` and `std::fs`, and the reader of a unit's file (`load_unit` of src/units/unit.rs).
use Prim.Native.String.{String}
use sysd.Prelude.{
  Bool, false, not, ◌==◌, string_eq, Option, none, some, List, [], ◌∷◌, has_key, insert,
  if◌then◌else◌, unwrap_or, map_or,
}
use sysd.Units.Kinds.{AnyUnit, service, socket, timer, name}
use sysd.Units.Names.{
  extract_instance, get_template_name, is_bare_template, instantiate_template, set_name,
}
use sysd.State
use sysd.State.{Instant, ServiceState}
use sysd.Manager.{
  Manager, not_found, masked, parse, Result, ok, err, Outcome, ◌>>=◌, normalize_name,
}

-- What `load_unit` returns: a unit, or the text of the error.
pub data Reading : Type 0 where
  whole : AnyUnit → Reading
  broken : String → Reading

pub record Disk : Type 0 where
  -- `Path::exists`, which follows symbolic links
  pub exists : String → Bool
  pub is_symlink : String → Bool
  pub read_link : String → Option String
  -- `Path::file_name` and `to_str`
  pub file_name : String → Option String
  -- `base.join(name)`
  pub join : String → String → String
  pub load_unit : String → Reading

unfoldable pub search_unit_paths : Disk → List String → String → Option String
search_unit_paths d [] name = none
search_unit_paths d (base ∷ rest) name =
    let path = d.join base name in
    let later = search_unit_paths d rest name in
    if d.exists path
    then some path
    else if d.is_symlink path
    then (if map_or false d.exists (d.read_link path) then some path else later)
    else later

abbrev or_template : Disk → List String → String → Option String → Result String
or_template d paths name (some path) = ok path
or_template d paths name none = elim (get_template_name name) [
  | none ↦ err (not_found name)
  | some template_name ↦ elim (search_unit_paths d paths template_name) [
    | none ↦ err (not_found name)
    | some path ↦ ok path
  ]
]

unfoldable pub find_unit : Disk → Manager → String → Result String
find_unit d m name = or_template d m.unit_paths name (search_unit_paths d m.unit_paths name)

abbrev pub parse_reading : Reading → Result AnyUnit
parse_reading (whole unit) = ok unit
parse_reading (broken e) = err (parse e)

unfoldable pub parse_unit_file : Disk → String → Result AnyUnit
parse_unit_file d path = parse_reading (d.load_unit path)

unfoldable pub default_instance_for_unit : AnyUnit → Option String
default_instance_for_unit (service s) = s.install.default_instance
default_instance_for_unit (socket s) = s.install.default_instance
default_instance_for_unit (timer t) = t.install.default_instance
default_instance_for_unit _ = none

pub data LoadNameResolution : Type 0 where
  continue already_loaded : String → LoadNameResolution

abbrev pub instantiated : String → Option String → Option String
instantiated name none = none
instantiated name (some i) = instantiate_template name i

-- `resolve_load_name` on the unit of a bare template, by the name of its default instance.
abbrev pub resolved_as :
    Option String → String → Instant → AnyUnit → Manager → LoadNameResolution × Manager
resolved_as (some named) name now unit m = (continue named, m)
resolved_as none name now unit m = (
  already_loaded name,
  record m { states = insert m.states name (State.new now); units = insert m.units name unit },
)

abbrev pub resolve_template : String → Instant → AnyUnit → Manager → LoadNameResolution × Manager
resolve_template name now unit m =
    resolved_as (instantiated name (default_instance_for_unit unit)) name now unit m

abbrev pub template_read : String → Instant → Manager → Result AnyUnit → Outcome LoadNameResolution
template_read name now m (err e) = (err e, m)
template_read name now m (ok unit) =
    let (resolution, m') = resolve_template name now unit m in (ok resolution, m')

abbrev pub template_found :
    Disk → String → Instant → Manager → Result String → Outcome LoadNameResolution
template_found d name now m (err e) = (err e, m)
template_found d name now m (ok path) = template_read name now m (parse_unit_file d path)

unfoldable pub resolve_load_name : Disk → Instant → String → Manager → Outcome LoadNameResolution
unfolding find_unit parse_unit_file
resolve_load_name d now requested m =
    let name = normalize_name requested in
    if not (is_bare_template name)
    then (ok (continue name), m)
    else template_found d name now m (find_unit d m name)

-- The name behind a link, for the name that was asked for.
abbrev name_of_target : String → String → String
name_of_target requested_name target_name = elim (extract_instance requested_name) [
  | none ↦ target_name
  | some i ↦
      if not (is_bare_template target_name)
      then target_name
      else unwrap_or target_name (instantiate_template target_name i)
]

abbrev resolve_link : Disk → String → Option String → Result String
resolve_link d requested_name none = ok requested_name
resolve_link d requested_name (some target) =
    if target == "/dev/null"
    then err (masked requested_name)
    else ok (name_of_target requested_name (unwrap_or requested_name (d.file_name target)))

unfoldable pub resolve_canonical_unit_name : Disk → String → String → Result String
resolve_canonical_unit_name d requested_name path =
    if not (d.is_symlink path)
    then ok requested_name
    else resolve_link d requested_name (d.read_link path)

unfoldable pub apply_canonical_name : String → AnyUnit → AnyUnit
apply_canonical_name canonical_name unit =
    if name unit == canonical_name then unit else set_name canonical_name unit

-- What `load` does with the unit of the file.
abbrev pub read_file : Instant → String → Manager → Result AnyUnit → Outcome String
read_file now canonical_name m (err e) = (err e, m)
read_file now canonical_name m (ok unit) = (
  ok canonical_name,
  record m {
    states = insert m.states canonical_name (State.new now);
    units = insert m.units canonical_name (apply_canonical_name canonical_name unit);
  },
)

-- `load` behind the search for the file.
abbrev pub load_file : Disk → Instant → String → String → Manager → Outcome String
load_file d now canonical_name path m =
    if has_key m.units canonical_name
    then (ok canonical_name, m)
    else read_file now canonical_name m (parse_unit_file d path)

-- `load` of a name that is no bare template.
abbrev pub load_canonical : Disk → Instant → String → Manager → Result String → Outcome String
load_canonical d now path m (err e) = (err e, m)
load_canonical d now path m (ok canonical_name) = load_file d now canonical_name path m

abbrev pub load_found : Disk → Instant → String → Manager → Result String → Outcome String
load_found d now name m (err e) = (err e, m)
load_found d now name m (ok path) =
    load_canonical d now path m (resolve_canonical_unit_name d name path)

abbrev pub load_name : Disk → Instant → String → Manager → Outcome String
load_name d now name m =
    if has_key m.units name then (ok name, m) else load_found d now name m (find_unit d m name)

abbrev pub load_resolved : Disk → Instant → LoadNameResolution → Manager → Outcome String
load_resolved d now (already_loaded name) m = (ok name, m)
load_resolved d now (continue name) m = load_name d now name m

unfoldable pub load : Disk → Instant → String → Manager → Outcome String
unfolding resolve_load_name resolve_canonical_unit_name apply_canonical_name
load d now requested m = resolve_load_name d now requested m >>= load_resolved d now

abbrev forget : String → Manager → Outcome {0} Unit
forget loaded m = (ok tt, m)

unfoldable pub ensure_unit_loaded : Disk → Instant → String → Manager → Outcome {0} Unit
unfolding load
ensure_unit_loaded d now name m =
    if has_key m.units name then (ok tt, m) else load d now name m >>= forget

-- ===== src/Units/Names.antt =====
-- The names of templates and their instances (src/units/service.rs), and of units in general.
use Prim.Native.Char.{code}
use Prim.Native.String.{String, [] as empty, ◌∷◌ as front, ◌++◌ as append}
use sysd.Prelude.{
  Bool, not, ◌&&◌, Option, none, some, ◌==◌, nat_eq, string_eq, if◌then◌else◌, is_some,
}
use sysd.Text.{begins_with, split_once, rsplit_once, has_text}
use sysd.Units.Kinds.{Service, AnyUnit, service, target, mount, slice, socket, timer, path}

abbrev non_empty : String → Option String
non_empty s = if s == "" then none else some s

-- The text between `@` and the suffix: `after` stands behind the first `@`, `before` in front of
-- it. A last `.` in front of the `@` leaves nothing between them.
abbrev instance_in : String → String → Option (String × String) → Option String
instance_in before after (some (inside, suffix)) = non_empty inside
instance_in before after none = if is_some (rsplit_once b'.' before) then none else non_empty after

abbrev instance_of_parts : Option (String × String) → Option String
instance_of_parts none = none
instance_of_parts (some (before, after)) = instance_in before after (rsplit_once b'.' after)

unfoldable pub extract_instance : String → Option String
extract_instance name = instance_of_parts (split_once b'@' name)

abbrev with_suffix : String → Option (String × String) → Option String
with_suffix before none = none
with_suffix before (some (inside, suffix)) = some (append before (front "@" (front "." suffix)))

-- The last `.` of the name stands behind the `@`, or in front of it.
abbrev template_in : String → String → Option (String × String) → Option String
template_in before after (some parts) = with_suffix before (some parts)
template_in before after none = elim (rsplit_once b'.' before) [
  | none ↦ none
  | some (inside, suffix) ↦ with_suffix before (some (inside, append suffix (front "@" after)))
]

abbrev template_of_parts : Option (String × String) → Option String
template_of_parts none = none
template_of_parts (some (before, after)) = template_in before after (rsplit_once b'.' after)

unfoldable pub get_template_name : String → Option String
get_template_name name = template_of_parts (split_once b'@' name)

unfoldable pub is_bare_template : String → Bool
is_bare_template name = has_text "@." name

-- `template.replace("@.", &format!("@{}.", instance))`: the `.` stays where it is, behind the
-- instance.
unfoldable pub replace_instance : String → String → String
replace_instance instance_name empty = ""
replace_instance instance_name (front c s) =
    let rest = replace_instance instance_name s in
    if code c == b'@' && begins_with b'.' s
    then front c (append instance_name rest)
    else front c rest

unfoldable pub instantiate_template : String → String → Option String
unfolding is_bare_template replace_instance
instantiate_template template instance_name =
    if not (is_bare_template template) then none else some (replace_instance instance_name template)

unfoldable pub set_service_name : String → Service → Service
unfolding extract_instance
set_service_name new_name s = record s {
  instance_name = extract_instance new_name;
  name = new_name;
}

unfoldable pub set_name : String → AnyUnit → AnyUnit
unfolding set_service_name
set_name new_name (service s) = service (set_service_name new_name s)
set_name new_name (target t) = target (record t { name = new_name })
set_name new_name (mount m) = mount (record m { name = new_name })
set_name new_name (slice s) = slice (record s { name = new_name })
set_name new_name (socket s) = socket (record s { name = new_name })
set_name new_name (timer t) = timer (record t { name = new_name })
set_name new_name (path p) = path (record p { name = new_name })

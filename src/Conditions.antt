-- ===== src/Conditions.antt =====
-- The conditions of a unit (src/manager/conditions_impl.rs): the prefixes of a condition, and a list
-- of conditions checked by a test. The checks themselves are in the children.
pub mod Detect
pub mod Checks
pub mod All
pub mod Kinds
pub mod Sound
mod Tests
use Prim.Native.String.{String, ◌++◌ as append}
use sysd.Prelude.{
  Bool, true, false, not, ◌&&◌, ◌||◌, Option, none, some, List, [], ◌∷◌, ◌++◌, map, if◌then◌else◌,
  or_else,
}
use sysd.Text.{strip_prefix, join}

pub record ConditionInput : Type 0 where
  pub negated : Bool
  pub trigger : Bool
  pub value : String

abbrev after_prefix : String → Option String → Bool × String
after_prefix raw none = (false, raw)
after_prefix raw (some rest) = (true, rest)

unfoldable pub parse_condition : String → ConditionInput
parse_condition raw =
    let (trigger, rest) = after_prefix raw (strip_prefix b'|' raw) in
    let (negated, value) = after_prefix rest (strip_prefix b'!' rest) in
    record { negated = negated; trigger = trigger; value = value }

-- `format!("{}{}{} failed ({})", ...)`.
abbrev failed : String → String → String → String → String
failed condition_name relation value reason =
    append condition_name (append relation (append value (append " failed (" (append reason ")"))))

unfoldable pub check_negatable : Bool → Bool → String → String → String → String → Option String
check_negatable negated result condition_name value fail_when_true fail_when_false =
    if negated && result
    then some (failed condition_name "=!" value fail_when_true)
    else if not negated && not result
    then some (failed condition_name "=" value fail_when_false)
    else none

unfoldable pub any_pass : (String → Bool) → List (String × Bool) → Bool
any_pass test [] = false
any_pass test ((value, negated) ∷ rest) =
    (if negated then not (test value) else test value) || any_pass test rest

abbrev show_trigger : String × Bool → String
show_trigger (v, n) = if n then append "|!" v else append "|" v

unfoldable pub check_triggers : List (String × Bool) → String → (String → Bool) → Option String
unfolding any_pass
check_triggers [] condition_name test = none
check_triggers (t ∷ ts) condition_name test =
    if any_pass test (t ∷ ts)
    then none
    else some (
        failed condition_name "=" (join ", " (map show_trigger (t ∷ ts)))
          "no trigger condition matched")

-- The loop over the values, with the triggers met so far.
unfoldable pub check_loop :
    List String → String → String → String → (String → Bool) → List (String × Bool) → Option String
unfolding parse_condition check_negatable check_triggers
check_loop [] condition_name fail_when_true fail_when_false test triggers =
    check_triggers triggers condition_name test
check_loop (raw ∷ rest) condition_name fail_when_true fail_when_false test triggers =
    let input = parse_condition raw in
    let as_trigger =
      check_loop rest condition_name fail_when_true fail_when_false test
        (triggers ++ (input.value, input.negated) ∷ []) in
    let passed = check_loop rest condition_name fail_when_true fail_when_false test triggers in
    let failure =
      check_negatable input.negated (test input.value) condition_name input.value fail_when_true
        fail_when_false in
    if input.trigger then as_trigger else or_else failure passed

unfoldable pub check_condition_list :
    List String → String → String → String → (String → Bool) → Option String
unfolding check_loop
check_condition_list values condition_name fail_when_true fail_when_false test =
    check_loop values condition_name fail_when_true fail_when_false test []

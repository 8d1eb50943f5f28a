-- ===== src/Conditions/Sound.antt =====
-- When the conditions of a unit hold (src/manager/conditions_impl.rs).
use sysd.Prelude.{
  ◌≡◌, refl, ◌∙◌, String, Bool, true, false, not, ◌&&◌, ◌||◌, Option, none, some, List, [], ◌∷◌,
  ◌++◌, if◌then◌else◌, Bool-cases, inl, inr, arith, is_some, or_else,
}
use sysd.FileSystem.{FileSystem}
use sysd.Units.Sections.{UnitSection}
use sysd.Conditions.{
  ConditionInput, parse_condition, check_negatable, any_pass, check_triggers, check_loop,
  check_condition_list,
}
use sysd.Conditions.Detect.{detect_virtualization}
use sysd.Conditions.Checks.{
  check_virtualization_match_with, check_first_boot, check_first_boot_condition, check_capability,
  check_kernel_cmdline, check_security_framework, check_needs_update, is_directory_not_empty,
}
use sysd.Conditions.All.{check_conditions}

-- Whether the value of a condition passes the test, or fails it where the condition is negated.
abbrev pub passes : (String → Bool) → ConditionInput → Bool
passes test input = if input.negated then not (test input.value) else test input.value

-- Every condition without the prefix `|` passes.
unfoldable pub all_regular : (String → Bool) → List String → Bool
all_regular test [] = true
all_regular test (raw ∷ rest) =
    let input = parse_condition raw in (input.trigger || passes test input) && all_regular test rest

-- A condition has the prefix `|`.
unfoldable pub has_trigger : List String → Bool
has_trigger [] = false
has_trigger (raw ∷ rest) = (parse_condition raw).trigger || has_trigger rest

-- A condition with the prefix `|` passes.
unfoldable pub any_trigger : (String → Bool) → List String → Bool
any_trigger test [] = false
any_trigger test (raw ∷ rest) =
    let input = parse_condition raw in (input.trigger && passes test input) || any_trigger test rest

-- A list of conditions holds: the regular ones all pass, and of the triggers, if there are any, one.
unfoldable pub holds : (String → Bool) → List String → Bool
unfolding all_regular has_trigger any_trigger
holds test values = all_regular test values && (not (has_trigger values) || any_trigger test values)

abbrev some_of : List (String × Bool) → Bool
some_of [] = false
some_of (t ∷ ts) = true

check_triggers_lem :
    (triggers : List (String × Bool)) (name : String) (test : String → Bool)
    → is_some (check_triggers triggers name test)
      ≡ (some_of triggers && not (any_pass test triggers))
unfolding check_triggers
check_triggers_lem [] name test = refl
check_triggers_lem (t ∷ ts) name test = ground arith

any_pass-snoc :
    (test : String → Bool) (ts : List (String × Bool)) (value : String) (negated : Bool)
    → any_pass test (ts ++ (value, negated) ∷ [])
      ≡ (any_pass test ts || (if negated then not (test value) else test value))
unfolding any_pass
any_pass-snoc test [] value negated = ground arith
any_pass-snoc test ((v, n) ∷ ts) value negated = ground (arith, any_pass-snoc test ts value negated)

some_of-snoc : (ts : List (String × Bool)) (t : String × Bool) → some_of (ts ++ t ∷ []) ≡ true
some_of-snoc [] t = refl
some_of-snoc (u ∷ ts) t = refl

is_some-or_else {ℓ} :
    {A : Type ℓ} (o p : Option A) → is_some (or_else o p) ≡ (is_some o || is_some p)
is_some-or_else none p = refl
is_some-or_else (some a) p = refl

check_negatable_lem :
    (negated result : Bool) (name value on off : String)
    → is_some (check_negatable negated result name value on off)
      ≡ not (if negated then not result else result)
unfolding check_negatable
check_negatable_lem negated result name value on off = ground arith

check_loop_lem :
    (values : List String) (name on off : String) (test : String → Bool)
    (triggers : List (String × Bool))
    → is_some (check_loop values name on off test triggers)
      ≡ not (
          all_regular test values
          && (not (some_of triggers || has_trigger values)
              || (any_pass test triggers || any_trigger test values)))
unfolding check_loop all_regular has_trigger any_trigger
check_loop_lem [] name on off test triggers = rw check_triggers_lem ground arith
check_loop_lem (raw ∷ rest) name on off test triggers =
    elim (Bool-cases (parse_condition raw).trigger) [
      | inl t ↦ rw t (
          check_loop_lem rest name on off test (triggers ++ (value, negated) ∷ [])
          ∙ rw (any_pass-snoc test triggers value negated, some_of-snoc triggers (value, negated))
              ground arith)
      | inr r ↦ rw r (
          is_some-or_else (check_negatable negated (test value) name value on off) _
          ∙ rw
              (
                check_negatable_lem negated (test value) name value on off,
                check_loop_lem rest name on off test triggers,
              )
              ground arith)
    ]
  where
    value : String
    value = (parse_condition raw).value

    negated : Bool
    negated = (parse_condition raw).negated

check_condition_list_lem :
    (values : List String) (name on off : String) (test : String → Bool)
    → is_some (check_condition_list values name on off test) ≡ not (holds test values)
unfolding check_condition_list holds any_pass
check_condition_list_lem values name on off test = check_loop_lem values name on off test []

both {ℓ} :
    {A : Type ℓ} (o p : Option A) (a b : Bool)
    → is_some o ≡ not a
    → is_some p ≡ not b
    → is_some (or_else o p) ≡ not (a && b)
both o p a b h k = is_some-or_else o p ∙ rw (h, k) ground arith

-- The condition on the first boot holds: there is none, or it asks for what the file system shows.
abbrev pub first_boot_holds : FileSystem → Option Bool → Bool
first_boot_holds fs none = true
first_boot_holds fs (some wanted) =
    if wanted then check_first_boot fs else not (check_first_boot fs)

check_first_boot_condition_lem :
    (fs : FileSystem) (wanted : Option Bool)
    → is_some (check_first_boot_condition fs wanted) ≡ not (first_boot_holds fs wanted)
unfolding check_first_boot_condition
check_first_boot_condition_lem fs none = refl
check_first_boot_condition_lem fs (some wanted) = ground arith

abbrev pub every : List Bool → Bool
every [] = true
every (b ∷ bs) = b && every bs

-- Whether each of the seven lists of a unit's conditions holds.
abbrev pub lists_hold : FileSystem → UnitSection → List Bool
lists_hold fs section =
    holds fs.exists section.condition_path_exists
    ∷ holds (is_directory_not_empty fs) section.condition_directory_not_empty
    ∷ holds (check_virtualization_match_with (detect_virtualization fs))
        section.condition_virtualization
    ∷ holds (check_capability fs) section.condition_capability
    ∷ holds (check_kernel_cmdline fs) section.condition_kernel_command_line
    ∷ holds (check_security_framework fs) section.condition_security
    ∷ holds (λ path. check_needs_update fs path false) section.condition_needs_update
    ∷ []

-- No condition of a unit fails when and only when each of its seven lists holds, and so does its
-- condition on the first boot.
pub check_conditions_lem :
    (fs : FileSystem) (section : UnitSection)
    → is_some (check_conditions fs section)
      ≡ not (every (lists_hold fs section) && first_boot_holds fs section.condition_first_boot)
unfolding check_conditions
check_conditions_lem fs section =
    both _ _ _ _
      (both _ _ _ _ (list section.condition_path_exists _ _ _ _) (
        both _ _ _ _ (list section.condition_directory_not_empty _ _ _ _) (
          both _ _ _ _ (list section.condition_virtualization _ _ _ _) (
            both _ _ _ _ (list section.condition_capability _ _ _ _) (
              both _ _ _ _ (list section.condition_kernel_command_line _ _ _ _) (
                both _ _ _ _ (list section.condition_security _ _ _ _)
                  (both _ _ _ _ (list section.condition_needs_update _ _ _ _) refl)))))))
      (check_first_boot_condition_lem fs section.condition_first_boot)
  where
    list :
        (values : List String) (name on off : String) (test : String → Bool)
        → is_some (check_condition_list values name on off test) ≡ not (holds test values)
    list = check_condition_list_lem

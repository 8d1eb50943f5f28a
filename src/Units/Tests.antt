-- ===== src/Units/Tests.antt =====
-- Tests of the names of units.
use sysd.Prelude.{◌≡◌, refl, none, some}
use sysd.Units.Names.{extract_instance, get_template_name, instantiate_template}
use sysd.Units.Templates.{instantiate_template_lem}

extract_instance-bare_example : extract_instance "getty@.service" ≡ none
unfolding extract_instance sysd.Text.split_once sysd.Text.rsplit_once
extract_instance-bare_example = refl

extract_instance_example : extract_instance "getty@tty1" ≡ some "tty1"
unfolding extract_instance sysd.Text.split_once sysd.Text.rsplit_once
extract_instance_example = refl

get_template_name_example : get_template_name "user@1000.slice" ≡ some "user@.slice"
unfolding get_template_name sysd.Text.split_once sysd.Text.rsplit_once
get_template_name_example = refl

instantiate_template_lem_example :
    (instantiate_template "getty@.service" "tty1" ≡ some "getty@tty1.service")
    × (extract_instance "getty@tty1.service" ≡ some "tty1")
    × (get_template_name "getty@tty1.service" ≡ some "getty@.service")
unfolding sysd.Text.Laws.any_char
instantiate_template_lem_example =
    instantiate_template_lem "getty" "tty1" "service" refl refl refl refl

-- ===== src/Manager/Timers/Tests.antt =====
-- Tests of the services that timers name.
use sysd.Prelude.{◌≡◌, refl}
use sysd.Text.{replace}
use sysd.Units.Made.{new_timer}
use sysd.Manager.Timers.{timer_service_name}

timer_service_name_example : timer_service_name (new_timer "backup.timer") ≡ "backup.service"
unfolding timer_service_name new_timer sysd.Units.Made.new_timer_section replace
    sysd.Text.starts_with
timer_service_name_example = refl

timer_service_name-twice_example :
    timer_service_name (new_timer "a.timer-b.timer") ≡ "a.service-b.service"
unfolding timer_service_name new_timer sysd.Units.Made.new_timer_section replace
    sysd.Text.starts_with
timer_service_name-twice_example = refl

-- ===== src/Tests/Schedules.antt =====
-- Schedules: tests, and the theorems at concrete schedules.
use terraform_provider_runde.Common.{arith, String, ◌≡◌, refl, inl}
use terraform_provider_runde.Go.{ok, err}
use terraform_provider_runde.Job.Types.{JobSchedule}
use terraform_provider_runde.Job.Schedule.{
  schedule_of, schedule_from_cron_spec, schedule_to_cron_spec, bad_days, bad_shape,
}
use terraform_provider_runde.Job.Schedule.RoundTrip.{
  IsServed, filled, schedule_to_cron_spec-schedule_from_cron_spec,
  schedule_from_cron_spec-schedule_to_cron_spec, schedule_from_cron_spec-empty_day,
}

abbrev noon : String
noon = "0 0 12 ? * * *"

abbrev noon_schedule : JobSchedule
noon_schedule = schedule_of "0" "0" "12" "?" "*" "*" "*"

abbrev gap : String
gap = "0 0 12  * ? *"

abbrev gap_schedule : JobSchedule
gap_schedule = schedule_of "0" "0" "12" "" "*" "?" "*"

schedule_tests :
    (schedule_from_cron_spec noon ≡ ok noon_schedule)
    × (schedule_from_cron_spec "0 0 12 1 * 2 *" ≡ err (bad_days "0 0 12 1 * 2 *"))
    × (schedule_from_cron_spec "0 0 12 ? * ? *" ≡ err (bad_days "0 0 12 ? * ? *"))
    × (schedule_from_cron_spec "0 0 12" ≡ err bad_shape)
    × (schedule_from_cron_spec gap ≡ ok gap_schedule)
    × (schedule_to_cron_spec (schedule_of "0" "0" "12" "" "*" "MON" "*") ≡ "0 0 12 ? * MON *")
unfolding schedule_from_cron_spec schedule_to_cron_spec
schedule_tests = (refl, refl, refl, refl, refl, refl)

schedule_to_cron_spec-schedule_from_cron_spec_example : schedule_to_cron_spec noon_schedule ≡ noon
schedule_to_cron_spec-schedule_from_cron_spec_example =
    schedule_to_cron_spec-schedule_from_cron_spec noon noon_schedule schedule_tests.0 (cc) (cc)

abbrev pub monday : JobSchedule
monday = schedule_of "0" "0" "12" "" "*" "MON" "*"

pub monday-IsServed : IsServed monday
monday-IsServed = record { no_spaces = omega arith; one_day = inl refl; no_mark = (cc, cc) }

schedule_from_cron_spec-schedule_to_cron_spec_example :
    schedule_from_cron_spec (schedule_to_cron_spec monday) ≡ ok (filled monday)
schedule_from_cron_spec-schedule_to_cron_spec_example =
    schedule_from_cron_spec-schedule_to_cron_spec monday monday-IsServed

schedule_from_cron_spec-empty_day_example :
    schedule_from_cron_spec (schedule_to_cron_spec gap_schedule)
    ≡ err (bad_days (schedule_to_cron_spec gap_schedule))
schedule_from_cron_spec-empty_day_example =
    schedule_from_cron_spec-empty_day gap gap_schedule schedule_tests.4 refl

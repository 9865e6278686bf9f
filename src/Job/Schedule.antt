-- ===== src/Job/Schedule.antt =====
-- rundeck/resource_job.go: `JobScheduleFromResourceData` and `scheduleToCronSpec`.
pub mod Accepts
pub mod RoundTrip
pub mod Safety
use terraform_provider_runde.Common.{
  String, ◌<>◌, Bool, true, false, not, ◌&&◌, ◌||◌, List, [], ◌∷◌, Option, none, some, ◌==◌,
  if◌then◌else◌,
}
use terraform_provider_runde.Common.Texts.{split, join}
use terraform_provider_runde.Go.{Outcome, ok, err, ◌>>=◌, Error, errorf, Value, as_string}
use terraform_provider_runde.Job.Types.{JobSchedule, JobDetail}

abbrev pub bad_shape : Error
bad_shape =
    errorf
      "the Rundeck schedule must be formatted like a cron expression, as defined here: http://www.quartz-scheduler.org/documentation/quartz-2.2.x/tutorials/tutorial-lesson-06.html"

abbrev pub bad_days : String → Error
bad_days cron_spec = errorf (
    "invalid 'schedule' specification " <> cron_spec
    <> " - one of day-of-month (4th item) or day-of-week (6th) must be '?'")

-- `&JobSchedule{…}` of the seven fields
abbrev pub schedule_of : (s m h d mo w y : String) → JobSchedule
schedule_of s m h d mo w y = record {
  time = record { hour = h; minute = m; seconds = s };
  month = record { day = d; month = mo };
  week_day = record { day = w };
  year = record { year = y };
}

-- the two tests on the days
check_days : String → JobSchedule → Outcome JobSchedule
check_days cron_spec schedule =
    if schedule.month.day == schedule.week_day.day
    then (if not (schedule.month.day == "*") then err (bad_days cron_spec) else ok schedule)
    else if not (schedule.month.day == "?") && not (schedule.week_day.day == "?")
    then err (bad_days cron_spec)
    else ok schedule

-- `len(schedule) != 7`, and the fields by their indices
from_parts : String → List String → Outcome JobSchedule
from_parts cron_spec (s ∷ m ∷ h ∷ d ∷ mo ∷ w ∷ y ∷ []) =
    check_days cron_spec (schedule_of s m h d mo w y)
from_parts cron_spec _ = err bad_shape

-- the body of `if cronSpec != ""`
unfoldable pub schedule_from_cron_spec : String → Outcome JobSchedule
unfolding from_parts check_days split
schedule_from_cron_spec cron_spec = from_parts cron_spec (split " " cron_spec)

unfoldable pub job_schedule_from_resource_data : (String → Value) → JobDetail → Outcome JobDetail
unfolding schedule_from_cron_spec
job_schedule_from_resource_data get job = do
  cron_spec ← as_string (get "schedule")
  if cron_spec == ""
      then ok job
      else (schedule_from_cron_spec cron_spec >>= λ s. ok (record job { schedule = some s }))

abbrev default_month_day : String → String → String
default_month_day day week_day =
    if day == "" then (if week_day == "*" || week_day == "" then "*" else "?") else day

abbrev default_week_day : String → String → String
default_week_day week_day day =
    if week_day == "" then (if day == "*" then "*" else "?") else week_day

-- It never returns an error.
unfoldable pub schedule_to_cron_spec : JobSchedule → String
unfolding join
schedule_to_cron_spec schedule =
    let day = default_month_day schedule.month.day schedule.week_day.day in
    let week_day = default_week_day schedule.week_day.day day in
    join " " (
      schedule.time.seconds ∷ schedule.time.minute ∷ schedule.time.hour ∷ day ∷ schedule.month.month
      ∷ week_day ∷ schedule.year.year ∷ [])

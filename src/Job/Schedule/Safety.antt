-- ===== src/Job/Schedule/Safety.antt =====
-- Panics in the decoding of a schedule.
use terraform_provider_runde.Common.{String, ◌==◌, not, ◌&&◌, List, [], ◌∷◌}
use terraform_provider_runde.Common.Texts.{split}
use terraform_provider_runde.Go.{if-IsSafe, IsSafe}
use terraform_provider_runde.Job.Types.{JobSchedule}
use terraform_provider_runde.Job.Schedule.{
  check_days, from_parts, schedule_from_cron_spec, schedule_of,
}

check_days-IsSafe : (spec : String) (s : JobSchedule) → IsSafe (check_days spec s)
unfolding check_days
check_days-IsSafe spec s =
    if-IsSafe (s.month.day == s.week_day.day) _ _ (if-IsSafe (not (s.month.day == "*")) _ _ tt tt)
      (if-IsSafe (not (s.month.day == "?") && not (s.week_day.day == "?")) _ _ tt tt)

from_parts-IsSafe : (spec : String) (parts : List String) → IsSafe (from_parts spec parts)
unfolding from_parts
from_parts-IsSafe spec (s ∷ m ∷ h ∷ d ∷ mo ∷ w ∷ y ∷ []) =
    check_days-IsSafe spec (schedule_of s m h d mo w y)
from_parts-IsSafe spec _ = tt

pub schedule_from_cron_spec-IsSafe : (spec : String) → IsSafe (schedule_from_cron_spec spec)
unfolding schedule_from_cron_spec
schedule_from_cron_spec-IsSafe spec = from_parts-IsSafe spec (split " " spec)

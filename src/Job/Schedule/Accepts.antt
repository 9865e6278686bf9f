-- ===== src/Job/Schedule/Accepts.antt =====
-- Which schedules `JobScheduleFromResourceData` accepts.
use terraform_provider_runde.Common.{String, ◌≡◌, refl, ◌↔◌, ◌⊎◌, ◌≢◌, List, [], ◌∷◌, arith, eq_iff}
use terraform_provider_runde.Common.Texts.{split}
use terraform_provider_runde.Go.{ok}
use terraform_provider_runde.Job.Types.{JobSchedule}
use terraform_provider_runde.Job.Schedule.{
  schedule_of, check_days, from_parts, schedule_from_cron_spec,
}

-- Both days are asterisks, or one and only one of them is a question mark.
abbrev pub DaysAgree : String → String → Type 0
DaysAgree day week_day =
    ((day ≡ "*") × (week_day ≡ "*"))
    ⊎ (((day ≡ "?") × (week_day ≢ "?")) ⊎ ((day ≢ "?") × (week_day ≡ "?")))

check_days-accepts :
    (spec : String) (s : JobSchedule)
    → DaysAgree s.month.day s.week_day.day
    → check_days spec s ≡ ok s
unfolding check_days
check_days-accepts spec s h = ground (
  arith,
  eq_iff s.month.day s.week_day.day,
  eq_iff s.month.day "*",
  eq_iff s.month.day "?",
  eq_iff s.week_day.day "?",
  eq_iff "*" "?",
)

check_days_sound :
    (spec : String) (s r : JobSchedule)
    → check_days spec s ≡ ok r
    → DaysAgree s.month.day s.week_day.day × (r ≡ s)
unfolding check_days
check_days_sound spec s r h = ground (
  arith,
  eq_iff s.month.day s.week_day.day,
  eq_iff s.month.day "*",
  eq_iff s.month.day "?",
  eq_iff s.week_day.day "?",
  eq_iff "*" "?",
)

-- The seven fields of an accepted specification, and the schedule that they make.
pub record IsCronSpec (spec : String) (r : JobSchedule) : Type 0 where
  pub fields :
      split " " spec
      ≡ r.time.seconds ∷ r.time.minute ∷ r.time.hour ∷ r.month.day ∷ r.month.month ∷ r.week_day.day
        ∷ r.year.year ∷ []
  pub days : DaysAgree r.month.day r.week_day.day

from_parts_sound :
    (spec : String) (parts : List String) (r : JobSchedule)
    → from_parts spec parts ≡ ok r
    → (parts
        ≡ r.time.seconds ∷ r.time.minute ∷ r.time.hour ∷ r.month.day ∷ r.month.month
          ∷ r.week_day.day ∷ r.year.year ∷ [])
      × DaysAgree r.month.day r.week_day.day
unfolding from_parts
from_parts_sound spec (s ∷ m ∷ h ∷ d ∷ mo ∷ w ∷ y ∷ []) r e =
    let (days, same) = check_days_sound spec (schedule_of s m h d mo w y) r e in
    rw same (refl, days)
from_parts_sound spec _ r e = cc

pub schedule_from_cron_spec-eq-ok_iff :
    (spec : String) (r : JobSchedule) → (schedule_from_cron_spec spec ≡ ok r) ↔ IsCronSpec spec r
unfolding schedule_from_cron_spec
schedule_from_cron_spec-eq-ok_iff spec r = (
  λ e.
      let (fields, days) = from_parts_sound spec (split " " spec) r e in
      record { fields = fields; days = days },
  λ c. rw (c.fields, from_parts) (check_days-accepts spec r c.days),
)

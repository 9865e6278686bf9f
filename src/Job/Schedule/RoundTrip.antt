-- ===== src/Job/Schedule/RoundTrip.antt =====
-- Writing a schedule as a cron specification and reading it back.
use mathlib.Core.Path.{subst}
use terraform_provider_runde.Common.{
  String, Bool, ◌||◌, if◌then◌else◌, ◌≡◌, sym, ap, ◌∙◌, ◌⊎◌, ◌≢◌, List, [], ◌∷◌, arith, ◌==◌,
  eq_iff, All,
}
use terraform_provider_runde.Common.Texts.{
  join, join-split, split-join, Lacks, Lacks-if, split-Lacks,
}
use terraform_provider_runde.Go.{ok, err}
use terraform_provider_runde.Job.Types.{JobSchedule}
use terraform_provider_runde.Job.Schedule.{
  schedule_from_cron_spec, schedule_to_cron_spec, bad_days, from_parts, default_month_day,
  default_week_day,
}
use terraform_provider_runde.Job.Schedule.Accepts.{DaysAgree, schedule_from_cron_spec-eq-ok_iff}

abbrev pub parts_of : JobSchedule → List String
parts_of r =
    r.time.seconds ∷ r.time.minute ∷ r.time.hour ∷ r.month.day ∷ r.month.month ∷ r.week_day.day
    ∷ r.year.year ∷ []

schedule_to_cron_spec_of_days :
    (r : JobSchedule)
    → r.month.day ≢ ""
    → r.week_day.day ≢ ""
    → schedule_to_cron_spec r ≡ join " " (parts_of r)
unfolding schedule_to_cron_spec
schedule_to_cron_spec_of_days r d w =
    ground (arith, eq_iff r.month.day "", eq_iff r.week_day.day "")

-- An accepted specification whose two day fields are not empty is written back as it was.
pub schedule_to_cron_spec-schedule_from_cron_spec :
    (spec : String) (r : JobSchedule)
    → schedule_from_cron_spec spec ≡ ok r
    → r.month.day ≢ ""
    → r.week_day.day ≢ ""
    → schedule_to_cron_spec r ≡ spec
schedule_to_cron_spec-schedule_from_cron_spec spec r e d w =
    let c = (schedule_from_cron_spec-eq-ok_iff spec r).0 e in
    schedule_to_cron_spec_of_days r d w ∙ ap (join " ") (sym c.fields) ∙ join-split " " spec

-- A schedule as Rundeck returns it: its fields hold no space, and it gives at most one of the days,
-- which is not a question mark.
pub record IsServed (s : JobSchedule) : Type 0 where
  pub no_spaces : All (Lacks " ") (parts_of s)
  pub one_day : (s.month.day ≡ "") ⊎ (s.week_day.day ≡ "")
  pub no_mark : (s.month.day ≢ "?") × (s.week_day.day ≢ "?")

-- The schedule with the absent day filled in: an asterisk beside an asterisk, else a question mark.
abbrev pub filled : JobSchedule → JobSchedule
filled s =
    let day = default_month_day s.month.day s.week_day.day in
    record s {
      month = record s.month { day = day };
      week_day = record { day = default_week_day s.week_day.day day };
    }

filled-DaysAgree :
    (s : JobSchedule) → IsServed s → DaysAgree (filled s).month.day (filled s).week_day.day
filled-DaysAgree s v = ground (
  arith,
  eq_iff s.month.day "",
  eq_iff s.week_day.day "",
  eq_iff s.month.day "*",
  eq_iff s.week_day.day "*",
  eq_iff s.month.day "?",
  eq_iff s.week_day.day "?",
  eq_iff "" "*",
  eq_iff "" "?",
  eq_iff "*" "?",
  eq_iff "?" "*",
  eq_iff "*" "*",
)

space_not_star : Lacks " " "*"
space_not_star = omega arith

space_not_mark : Lacks " " "?"
space_not_mark = omega arith

Lacks-star_or_mark : (b : Bool) → Lacks " " (if b then "*" else "?")
Lacks-star_or_mark b = Lacks-if " " b "*" "?" space_not_star space_not_mark

Lacks-default_month_day :
    (day week_day : String) → Lacks " " day → Lacks " " (default_month_day day week_day)
Lacks-default_month_day day week_day h =
    let b = week_day == "*" || week_day == "" in
    Lacks-if " " (day == "") (if b then "*" else "?") day (Lacks-star_or_mark b) h

Lacks-default_week_day :
    (week_day day : String) → Lacks " " week_day → Lacks " " (default_week_day week_day day)
Lacks-default_week_day week_day day h =
    let b = day == "*" in
    Lacks-if " " (week_day == "") (if b then "*" else "?") week_day (Lacks-star_or_mark b) h

filled-Lacks : (s : JobSchedule) → IsServed s → All (Lacks " ") (parts_of (filled s))
filled-Lacks s v =
    let (se, (mi, (ho, (da, (mo, (we, rest)))))) = v.no_spaces in
    let day = Lacks-default_month_day s.month.day s.week_day.day da in
    let week_day = Lacks-default_week_day s.week_day.day (filled s).month.day we in
    (se, (mi, (ho, (day, (mo, (week_day, rest))))))

-- What a served schedule is written as is accepted again, and gives the same schedule with the
-- absent day filled in.
pub schedule_from_cron_spec-schedule_to_cron_spec :
    (s : JobSchedule)
    → IsServed s
    → schedule_from_cron_spec (schedule_to_cron_spec s) ≡ ok (filled s)
schedule_from_cron_spec-schedule_to_cron_spec s v =
    (schedule_from_cron_spec-eq-ok_iff _ (filled s)).1 (record {
      fields =
          unfold schedule_to_cron_spec in
          split-join " " (parts_of (filled s)) (λ e. cc) (filled-Lacks s v);
      days = filled-DaysAgree s v;
    })

empty_day-mark : (day week_day : String) → DaysAgree day week_day → day ≡ "" → week_day ≡ "?"
empty_day-mark day week_day h e = ground (arith, eq_iff "" "*", eq_iff "" "?")

two_marks : JobSchedule → JobSchedule
two_marks r = record r { month = record r.month { day = "?" }; week_day = record { day = "?" } }

schedule_to_cron_spec-empty_day :
    (r : JobSchedule)
    → r.month.day ≡ ""
    → r.week_day.day ≡ "?"
    → schedule_to_cron_spec r ≡ join " " (parts_of (two_marks r))
unfolding schedule_to_cron_spec two_marks
schedule_to_cron_spec-empty_day r d w = ground (
  arith,
  eq_iff r.month.day "",
  eq_iff r.week_day.day "",
  eq_iff r.week_day.day "*",
  eq_iff "?" "*",
  eq_iff "?" "",
)

two_marks-rejected :
    (r : JobSchedule)
    → All (Lacks " ") (parts_of r)
    → schedule_from_cron_spec (join " " (parts_of (two_marks r)))
      ≡ err (bad_days (join " " (parts_of (two_marks r))))
unfolding schedule_from_cron_spec two_marks
two_marks-rejected r (se, (mi, (ho, (_, (mo, (_, rest)))))) = rw (
  split-join " " (parts_of (two_marks r)) (λ e. cc)
      (se, (mi, (ho, (space_not_mark, (mo, (space_not_mark, rest)))))),
  from_parts,
)

-- An accepted specification with an empty day-of-month is written back with two question marks,
-- which is not accepted.
pub schedule_from_cron_spec-empty_day :
    (spec : String) (r : JobSchedule)
    → schedule_from_cron_spec spec ≡ ok r
    → r.month.day ≡ ""
    → schedule_from_cron_spec (schedule_to_cron_spec r) ≡ err (bad_days (schedule_to_cron_spec r))
schedule_from_cron_spec-empty_day spec r e d =
    let c = (schedule_from_cron_spec-eq-ok_iff spec r).0 e in
    rw (schedule_to_cron_spec-empty_day r d (empty_day-mark _ _ c.days d))
      (two_marks-rejected r (subst (All (Lacks " ")) c.fields (split-Lacks " " spec)))

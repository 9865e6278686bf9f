-- ===== src/Job/RoundTrip/Schedules.antt =====
-- The schedule of a job, written to the resource data and decoded again.
use terraform_provider_runde.Common.{
  String, ◌≡◌, refl, sym, ap, ◌∙◌, ◌==◌, eq_iff, false, inl, inr, Bool-cases, Option, none, some,
  arith,
}
use terraform_provider_runde.Go.{ok, err, Value, string}
use terraform_provider_runde.Sdk.{type_string}
use terraform_provider_runde.Sdk.Reader.{SchemaReader, IsReader}
use terraform_provider_runde.Sdk.Reading.{AllSome}
use terraform_provider_runde.Sdk.Writes.{reads_as}
use terraform_provider_runde.Job.Types.{JobSchedule, JobDetail}
use terraform_provider_runde.Job.Schedule.{
  schedule_from_cron_spec, schedule_to_cron_spec, job_schedule_from_resource_data, bad_shape,
}
use terraform_provider_runde.Job.Schedule.RoundTrip.{
  IsServed, filled, schedule_from_cron_spec-schedule_to_cron_spec,
}
use terraform_provider_runde.Job.RoundTrip.Reads.{entry_of}

abbrev pub filled_schedule : Option JobSchedule → Option JobSchedule
filled_schedule none = none
filled_schedule (some s) = some (filled s)

empty_spec : schedule_from_cron_spec "" ≡ err bad_shape
unfolding schedule_from_cron_spec
empty_spec = refl

written-ne-empty : (s : JobSchedule) → IsServed s → (schedule_to_cron_spec s == "") ≡ false
written-ne-empty s v = elim (Bool-cases (schedule_to_cron_spec s == "")) [
  | inr other ↦ other
  | inl same ↦
      let empty : schedule_to_cron_spec s ≡ "" =
        ground (arith, eq_iff (schedule_to_cron_spec s) "") in
      let accepted =
        ap schedule_from_cron_spec (sym empty)
        ∙ schedule_from_cron_spec-schedule_to_cron_spec s v in
      cc (sym empty_spec ∙ accepted)
]

module _ (r : SchemaReader) (reads : IsReader r) where
  pub schedule_read :
      (get : String → Value) (o : Option JobSchedule) (job : JobDetail) (old : Value)
      → get "schedule"
        ≡ reads_as r type_string (entry_of (λ s. string (schedule_to_cron_spec s)) o) old
      → (o ≡ none → old ≡ string "")
      → AllSome IsServed o
      → job.schedule ≡ none
      → job_schedule_from_resource_data get job ≡ ok (record job { schedule = filled_schedule o })
  unfolding job_schedule_from_resource_data
  schedule_read get none job old e h _ n =
      rw (e, h refl) (ap (λ s. ok (record job { schedule = s })) n)
  schedule_read get (some s) job old e h v n = rw (
    e,
    reads.read-string (schedule_to_cron_spec s),
    written-ne-empty s v,
    schedule_from_cron_spec-schedule_to_cron_spec s v,
  )

-- ===== src/Job/RoundTrip.antt =====
-- A job that is written to the resource data and decoded again.
pub mod Reads
mod Lists
mod Schedules
mod Kept
pub use Kept.*
use terraform_provider_runde.Common.{
  String, ◌≡◌, refl, sym, ap, ◌∙◌, ◌==◌, eq_iff, false, Option, none, some, List, arith,
}
use terraform_provider_runde.Common.Dict.{Dict}
use terraform_provider_runde.Go.{ok, Value}
use terraform_provider_runde.Sdk.{
  Kind, kind_of, type_string, type_bool, type_int, type_list, resource,
}
use terraform_provider_runde.Sdk.Reader.{SchemaReader, IsReader}
use terraform_provider_runde.Sdk.ResourceData.{ResourceData, IsResourceData, set_all}
use terraform_provider_runde.Sdk.Writes.{written, reads_as, id-set_all}
use terraform_provider_runde.Job.Types.{
  JobDispatch, JobNodeFilter, JobLogFilter, JobCommandSequence, JobDetail,
}
use terraform_provider_runde.Job.Schemas.{
  job_resource, option_resource, job_filter_resource, command_resource, notification_resource,
}
use terraform_provider_runde.Job.Schedule.{job_schedule_from_resource_data}
use terraform_provider_runde.Job.Schedule.RoundTrip.{filled}
use terraform_provider_runde.Job.Options.Decode.{options_from_resource_data}
use terraform_provider_runde.Job.Notifications.Decode.{notifications_from_resource_data}
use terraform_provider_runde.Job.Notifications.Blocks.{
  notifications_from_resource_data-notification_blocks,
}
use terraform_provider_runde.Job.Decode.{
  dispatch_from_resource_data, job_fields, sequence_from_resource_data,
  node_filter_from_resource_data, job_from_resource_data, query_into, exclude_query_into,
}
use terraform_provider_runde.Job.Encode.{job_to_resource_data}
use terraform_provider_runde.Job.Writes.Lists.{job_writes}
use terraform_provider_runde.Job.Writes.{job_to_resource_data-set_all}
use terraform_provider_runde.Job.RoundTrip.Reads.{
  with_parts, read, always, written-always, written-preserve, written-filters, written-schedule,
}
use terraform_provider_runde.Job.RoundTrip.Schedules.{filled_schedule, schedule_read}
use terraform_provider_runde.Job.RoundTrip.Lists.{
  log_filters_read, options_read, options_without_dates, commands_back,
}

queries_into :
    (f : JobNodeFilter)
    → exclude_query_into f.exclude_query (
        query_into f.query
          (record { query = ""; exclude_query = ""; exclude_precedence = f.exclude_precedence }))
      ≡ f
queries_into f = ground (arith, eq_iff f.query "", eq_iff f.exclude_query "")

module _ (r : SchemaReader) (reads : IsReader r) {S : Type 0} (d : ResourceData S)
    (laws : IsResourceData job_resource r d) (job : JobDetail) (dispatch : JobDispatch)
    (filter : JobNodeFilter) (sequence : JobCommandSequence)
    (filters : List (JobLogFilter × Dict String)) (k : IsKept job sequence filters) (s s' : S)
    (agrees : AgreesWith (d.get s) job dispatch filters)
    (done : set_all d
        (job_writes (with_parts job dispatch filter sequence) filters)
        (d.set_id job.id s)
      ≡ (ok tt, s')) where
  has_project : (job.project_name == "") ≡ false
  has_project = ground (arith, eq_iff job.project_name "", k.project)

  id_back : d.id s' ≡ job.id
  id_back = id-set_all d job_resource r laws _ (d.set_id job.id s) s' done ∙ laws.id-set_id job.id s

  old : (key : String) → d.get (d.set_id job.id s) key ≡ d.get s key
  old key = laws.get-set_id job.id s key

  reads_back :
      (key : String) (kind : Kind) {o : Option Value}
      → kind_of key job_resource ≡ some kind
      → written key (job_writes (with_parts job dispatch filter sequence) filters) ≡ o
      → d.get s' key ≡ reads_as r kind o (d.get s key)
  reads_back key kind {o = o} declared h =
      read job dispatch filter sequence filters has_project d r laws (d.set_id job.id s) s' done key
        kind declared h
      ∙ ap (reads_as r kind o) (old key)

  -- an attribute that is always written, or never
  plain_back :
      (key : String) (kind : Kind) {o : Option Value}
      → kind_of key job_resource ≡ some kind
      → ("preserve_options_order" == key) ≡ false
      → ("global_log_filter" == key) ≡ false
      → ("schedule" == key) ≡ false
      → written key (always job dispatch filter sequence) ≡ o
      → d.get s' key ≡ reads_as r kind o (d.get s key)
  plain_back key kind declared p g c h =
      reads_back key kind declared
        (written-always job dispatch filter sequence filters has_project key p g c ∙ h)

  dispatch_back : dispatch_from_resource_data (d.get s') ≡ ok dispatch
  unfolding dispatch_from_resource_data
  dispatch_back = rw (
    plain_back "max_thread_count" type_int refl refl refl refl refl ∙ reads.read-int _,
    plain_back "continue_next_node_on_error" type_bool refl refl refl refl refl ∙ reads.read-bool _,
    plain_back "rank_attribute" type_string refl refl refl refl refl ∙ reads.read-string _,
    plain_back "rank_order" type_string refl refl refl refl refl ∙ reads.read-string _,
    plain_back "success_on_empty_node_filter" type_bool refl refl refl refl refl
        ∙ agrees.success_on_empty,
  )

  fields_back :
      job_fields (d.id s') (d.get s')
      ≡ ok (record job {
        options_config = none;
        dispatch = some dispatch;
        command_sequence = none;
        notification = none;
        node_filter = none;
        nodes_selected_by_default = none;
        schedule = none;
      })
  unfolding job_fields
  fields_back = rw (
    id_back,
    plain_back "name" type_string refl refl refl refl refl ∙ reads.read-string _,
    plain_back "group_name" type_string refl refl refl refl refl ∙ reads.read-string _,
    plain_back "project_name" type_string refl refl refl refl refl ∙ reads.read-string _,
    plain_back "description" type_string refl refl refl refl refl ∙ reads.read-string _,
    plain_back "execution_enabled" type_bool refl refl refl refl refl ∙ reads.read-bool _,
    plain_back "timeout" type_string refl refl refl refl refl ∙ agrees.timeout,
    plain_back "schedule_enabled" type_bool refl refl refl refl refl ∙ reads.read-bool _,
    plain_back "time_zone" type_string refl refl refl refl refl ∙ reads.read-string _,
    plain_back "log_level" type_string refl refl refl refl refl ∙ reads.read-string _,
    plain_back "allow_concurrent_executions" type_bool refl refl refl refl refl ∙ reads.read-bool _,
    plain_back "retry" type_string refl refl refl refl refl ∙ reads.read-string _,
    dispatch_back,
  )

  filter_back : node_filter_from_resource_data (d.get s') ≡ ok filter
  unfolding node_filter_from_resource_data
  filter_back =
      rw
        (
          plain_back "node_filter_exclude_precedence" type_bool refl refl refl refl refl
              ∙ reads.read-bool _,
          plain_back "node_filter_query" type_string refl refl refl refl refl ∙ reads.read-string _,
          plain_back "node_filter_exclude_query" type_string refl refl refl refl refl
              ∙ reads.read-string _,
        )
        (ap ok (queries_into filter))

  sequence_back : sequence_from_resource_data (d.get s') ≡ ok sequence
  unfolding sequence_from_resource_data
  sequence_back =
      let (vs, listed, log_filters) =
        log_filters_read r reads sequence.global_log_filters filters (d.get s' "global_log_filter")
          (d.get s "global_log_filter")
          (reads_back "global_log_filter" (type_list (resource job_filter_resource)) refl
            (written-filters job dispatch filter sequence filters has_project))
          k.configs k.some_filters k.config_keys agrees.log_filters in
      rw
        (
          plain_back "continue_on_error" type_bool refl refl refl refl refl ∙ reads.read-bool _,
          plain_back "command_ordering_strategy" type_string refl refl refl refl refl
              ∙ reads.read-string _,
          listed,
          log_filters,
          plain_back "command" (type_list (resource command_resource)) refl refl refl refl refl
              ∙ reads.read-blocks command_resource _,
          commands_back r reads sequence.commands k.commands,
        )
        (ap (λ text. ok (record sequence { description = text })) (sym k.no_description))

  options_back :
      options_from_resource_data (d.get s') ≡ ok (options_without_dates job.options_config)
  options_back =
      options_read r reads (d.get s') job.options_config (d.get s "preserve_options_order")
        (plain_back "option" (type_list (resource option_resource)) refl refl refl refl refl)
        (reads_back "preserve_options_order" type_bool refl
          (written-preserve job dispatch filter sequence filters has_project))
        k.options

  schedule_back :
      (job' : JobDetail)
      → job'.schedule ≡ none
      → job_schedule_from_resource_data (d.get s') job'
        ≡ ok (record job' { schedule = filled_schedule job.schedule })
  schedule_back job' h =
      schedule_read r reads (d.get s') job.schedule job' (d.get s "schedule")
        (reads_back "schedule" type_string refl
          (written-schedule job dispatch filter sequence filters has_project))
        agrees.schedule k.schedule h

  notifications_back : notifications_from_resource_data (d.get s') ≡ ok job.notification
  notifications_back =
      notifications_from_resource_data-notification_blocks r reads job.notification (d.get s')
        k.notification
        (plain_back "notification" (type_list (resource notification_resource)) refl refl refl refl
          refl)

  unscheduled : JobDetail
  unscheduled = record job {
    options_config = options_without_dates job.options_config;
    dispatch = some dispatch;
    command_sequence = some sequence;
    notification = none;
    node_filter = some filter;
    nodes_selected_by_default = none;
    schedule = none;
  }

  decoded_back :
      job_from_resource_data (d.id s') (d.get s')
      ≡ ok (kept (with_parts job dispatch filter sequence))
  unfolding job_from_resource_data unscheduled
  decoded_back =
      rw
        (
          fields_back,
          sequence_back,
          options_back,
          filter_back,
          schedule_back unscheduled refl,
          notifications_back,
        )
        (ap
          (λ n. ok (record (kept (with_parts job dispatch filter sequence)) {
            nodes_selected_by_default = n;
          }))
          (sym k.no_default))

-- If `jobToResourceData` succeeds on a job of the server that the resource data can represent, then
-- `jobFromResourceData` gives the same job again, with its schedule's absent day filled in and with
-- options that are no longer dates, where the attributes that are not written agree with the job.
pub job_from_resource_data-job_to_resource_data :
    (r : SchemaReader) (reads : IsReader r) {S : Type 0} (d : ResourceData S)
    → IsResourceData job_resource r d
    → (job : JobDetail) (dispatch : JobDispatch) (filter : JobNodeFilter)
      (sequence : JobCommandSequence) (filters : List (JobLogFilter × Dict String))
    → IsKept job sequence filters
    → (s s' : S) → AgreesWith (d.get s) job dispatch filters
    → job_to_resource_data d (with_parts job dispatch filter sequence) s ≡ (ok tt, s')
    → job_from_resource_data (d.id s') (d.get s')
      ≡ ok (kept (with_parts job dispatch filter sequence))
job_from_resource_data-job_to_resource_data r reads d laws job dispatch filter sequence filters k s
      s' agrees done =
    decoded_back r reads d laws job dispatch filter sequence filters k s s' agrees (
      sym (
        job_to_resource_data-set_all d (with_parts job dispatch filter sequence) filters s
          k.configs)
      ∙ done)

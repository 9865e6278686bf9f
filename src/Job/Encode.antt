-- ===== src/Job/Encode.antt =====
-- rundeck/resource_job.go: `jobToResourceData`.
use terraform_provider_runde.Common.{
  String, false, Option, none, some, List, [], ◌∷◌, map, ◌==◌, if◌then◌else◌,
}
use terraform_provider_runde.Common.Dict.{Dict}
use terraform_provider_runde.Go.{
  Outcome, ok, panic, nil_dereference, traverse, Value, nil, bool, int, pos, string, list, object,
  string_map, Fields, of_dict, of_list,
}
use terraform_provider_runde.Go.Exec.{Exec, ◌>>=◌, ◌>>◌, return, lift}
use terraform_provider_runde.Sdk.ResourceData.{ResourceData, set, set_id}
use terraform_provider_runde.Job.Types.{
  JobDispatch, JobNodeFilter, JobLogFilter, JobOptions, JobCommandSequence, JobSchedule, JobDetail,
}
use terraform_provider_runde.Job.Schedule.{schedule_to_cron_spec}
use terraform_provider_runde.Job.Command.Encode.{command_to_resource_data}
use terraform_provider_runde.Job.Options.Encode.{option_blocks}
use terraform_provider_runde.Job.Notifications.Encode.{notification_blocks}

abbrev pub block_list : List Fields → Value
block_list blocks = list (of_list (map object blocks))

-- `*logFilter.Config` of a filter without configuration follows a nil pointer
abbrev pub log_filter_to_resource_data : JobLogFilter → Outcome Fields
log_filter_to_resource_data filter = log_filter_of filter.type filter.config
  where
    log_filter_of : String → Option (Dict String) → Outcome Fields
    log_filter_of type none = panic nil_dereference
    log_filter_of type (some config) =
        ok (of_dict (("type", string type) ∷ ("config", string_map config) ∷ []))

module _ {S : Type 0} (d : ResourceData S) where
  abbrev pub fields_to_resource_data : JobDetail → Exec S (Unit {0})
  fields_to_resource_data job = do
    set_id d job.id
    set d "name" (string job.name)
    set d "group_name" (string job.group_name)
    if job.project_name == "" then return tt else set d "project_name" (string job.project_name)
    set d "description" (string job.description)
    set d "execution_enabled" (bool job.execution_enabled)
    set d "schedule_enabled" (bool job.schedule_enabled)
    set d "time_zone" (string job.time_zone)
    set d "log_level" (string job.log_level)
    set d "allow_concurrent_executions" (bool job.allow_concurrent_executions)
    set d "retry" (string job.retry)

  abbrev pub dispatch_to_resource_data : Option JobDispatch → Exec S (Unit {0})
  dispatch_to_resource_data (some dispatch) = do
    set d "max_thread_count" (int dispatch.max_thread_count)
    set d "continue_next_node_on_error" (bool dispatch.continue_next_node_on_error)
    set d "rank_attribute" (string dispatch.rank_attribute)
    set d "rank_order" (string dispatch.rank_order)
  dispatch_to_resource_data none = do
    set d "max_thread_count" (int (pos 1))
    set d "continue_next_node_on_error" (bool false)
    set d "rank_attribute" nil
    set d "rank_order" (string "ascending")

  abbrev pub filter_to_resource_data : Option JobNodeFilter → Exec S (Unit {0})
  filter_to_resource_data (some filter) = do
    set d "node_filter_query" (string filter.query)
    set d "node_filter_exclude_query" (string filter.exclude_query)
    set d "node_filter_exclude_precedence" (bool filter.exclude_precedence)
  filter_to_resource_data none = do
    set d "node_filter_query" nil
    set d "node_filter_exclude_query" nil
    set d "node_filter_exclude_precedence" nil

  abbrev pub preserve_order_to_resource_data : Option JobOptions → Exec S (Unit {0})
  preserve_order_to_resource_data none = return tt
  preserve_order_to_resource_data (some options) =
      set d "preserve_options_order" (bool options.preserve_order)

  abbrev pub options_to_resource_data : Option JobOptions → Exec S (Unit {0})
  options_to_resource_data options = do
    preserve_order_to_resource_data options
    set d "option" (block_list (option_blocks options))

  abbrev pub log_filters_to_resource_data : Option (List JobLogFilter) → Exec S (Unit {0})
  log_filters_to_resource_data none = return tt
  log_filters_to_resource_data (some []) = return tt
  log_filters_to_resource_data (some (f ∷ fs)) = do
    blocks ← lift (traverse log_filter_to_resource_data (f ∷ fs))
    set d "global_log_filter" (block_list blocks)

  abbrev pub sequence_to_resource_data : Option JobCommandSequence → Exec S (Unit {0})
  sequence_to_resource_data none = return tt
  sequence_to_resource_data (some sequence) = do
    set d "command_ordering_strategy" (string sequence.ordering_strategy)
    set d "continue_on_error" (bool sequence.continue_on_error)
    log_filters_to_resource_data sequence.global_log_filters
    set d "command" (block_list (map command_to_resource_data sequence.commands))

  abbrev pub schedule_to_resource_data : Option JobSchedule → Exec S (Unit {0})
  schedule_to_resource_data none = return tt
  schedule_to_resource_data (some schedule) =
      set d "schedule" (string (schedule_to_cron_spec schedule))

  unfoldable pub job_to_resource_data : JobDetail → Exec S (Unit {0})
  job_to_resource_data job = do
    fields_to_resource_data job
    dispatch_to_resource_data job.dispatch
    filter_to_resource_data job.node_filter
    options_to_resource_data job.options_config
    sequence_to_resource_data job.command_sequence
    schedule_to_resource_data job.schedule
    set d "notification" (block_list (notification_blocks job.notification))

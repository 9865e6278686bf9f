-- ===== src/Job/Writes/Lists.antt =====
-- The attributes and values that `jobToResourceData` writes, part by part.
use terraform_provider_runde.Common.{
  String, ◌≡◌, ◌==◌, false, if◌then◌else◌, Option, none, some, List, [], ◌∷◌, ◌++◌, map, All,
}
use terraform_provider_runde.Common.Dict.{Dict}
use terraform_provider_runde.Go.{
  Value, nil, bool, int, pos, string, string_map, Fields, of_dict, with_entry,
}
use terraform_provider_runde.Job.Types.{
  JobDispatch, JobNodeFilter, JobLogFilter, JobOptions, JobCommandSequence, JobSchedule, JobDetail,
}
use terraform_provider_runde.Job.Schedule.{schedule_to_cron_spec}
use terraform_provider_runde.Job.Command.Encode.{command_to_resource_data}
use terraform_provider_runde.Job.Options.Encode.{option_blocks}
use terraform_provider_runde.Job.Notifications.Encode.{notification_blocks}
use terraform_provider_runde.Job.Encode.{block_list}

abbrev pub project_writes : String → Dict Value
project_writes name = if name == "" then [] else ("project_name", string name) ∷ []

abbrev pub names : JobDetail → Dict Value
names job = ("name", string job.name) ∷ ("group_name", string job.group_name) ∷ []

abbrev pub settings : JobDetail → Dict Value
settings job =
    ("description", string job.description)
    ∷ ("execution_enabled", bool job.execution_enabled)
    ∷ ("schedule_enabled", bool job.schedule_enabled)
    ∷ ("time_zone", string job.time_zone)
    ∷ ("log_level", string job.log_level)
    ∷ ("allow_concurrent_executions", bool job.allow_concurrent_executions)
    ∷ ("retry", string job.retry)
    ∷ []

abbrev pub dispatch_writes : Option JobDispatch → Dict Value
dispatch_writes (some dispatch) =
    ("max_thread_count", int dispatch.max_thread_count)
    ∷ ("continue_next_node_on_error", bool dispatch.continue_next_node_on_error)
    ∷ ("rank_attribute", string dispatch.rank_attribute)
    ∷ ("rank_order", string dispatch.rank_order)
    ∷ []
dispatch_writes none =
    ("max_thread_count", int (pos 1))
    ∷ ("continue_next_node_on_error", bool false)
    ∷ ("rank_attribute", nil)
    ∷ ("rank_order", string "ascending")
    ∷ []

abbrev pub filter_writes : Option JobNodeFilter → Dict Value
filter_writes (some filter) =
    ("node_filter_query", string filter.query)
    ∷ ("node_filter_exclude_query", string filter.exclude_query)
    ∷ ("node_filter_exclude_precedence", bool filter.exclude_precedence)
    ∷ []
filter_writes none =
    ("node_filter_query", nil)
    ∷ ("node_filter_exclude_query", nil)
    ∷ ("node_filter_exclude_precedence", nil)
    ∷ []

abbrev pub preserve_writes : Option JobOptions → Dict Value
preserve_writes options =
    with_entry "preserve_options_order" (λ o. bool o.preserve_order) options []

abbrev pub log_filter_fields : JobLogFilter → Dict String → Fields
log_filter_fields f config = of_dict (("type", string f.type) ∷ ("config", string_map config) ∷ [])

-- the filters with the configurations that their pointers lead to
abbrev pub with_configs : List (JobLogFilter × Dict String) → List Fields
with_configs fs = map (λ f. log_filter_fields f.0 f.1) fs

abbrev pub log_filter_writes : List (JobLogFilter × Dict String) → Dict Value
log_filter_writes [] = []
log_filter_writes (f ∷ fs) = ("global_log_filter", block_list (with_configs (f ∷ fs))) ∷ []

abbrev pub sequence_writes :
    Option JobCommandSequence → List (JobLogFilter × Dict String) → Dict Value
sequence_writes none filters = []
sequence_writes (some sequence) filters =
    (("command_ordering_strategy", string sequence.ordering_strategy)
      ∷ ("continue_on_error", bool sequence.continue_on_error)
      ∷ [])
    ++ (log_filter_writes filters
        ++ (("command", block_list (map command_to_resource_data sequence.commands)) ∷ []))

abbrev pub schedule_writes : Option JobSchedule → Dict Value
schedule_writes schedule = with_entry "schedule" (λ s. string (schedule_to_cron_spec s)) schedule []

abbrev pub job_writes : JobDetail → List (JobLogFilter × Dict String) → Dict Value
job_writes job filters =
    (names job ++ (project_writes job.project_name ++ settings job))
    ++ (dispatch_writes job.dispatch
        ++ (filter_writes job.node_filter
            ++ ((preserve_writes job.options_config
                  ++ (("option", block_list (option_blocks job.options_config)) ∷ []))
                ++ (sequence_writes job.command_sequence filters
                    ++ (schedule_writes job.schedule
                        ++ (("notification", block_list (notification_blocks job.notification))
                            ∷ []))))))

-- the log filters of a job, each with its configuration
abbrev pub HasConfigs : Option (List JobLogFilter) → List (JobLogFilter × Dict String) → Type 0
HasConfigs none fs = fs ≡ []
HasConfigs (some filters) fs = (filters ≡ map (λ f. f.0) fs) × All (λ f. f.0.config ≡ some f.1) fs

abbrev pub SequenceHasConfigs :
    Option JobCommandSequence → List (JobLogFilter × Dict String) → Type 0
SequenceHasConfigs none fs = fs ≡ []
SequenceHasConfigs (some sequence) fs = HasConfigs sequence.global_log_filters fs

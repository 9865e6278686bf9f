-- ===== src/Job/RoundTrip/Kept.antt =====
-- Jobs that the resource data can represent, and what decoding makes of them.
use terraform_provider_runde.Common.{String, ◌≡◌, ◌≢◌, none, some, List, [], All}
use terraform_provider_runde.Common.Dict.{Dict, NodupKeys}
use terraform_provider_runde.Go.{Value, string, bool, list, end}
use terraform_provider_runde.Sdk.Reading.{AllSome}
use terraform_provider_runde.Job.Types.{JobDispatch, JobLogFilter, JobCommandSequence, JobDetail}
use terraform_provider_runde.Job.Schedule.RoundTrip.{IsServed}
use terraform_provider_runde.Job.Command.RoundTrip.{CanDeclare}
use terraform_provider_runde.Job.Notifications.Blocks.{JobIsRepresentable}
use terraform_provider_runde.Job.Writes.Lists.{HasConfigs}
use terraform_provider_runde.Job.RoundTrip.Schedules.{filled_schedule}
use terraform_provider_runde.Job.RoundTrip.Lists.{AreKept, options_without_dates}

-- what decoding makes of a job: its days are filled in, and its options are no longer dates
abbrev pub kept : JobDetail → JobDetail
kept job = record job {
  options_config = options_without_dates job.options_config;
  schedule = filled_schedule job.schedule;
}

-- What the resource data can represent of a job that the server returned.
pub record IsKept (job : JobDetail) (sequence : JobCommandSequence)
    (filters : List (JobLogFilter × Dict String)) : Type 0 where
  pub project : job.project_name ≢ ""
  pub no_default : job.nodes_selected_by_default ≡ none
  pub no_description : sequence.description ≡ ""
  pub commands : All CanDeclare sequence.commands
  pub configs : HasConfigs sequence.global_log_filters filters
  pub some_filters : sequence.global_log_filters ≢ some []
  pub config_keys : All (λ f. NodupKeys f.1) filters
  pub options : AreKept job.options_config
  pub schedule : AllSome IsServed job.schedule
  pub notification : JobIsRepresentable job.notification

-- What is not written reads as the job has it: two attributes never are, two others only where the
-- job has a value.
pub record AgreesWith (get : String → Value) (job : JobDetail) (dispatch : JobDispatch)
    (filters : List (JobLogFilter × Dict String)) : Type 0 where
  pub timeout : get "timeout" ≡ string job.timeout
  pub success_on_empty :
      get "success_on_empty_node_filter" ≡ bool dispatch.success_on_empty_node_filter
  pub log_filters : filters ≡ [] → get "global_log_filter" ≡ list end
  pub schedule : job.schedule ≡ none → get "schedule" ≡ string ""

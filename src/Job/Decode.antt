-- ===== src/Job/Decode.antt =====
-- rundeck/resource_job.go: `jobFromResourceData`. The identifier and the attributes of the resource
-- data are its arguments `id` and `get`; the parts with a file of their own are called from here.
use terraform_provider_runde.Common.{
  String, Bool, false, Option, none, some, List, [], ◌∷◌, ◌==◌, if◌then◌else◌,
}
use terraform_provider_runde.Go.{
  Outcome, ok, ◌>>=◌, traverse, Value, nil, get_field, as_string, as_bool, as_int, as_list,
  as_object,
}
use terraform_provider_runde.Job.Types.{
  JobDispatch, JobNodeFilter, JobLogFilter, JobCommandSequence, JobDetail,
}
use terraform_provider_runde.Job.Schedule.{job_schedule_from_resource_data}
use terraform_provider_runde.Job.Command.Decode.{config_onto, command_from_resource_data}
use terraform_provider_runde.Job.Options.Decode.{options_from_resource_data}
use terraform_provider_runde.Job.Notifications.Decode.{notifications_from_resource_data}

-- `if successOnEmpty != nil`
abbrev pub success_on_empty : Value → Outcome Bool
success_on_empty nil = ok false
success_on_empty v = as_bool v

unfoldable pub dispatch_from_resource_data : (String → Value) → Outcome JobDispatch
dispatch_from_resource_data get = do
  max_thread_count ← as_int (get "max_thread_count")
  continue_next_node_on_error ← as_bool (get "continue_next_node_on_error")
  rank_attribute ← as_string (get "rank_attribute")
  rank_order ← as_string (get "rank_order")
  success_on_empty_node_filter ← success_on_empty (get "success_on_empty_node_filter")
  ok (record {
    max_thread_count = max_thread_count;
    continue_next_node_on_error = continue_next_node_on_error;
    rank_attribute = rank_attribute;
    rank_order = rank_order;
    success_on_empty_node_filter = success_on_empty_node_filter;
  })

-- the structure that the function starts from
unfoldable pub job_fields : String → (String → Value) → Outcome JobDetail
job_fields id get = do
  name ← as_string (get "name")
  group_name ← as_string (get "group_name")
  project_name ← as_string (get "project_name")
  description ← as_string (get "description")
  execution_enabled ← as_bool (get "execution_enabled")
  timeout ← as_string (get "timeout")
  schedule_enabled ← as_bool (get "schedule_enabled")
  time_zone ← as_string (get "time_zone")
  log_level ← as_string (get "log_level")
  allow_concurrent_executions ← as_bool (get "allow_concurrent_executions")
  retry ← as_string (get "retry")
  dispatch ← dispatch_from_resource_data get
  ok (record {
    id = id;
    name = name;
    group_name = group_name;
    project_name = project_name;
    options_config = none;
    description = description;
    execution_enabled = execution_enabled;
    log_level = log_level;
    allow_concurrent_executions = allow_concurrent_executions;
    dispatch = some dispatch;
    command_sequence = none;
    notification = none;
    timeout = timeout;
    retry = retry;
    node_filter = none;
    nodes_selected_by_default = none;
    schedule = none;
    schedule_enabled = schedule_enabled;
    time_zone = time_zone;
  })

-- one round of the loop over the log filters
unfoldable pub log_filter_from_resource_data : Value → Outcome JobLogFilter
log_filter_from_resource_data v = do
  log_filter_map ← as_object v
  config_fields ← as_object (get_field "config" log_filter_map)
  config ← config_onto [] config_fields
  type ← as_string (get_field "type" log_filter_map)
  ok (record { type = type; config = some config })

abbrev pub log_filters_of : List Value → Outcome (Option (List JobLogFilter))
log_filters_of [] = ok none
log_filters_of (v ∷ vs) =
    traverse log_filter_from_resource_data (v ∷ vs) >>= λ filters. ok (some filters)

unfoldable pub sequence_from_resource_data : (String → Value) → Outcome JobCommandSequence
sequence_from_resource_data get = do
  continue_on_error ← as_bool (get "continue_on_error")
  ordering_strategy ← as_string (get "command_ordering_strategy")
  log_filter_values ← as_list (get "global_log_filter")
  log_filters ← log_filters_of log_filter_values
  command_values ← as_list (get "command")
  commands ← traverse command_from_resource_data command_values
  ok (record {
    continue_on_error = continue_on_error;
    ordering_strategy = ordering_strategy;
    global_log_filters = log_filters;
    commands = commands;
    description = "";
  })

abbrev pub query_into : String → JobNodeFilter → JobNodeFilter
query_into query f = if query == "" then f else record f { query = query }

abbrev pub exclude_query_into : String → JobNodeFilter → JobNodeFilter
exclude_query_into query f = if query == "" then f else record f { exclude_query = query }

unfoldable pub node_filter_from_resource_data : (String → Value) → Outcome JobNodeFilter
node_filter_from_resource_data get = do
  exclude_precedence ← as_bool (get "node_filter_exclude_precedence")
  query ← as_string (get "node_filter_query")
  exclude_query ← as_string (get "node_filter_exclude_query")
  ok (
      exclude_query_into exclude_query (
        query_into query
          (record { query = ""; exclude_query = ""; exclude_precedence = exclude_precedence })))

unfoldable pub job_from_resource_data : String → (String → Value) → Outcome JobDetail
job_from_resource_data id get = do
  job ← job_fields id get
  sequence ← sequence_from_resource_data get
  options ← options_from_resource_data get
  node_filter ← node_filter_from_resource_data get
  scheduled ← job_schedule_from_resource_data get (record job {
    command_sequence = some sequence;
    options_config = options;
    node_filter = some node_filter;
  })
  notification ← notifications_from_resource_data get
  ok (record scheduled { notification = notification })

-- ===== src/Job/Types.antt =====
-- The structures of rundeck/job.go. A pointer that may be nil is an `Option`; the XML names of a
-- structure (`XMLName`) carry no data and are left out.
use terraform_provider_runde.Common.{String, Bool, Option, List}
use terraform_provider_runde.Common.Dict.{Dict}
use terraform_provider_runde.Go.{ℤ}

pub record JobScheduleTime : Type 0 where
  pub hour : String
  pub minute : String
  pub seconds : String

pub record JobScheduleMonth : Type 0 where
  pub day : String
  pub month : String

pub record JobScheduleWeekDay : Type 0 where
  pub day : String

pub record JobScheduleYear : Type 0 where
  pub year : String

pub record JobSchedule : Type 0 where
  pub time : JobScheduleTime
  pub month : JobScheduleMonth
  pub week_day : JobScheduleWeekDay
  pub year : JobScheduleYear

pub record JobPlugin : Type 0 where
  pub type : String
  pub config : Dict String

pub record EmailNotification : Type 0 where
  pub attach_log : Bool
  pub recipients : List String
  pub subject : String

pub record WebHookNotification : Type 0 where
  pub urls : List String

pub record Notification : Type 0 where
  pub email : Option EmailNotification
  pub web_hook : Option WebHookNotification
  pub plugin : Option JobPlugin
  pub http_method : String
  pub format : String

pub record JobNotification : Type 0 where
  pub on_failure : Option Notification
  pub on_start : Option Notification
  pub on_success : Option Notification

pub record JobOption : Type 0 where
  pub multi_value_delimiter : String
  pub require_predefined_choice : Bool
  pub allows_multiple_values : Bool
  pub name : String
  pub label : String
  pub validation_regex : String
  pub is_required : Bool
  pub is_date : Bool
  pub date_format : String
  pub obscure_input : Bool
  pub storage_path : String
  pub default_value : String
  pub value_is_exposed_to_scripts : Bool
  pub value_choices : List String
  pub value_choices_url : String
  pub description : String

pub record JobOptions : Type 0 where
  pub preserve_order : Bool
  pub options : List JobOption

pub record JobNodeFilter : Type 0 where
  pub query : String
  pub exclude_query : String
  pub exclude_precedence : Bool

pub record JobDispatch : Type 0 where
  pub max_thread_count : ℤ
  pub continue_next_node_on_error : Bool
  pub rank_attribute : String
  pub rank_order : String
  pub success_on_empty_node_filter : Bool

pub record JobCommandScriptInterpreter : Type 0 where
  pub invocation_string : String
  pub args_quoted : Bool

pub record JobCommandJobRef : Type 0 where
  pub name : String
  pub group_name : String
  pub run_for_each_node : Bool
  pub dispatch : Option JobDispatch
  pub node_filter : Option JobNodeFilter
  pub arguments : String
  pub import_options : Bool

-- The fields of `JobCommand` but its `ErrorHandler`.
pub record CommandParts : Type 0 where
  pub description : String
  pub keep_going_on_success : Bool
  pub shell_command : String
  pub file_extension : String
  pub script : String
  pub script_file : String
  pub script_file_args : String
  pub script_interpreter : Option JobCommandScriptInterpreter
  pub job : Option JobCommandJobRef
  pub step_plugin : Option JobPlugin
  pub node_step_plugin : Option JobPlugin

-- `JobCommand`, whose `ErrorHandler` is a command or nil.
mutual
  pub data JobCommand : Type 0 where
    command : CommandParts → ErrorHandler → JobCommand

  pub data ErrorHandler : Type 0 where
    no_handler : ErrorHandler
    handler : JobCommand → ErrorHandler

-- `config` is a pointer to a map, nil where the XML has no `config` element.
pub record JobLogFilter : Type 0 where
  pub type : String
  pub config : Option (Dict String)

pub record JobCommandSequence : Type 0 where
  pub continue_on_error : Bool
  pub ordering_strategy : String
  pub global_log_filters : Option (List JobLogFilter)
  pub commands : List JobCommand
  pub description : String

pub record JobDetail : Type 0 where
  pub id : String
  pub name : String
  pub group_name : String
  pub project_name : String
  pub options_config : Option JobOptions
  pub description : String
  pub execution_enabled : Bool
  pub log_level : String
  pub allow_concurrent_executions : Bool
  pub dispatch : Option JobDispatch
  pub command_sequence : Option JobCommandSequence
  pub notification : Option JobNotification
  pub timeout : String
  pub retry : String
  pub node_filter : Option JobNodeFilter
  pub nodes_selected_by_default : Option Bool
  pub schedule : Option JobSchedule
  pub schedule_enabled : Bool
  pub time_zone : String

pub record JobSummary : Type 0 where
  pub id : String
  pub name : String
  pub group_name : String
  pub project_name : String
  pub description : String

-- ===== src/Job/Command/Decode.antt =====
-- rundeck/resource_job.go: a command of a job from the resource data, `commandFromResourceData` and its
-- helpers.
use terraform_provider_runde.Common.{
  String, ◌<>◌, Option, none, some, List, [], ◌∷◌, ◌==◌, if◌then◌else◌,
}
use terraform_provider_runde.Common.Dict.{Dict, insert}
use terraform_provider_runde.Go.{
  Outcome, ok, err, panic, bad_assertion, ◌>>=◌, errorf, Value, Values, end, cons, list, object,
  Fields, no_fields, field, get_field, as_string, as_bool, as_list, as_object,
}
use terraform_provider_runde.Job.Types.{
  JobPlugin, JobNodeFilter, JobCommandScriptInterpreter, JobCommandJobRef, JobCommand, command,
  ErrorHandler, no_handler, handler,
}

-- `for key, value := range configI { config[key] = value.(string) }`
unfoldable pub config_onto : Dict String → Fields → Outcome (Dict String)
unfolding insert
config_onto config no_fields = ok config
config_onto config (field key value rest) =
    as_string value >>= λ s. config_onto (insert key s config) rest

abbrev pub plugin_of : Value → Outcome JobPlugin
plugin_of v = do
  plugin ← as_object v
  config_fields ← as_object (get_field "config" plugin)
  config ← config_onto [] config_fields
  type ← as_string (get_field "type" plugin)
  ok (record { type = type; config = config })

abbrev pub single_plugin : String → List Value → Outcome (Option JobPlugin)
single_plugin key [] = ok none
single_plugin key (v ∷ []) = plugin_of v >>= λ p. ok (some p)
single_plugin key (v ∷ w ∷ vs) = err (errorf ("rundeck command may have no more than one " <> key))

unfoldable pub single_plugin_from_resource_data : String → Fields → Outcome (Option JobPlugin)
unfolding config_onto
single_plugin_from_resource_data key command_map =
    as_list (get_field key command_map) >>= single_plugin key

abbrev pub node_filter_of : List Value → Outcome (Option JobNodeFilter)
node_filter_of [] = ok none
node_filter_of (v ∷ []) = do
  node_filter ← as_object v
  query ← as_string (get_field "filter" node_filter)
  exclude_query ← as_string (get_field "exclude_filter" node_filter)
  exclude_precedence ← as_bool (get_field "exclude_precedence" node_filter)
  ok (
      some (record {
        query = query;
        exclude_query = exclude_query;
        exclude_precedence = exclude_precedence;
      }))
node_filter_of (v ∷ w ∷ vs) =
    err (errorf "rundeck command job reference may have no more than one node filter")

abbrev pub job_ref_of : Value → Outcome JobCommandJobRef
job_ref_of v = do
  job_ref ← as_object v
  name ← as_string (get_field "name" job_ref)
  group_name ← as_string (get_field "group_name" job_ref)
  run_for_each_node ← as_bool (get_field "run_for_each_node" job_ref)
  arguments ← as_string (get_field "args" job_ref)
  import_options ← as_bool (get_field "import_options" job_ref)
  node_filters ← as_list (get_field "node_filters" job_ref)
  node_filter ← node_filter_of node_filters
  ok (record {
    name = name;
    group_name = group_name;
    run_for_each_node = run_for_each_node;
    dispatch = none;
    node_filter = node_filter;
    arguments = arguments;
    import_options = import_options;
  })

abbrev pub single_job_ref : String → List Value → Outcome (Option JobCommandJobRef)
single_job_ref key [] = ok none
single_job_ref key (v ∷ []) = job_ref_of v >>= λ r. ok (some r)
single_job_ref key (v ∷ w ∷ vs) = err (errorf ("rundeck command may have no more than one " <> key))

unfoldable pub job_command_job_ref_from_resource_data :
    String → Fields → Outcome (Option JobCommandJobRef)
job_command_job_ref_from_resource_data key command_map =
    as_list (get_field key command_map) >>= single_job_ref key

abbrev pub script_interpreter_of : List Value → Outcome (Option JobCommandScriptInterpreter)
script_interpreter_of [] = ok none
script_interpreter_of (v ∷ []) = do
  script_interpreter ← as_object v
  invocation_string ← as_string (get_field "invocation_string" script_interpreter)
  args_quoted ← as_bool (get_field "args_quoted" script_interpreter)
  ok (some (record { invocation_string = invocation_string; args_quoted = args_quoted }))
script_interpreter_of (v ∷ w ∷ vs) =
    err (errorf "rundeck command may have no more than one script interpreter")

unfoldable pub script_interpreter_from_resource_data :
    Fields → Outcome (Option JobCommandScriptInterpreter)
script_interpreter_from_resource_data command_map =
    as_list (get_field "script_interpreter" command_map) >>= script_interpreter_of

-- The body of `commandFromResourceData`, with what its recursive call makes of the error handler.
unfoldable pub command_with : Fields → Outcome ErrorHandler → Outcome JobCommand
unfolding single_plugin_from_resource_data job_command_job_ref_from_resource_data
    script_interpreter_from_resource_data
command_with command_map error_handler = do
  description ← as_string (get_field "description" command_map)
  shell_command ← as_string (get_field "shell_command" command_map)
  script ← as_string (get_field "inline_script" command_map)
  script_file ← as_string (get_field "script_file" command_map)
  script_file_args ← as_string (get_field "script_file_args" command_map)
  keep_going_on_success ← as_bool (get_field "keep_going_on_success" command_map)
  error_handler ← error_handler
  script_interpreter ← script_interpreter_from_resource_data command_map
  job ← job_command_job_ref_from_resource_data "job" command_map
  step_plugin ← single_plugin_from_resource_data "step_plugin" command_map
  node_step_plugin ← single_plugin_from_resource_data "node_step_plugin" command_map
  ok (
      command
        (record {
          description = description;
          keep_going_on_success = keep_going_on_success;
          shell_command = shell_command;
          file_extension = "";
          script = script;
          script_file = script_file;
          script_file_args = script_file_args;
          script_interpreter = script_interpreter;
          job = job;
          step_plugin = step_plugin;
          node_step_plugin = node_step_plugin;
        })
        error_handler)

-- `commandFromResourceData`. The block recurs over the command's own value: the field "error_handler"
-- is looked up in the map, and only a list of one value makes a recursive call.
unfoldable mutual
  pub command_from_resource_data : Value → Outcome JobCommand
  command_from_resource_data (object command_map) =
      command_with command_map (error_handler_field command_map)
  command_from_resource_data _ = panic bad_assertion

  pub error_handler_field : Fields → Outcome ErrorHandler
  error_handler_field no_fields = ok no_handler
  error_handler_field (field key value rest) =
      let other = error_handler_field rest in
      if key == "error_handler" then error_handler_value value else other

  pub error_handler_value : Value → Outcome ErrorHandler
  error_handler_value (list error_handlers) = error_handler_list error_handlers
  error_handler_value _ = ok no_handler

  pub error_handler_list : Values → Outcome ErrorHandler
  error_handler_list end = ok no_handler
  error_handler_list (cons v end) = command_from_resource_data v >>= λ c. ok (handler c)
  error_handler_list (cons v (cons w vs)) =
      err (errorf "rundeck command may have no more than one error handler")

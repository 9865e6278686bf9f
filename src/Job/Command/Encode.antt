-- ===== src/Job/Command/Encode.antt =====
-- rundeck/resource_job.go: `commandToResourceData`.
use terraform_provider_runde.Common.{Option, none, some, [], ◌∷◌}
use terraform_provider_runde.Go.{
  string, bool, object, string_map, Fields, of_dict, singleton, with_entry,
}
use terraform_provider_runde.Job.Types.{
  JobPlugin, JobNodeFilter, JobCommandScriptInterpreter, JobCommandJobRef, CommandParts, JobCommand,
  command, ErrorHandler, no_handler, handler,
}

abbrev pub plugin_to_resource_data : JobPlugin → Fields
plugin_to_resource_data p = of_dict (("type", string p.type) ∷ ("config", string_map p.config) ∷ [])

abbrev pub script_interpreter_to_resource_data : JobCommandScriptInterpreter → Fields
script_interpreter_to_resource_data s =
    of_dict
      (("invocation_string", string s.invocation_string) ∷ ("args_quoted", bool s.args_quoted) ∷ [])

abbrev pub node_filter_to_resource_data : JobNodeFilter → Fields
node_filter_to_resource_data f = of_dict (
    ("exclude_precedence", bool f.exclude_precedence)
    ∷ ("filter", string f.query)
    ∷ ("exclude_filter", string f.exclude_query)
    ∷ [])

abbrev pub job_ref_to_resource_data : JobCommandJobRef → Fields
job_ref_to_resource_data r = of_dict (
    ("name", string r.name)
    ∷ ("group_name", string r.group_name)
    ∷ ("run_for_each_node", bool r.run_for_each_node)
    ∷ ("args", string r.arguments)
    ∷ ("import_options", bool r.import_options)
    ∷ with_entry "node_filters" (λ f. singleton (object (node_filter_to_resource_data f)))
        r.node_filter [])

abbrev pub parts_to_resource_data : CommandParts → Option Fields → Fields
parts_to_resource_data c error_handler = of_dict (
    ("description", string c.description)
    ∷ ("shell_command", string c.shell_command)
    ∷ ("inline_script", string c.script)
    ∷ ("script_file", string c.script_file)
    ∷ ("script_file_args", string c.script_file_args)
    ∷ ("keep_going_on_success", bool c.keep_going_on_success)
    ∷ with_entry "error_handler" (λ fs. singleton (object fs)) error_handler
        (with_entry "script_interpreter"
          (λ s. singleton (object (script_interpreter_to_resource_data s))) c.script_interpreter
          (with_entry "job" (λ r. singleton (object (job_ref_to_resource_data r))) c.job
            (with_entry "step_plugin" (λ p. singleton (object (plugin_to_resource_data p)))
              c.step_plugin
              (with_entry "node_step_plugin" (λ p. singleton (object (plugin_to_resource_data p)))
                c.node_step_plugin [])))))

-- `commandToResourceData`, whose error is always nil.
unfoldable mutual
  pub command_to_resource_data : JobCommand → Fields
  command_to_resource_data (command c error_handler) =
      parts_to_resource_data c (error_handler_to_resource_data error_handler)

  pub error_handler_to_resource_data : ErrorHandler → Option Fields
  error_handler_to_resource_data no_handler = none
  error_handler_to_resource_data (handler c) = some (command_to_resource_data c)

-- ===== src/Job/Schemas.antt =====
-- The attributes of the rundeck_job resource: the schema functions of rundeck/resource_job.go.
use terraform_provider_runde.Common.{true, false}
use terraform_provider_runde.Go.{string, bool, int, pos}
use terraform_provider_runde.Sdk.{
  Attributes, no_attributes, attribute, type_string, type_bool, type_int, type_map, type_list,
  plain, resource, optional, required, optional_default, forces_new, is_computed,
}

abbrev pub job_plugin_resource : Attributes
job_plugin_resource =
    attribute "type" type_string required (attribute "config" type_map optional no_attributes)

abbrev pub job_filter_resource : Attributes
job_filter_resource =
    attribute "type" type_string required (attribute "config" type_map optional no_attributes)

abbrev pub script_interpreter_resource : Attributes
script_interpreter_resource =
    attribute "invocation_string" type_string optional
      (attribute "args_quoted" type_bool optional no_attributes)

abbrev pub node_filters_resource : Attributes
node_filters_resource = attribute "exclude_precedence" type_bool optional (
    attribute "filter" type_string optional
      (attribute "exclude_filter" type_string optional no_attributes))

abbrev pub command_job_resource : Attributes
command_job_resource = attribute "name" type_string required (
    attribute "group_name" type_string optional (
      attribute "run_for_each_node" type_bool optional (
        attribute "import_options" type_bool optional (
          attribute "args" type_string optional (
            attribute "node_filters" (type_list (resource node_filters_resource)) optional
              no_attributes)))))

-- the attributes of an error handler: those of a command, less "error_handler"
abbrev pub command_error_handler_resource : Attributes
command_error_handler_resource = attribute "description" type_string optional (
    attribute "shell_command" type_string optional (
      attribute "inline_script" type_string optional (
        attribute "script_file" type_string optional (
          attribute "script_file_args" type_string optional (
            attribute "script_interpreter" (type_list (resource script_interpreter_resource))
              optional
              (attribute "job" (type_list (resource command_job_resource)) optional (
                attribute "step_plugin" (type_list (resource job_plugin_resource)) optional (
                  attribute "node_step_plugin" (type_list (resource job_plugin_resource)) optional
                    (attribute "keep_going_on_success" type_bool optional no_attributes)))))))))

abbrev pub command_resource : Attributes
command_resource = attribute "description" type_string optional (
    attribute "shell_command" type_string optional (
      attribute "inline_script" type_string optional (
        attribute "script_file" type_string optional (
          attribute "script_file_args" type_string optional (
            attribute "script_interpreter" (type_list (resource script_interpreter_resource))
              optional
              (attribute "job" (type_list (resource command_job_resource)) optional (
                attribute "step_plugin" (type_list (resource job_plugin_resource)) optional (
                  attribute "node_step_plugin" (type_list (resource job_plugin_resource)) optional (
                    attribute "keep_going_on_success" type_bool optional (
                      attribute "error_handler"
                        (type_list (resource command_error_handler_resource)) optional
                        no_attributes))))))))))

abbrev pub email_resource : Attributes
email_resource = attribute "attach_log" type_bool (optional_default (bool false)) (
    attribute "recipients" (type_list (plain type_string)) required
      (attribute "subject" type_string optional no_attributes))

abbrev pub notification_resource : Attributes
notification_resource = attribute "type" type_string required (
    attribute "email" (type_list (resource email_resource)) optional (
      attribute "webhook_urls" (type_list (plain type_string)) optional (
        attribute "webhook_http_method" type_string optional (
          attribute "webhook_format" type_string optional (
            attribute "plugin" (type_list (resource job_plugin_resource)) optional
              no_attributes)))))

abbrev pub option_resource : Attributes
option_resource = attribute "name" type_string required (
    attribute "label" type_string optional (
      attribute "default_value" type_string optional (
        attribute "value_choices" (type_list (plain type_string)) optional (
          attribute "value_choices_url" type_string optional (
            attribute "require_predefined_choice" type_bool optional (
              attribute "validation_regex" type_string optional (
                attribute "description" type_string optional (
                  attribute "required" type_bool optional (
                    attribute "allow_multiple_values" type_bool optional (
                      attribute "multi_value_delimiter" type_string optional (
                        attribute "obscure_input" type_bool optional (
                          attribute "exposed_to_scripts" type_bool optional (
                            attribute "storage_path" type_string optional (
                              attribute "is_date" type_bool optional (
                                attribute "date_format" type_string optional
                                  no_attributes)))))))))))))))

-- the attributes from "node_filter_query" on
abbrev job_tail : Attributes
job_tail = attribute "node_filter_query" type_string optional (
    attribute "node_filter_exclude_query" type_string optional (
      attribute "node_filter_exclude_precedence" type_bool optional (
        attribute "timeout" type_string optional (
          attribute "schedule" type_string optional (
            attribute "schedule_enabled" type_bool (optional_default (bool true)) (
              attribute "time_zone" type_string optional (
                attribute "notification" (type_list (resource notification_resource)) optional (
                  attribute "option" (type_list (resource option_resource)) optional (
                    attribute "global_log_filter" (type_list (resource job_filter_resource))
                      optional
                      (attribute "command" (type_list (resource command_resource)) required
                        no_attributes))))))))))

abbrev pub job_resource : Attributes
job_resource = attribute "name" type_string required (
    attribute "group_name" type_string (forces_new optional) (
      attribute "project_name" type_string (forces_new required) (
        attribute "description" type_string required (
          attribute "execution_enabled" type_bool (optional_default (bool true)) (
            attribute "log_level" type_string (optional_default (string "INFO")) (
              attribute "allow_concurrent_executions" type_bool optional (
                attribute "retry" type_string optional (
                  attribute "max_thread_count" type_int (optional_default (int (pos 1))) (
                    attribute "continue_on_error" type_bool optional (
                      attribute "continue_next_node_on_error" type_bool optional (
                        attribute "rank_order" type_string (optional_default (string "ascending")) (
                          attribute "rank_attribute" type_string optional (
                            attribute "success_on_empty_node_filter" type_bool optional (
                              attribute "preserve_options_order" type_bool (is_computed optional) (
                                attribute "command_ordering_strategy" type_string
                                  (optional_default (string "node-first")) job_tail)))))))))))))))

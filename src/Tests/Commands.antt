-- ===== src/Tests/Commands.antt =====
-- Commands: tests, and the theorems at concrete commands.
use terraform_provider_runde.Common.{◌≡◌, refl, none, some, true, false, [], ◌∷◌}
use terraform_provider_runde.Go.{ok, object, Value}
use terraform_provider_runde.Job.Types.{CommandParts, JobCommand, command, handler, no_handler}
use terraform_provider_runde.Job.Schemas.{command_resource}
use terraform_provider_runde.Job.Command.Decode.{command_from_resource_data}
use terraform_provider_runde.Job.Command.Encode.{command_to_resource_data}
use terraform_provider_runde.Job.Command.RoundTrip.{
  CanDeclare, command_from_resource_data-command_to_resource_data,
}
use terraform_provider_runde.Common.Dict.{lookup}
use terraform_provider_runde.Tests.Reader.{plain_reader, plain_reader-IsReader}

abbrev script : CommandParts
script = record {
  description = "prints";
  keep_going_on_success = true;
  shell_command = "";
  file_extension = "";
  script = "echo";
  script_file = "";
  script_file_args = "";
  script_interpreter = some (record { invocation_string = "bash"; args_quoted = true });
  job = none;
  step_plugin = some (record { type = "p"; config = ("k", "v") ∷ ("l", "w") ∷ [] });
  node_step_plugin = none;
}

abbrev fallback : CommandParts
fallback = record script {
  job = some (record {
    name = "other";
    group_name = "g";
    run_for_each_node = false;
    dispatch = none;
    node_filter = some (record { query = "q"; exclude_query = ""; exclude_precedence = true });
    arguments = "-x 1";
    import_options = true;
  });
  step_plugin = none;
}

abbrev pub guarded : JobCommand
guarded = command script (handler (command fallback no_handler))

pub guarded-CanDeclare : CanDeclare guarded
unfolding lookup
guarded-CanDeclare = (
  record {
    file_extension = refl;
    job = tt;
    step_plugin = (refl, (refl, tt));
    node_step_plugin = tt;
  },
  record { file_extension = refl; job = refl; step_plugin = tt; node_step_plugin = tt },
)

command_from_resource_data-command_to_resource_data_example :
    command_from_resource_data
      (object (plain_reader.read_fields command_resource (command_to_resource_data guarded)))
    ≡ ok guarded
command_from_resource_data-command_to_resource_data_example =
    command_from_resource_data-command_to_resource_data plain_reader plain_reader-IsReader guarded
      guarded-CanDeclare

guarded_value : Value
guarded_value =
    object (plain_reader.read_fields command_resource (command_to_resource_data guarded))

-- ===== src/Tests/Jobs.antt =====
-- Whole jobs: resource data with every attribute, and the theorems there.
use terraform_provider_runde.Common.{String, some, [], ◌∷◌}
use terraform_provider_runde.Go.{Value, int, pos, string, Fields, get_field, of_dict, string_map}
use terraform_provider_runde.Job.Schemas.{job_resource}
use terraform_provider_runde.Job.Encode.{block_list}
use terraform_provider_runde.Job.Command.Encode.{command_to_resource_data}
use terraform_provider_runde.Job.Options.Encode.{option_to_resource_data}
use terraform_provider_runde.Job.Notifications.Encode.{notification_blocks}
use terraform_provider_runde.Tests.Reader.{read_attributes}
use terraform_provider_runde.Tests.Commands.{guarded}
use terraform_provider_runde.Tests.Options.{secret}
use terraform_provider_runde.Tests.Notifications.{both}

-- the entries of a configuration
abbrev configuration : Fields
configuration = of_dict (
    ("name", string "backup")
    ∷ ("project_name", string "p")
    ∷ ("max_thread_count", int (pos 2))
    ∷ ("schedule", string "0 0 12 ? * * *")
    ∷ ("option", block_list (option_to_resource_data secret ∷ []))
    ∷ (
      "global_log_filter",
      block_list
          (of_dict (("type", string "mask") ∷ ("config", string_map (("k", "v") ∷ [])) ∷ []) ∷ []),
    )
    ∷ ("command", block_list (command_to_resource_data guarded ∷ []))
    ∷ ("notification", block_list (notification_blocks (some both)))
    ∷ [])

abbrev read_back : Fields
read_back = read_attributes job_resource configuration

abbrev get : String → Value
get k = get_field k read_back

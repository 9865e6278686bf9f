-- ===== src/Job/Options/Encode.antt =====
-- rundeck/resource_job.go: the options in `jobToResourceData`. The fields `is_date` and `date_format`
-- are not written.
use terraform_provider_runde.Common.{List, [], ◌∷◌, map, Option, none, some}
use terraform_provider_runde.Go.{string, bool, strings, Fields, of_dict}
use terraform_provider_runde.Job.Types.{JobOption, JobOptions}

abbrev pub option_to_resource_data : JobOption → Fields
option_to_resource_data option = of_dict (
    ("name", string option.name)
    ∷ ("label", string option.label)
    ∷ ("default_value", string option.default_value)
    ∷ ("value_choices", strings option.value_choices)
    ∷ ("value_choices_url", string option.value_choices_url)
    ∷ ("require_predefined_choice", bool option.require_predefined_choice)
    ∷ ("validation_regex", string option.validation_regex)
    ∷ ("description", string option.description)
    ∷ ("required", bool option.is_required)
    ∷ ("allow_multiple_values", bool option.allows_multiple_values)
    ∷ ("multi_value_delimiter", string option.multi_value_delimiter)
    ∷ ("obscure_input", bool option.obscure_input)
    ∷ ("exposed_to_scripts", bool option.value_is_exposed_to_scripts)
    ∷ ("storage_path", string option.storage_path)
    ∷ [])

-- `optionConfigsI`
abbrev pub option_blocks : Option JobOptions → List Fields
option_blocks none = []
option_blocks (some o) = map option_to_resource_data o.options

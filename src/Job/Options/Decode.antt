-- ===== src/Job/Options/Decode.antt =====
-- rundeck/resource_job.go: the options in `jobFromResourceData`.
use terraform_provider_runde.Common.{String, ◌==◌, not, ◌&&◌, Option, none, some, List, [], ◌∷◌}
use terraform_provider_runde.Go.{
  Outcome, ok, err, ◌>>=◌, ◌>>◌, refuse_if, traverse, Error, errorf, Value, nil, Fields, get_field,
  as_string, as_bool, as_list, as_object,
}
use terraform_provider_runde.Job.Types.{JobOption, JobOptions}

abbrev pub storage_path_refused : Error
storage_path_refused =
    errorf "argument \"obscure_input\" must be set to `true` when \"storage_path\" is not empty"

abbrev pub exposed_refused : Error
exposed_refused =
    errorf
      "argument \"obscure_input\" must be set to `true` when \"exposed_to_scripts\" is set to true"

abbrev pub date_refused : Error
date_refused = errorf "if \"is_data\" is set, you must set \"date_format\" (in momentjs)"

abbrev pub empty_choice : Error
empty_choice = errorf "argument \"value_choices\" can not have empty values; try \"required\""

-- the loop over the value choices
unfoldable pub value_choices_of : List Value → Outcome (List String)
value_choices_of [] = ok []
value_choices_of (nil ∷ vs) = err empty_choice
value_choices_of (v ∷ vs) = do s ← as_string v; choices ← value_choices_of vs; ok (s ∷ choices)

-- the struct literal, with no choices yet
unfoldable pub option_fields : Fields → Outcome JobOption
option_fields option_map = do
  name ← as_string (get_field "name" option_map)
  label ← as_string (get_field "label" option_map)
  default_value ← as_string (get_field "default_value" option_map)
  value_choices_url ← as_string (get_field "value_choices_url" option_map)
  require_predefined_choice ← as_bool (get_field "require_predefined_choice" option_map)
  validation_regex ← as_string (get_field "validation_regex" option_map)
  description ← as_string (get_field "description" option_map)
  is_required ← as_bool (get_field "required" option_map)
  allows_multiple_values ← as_bool (get_field "allow_multiple_values" option_map)
  multi_value_delimiter ← as_string (get_field "multi_value_delimiter" option_map)
  obscure_input ← as_bool (get_field "obscure_input" option_map)
  value_is_exposed_to_scripts ← as_bool (get_field "exposed_to_scripts" option_map)
  storage_path ← as_string (get_field "storage_path" option_map)
  is_date ← as_bool (get_field "is_date" option_map)
  date_format ← as_string (get_field "date_format" option_map)
  ok (record {
    multi_value_delimiter = multi_value_delimiter;
    require_predefined_choice = require_predefined_choice;
    allows_multiple_values = allows_multiple_values;
    name = name;
    label = label;
    validation_regex = validation_regex;
    is_required = is_required;
    is_date = is_date;
    date_format = date_format;
    obscure_input = obscure_input;
    storage_path = storage_path;
    default_value = default_value;
    value_is_exposed_to_scripts = value_is_exposed_to_scripts;
    value_choices = [];
    value_choices_url = value_choices_url;
    description = description;
  })

-- the three tests on the fields
unfoldable pub check_option : JobOption → Outcome (Unit {0})
check_option option = do
  refuse_if (not (option.storage_path == "") && not option.obscure_input) storage_path_refused
  refuse_if (option.value_is_exposed_to_scripts && not option.obscure_input) exposed_refused
  refuse_if (option.is_date && option.date_format == "") date_refused

-- one round of the loop over the options
unfoldable pub option_from_resource_data : Value → Outcome JobOption
option_from_resource_data v = do
  option_map ← as_object v
  option ← option_fields option_map
  check_option option
  choices ← as_list (get_field "value_choices" option_map)
  value_choices ← value_choices_of choices
  ok (record option { value_choices = value_choices })

abbrev pub options_of : (String → Value) → List Value → Outcome (Option JobOptions)
options_of get [] = ok none
options_of get (v ∷ vs) = do
  preserve_order ← as_bool (get "preserve_options_order")
  options ← traverse option_from_resource_data (v ∷ vs)
  ok (some (record { preserve_order = preserve_order; options = options }))

-- from the attributes that `get` reads
unfoldable pub options_from_resource_data : (String → Value) → Outcome (Option JobOptions)
options_from_resource_data get = as_list (get "option") >>= options_of get

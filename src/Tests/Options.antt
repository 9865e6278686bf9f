-- ===== src/Tests/Options.antt =====
-- Options: tests, and the theorems at concrete options.
use terraform_provider_runde.Common.{◌≡◌, refl, true, false, [], ◌∷◌}
use terraform_provider_runde.Go.{ok, err, object, Value}
use terraform_provider_runde.Job.Types.{JobOption}
use terraform_provider_runde.Job.Schemas.{option_resource}
use terraform_provider_runde.Job.Options.Decode.{
  option_from_resource_data, check_option, storage_path_refused, exposed_refused, date_refused,
}
use terraform_provider_runde.Job.Options.Encode.{option_to_resource_data}
use terraform_provider_runde.Job.Options.Rules.{IsAllowed, option_from_resource_data-IsAllowed}
use terraform_provider_runde.Job.Options.RoundTrip.{
  without_date, option_from_resource_data-option_to_resource_data,
}
use terraform_provider_runde.Tests.Reader.{plain_reader, plain_reader-IsReader}

abbrev pub secret : JobOption
secret = record {
  multi_value_delimiter = ",";
  require_predefined_choice = true;
  allows_multiple_values = false;
  name = "password";
  label = "";
  validation_regex = "";
  is_required = true;
  is_date = true;
  date_format = "YYYY";
  obscure_input = true;
  storage_path = "keys/p";
  default_value = "";
  value_is_exposed_to_scripts = true;
  value_choices = "x" ∷ "y" ∷ [];
  value_choices_url = "";
  description = "d";
}

check_option_tests :
    (check_option secret ≡ ok tt)
    × (check_option (record secret { obscure_input = false }) ≡ err storage_path_refused)
    × (check_option (record secret { obscure_input = false; storage_path = "" })
        ≡ err exposed_refused)
    × (check_option (record secret { date_format = "" }) ≡ err date_refused)
unfolding check_option
check_option_tests = (refl, refl, refl, refl)

abbrev secret_value : Value
secret_value = object (plain_reader.read_fields option_resource (option_to_resource_data secret))

pub secret-IsAllowed : IsAllowed secret
secret-IsAllowed = record { storage = λ h. refl; exposed = λ h. refl; date = λ h e. cc }

option_from_resource_data-option_to_resource_data_example :
    option_from_resource_data secret_value ≡ ok (without_date secret)
option_from_resource_data-option_to_resource_data_example =
    option_from_resource_data-option_to_resource_data plain_reader plain_reader-IsReader secret
      secret-IsAllowed

option_from_resource_data-IsAllowed_example : IsAllowed (without_date secret)
option_from_resource_data-IsAllowed_example =
    option_from_resource_data-IsAllowed secret_value (without_date secret)
      option_from_resource_data-option_to_resource_data_example

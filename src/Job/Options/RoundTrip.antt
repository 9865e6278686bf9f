-- ===== src/Job/Options/RoundTrip.antt =====
-- An option that is written to the resource data and read back through its schema.
use terraform_provider_runde.Common.{
  String, ◌≡◌, eq_iff, false, List, [], ◌∷◌, map, arith, ◌∙◌, refl,
}
use terraform_provider_runde.Go.{ok, string, list, of_list, object, Fields, get_field, elems}
use terraform_provider_runde.Sdk.{type_string, type_bool, type_list, plain}
use terraform_provider_runde.Sdk.Reader.{SchemaReader, IsReader}
use terraform_provider_runde.Sdk.Reading.{field_read, string_read, bool_read}
use terraform_provider_runde.Job.Types.{JobOption}
use terraform_provider_runde.Job.Schemas.{option_resource}
use terraform_provider_runde.Job.Options.Decode.{
  option_fields, option_from_resource_data, value_choices_of,
}
use terraform_provider_runde.Job.Options.Encode.{option_to_resource_data}
use terraform_provider_runde.Job.Options.Rules.{IsAllowed, check_option_complete}

value_choices_of-strings :
    (xs : List String) → value_choices_of (elems (of_list (map string xs))) ≡ ok xs
unfolding value_choices_of
value_choices_of-strings [] = refl
value_choices_of-strings (x ∷ xs) = rw (value_choices_of-strings xs)

-- what is kept of an option: all but `is_date` and `date_format`
abbrev pub without_date : JobOption → JobOption
without_date o = record o { is_date = false; date_format = "" }

module _ (r : SchemaReader) (reads : IsReader r) where
  abbrev read_option : JobOption → Fields
  read_option o = r.read_fields option_resource (option_to_resource_data o)

  option_fields-read :
      (o : JobOption)
      → option_fields (read_option o) ≡ ok (record (without_date o) { value_choices = [] })
  unfolding option_fields get_field
  option_fields-read o =
      let fs = option_to_resource_data o in
      rw (
        string_read r reads "name" o.name option_resource fs refl refl,
        string_read r reads "label" o.label option_resource fs refl refl,
        string_read r reads "default_value" o.default_value option_resource fs refl refl,
        string_read r reads "value_choices_url" o.value_choices_url option_resource fs refl refl,
        bool_read r reads "require_predefined_choice" o.require_predefined_choice option_resource fs
            refl refl,
        string_read r reads "validation_regex" o.validation_regex option_resource fs refl refl,
        string_read r reads "description" o.description option_resource fs refl refl,
        bool_read r reads "required" o.is_required option_resource fs refl refl,
        bool_read r reads "allow_multiple_values" o.allows_multiple_values option_resource fs refl
            refl,
        string_read r reads "multi_value_delimiter" o.multi_value_delimiter option_resource fs refl
            refl,
        bool_read r reads "obscure_input" o.obscure_input option_resource fs refl refl,
        bool_read r reads "exposed_to_scripts" o.value_is_exposed_to_scripts option_resource fs refl
            refl,
        string_read r reads "storage_path" o.storage_path option_resource fs refl refl,
        field_read r reads "is_date" type_bool option_resource fs refl refl ∙ reads.read-bool_nil,
        field_read r reads "date_format" type_string option_resource fs refl refl
            ∙ reads.read-string_nil,
      )

  choices_read :
      (o : JobOption)
      → get_field "value_choices" (read_option o) ≡ list (of_list (map string o.value_choices))
  unfolding get_field
  choices_read o =
      field_read r reads "value_choices" (type_list (plain type_string)) option_resource
        (option_to_resource_data o) refl refl
      ∙ reads.read-strings o.value_choices

  -- An option that obeys the rules on obscured input is written to the resource data and read back as
  -- it was, except that it is no longer a date: `is_date` and `date_format` are lost.
  pub option_from_resource_data-option_to_resource_data :
      (o : JobOption)
      → IsAllowed o
      → option_from_resource_data
          (object (r.read_fields option_resource (option_to_resource_data o)))
        ≡ ok (without_date o)
  unfolding option_from_resource_data
  option_from_resource_data-option_to_resource_data o a = rw (
    option_fields-read o,
    check_option_complete (record (without_date o) { value_choices = [] })
        (λ p. a.storage (λ e. ground (arith, eq_iff o.storage_path ""))) a.exposed (λ p. cc),
    choices_read o,
    value_choices_of-strings o.value_choices,
  )

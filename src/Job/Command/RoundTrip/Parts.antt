-- ===== src/Job/Command/RoundTrip/Parts.antt =====
-- The parts of a command, written to the resource data and read back through their schemas.
use mathlib.Core.List.{append-nil, append_assoc}
use terraform_provider_runde.Common.{
  String, ap, sym, ◌∙◌, ◌≡◌, refl, List, [], ◌∷◌, ◌++◌, Option, none, some,
}
use terraform_provider_runde.Common.Dict.{
  Dict, lookup, insert, insert_fresh, NodupKeys, Apart, Apart-insert, lookup-none_of_Apart,
}
use terraform_provider_runde.Go.{ok, Value, object, Fields, get_field, as_list}
use terraform_provider_runde.Sdk.{resource, type_list, type_map}
use terraform_provider_runde.Sdk.Reading.{
  AllSome, get_field-with_entry, field_read, string_read, bool_read, block, block-none, block-some,
}
use terraform_provider_runde.Sdk.Reader.{SchemaReader, IsReader, strings_of}
use terraform_provider_runde.Job.Types.{
  JobPlugin, JobNodeFilter, JobCommandScriptInterpreter, JobCommandJobRef,
}
use terraform_provider_runde.Job.Schemas.{
  job_plugin_resource, script_interpreter_resource, command_job_resource, node_filters_resource,
}
use terraform_provider_runde.Job.Command.Decode.{
  config_onto, plugin_of, single_plugin_from_resource_data, node_filter_of, job_ref_of,
  job_command_job_ref_from_resource_data, script_interpreter_of,
  script_interpreter_from_resource_data,
}
use terraform_provider_runde.Job.Command.Encode.{
  plugin_to_resource_data, script_interpreter_to_resource_data, node_filter_to_resource_data,
  job_ref_to_resource_data,
}

config_onto-strings_of :
    (acc m : Dict String)
    → NodupKeys m
    → Apart acc m
    → config_onto acc (strings_of m) ≡ ok (acc ++ m)
unfolding config_onto
config_onto-strings_of acc [] _ _ = ap ok (sym (append-nil acc))
config_onto-strings_of acc ((k, s) ∷ m) (fresh, u) d =
    config_onto-strings_of (insert k s acc) m u (Apart-insert k s acc m fresh d)
    ∙ ap ok (
        ap (λ l. l ++ m) (insert_fresh k s acc (lookup-none_of_Apart k s acc m d))
        ∙ append_assoc acc ((k, s) ∷ []) m)

pub config_from-strings_of : (m : Dict String) → NodupKeys m → config_onto [] (strings_of m) ≡ ok m
unfolding lookup
config_from-strings_of m u = config_onto-strings_of [] m u (λ k h. absurd (h refl))

module _ (r : SchemaReader) (reads : IsReader r) where
  pub plugin_of-read :
      (p : JobPlugin)
      → NodupKeys p.config
      → plugin_of (object (r.read_fields job_plugin_resource (plugin_to_resource_data p))) ≡ ok p
  unfolding get_field
  plugin_of-read p u =
      let fs = plugin_to_resource_data p in
      rw (
        field_read r reads "config" type_map job_plugin_resource fs refl refl,
        string_read r reads "type" p.type job_plugin_resource fs refl refl,
        reads.read-map p.config,
        config_from-strings_of p.config u,
      )

  pub single_plugin-read :
      (key : String) (o : Option JobPlugin) (fs : Fields)
      → AllSome (λ p. NodupKeys p.config) o
      → get_field key fs ≡ block r job_plugin_resource plugin_to_resource_data o
      → single_plugin_from_resource_data key fs ≡ ok o
  unfolding single_plugin_from_resource_data
  single_plugin-read key none fs _ e =
      rw (e, block-none r reads job_plugin_resource plugin_to_resource_data)
  single_plugin-read key (some p) fs u e =
      rw (e, block-some r reads job_plugin_resource plugin_to_resource_data p, plugin_of-read p u)

  node_filter_of-read :
      (f : JobNodeFilter)
      → node_filter_of
          (object (r.read_fields node_filters_resource (node_filter_to_resource_data f)) ∷ [])
        ≡ ok (some f)
  unfolding get_field
  node_filter_of-read f =
      let fs = node_filter_to_resource_data f in
      rw (
        string_read r reads "filter" f.query node_filters_resource fs refl refl,
        string_read r reads "exclude_filter" f.exclude_query node_filters_resource fs refl refl,
        bool_read r reads "exclude_precedence" f.exclude_precedence node_filters_resource fs refl
            refl,
      )

  node_filters-read :
      (o : Option JobNodeFilter) (v : Value)
      → v ≡ block r node_filters_resource node_filter_to_resource_data o
      → (vs : List Value) × (as_list v ≡ ok vs) × (node_filter_of vs ≡ ok o)
  node_filters-read none v e =
      ([], rw (e, block-none r reads node_filters_resource node_filter_to_resource_data), refl)
  node_filters-read (some f) v e = (
    object (r.read_fields node_filters_resource (node_filter_to_resource_data f)) ∷ [],
    rw (e, block-some r reads node_filters_resource node_filter_to_resource_data f),
    node_filter_of-read f,
  )

  node_filters_field :
      (j : JobCommandJobRef)
      → get_field "node_filters" (r.read_fields command_job_resource (job_ref_to_resource_data j))
        ≡ block r node_filters_resource node_filter_to_resource_data j.node_filter
  unfolding get_field block
  node_filters_field j =
      field_read r reads "node_filters" (type_list (resource node_filters_resource))
        command_job_resource (job_ref_to_resource_data j) refl
        (get_field-with_entry "node_filters" _ j.node_filter [])

  job_ref_of-read :
      (j : JobCommandJobRef)
      → j.dispatch ≡ none
      → job_ref_of (object (r.read_fields command_job_resource (job_ref_to_resource_data j))) ≡ ok j
  unfolding get_field
  job_ref_of-read j d =
      let fs = job_ref_to_resource_data j in
      let (vs, listed, found) = node_filters-read j.node_filter _ (node_filters_field j) in
      rw
        (
          string_read r reads "name" j.name command_job_resource fs refl refl,
          string_read r reads "group_name" j.group_name command_job_resource fs refl refl,
          bool_read r reads "run_for_each_node" j.run_for_each_node command_job_resource fs refl
              refl,
          string_read r reads "args" j.arguments command_job_resource fs refl refl,
          bool_read r reads "import_options" j.import_options command_job_resource fs refl refl,
          listed,
          found,
        )
        (ap (λ x. ok (record j { dispatch = x })) (sym d))

  pub job_ref-read :
      (key : String) (o : Option JobCommandJobRef) (fs : Fields)
      → AllSome (λ j. j.dispatch ≡ none) o
      → get_field key fs ≡ block r command_job_resource job_ref_to_resource_data o
      → job_command_job_ref_from_resource_data key fs ≡ ok o
  unfolding job_command_job_ref_from_resource_data
  job_ref-read key none fs _ e =
      rw (e, block-none r reads command_job_resource job_ref_to_resource_data)
  job_ref-read key (some j) fs d e =
      rw
        (e, block-some r reads command_job_resource job_ref_to_resource_data j, job_ref_of-read j d)

  script_interpreter_of-read :
      (s : JobCommandScriptInterpreter)
      → script_interpreter_of (
          object (r.read_fields script_interpreter_resource (script_interpreter_to_resource_data s))
          ∷ [])
        ≡ ok (some s)
  unfolding get_field
  script_interpreter_of-read s =
      let fs = script_interpreter_to_resource_data s in
      rw (
        string_read r reads "invocation_string" s.invocation_string script_interpreter_resource fs
            refl refl,
        bool_read r reads "args_quoted" s.args_quoted script_interpreter_resource fs refl refl,
      )

  pub script_interpreter-read :
      (o : Option JobCommandScriptInterpreter) (fs : Fields)
      → get_field "script_interpreter" fs
        ≡ block r script_interpreter_resource script_interpreter_to_resource_data o
      → script_interpreter_from_resource_data fs ≡ ok o
  unfolding script_interpreter_from_resource_data
  script_interpreter-read none fs e =
      rw (e, block-none r reads script_interpreter_resource script_interpreter_to_resource_data)
  script_interpreter-read (some s) fs e = rw (
    e,
    block-some r reads script_interpreter_resource script_interpreter_to_resource_data s,
    script_interpreter_of-read s,
  )

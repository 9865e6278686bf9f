-- ===== src/Job/Command/RoundTrip.antt =====
-- A command that is written to the resource data and read back through its schema.
pub mod Parts
pub mod Written
use mathlib.Core.List.{append-nil, append_assoc}
use terraform_provider_runde.Common.{
  String, Bool, ap, sym, ◌∙◌, ◌==◌, eq_iff, ◌≡◌, ◌≢◌, refl, false, List, [], ◌∷◌, ◌++◌, Option,
  none, some, arith,
}
use terraform_provider_runde.Common.Dict.{
  Dict, lookup, insert, lookup-insert, insert_fresh, NodupKeys, Apart, Apart-insert,
  lookup-none_of_Apart,
}
use terraform_provider_runde.Go.{
  Outcome, ok, ◌>>=◌, Value, nil, string, bool, list, end, cons, object, string_map, Fields,
  get_field, of_dict, singleton, with_entry, as_list, as_object,
}
use terraform_provider_runde.Sdk.{
  Attributes, resource, type_list, type_string, type_bool, type_map, Kind, kind_of,
}
use terraform_provider_runde.Sdk.Reading.{
  value_or, AllSome, get_field-with_entry, get_field-with_entry_ne, field_read, string_read,
  bool_read, block, block-none, block-some,
}
use terraform_provider_runde.Sdk.Reader.{SchemaReader, IsReader, strings_of}
use terraform_provider_runde.Job.Types.{
  JobPlugin, JobNodeFilter, JobCommandScriptInterpreter, JobCommandJobRef, CommandParts, JobCommand,
  command, ErrorHandler, no_handler, handler,
}
use terraform_provider_runde.Job.Schemas.{
  command_resource, command_error_handler_resource, job_plugin_resource,
  script_interpreter_resource, command_job_resource, node_filters_resource,
}
use terraform_provider_runde.Job.Command.Decode.{
  config_onto, plugin_of, single_plugin, single_plugin_from_resource_data, node_filter_of,
  job_ref_of, job_command_job_ref_from_resource_data, script_interpreter_of,
  script_interpreter_from_resource_data, command_with, command_from_resource_data,
  error_handler_field, error_handler_value, error_handler_list,
}
use terraform_provider_runde.Job.Command.Encode.{
  plugin_to_resource_data, script_interpreter_to_resource_data, node_filter_to_resource_data,
  job_ref_to_resource_data, parts_to_resource_data, command_to_resource_data,
  error_handler_to_resource_data,
}
use terraform_provider_runde.Job.Command.Safety.{error_handler_field_lem}
use terraform_provider_runde.Job.Command.RoundTrip.Written.{
  IsDeclarable, command_with-read, blocks_read, error_handler_read, parts_read,
  command_resource-DeclaresCommand, command_error_handler_resource-DeclaresCommand,
}

abbrev pub CanDeclare : JobCommand → Type 0
CanDeclare (command c no_handler) = IsDeclarable c
CanDeclare (command c (handler (command h no_handler))) = IsDeclarable c × IsDeclarable h
CanDeclare (command c (handler (command h (handler g)))) = ⊥

module _ (r : SchemaReader) (reads : IsReader r) where
  handler_of-read :
      (c : CommandParts)
      → IsDeclarable c
      → command_from_resource_data
          (object (r.read_fields command_error_handler_resource (parts_to_resource_data c none)))
        ≡ ok (command c no_handler)
  unfolding command_from_resource_data
  handler_of-read c v =
      let fs = parts_to_resource_data c none in
      rw
        (
          error_handler_field_lem,
          reads.get_field-read_fields_undeclared "error_handler" command_error_handler_resource fs
              refl,
        )
        (command_with-read r reads c _ no_handler v
          (parts_read r reads command_error_handler_resource c none
            command_error_handler_resource-DeclaresCommand)
          (blocks_read r reads command_error_handler_resource c none
            command_error_handler_resource-DeclaresCommand))

  command_of-read :
      (c : CommandParts) (h : ErrorHandler)
      → IsDeclarable c
      → error_handler_value
          (block r command_error_handler_resource (λ fs. fs) (error_handler_to_resource_data h))
        ≡ ok h
      → command_from_resource_data
          (object (r.read_fields command_resource (command_to_resource_data (command c h))))
        ≡ ok (command c h)
  unfolding command_from_resource_data command_to_resource_data
  command_of-read c h v e =
      let eh = error_handler_to_resource_data h in
      rw (error_handler_field_lem, error_handler_read r reads c eh, e)
        (command_with-read r reads c _ h v
          (parts_read r reads command_resource c eh command_resource-DeclaresCommand)
          (blocks_read r reads command_resource c eh command_resource-DeclaresCommand))

  -- A command is written to the resource data and read back as it was, its error handler included, if
  -- a configuration can declare both and the error handler has none itself.
  pub command_from_resource_data-command_to_resource_data :
      (c : JobCommand)
      → CanDeclare c
      → command_from_resource_data
          (object (r.read_fields command_resource (command_to_resource_data c)))
        ≡ ok c
  unfolding command_from_resource_data command_to_resource_data
  command_from_resource_data-command_to_resource_data (command c no_handler) v =
      command_of-read c no_handler v
        (rw (block-none r reads command_error_handler_resource (λ (fs : Fields). fs)))
  command_from_resource_data-command_to_resource_data (command c (handler (command h no_handler)))
        (v, vh) =
      command_of-read c (handler (command h no_handler)) v (
        rw (
          block-some r reads command_error_handler_resource (λ (fs : Fields). fs)
              (parts_to_resource_data h none),
          handler_of-read h vh,
        ))
  command_from_resource_data-command_to_resource_data (command c (handler (command h (handler g))))
        v =
      elim v [ ]

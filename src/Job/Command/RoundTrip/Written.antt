-- ===== src/Job/Command/RoundTrip/Written.antt =====
-- The fields of a command that is written to the resource data, as its schema gives them back.
use terraform_provider_runde.Common.{ap, sym, ◌∙◌, ◌≡◌, refl, Option, none, some}
use terraform_provider_runde.Common.Dict.{NodupKeys}
use terraform_provider_runde.Go.{ok, string, bool, Fields, get_field}
use terraform_provider_runde.Sdk.{Attributes, resource, type_list, type_string, type_bool, kind_of}
use terraform_provider_runde.Sdk.Reading.{
  value_or, AllSome, get_field-with_entry, get_field-with_entry_ne, field_read, string_read,
  bool_read, block,
}
use terraform_provider_runde.Sdk.Reader.{SchemaReader, IsReader}
use terraform_provider_runde.Job.Types.{CommandParts, command, ErrorHandler}
use terraform_provider_runde.Job.Schemas.{
  command_resource, command_error_handler_resource, job_plugin_resource,
  script_interpreter_resource, command_job_resource,
}
use terraform_provider_runde.Job.Command.Decode.{command_with}
use terraform_provider_runde.Job.Command.Encode.{
  plugin_to_resource_data, script_interpreter_to_resource_data, job_ref_to_resource_data,
  parts_to_resource_data,
}
use terraform_provider_runde.Job.Command.RoundTrip.Parts.{
  single_plugin-read, job_ref-read, script_interpreter-read,
}

-- A command that a configuration can declare: no file extension, no dispatch of a referenced job, and
-- in each plugin's configuration every key once.
pub record IsDeclarable (c : CommandParts) : Type 0 where
  pub file_extension : c.file_extension ≡ ""
  pub job : AllSome (λ j. j.dispatch ≡ none) c.job
  pub step_plugin : AllSome (λ p. NodupKeys p.config) c.step_plugin
  pub node_step_plugin : AllSome (λ p. NodupKeys p.config) c.node_step_plugin

-- what holds of the schemas of a command and of an error handler
pub record DeclaresCommand (attrs : Attributes) : Type 0 where
  pub description : kind_of "description" attrs ≡ some type_string
  pub shell_command : kind_of "shell_command" attrs ≡ some type_string
  pub inline_script : kind_of "inline_script" attrs ≡ some type_string
  pub script_file : kind_of "script_file" attrs ≡ some type_string
  pub script_file_args : kind_of "script_file_args" attrs ≡ some type_string
  pub keep_going_on_success : kind_of "keep_going_on_success" attrs ≡ some type_bool
  pub script_interpreter :
      kind_of "script_interpreter" attrs ≡ some (type_list (resource script_interpreter_resource))
  pub job : kind_of "job" attrs ≡ some (type_list (resource command_job_resource))
  pub step_plugin : kind_of "step_plugin" attrs ≡ some (type_list (resource job_plugin_resource))
  pub node_step_plugin :
      kind_of "node_step_plugin" attrs ≡ some (type_list (resource job_plugin_resource))

pub command_resource-DeclaresCommand : DeclaresCommand command_resource
command_resource-DeclaresCommand = record {
  description = refl;
  shell_command = refl;
  inline_script = refl;
  script_file = refl;
  script_file_args = refl;
  keep_going_on_success = refl;
  script_interpreter = refl;
  job = refl;
  step_plugin = refl;
  node_step_plugin = refl;
}

pub command_error_handler_resource-DeclaresCommand : DeclaresCommand command_error_handler_resource
command_error_handler_resource-DeclaresCommand = record {
  description = refl;
  shell_command = refl;
  inline_script = refl;
  script_file = refl;
  script_file_args = refl;
  keep_going_on_success = refl;
  script_interpreter = refl;
  job = refl;
  step_plugin = refl;
  node_step_plugin = refl;
}

module _ (r : SchemaReader) (reads : IsReader r) where
  -- the fields that the encoder writes only where they are set, read through the schema `attrs`
  pub record BlocksRead (c : CommandParts) (fs : Fields) : Type 0 where
    pub script_interpreter :
        get_field "script_interpreter" fs
        ≡ block r script_interpreter_resource script_interpreter_to_resource_data
            c.script_interpreter
    pub job : get_field "job" fs ≡ block r command_job_resource job_ref_to_resource_data c.job
    pub step_plugin :
        get_field "step_plugin" fs
        ≡ block r job_plugin_resource plugin_to_resource_data c.step_plugin
    pub node_step_plugin :
        get_field "node_step_plugin" fs
        ≡ block r job_plugin_resource plugin_to_resource_data c.node_step_plugin

  abbrev pub PartsRead : CommandParts → Fields → Type 0
  PartsRead c fs =
      (get_field "description" fs ≡ string c.description)
      × (get_field "shell_command" fs ≡ string c.shell_command)
      × (get_field "inline_script" fs ≡ string c.script)
      × (get_field "script_file" fs ≡ string c.script_file)
      × (get_field "script_file_args" fs ≡ string c.script_file_args)
      × (get_field "keep_going_on_success" fs ≡ bool c.keep_going_on_success)

  pub command_with-read :
      (c : CommandParts) (fs : Fields) (h : ErrorHandler)
      → IsDeclarable c
      → PartsRead c fs
      → BlocksRead c fs
      → command_with fs (ok h) ≡ ok (command c h)
  unfolding command_with
  command_with-read c fs h v (d, s, i, f, a, k) b =
      rw
        (
          d,
          s,
          i,
          f,
          a,
          k,
          script_interpreter-read r reads c.script_interpreter fs b.script_interpreter,
          job_ref-read r reads "job" c.job fs v.job b.job,
          single_plugin-read r reads "step_plugin" c.step_plugin fs v.step_plugin b.step_plugin,
          single_plugin-read r reads "node_step_plugin" c.node_step_plugin fs v.node_step_plugin
              b.node_step_plugin,
        )
        (ap (λ x. ok (command (record c { file_extension = x }) h)) (sym v.file_extension))

  pub blocks_read :
      (attrs : Attributes) (c : CommandParts) (eh : Option Fields)
      → DeclaresCommand attrs
      → BlocksRead c (r.read_fields attrs (parts_to_resource_data c eh))
  unfolding block get_field
  blocks_read attrs c eh k =
      let fs = parts_to_resource_data c eh in
      record {
        script_interpreter =
            field_read r reads "script_interpreter" _ attrs fs k.script_interpreter (
              get_field-with_entry_ne "error_handler" "script_interpreter" _ eh _ refl
              ∙ get_field-with_entry "script_interpreter" _ c.script_interpreter _
              ∙ ap (value_or _ c.script_interpreter) (
                  get_field-with_entry_ne "job" "script_interpreter" _ c.job _ refl
                  ∙ get_field-with_entry_ne "step_plugin" "script_interpreter" _ c.step_plugin _
                      refl
                  ∙ get_field-with_entry_ne "node_step_plugin" "script_interpreter" _
                      c.node_step_plugin _ refl));
        job = field_read r reads "job" _ attrs fs k.job (
            get_field-with_entry_ne "error_handler" "job" _ eh _ refl
            ∙ get_field-with_entry_ne "script_interpreter" "job" _ c.script_interpreter _ refl
            ∙ get_field-with_entry "job" _ c.job _
            ∙ ap (value_or _ c.job) (
                get_field-with_entry_ne "step_plugin" "job" _ c.step_plugin _ refl
                ∙ get_field-with_entry_ne "node_step_plugin" "job" _ c.node_step_plugin _ refl));
        step_plugin = field_read r reads "step_plugin" _ attrs fs k.step_plugin (
            get_field-with_entry_ne "error_handler" "step_plugin" _ eh _ refl
            ∙ get_field-with_entry_ne "script_interpreter" "step_plugin" _ c.script_interpreter _
                refl
            ∙ get_field-with_entry_ne "job" "step_plugin" _ c.job _ refl
            ∙ get_field-with_entry "step_plugin" _ c.step_plugin _
            ∙ ap (value_or _ c.step_plugin) (
                get_field-with_entry_ne "node_step_plugin" "step_plugin" _ c.node_step_plugin _
                  refl));
        node_step_plugin = field_read r reads "node_step_plugin" _ attrs fs k.node_step_plugin (
            get_field-with_entry_ne "error_handler" "node_step_plugin" _ eh _ refl
            ∙ get_field-with_entry_ne "script_interpreter" "node_step_plugin" _ c.script_interpreter
                _ refl
            ∙ get_field-with_entry_ne "job" "node_step_plugin" _ c.job _ refl
            ∙ get_field-with_entry_ne "step_plugin" "node_step_plugin" _ c.step_plugin _ refl
            ∙ get_field-with_entry "node_step_plugin" _ c.node_step_plugin _);
      }

  pub error_handler_read :
      (c : CommandParts) (eh : Option Fields)
      → get_field "error_handler" (r.read_fields command_resource (parts_to_resource_data c eh))
        ≡ block r command_error_handler_resource (λ fs. fs) eh
  unfolding block get_field
  error_handler_read c eh =
      field_read r reads "error_handler" _ command_resource (parts_to_resource_data c eh) refl (
        get_field-with_entry "error_handler" _ eh _
        ∙ ap (value_or _ eh) (
            get_field-with_entry_ne "script_interpreter" "error_handler" _ c.script_interpreter _
              refl
            ∙ get_field-with_entry_ne "job" "error_handler" _ c.job _ refl
            ∙ get_field-with_entry_ne "step_plugin" "error_handler" _ c.step_plugin _ refl
            ∙ get_field-with_entry_ne "node_step_plugin" "error_handler" _ c.node_step_plugin _
                refl))

  pub parts_read :
      (attrs : Attributes) (c : CommandParts) (eh : Option Fields)
      → DeclaresCommand attrs
      → PartsRead c (r.read_fields attrs (parts_to_resource_data c eh))
  unfolding get_field
  parts_read attrs c eh k =
      let fs = parts_to_resource_data c eh in
      (
        string_read r reads "description" c.description attrs fs k.description refl,
        string_read r reads "shell_command" c.shell_command attrs fs k.shell_command refl,
        string_read r reads "inline_script" c.script attrs fs k.inline_script refl,
        string_read r reads "script_file" c.script_file attrs fs k.script_file refl,
        string_read r reads "script_file_args" c.script_file_args attrs fs k.script_file_args refl,
        bool_read r reads "keep_going_on_success" c.keep_going_on_success attrs fs
            k.keep_going_on_success refl,
      )

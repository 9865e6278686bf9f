-- ===== src/Project.antt =====
-- rundeck/resource_project.go: the schema of projects, and what their operations share.
pub mod Update
pub mod Read
pub mod Operations
pub mod Keys
pub mod Served
use terraform_provider_runde.Common.{
  String, ℕ, suc, ◌+◌, ◌<>◌, Option, none, List, [], ◌∷◌, ◌==◌, ◌&&◌, Bool,
}
use terraform_provider_runde.Common.Dict.{Dict}
use terraform_provider_runde.Common.Replacer.{replace}
use terraform_provider_runde.Go.{Error, Value, string}
use terraform_provider_runde.Go.Decimal.{print}
use terraform_provider_runde.Http.{HttpResponse, Call}
use terraform_provider_runde.Sdk.{
  Attributes, no_attributes, attribute, type_string, type_map, type_list, resource, required,
  optional, optional_default, computed, forces_new,
}

-- `projectConfigAttributes`: the name of a property of the server, and the attribute that holds it
abbrev pub project_config_attributes : Dict String
project_config_attributes =
    ("project.name", "name")
    ∷ ("project.description", "description")
    ∷ ("service.FileCopier.default.provider", "default_node_file_copier_plugin")
    ∷ ("service.NodeExecutor.default.provider", "default_node_executor_plugin")
    ∷ ("project.ssh-authentication", "ssh_authentication_type")
    ∷ ("project.ssh-key-storage-path", "ssh_key_storage_path")
    ∷ ("project.ssh-keypath", "ssh_key_file_path")
    ∷ []

abbrev pub source_attributes : Attributes
source_attributes =
    attribute "type" type_string required (attribute "config" type_map required no_attributes)

abbrev pub project_resource : Attributes
project_resource = attribute "name" type_string (forces_new required) (
    attribute "description" type_string (optional_default (string "Managed by Terraform")) (
      attribute "ui_url" type_string computed (
        attribute "resource_model_source" (type_list (resource source_attributes)) required (
          attribute "default_node_file_copier_plugin" type_string
            (optional_default (string "jsch-scp"))
            (attribute "default_node_executor_plugin" type_string
              (optional_default (string "jsch-ssh"))
              (attribute "ssh_authentication_type" type_string
                (optional_default (string "privateKey"))
                (attribute "ssh_key_storage_path" type_string optional (
                  attribute "ssh_key_file_path" type_string optional
                    (attribute "extra_config" type_map optional no_attributes)))))))))

-- `rundeck.Project`: pointers, and the decoded JSON of the configuration, nil where the reply lacks it
pub record ProjectReply : Type 0 where
  pub response : Option HttpResponse
  pub name : Option String
  pub url : Option String
  pub config : Value

pub record ProjectClient (S : Type 0) : Type 0 where
  pub project_create : String → Call S
  -- the project's name and all properties
  pub project_config_update : String → Dict String → Call S
  pub project_get : String → S → (ProjectReply × Option Error) × S
  pub project_delete : String → Call S

-- `slashReplacer.Replace` and `dotReplacer.Replace`
abbrev pub slash_to_dot : String → String
slash_to_dot = replace "/" "."

abbrev pub dot_to_slash : String → String
dot_to_slash = replace "." "/"

-- ===== src/Project/Operations.antt =====
-- rundeck/resource_project.go: `CreateProject`, `UpdateProject`, `ReadProject`, `ProjectExists` and
-- `DeleteProject`.
pub mod Safety
pub mod Failures
use terraform_provider_runde.Common.{
  String, ◌<>◌, Bool, true, false, not, eqb, Option, none, some, [], ◌∷◌,
}
use terraform_provider_runde.Common.Dict.{Dict, lookup, erase}
use terraform_provider_runde.Go.{
  refuse_if, as_string, as_object, entries, Error, errorf, Value, nil, string, string_map,
}
use terraform_provider_runde.Go.Exec.{Exec, ◌>>=◌, ◌>>◌, lift, return}
use terraform_provider_runde.Http.{call, ask, response_of, fail_with}
use terraform_provider_runde.Sdk.ResourceData.{ResourceData, set_id, set_anyway}
use terraform_provider_runde.Project.{ProjectClient, project_config_attributes}
use terraform_provider_runde.Project.Update.{update_map}
use terraform_provider_runde.Project.Read.{
  scan_config, resource_sources, sources_value, extra_config,
}

abbrev pub project_not_found : String → Error
project_not_found name = errorf ("Project not found: (" <> name <> ")")

-- a pointer, which `d.Set` follows
abbrev pub pointer : Option String → Value
pointer none = nil
pointer (some text) = string text

-- `if v, ok := projectConfig[configKey]; ok { … delete(projectConfig, configKey) }`: what is left
abbrev pub without : String → Option Value → Dict Value → Dict Value
without key none config = config
without key (some v) config = erase key config

module _ {S : Type 0} (d : ResourceData S) where
  abbrev pub set_found : String → Option Value → Exec S (Unit {0})
  set_found attr_key none = return tt
  set_found attr_key (some v) = set_anyway d attr_key v

  -- the loop over `projectConfigAttributes`, with the properties that it leaves
  unfoldable pub read_attributes : Dict String → Dict Value → Exec S (Dict Value)
  read_attributes [] config = return config
  read_attributes ((config_key, attr_key) ∷ rest) config =
      set_anyway d attr_key nil
      >> set_found attr_key (lookup config_key config)
      >> read_attributes rest (without config_key (lookup config_key config) config)

  -- `ReadProject` from the properties on
  unfoldable pub read_config : Dict Value → Exec S (Unit {0})
  read_config config = read_attributes project_config_attributes config >>= λ left.
      lift (resource_sources (scan_config left).sources) >>= λ sources.
      set_anyway d "resource_model_source" (sources_value sources)
      >> (lift (extra_config (scan_config left).config []) >>= λ extra.
          set_anyway d "extra_config" (string_map extra))

  module _ (c : ProjectClient S) where
    unfoldable pub read_project : Exec S (Unit {0})
    read_project s =
        (ask (c.project_get (d.id s)) >>= λ reply.
        lift (fail_with reply.1)
        >> (lift (response_of reply.0.response) >>= λ response.
            lift (refuse_if (eqb response.status 404) (project_not_found (d.id s)))
            >> (lift (as_object reply.0.config) >>= λ config.
                read_config (entries config)
                >> set_anyway d "name" (pointer reply.0.name)
                >> set_anyway d "ui_url" (pointer reply.0.url))))
          s

    unfoldable pub update_project : Exec S (Unit {0})
    unfolding read_project
    update_project s =
        (lift (update_map (d.get s)) >>= λ properties.
        call (c.project_config_update (d.id s) properties) >>= λ reply.
        lift (fail_with reply.1) >> read_project)
          s

    unfoldable pub create_project : Exec S (Unit {0})
    unfolding update_project
    create_project s =
        (lift (as_string (d.get s "name")) >>= λ name. call (c.project_create name) >>= λ reply.
        lift (fail_with reply.1)
        >> set_id d name
        >> set_anyway d "id" (string name)
        >> update_project)
          s

    unfoldable pub project_exists : Exec S Bool
    project_exists s =
        (ask (c.project_get (d.id s)) >>= λ reply.
        lift (fail_with reply.1)
        >> (lift (response_of reply.0.response) >>= λ response.
            return (not (eqb response.status 404))))
          s

    -- The identifier stays.
    unfoldable pub delete_project : Exec S (Unit {0})
    delete_project s = (call (c.project_delete (d.id s)) >>= λ reply. lift (fail_with reply.1)) s

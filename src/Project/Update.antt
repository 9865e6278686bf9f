-- ===== src/Project/Update.antt =====
-- rundeck/resource_project.go: the properties that `UpdateProject` makes of the resource data.
pub mod Settings
use terraform_provider_runde.Common.{String, ℕ, ◌+◌, ◌<>◌, Bool, if◌then◌else◌, ◌==◌, List, [], ◌∷◌}
use terraform_provider_runde.Common.Dict.{Dict, insert}
use terraform_provider_runde.Go.{
  Outcome, ok, ◌>>=◌, Value, nil, as_string, as_object, as_list, entries, get_field,
}
use terraform_provider_runde.Go.Decimal.{print}
use terraform_provider_runde.Project.{project_config_attributes, slash_to_dot}

-- the loop over `extra_config`
unfoldable pub put_extra : Dict Value → Dict String → Outcome (Dict String)
put_extra [] m = ok m
put_extra ((k, v) ∷ rest) m =
    as_string v >>= λ text. put_extra rest (insert (slash_to_dot k) text m)

unfoldable pub put_extra_config : Value → Dict String → Outcome (Dict String)
put_extra_config nil m = ok m
put_extra_config v m = as_object v >>= λ fs. put_extra (entries fs) m

-- the loop over `projectConfigAttributes`: an empty text is left out
unfoldable pub put_attributes : Dict String → (String → Value) → Dict String → Outcome (Dict String)
put_attributes [] get m = ok m
put_attributes ((config_key, attr_key) ∷ rest) get m = as_string (get attr_key) >>= λ v.
    put_attributes rest get (if v == "" then m else insert config_key v m)

-- `attrKeyPrefix` of the source at this position: `resources.source.%v.`
abbrev pub attr_key_prefix : ℕ → String
attr_key_prefix i = "resources.source." <> (print (i + 1) <> ".")

abbrev pub type_key : ℕ → String
type_key i = attr_key_prefix i <> "type"

abbrev pub config_key_prefix : ℕ → String
config_key_prefix i = attr_key_prefix i <> "config."

-- the loop over the `config` of a source
unfoldable pub put_config : ℕ → Dict Value → Dict String → Outcome (Dict String)
put_config i [] m = ok m
put_config i ((k, v) ∷ rest) m =
    as_string v >>= λ text. put_config i rest (insert (config_key_prefix i <> k) text m)

unfoldable pub put_source : ℕ → Value → Dict String → Outcome (Dict String)
put_source i rmsi m = as_object rmsi >>= λ rms. as_string (get_field "type" rms) >>= λ plugin_type.
    as_object (get_field "config" rms) >>= λ ci.
    put_config i (entries ci) (insert (type_key i) plugin_type m)

-- the loop over `resource_model_source`, from this position on
unfoldable pub put_sources : ℕ → List Value → Dict String → Outcome (Dict String)
put_sources i [] m = ok m
put_sources i (rmsi ∷ rest) m = put_source i rmsi m >>= λ m'. put_sources (i + 1) rest m'

-- `updateMap`, where `get` is what `d.Get` returns
unfoldable pub update_map : (String → Value) → Outcome (Dict String)
update_map get = put_extra_config (get "extra_config") [] >>= λ m.
    put_attributes project_config_attributes get m >>= λ m'.
    as_list (get "resource_model_source") >>= λ sources. put_sources 0 sources m'

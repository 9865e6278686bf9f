-- ===== src/Job/Command/Safety.antt =====
-- Panics in the decoding of a command of the declared type.
use terraform_provider_runde.Common.{String, ◌≡◌, refl, List, [], ◌∷◌, All, arith}
use terraform_provider_runde.Common.Dict.{Dict, insert}
use terraform_provider_runde.Go.{
  >>=-IsSafe, IsSafe, Value, Fields, no_fields, field, get_field, elems,
}
use terraform_provider_runde.Sdk.{resource, type_list, Conforms, ElemConforms, AllStrings}
use terraform_provider_runde.Job.Schemas.{job_plugin_resource}
use terraform_provider_runde.Job.Command.Decode.{
  config_onto, plugin_of, single_plugin, single_plugin_from_resource_data,
  command_from_resource_data, error_handler_field, error_handler_value,
}

pub config_onto-IsSafe :
    (config : Dict String) (fs : Fields) → AllStrings fs → IsSafe (config_onto config fs)
unfolding config_onto
config_onto-IsSafe config no_fields h = tt
config_onto-IsSafe config (field k v rest) ((s, e), h) =
    rw e (config_onto-IsSafe (insert k s config) rest h)

pub plugin_of-IsSafe :
    (v : Value) → ElemConforms (resource job_plugin_resource) v → IsSafe (plugin_of v)
plugin_of-IsSafe v (fs, e, ((t, te), ((cs, ce, all), _)), _) =
    rw (e, ce, te) (>>=-IsSafe (config_onto [] cs) _ (config_onto-IsSafe [] cs all) (λ c _. tt))

single_plugin-IsSafe :
    (key : String) (vs : List Value)
    → All (ElemConforms (resource job_plugin_resource)) vs
    → IsSafe (single_plugin key vs)
single_plugin-IsSafe key [] h = tt
single_plugin-IsSafe key (v ∷ []) (h, _) =
    >>=-IsSafe (plugin_of v) _ (plugin_of-IsSafe v h) (λ p _. tt)
single_plugin-IsSafe key (v ∷ w ∷ vs) h = tt

pub single_plugin_from_resource_data-IsSafe :
    (key : String) (fs : Fields)
    → Conforms (type_list (resource job_plugin_resource)) (get_field key fs)
    → IsSafe (single_plugin_from_resource_data key fs)
unfolding single_plugin_from_resource_data
single_plugin_from_resource_data-IsSafe key fs (vs, e, h) =
    rw e (single_plugin-IsSafe key (elems vs) h)

pub error_handler_field_lem :
    (fs : Fields) → error_handler_field fs ≡ error_handler_value (get_field "error_handler" fs)
unfolding command_from_resource_data get_field
error_handler_field_lem no_fields = refl
error_handler_field_lem (field k v fs) = ground (arith, error_handler_field_lem fs)

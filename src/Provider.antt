-- ===== src/Provider.antt =====
-- rundeck/provider.go: the provider's schema, its resources and its configuration.
pub mod Configure
pub mod Resources
use terraform_provider_runde.Common.{String, ◌<>◌, Option, none, some, List, [], ◌∷◌, ◌⊎◌}
use terraform_provider_runde.Common.Dict.{Dict}
use terraform_provider_runde.Go.{Outcome, ok, ◌>>=◌, Error, Value, string, as_string, panic, err}
use terraform_provider_runde.Http.{result_or}
use terraform_provider_runde.Sdk.{Attributes, no_attributes, attribute, type_string, required}
use terraform_provider_runde.Job.Schemas.{job_resource}
use terraform_provider_runde.Keys.{private_key_resource, public_key_resource}
use terraform_provider_runde.Acl.{acl_policy_resource}
use terraform_provider_runde.Project.{project_resource}

abbrev pub provider_schema : Attributes
provider_schema = attribute "url" type_string required (
    attribute "api_version" type_string required
      (attribute "auth_token" type_string required no_attributes))

-- `schema.EnvDefaultFunc`: the environment variable of an attribute, and what stands for it where it is
-- not set
abbrev pub default_funcs : Dict (String × Option String)
default_funcs =
    ("url", ("RUNDECK_URL", none))
    ∷ ("api_version", ("RUNDECK_API_VERSION", some "14"))
    ∷ ("auth_token", ("RUNDECK_AUTH_TOKEN", none))
    ∷ []

-- `ResourcesMap`, with the schema of each resource
abbrev pub resources_map : Dict Attributes
resources_map =
    ("rundeck_project", project_resource)
    ∷ ("rundeck_job", job_resource)
    ∷ ("rundeck_private_key", private_key_resource)
    ∷ ("rundeck_public_key", public_key_resource)
    ∷ ("rundeck_acl_policy", acl_policy_resource)
    ∷ []

-- `rundeck.BaseClient`, as far as it is configured
pub record BaseClient : Type 0 where
  pub base_uri : String
  pub token : String

-- `url.Parse`, and the method `String` of its result
pub record UrlParser : Type 1 where
  pub Url : Type 0
  pub parse : String → Error ⊎ Url
  pub print_url : Url → String

-- `s, _ := v.(string)`: the zero value where the assertion fails
abbrev pub string_or_zero : Outcome String → String
string_or_zero (ok s) = s
string_or_zero (err e) = ""
string_or_zero (panic p) = ""

-- `fmt.Sprintf("%s/api/%s", urlP, apiVersion)`
abbrev pub api_url : String → String → String
api_url url_p api_version = url_p <> ("/api/" <> api_version)

-- `providerConfigure`, where `get` is what `d.Get` returns
unfoldable pub provider_configure : UrlParser → (String → Value) → Outcome BaseClient
provider_configure urls get =
    let url_p = string_or_zero (as_string (get "url")) in
    let api_version = string_or_zero (as_string (get "api_version")) in
    result_or (urls.parse (api_url url_p api_version)) >>= λ api.
    as_string (get "auth_token") >>= λ token.
    ok (record { base_uri = urls.print_url api; token = token })

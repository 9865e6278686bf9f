-- ===== src/Provider/Configure.antt =====
-- When the provider is configured.
use terraform_provider_runde.Common.{String, ◌≡◌}
use terraform_provider_runde.Go.{Value, string}

-- the configuration of the provider, as `d.Get` returns it
pub record IsConfigured (get : String → Value) (url api_version token : String) : Type 0 where
  pub url_set : get "url" ≡ string url
  pub version_set : get "api_version" ≡ string api_version
  pub token_set : get "auth_token" ≡ string token

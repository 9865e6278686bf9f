-- ===== src/Tests/Providers.antt =====
-- The theorems on the provider at concrete inputs.
use terraform_provider_runde.Common.{String, ◌≡◌, refl, inl, inr, ◌==◌, if◌then◌else◌}
use terraform_provider_runde.Go.{err, external, Value, string}
use terraform_provider_runde.Provider.{UrlParser, BaseClient, provider_configure}

-- a parser that refuses one text
abbrev refusing : UrlParser
refusing = record {
  Url = String;
  parse = λ s. if s == ":/api/14" then inl (external "missing protocol scheme") else inr s;
  print_url = λ s. s;
}

abbrev configuration : String → String → Value
configuration url k =
    if k == "url" then string url else if k == "api_version" then string "14" else string "secret"

abbrev client : BaseClient
client = record { base_uri = "http://r/api/14"; token = "secret" }

-- A URL that is not parsed stops the configuration.
refused_test :
    provider_configure refusing (configuration ":") ≡ err (external "missing protocol scheme")
unfolding provider_configure
refused_test = refl

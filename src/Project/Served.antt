-- ===== src/Project/Served.antt =====
-- The server returns the properties that `UpdateProject` sent, and `ReadProject` takes them apart: when
-- the settings can be read back, and what the server has then.
pub mod Keys
pub mod Pairs
pub mod Only
pub mod Sources
pub mod Places
pub mod Texts
pub mod Extra
pub mod Rest
pub mod Attributes
pub mod Writes
pub mod Blocks
pub mod Settable
pub mod Kept
pub mod Created
use terraform_provider_runde.Common.{
  String, ℕ, ◌<◌, ◌<>◌, length, All, Option, none, some, List, [], ◌∷◌, ◌≡◌, ◌≢◌, ◌⊎◌,
}
use terraform_provider_runde.Common.Dict.{Dict, lookup, NodupKeys}
use terraform_provider_runde.Common.Texts.{Lacks}
use terraform_provider_runde.Common.Bindings.Keys.{AllKeys}
use terraform_provider_runde.Go.{Value, string}
use terraform_provider_runde.Go.Decimal.{int_bound}
use terraform_provider_runde.Project.{project_config_attributes, slash_to_dot}
use terraform_provider_runde.Project.Update.{type_key, config_key_prefix}
use terraform_provider_runde.Project.Update.Settings.{Plugin, Settings, properties}
use terraform_provider_runde.Project.Read.{part_of, unrelated}

-- The key has slashes in place of dots, and does not stand for an attribute or a part of a source.
pub record IsExtraKey (k : String) : Type 0 where
  pub no_dot : Lacks "." k
  pub no_part : part_of (slash_to_dot k) ≡ unrelated
  pub no_attribute : lookup (slash_to_dot k) project_config_attributes ≡ none

-- a configuration of a plugin, whose keys have no dots
abbrev pub IsPlainPlugin : Plugin → Type 0
IsPlainPlugin plugin = NodupKeys plugin.config × AllKeys (Lacks ".") plugin.config

pub record IsReadable (p : Settings) : Type 0 where
  pub few_sources : length p.sources < int_bound
  pub nodup_extra : NodupKeys p.extra
  pub extra_keys : AllKeys IsExtraKey p.extra
  pub plain_sources : All IsPlainPlugin p.sources

abbrev pub text_of : Option String → Option Value
text_of none = none
text_of (some text) = some (string text)

-- The server's properties are the ones that are sent for these settings, in some order.
pub record IsServed (p : Settings) (c : Dict Value) : Type 0 where
  pub nodup : NodupKeys c
  pub served : (k : String) → lookup k c ≡ text_of (lookup k (properties p))

-- the properties that are left where the attributes have been read
pub record IsLeft (p : Settings) (r : Dict Value) : Type 0 where
  pub nodup_left : NodupKeys r
  pub left_bound :
      (k : String)
      → lookup k project_config_attributes ≡ none
      → lookup k r ≡ text_of (lookup k (properties p))
  pub left_gone : (k : String) → lookup k project_config_attributes ≢ none → lookup k r ≡ none

-- the key of the type, or of an entry of the configuration, of one of the first `n` sources
abbrev pub IsSourceKey : ℕ → String → Type 0
IsSourceKey n k =
    (i : ℕ) × (i < n)
    × ((k ≡ type_key i) ⊎ ((j : String) × Lacks "." j × (k ≡ config_key_prefix i <> j)))

-- ===== src/Provider/Resources.antt =====
-- The schemas of the provider and of its resources keep the SDK's rules.
use terraform_provider_runde.Common.{
  Bool, true, false, not, ◌&&◌, ◌||◌, ◌≡◌, refl, some, none, Option,
}
use terraform_provider_runde.Common.Dict.{Dict}
use terraform_provider_runde.Go.{Value, bool, int, string}
use terraform_provider_runde.Sdk.{
  Kind, type_string, type_bool, type_int, type_map, type_list, Elem, plain, resource, Attributes,
  no_attributes, attribute, Flags, is_declared,
}
use terraform_provider_runde.Provider.{provider_schema}

-- a default value of the attribute's type; lists and maps have none
abbrev fits_kind : Kind → Value → Bool
fits_kind type_string (string s) = true
fits_kind type_bool (bool b) = true
fits_kind type_int (int n) = true
fits_kind _ _ = false

abbrev default_valid : Kind → Flags → Option Value → Bool
default_valid kind f none = true
default_valid kind f (some v) = fits_kind kind v && (not f.required && not f.computed)

-- An attribute is required, optional or computed, is not required and one of the others, and has a
-- default only where it is neither required nor computed.
abbrev flags_valid : Kind → Flags → Bool
flags_valid kind f =
    (f.required || (f.optional || f.computed))
    && (not (f.required && f.optional)
        && (not (f.required && f.computed) && default_valid kind f f.default))

-- and so for the attributes of nested blocks; no attribute is declared twice
abbrev mutual
  pub valid_attributes : Attributes → Bool
  valid_attributes no_attributes = true
  valid_attributes (attribute k kind flags rest) =
      flags_valid kind flags
      && (valid_kind kind && (not (is_declared k rest) && valid_attributes rest))

  pub valid_kind : Kind → Bool
  valid_kind type_string = true
  valid_kind type_bool = true
  valid_kind type_int = true
  valid_kind type_map = true
  valid_kind (type_list e) = valid_elem e

  pub valid_elem : Elem → Bool
  valid_elem (plain kind) = valid_kind kind
  valid_elem (resource attrs) = valid_attributes attrs

provider_schema_test : valid_attributes provider_schema ≡ true
provider_schema_test = refl

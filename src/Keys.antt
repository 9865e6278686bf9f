-- ===== src/Keys.antt =====
-- The key resources of rundeck/resource_private_key.go and rundeck/resource_public_key.go: their
-- schemas, and what they call of the API client.
pub mod Private
pub mod Public
pub mod Apart
use terraform_provider_runde.Common.{String, Bool, true, false, Option, none, some}
use terraform_provider_runde.Go.{Outcome, ok, err, panic, ◌>>=◌, Error, errorf, nil_dereference}
use terraform_provider_runde.Sdk.{
  Attributes, no_attributes, attribute, type_string, type_bool, required, optional, computed,
  is_computed, forces_new,
}
use terraform_provider_runde.Http.{HttpResponse, Call, response_of}

abbrev pub private_key_resource : Attributes
private_key_resource =
    attribute "path" type_string (forces_new required)
      (attribute "key_material" type_string required no_attributes)

abbrev pub public_key_resource : Attributes
public_key_resource = attribute "path" type_string (forces_new required) (
    attribute "key_material" type_string (is_computed optional)
      (attribute "url" type_string computed (attribute "delete" type_bool computed no_attributes)))

-- `RundeckKeyType`
pub data KeyType : Type 0 where
  private : KeyType
  public : KeyType
  other_type : String → KeyType

-- `StorageKeyListResponse`: pointers, nil where the reply lacks them
pub record KeyMetadata : Type 0 where
  pub response : Option HttpResponse
  pub meta : Option KeyType
  pub url : Option String

pub record KeyClient (S : Type 0) : Type 0 where
  -- path, key and content type
  pub storage_key_create : String → String → String → Call S
  pub storage_key_update : String → String → String → Call S
  pub storage_key_delete : String → Call S
  pub storage_key_get_material : String → Call S
  pub storage_key_get_metadata : String → S → (KeyMetadata × Option Error) × S

abbrev pub key_exists : Error
key_exists = errorf "Error updating or adding key: Key exists"

-- a value that a pointer leads to
abbrev pub value_of {ℓ} : {A : Type ℓ} → Option A → Outcome A
value_of none = panic nil_dereference
value_of (some a) = ok a

abbrev pub is_error : Option Error → Bool
is_error none = false
is_error (some e) = true

-- the status of a reply, looked at by a test that may fail
abbrev pub status_in : Option HttpResponse → (HttpResponse → Outcome Bool) → Outcome Bool
status_in response f = response_of response >>= f

-- the type of a key, by its metadata
abbrev pub type_in : Option KeyType → (KeyType → Bool) → Outcome Bool
type_in meta f = value_of meta >>= λ t. ok (f t)

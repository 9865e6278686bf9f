-- ===== src/Keys/Private.antt =====
-- rundeck/resource_private_key.go: the operations on private keys.
use terraform_provider_runde.Common.{
  String, Bool, true, false, not, ◌||◌, ◌==◌, eqb, if◌then◌else◌, Option, none, some,
}
use terraform_provider_runde.Go.{Outcome, ok, err, refuse_if, as_string, Error}
use terraform_provider_runde.Go.Exec.{Exec, ◌>>=◌, ◌>>◌, lift, return}
use terraform_provider_runde.Http.{HttpResponse, Call, call, response_of, fail_with}
use terraform_provider_runde.Sdk.ResourceData.{ResourceData, set_id}
use terraform_provider_runde.Keys.{
  KeyClient, KeyMetadata, KeyType, private, public, other_type, key_exists, is_error, status_in,
  type_in,
}

abbrev pub is_private : KeyType → Bool
is_private private = true
is_private public = false
is_private (other_type t) = false

-- an error: the status is read, and all but a 404 drop the error
abbrev pub not_there : Error → HttpResponse → Outcome Bool
not_there e response = if not (eqb response.status 404) then ok false else err e

-- `PrivateKeyExists` after the call
unfoldable pub private_key_in : KeyMetadata × Option Error → Outcome Bool
private_key_in (key, some e) = status_in key.response (not_there e)
private_key_in (key, none) = type_in key.meta is_private

module _ {S : Type 0} (d : ResourceData S) (c : KeyClient S) where
  abbrev pub store_key : String → String → S → Call S
  store_key path key s =
      if not (d.id s == "")
      then c.storage_key_update path key "application/octect-stream"
      else c.storage_key_create path key "application/octet-stream"

  -- nothing to read
  abbrev pub read_private_key : Exec S (Unit {0})
  read_private_key = return tt

  unfoldable pub create_or_update_private_key : Exec S (Unit {0})
  create_or_update_private_key s =
      (lift (as_string (d.get s "path")) >>= λ path.
      lift (as_string (d.get s "key_material")) >>= λ key. call (store_key path key s) >>= λ reply.
      lift (response_of reply.0) >>= λ response.
      lift (refuse_if (eqb response.status 409 || is_error reply.1) key_exists)
      >> (set_id d path >> read_private_key))
        s

  unfoldable pub delete_private_key : Exec S (Unit {0})
  delete_private_key s =
      (call (c.storage_key_delete (d.id s)) >>= λ reply. lift (fail_with reply.1) >> set_id d "") s

  unfoldable pub private_key_exists : Exec S Bool
  private_key_exists s =
      let reply = c.storage_key_get_metadata (d.id s) s in (private_key_in reply.0, reply.1)

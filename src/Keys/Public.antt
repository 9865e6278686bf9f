-- ===== src/Keys/Public.antt =====
-- rundeck/resource_public_key.go: the operations on public keys.
use terraform_provider_runde.Common.{
  String, ◌<>◌, Bool, true, false, ◌||◌, ◌==◌, eqb, if◌then◌else◌, Option, none, some,
}
use terraform_provider_runde.Go.{
  Outcome, ok, err, panic, nil_dereference, refuse_if, as_string, as_bool, Error, errorf, string,
  bool,
}
use terraform_provider_runde.Go.Exec.{Exec, ◌>>=◌, ◌>>◌, lift, return}
use terraform_provider_runde.Http.{HttpResponse, call, response_of, fail_with, result_or}
use terraform_provider_runde.Sdk.ResourceData.{ResourceData, set_id, set_anyway}
use terraform_provider_runde.Keys.{
  KeyClient, KeyMetadata, KeyType, private, public, other_type, key_exists, value_of, is_error,
  type_in,
}

abbrev pub is_public : KeyType → Bool
is_public public = true
is_public private = false
is_public (other_type t) = false

abbrev conflict_at : String → Error
conflict_at path = errorf ("Conflict creating key at : " <> path)

abbrev not_found_at : String → Error
not_found_at path = errorf ("Key not found at: " <> path)

-- `PublicKeyExists` after the call: a 404 without error is no key
abbrev pub existing : HttpResponse → KeyMetadata → Option Error → Outcome Bool
existing response key (some e) = err e
existing response key none =
    if eqb response.status 404 then ok false else type_in key.meta is_public

abbrev pub existing_in : Option HttpResponse → KeyMetadata → Option Error → Outcome Bool
existing_in none key error = panic nil_dereference
existing_in (some response) key error = existing response key error

unfoldable pub public_key_in : KeyMetadata × Option Error → Outcome Bool
public_key_in (key, error) = existing_in key.response key error

module _ {S : Type 0} (d : ResourceData S) (has_change : S → String → Bool) (c : KeyClient S) where
  unfoldable pub read_public_key : Exec S (Unit {0})
  read_public_key s =
      let path = d.id s in
      let key = (c.storage_key_get_metadata path s).0 in
      (lift (response_of key.0.response) >>= λ response.
      lift (fail_with (if eqb response.status 404 then some (not_found_at path) else key.1))
      >> (call (c.storage_key_get_material path) >>= λ reply.
          lift (fail_with reply.1)
          >> (lift (response_of reply.0) >>= λ material. lift (result_or material.body) >>= λ text.
              set_anyway d "key_material" (string text)
              >> (lift (value_of key.0.url) >>= λ url. set_anyway d "url" (string url)))))
        (c.storage_key_get_metadata path s).1

  abbrev pub create_key : String → String → Exec S (Unit {0})
  create_key path key =
      if key == ""
      then return tt
      else (call (c.storage_key_create path key "application/pgp-keys") >>= λ reply.
          lift (response_of reply.0) >>= λ response.
          lift (fail_with (if eqb response.status 409 then some (conflict_at path) else reply.1))
          >> set_anyway d "delete" (bool true))

  unfoldable pub create_public_key : Exec S (Unit {0})
  create_public_key s =
      (lift (as_string (d.get s "path")) >>= λ path.
      lift (as_string (d.get s "key_material")) >>= λ key.
      create_key path key >> (set_id d path >> read_public_key))
        s

  abbrev pub update_key : Exec S (Unit {0})
  update_key s =
      (lift (as_string (d.get s "path")) >>= λ path.
      lift (as_string (d.get s "key_material")) >>= λ key.
      call (c.storage_key_update path key "application/pgp-keys") >>= λ reply.
      lift (response_of reply.0) >>= λ response.
      lift (refuse_if (eqb response.status 409 || is_error reply.1) key_exists))
        s

  unfoldable pub update_public_key : Exec S (Unit {0})
  update_public_key s =
      ((if has_change s "key_material" then update_key else return tt) >> read_public_key) s

  abbrev pub delete_key : Bool → Exec S (Unit {0})
  delete_key delete s =
      if delete
      then (call (c.storage_key_delete (d.id s)) >>= λ reply. lift (fail_with reply.1)) s
      else return tt s

  unfoldable pub delete_public_key : Exec S (Unit {0})
  delete_public_key s =
      (lift (as_bool (d.get s "delete")) >>= λ delete. delete_key delete >> set_id d "") s

  unfoldable pub public_key_exists : Exec S Bool
  public_key_exists s =
      let reply = c.storage_key_get_metadata (d.id s) s in (public_key_in reply.0, reply.1)

-- ===== src/Tests/Keys.antt =====
-- A key store with one private key, and the theorems on the key resources there.
use terraform_provider_runde.Common.{
  String, ◌≡◌, ◌≢◌, refl, true, false, none, some, inr, ◌==◌, if◌then◌else◌,
}
use terraform_provider_runde.Go.{ok, panic, nil_dereference, Value, string, bool}
use terraform_provider_runde.Http.{HttpResponse}
use terraform_provider_runde.Keys.{KeyClient, private, private_key_resource, public_key_resource}
use terraform_provider_runde.Keys.Private.{
  private_key_in, private_key_exists, create_or_update_private_key,
}
use terraform_provider_runde.Keys.Public.{public_key_in, public_key_exists}
use terraform_provider_runde.Keys.Apart.{private_key_exists-apart, create_or_update_private_key-id}
use terraform_provider_runde.Tests.Data.{Kept, plain_data}

abbrev response : HttpResponse
response = record { status = 200; body = inr "" }

-- It refuses nothing, and has a private key wherever it is asked.
abbrev store : KeyClient Kept
store = record {
  storage_key_create = λ p k t s. ((some response, none), s);
  storage_key_update = λ p k t s. ((some response, none), s);
  storage_key_delete = λ p s. ((some response, none), s);
  storage_key_get_material = λ p s. ((some response, none), s);
  storage_key_get_metadata =
      λ p s. ((record { response = some response; meta = some private; url = some "u" }, none), s);
}

-- It has no key, and says so by the status alone.
abbrev empty_store : KeyClient Kept
empty_store = record store {
  storage_key_get_metadata = λ p s. (
    (record { response = some (record response { status = 404 }); meta = none; url = none }, none),
    s,
  );
}

abbrev values : String → Value
values k = if k == "delete" then bool false else string "keys/k"

abbrev keys : Kept
keys = ("keys/k", values)

-- A missing key makes `PrivateKeyExists` follow a nil pointer.
missing_key_test :
    ((private_key_exists (plain_data private_key_resource) empty_store keys).0
      ≡ panic nil_dereference)
    × ((public_key_exists (plain_data public_key_resource) (λ s k. false) empty_store keys).0
        ≡ ok false)
unfolding private_key_exists public_key_exists private_key_in public_key_in
missing_key_test = (refl, refl)

private_key_found : (private_key_exists (plain_data public_key_resource) store keys).0 ≡ ok true
unfolding private_key_exists private_key_in
private_key_found = refl

private_key_exists-apart_example :
    (public_key_exists (plain_data public_key_resource) (λ s k. false) store keys).0 ≢ ok true
private_key_exists-apart_example =
    private_key_exists-apart (plain_data public_key_resource) (λ s k. false) store keys
      private_key_found

stored_run :
    create_or_update_private_key (plain_data private_key_resource) store ("", values)
    ≡ (ok tt, keys)
unfolding create_or_update_private_key
stored_run = refl

create_or_update_private_key-id_example : values "path" ≡ string "keys/k"
create_or_update_private_key-id_example =
    create_or_update_private_key-id (plain_data private_key_resource) store ("", values) keys
      (λ i t. refl) stored_run

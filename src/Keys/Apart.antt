-- ===== src/Keys/Apart.antt =====
-- The two key resources and the types of keys, the identifiers of keys, and keys that were adopted.
use terraform_provider_runde.Common.{
  String, ◌≡◌, ◌≢◌, refl, sym, ap, ◌∙◌, Bool, true, Option, none, some, eqb, ◌||◌, arith,
}
use terraform_provider_runde.Go.{
  Outcome, ok, err, panic, ok-injective, panic-ne-ok, err-ne-ok, refuse_if, Error, string, Value,
  as_string,
}
use terraform_provider_runde.Go.Exec.{◌>>=◌, ◌>>◌, lift, return}
use terraform_provider_runde.Http.{HttpResponse, Call, call, response_of}
use terraform_provider_runde.Sdk.ResourceData.{ResourceData, set_id}
use terraform_provider_runde.Keys.{
  KeyClient, KeyMetadata, KeyType, private, public, other_type, status_in, type_in, is_error,
  key_exists,
}
use terraform_provider_runde.Keys.Private.{
  private_key_in, private_key_exists, is_private, not_there, store_key,
  create_or_update_private_key,
}
use terraform_provider_runde.Keys.Public.{is_public, existing_in, public_key_in, public_key_exists}

not_there-ne-true :
    (e : Error) (response : Option HttpResponse) → status_in response (not_there e) ≢ ok true
not_there-ne-true e none h = cc
not_there-ne-true e (some response) h = ground arith

is_private_meta : (meta : Option KeyType) → type_in meta is_private ≡ ok true → meta ≡ some private
is_private_meta none h = cc
is_private_meta (some private) h = refl
is_private_meta (some public) h = cc
is_private_meta (some (other_type t)) h = cc

is_public_meta : (meta : Option KeyType) → type_in meta is_public ≡ ok true → meta ≡ some public
is_public_meta none h = cc
is_public_meta (some private) h = cc
is_public_meta (some public) h = refl
is_public_meta (some (other_type t)) h = cc

existing_type :
    (response : Option HttpResponse) (key : KeyMetadata) (error : Option Error)
    → existing_in response key error ≡ ok true
    → type_in key.meta is_public ≡ ok true
existing_type none key error h = cc
existing_type (some response) key (some e) h = cc
existing_type (some response) key none h = ground arith

as_string-eq-ok : (v : Value) (t : String) → as_string v ≡ ok t → v ≡ string t
as_string-eq-ok (string u) t h = ap string (ok-injective h)
as_string-eq-ok v t h = cc

private-ne-public : Path (Option KeyType) (some private) (some public) → ⊥
private-ne-public h = cc

private_key_in_meta :
    (key : KeyMetadata) (error : Option Error)
    → private_key_in (key, error) ≡ ok true
    → key.meta ≡ some private
unfolding private_key_in
private_key_in_meta key (some e) h = absurd (not_there-ne-true e key.response h)
private_key_in_meta key none h = is_private_meta key.meta h

public_key_in_meta :
    (key : KeyMetadata) (error : Option Error)
    → public_key_in (key, error) ≡ ok true
    → key.meta ≡ some public
unfolding public_key_in
public_key_in_meta key error h = is_public_meta key.meta (existing_type key.response key error h)

module _ {S : Type 0} (d : ResourceData S)
    (sets : (i : String) (t : S) → d.id (d.set_id i t) ≡ i) where
  checked_at :
      (path : String) (m : Outcome (Unit {0})) (t s' : S)
      → (lift m >> (set_id d path >> return tt)) t ≡ (ok tt, s')
      → d.id s' ≡ path
  checked_at path (panic p) t s' h = absurd (panic-ne-ok (ap (λ y. y.0) h))
  checked_at path (err e) t s' h = absurd (err-ne-ok (ap (λ y. y.0) h))
  checked_at path (ok u) t s' h = sym (ap (λ y. d.id y.1) h) ∙ sets path t

  replied_at :
      (path : String) (response : Outcome HttpResponse) (f : HttpResponse → Outcome (Unit {0}))
      (t s' : S)
      → (lift response >>= λ r. lift (f r) >> (set_id d path >> return tt)) t ≡ (ok tt, s')
      → d.id s' ≡ path
  replied_at path (panic p) f t s' h = absurd (panic-ne-ok (ap (λ y. y.0) h))
  replied_at path (err e) f t s' h = absurd (err-ne-ok (ap (λ y. y.0) h))
  replied_at path (ok r) f t s' h = checked_at path (f r) t s' h

  stored_at :
      (path key : Outcome String) (send : String → String → Call S) (s s' : S)
      → (lift path >>= λ p. lift key >>= λ k. call (send p k) >>= λ reply.
            lift (response_of reply.0) >>= λ response.
            lift (refuse_if (eqb response.status 409 || is_error reply.1) key_exists)
            >> (set_id d p >> return tt))
          s
        ≡ (ok tt, s')
      → path ≡ ok (d.id s')
  stored_at (panic p) key send s s' h = absurd (panic-ne-ok (ap (λ y. y.0) h))
  stored_at (err e) key send s s' h = absurd (err-ne-ok (ap (λ y. y.0) h))
  stored_at (ok p) (panic q) send s s' h = absurd (panic-ne-ok (ap (λ y. y.0) h))
  stored_at (ok p) (err e) send s s' h = absurd (err-ne-ok (ap (λ y. y.0) h))
  stored_at (ok p) (ok k) send s s' h =
      let reply = (send p k s).0 in
      ap ok (
        sym (
          replied_at p (response_of reply.0)
            (λ r. refuse_if (eqb r.status 409 || is_error reply.1) key_exists) (send p k s).1 s' h))

module _ {S : Type 0} (d : ResourceData S) (has_change : S → String → Bool) (c : KeyClient S) where
  -- No key exists for both resources: where `PrivateKeyExists` finds one, `PublicKeyExists` does not.
  pub private_key_exists-apart :
      (s : S)
      → (private_key_exists d c s).0 ≡ ok true
      → (public_key_exists d has_change c s).0 ≢ ok true
  unfolding private_key_exists public_key_exists
  private_key_exists-apart s h g =
      let key = (c.storage_key_get_metadata (d.id s) s).0 in
      private-ne-public (sym (private_key_in_meta key.0 key.1 h) ∙ public_key_in_meta key.0 key.1 g)

module _ {S : Type 0} (d : ResourceData S) (c : KeyClient S) where
  -- Where `CreateOrUpdatePrivateKey` succeeds, the identifier is the path of the key.
  pub create_or_update_private_key-id :
      (s s' : S)
      → ((i : String) (t : S) → d.id (d.set_id i t) ≡ i)
      → create_or_update_private_key d c s ≡ (ok tt, s')
      → d.get s "path" ≡ string (d.id s')
  unfolding create_or_update_private_key
  create_or_update_private_key-id s s' sets h = as_string-eq-ok (d.get s "path") (d.id s') (
      stored_at d sets (as_string (d.get s "path")) (as_string (d.get s "key_material"))
        (λ path key. store_key d c path key s) s s' h)

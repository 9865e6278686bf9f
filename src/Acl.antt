-- ===== src/Acl.antt =====
-- rundeck/resource_acl_policy.go: the schema of ACL policies and their operations.
pub mod Policies
use terraform_provider_runde.Common.{
  String, ◌<>◌, Bool, true, false, ◌||◌, eqb, if◌then◌else◌, Option, none, some,
}
use terraform_provider_runde.Go.{
  Outcome, ok, err, panic, nil_dereference, refuse_if, as_string, Error, errorf, Value, string,
}
use terraform_provider_runde.Go.Exec.{Exec, ◌>>=◌, ◌>>◌, lift, return}
use terraform_provider_runde.Http.{HttpResponse, Call, call, ask, response_of, fail_with}
use terraform_provider_runde.Sdk.{
  Attributes, no_attributes, attribute, type_string, required, forces_new,
}
use terraform_provider_runde.Sdk.ResourceData.{ResourceData, set_id, set_anyway}

abbrev pub acl_policy_resource : Attributes
acl_policy_resource =
    attribute "name" type_string (forces_new required)
      (attribute "policy" type_string required no_attributes)

-- A reply on a policy: its response, its value as `%v` prints it, and a pointer to its contents.
pub record PolicyReply : Type 0 where
  pub response : Option HttpResponse
  pub value : String
  pub contents : Option String

pub record AclClient (S : Type 0) : Type 0 where
  -- name and contents
  pub system_acl_policy_create : String → String → S → (PolicyReply × Option Error) × S
  pub system_acl_policy_update : String → String → S → (PolicyReply × Option Error) × S
  pub system_acl_policy_get : String → S → (PolicyReply × Option Error) × S
  pub system_acl_policy_delete : String → Call S

abbrev pub error_creating : PolicyReply → Error
error_creating reply = errorf ("Error creating ACL policy: (" <> reply.value <> ")")

abbrev pub policy_not_found : String → Error
policy_not_found name = errorf ("ACL policy not found: (" <> name <> ")")

abbrev pub contents_of : Option String → Outcome String
contents_of none = panic nil_dereference
contents_of (some t) = ok t

-- `AclPolicyExists` after the call. Another status gives false and the nil error.
abbrev pub found_in : HttpResponse → Bool
found_in response =
    if eqb response.status 200 then true else if eqb response.status 404 then false else false

module _ {S : Type 0} (d : ResourceData S) (c : AclClient S) where
  unfoldable pub create_acl_policy : Exec S (Unit {0})
  create_acl_policy s =
      (lift (as_string (d.get s "name")) >>= λ name.
      lift (as_string (d.get s "policy")) >>= λ policy.
      ask (c.system_acl_policy_create name policy) >>= λ reply.
      lift (fail_with reply.1)
      >> (lift (response_of reply.0.response) >>= λ response.
          lift (
            refuse_if (eqb response.status 409 || eqb response.status 400) (error_creating reply.0))
          >> (set_id d name >> set_anyway d "id" (string name))))
        s

  unfoldable pub update_acl_policy : Exec S (Unit {0})
  update_acl_policy s =
      (lift (as_string (d.get s "name")) >>= λ name.
      lift (as_string (d.get s "policy")) >>= λ policy.
      ask (c.system_acl_policy_update name policy) >>= λ reply. lift (fail_with reply.1))
        s

  unfoldable pub read_acl_policy : Exec S (Unit {0})
  read_acl_policy s =
      (ask (c.system_acl_policy_get (d.id s)) >>= λ reply.
      lift (fail_with reply.1)
      >> (lift (response_of reply.0.response) >>= λ response.
          lift (refuse_if (eqb response.status 404) (policy_not_found (d.id s)))
          >> (lift (contents_of reply.0.contents) >>= λ contents.
              set_anyway d "policy" (string contents))))
        s

  unfoldable pub acl_policy_exists : Exec S Bool
  acl_policy_exists s =
      (ask (c.system_acl_policy_get (d.id s)) >>= λ reply.
      lift (fail_with reply.1)
      >> (lift (response_of reply.0.response) >>= λ response. return (found_in response)))
        s

  -- The identifier stays.
  unfoldable pub acl_policy_delete : Exec S (Unit {0})
  acl_policy_delete s =
      (call (c.system_acl_policy_delete (d.id s)) >>= λ reply. lift (fail_with reply.1)) s

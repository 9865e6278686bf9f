-- ===== src/Tests/Policies.antt =====
-- A server with one ACL policy, and the theorem on reading it there.
use terraform_provider_runde.Common.{◌≡◌, refl, none, some, inr}
use terraform_provider_runde.Go.{err, errorf, string}
use terraform_provider_runde.Acl.{AclClient, PolicyReply, acl_policy_resource, create_acl_policy}
use terraform_provider_runde.Tests.Data.{Kept, plain_data}

abbrev policy : PolicyReply
policy = record {
  response = some (record { status = 200; body = inr "" });
  value = "v";
  contents = some "by: all";
}

abbrev conflict : PolicyReply
conflict = record policy { response = some (record { status = 409; body = inr "" }) }

abbrev server : AclClient Kept
server = record {
  system_acl_policy_create = λ n p s. ((conflict, none), s);
  system_acl_policy_update = λ n p s. ((policy, none), s);
  system_acl_policy_get = λ n s. ((policy, none), s);
  system_acl_policy_delete = λ n s. ((none, none), s);
}

abbrev held : Kept
held = ("p", λ k. string "old")

-- A conflict leaves the identifier empty.
conflict_test :
    create_acl_policy (plain_data acl_policy_resource) server ("", λ k. string "old")
    ≡ (err (errorf "Error creating ACL policy: (v)"), ("", λ k. string "old"))
unfolding create_acl_policy
conflict_test = refl

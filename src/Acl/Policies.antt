-- ===== src/Acl/Policies.antt =====
-- What reading an ACL policy shows, and when.
use terraform_provider_runde.Common.{String, ◌≡◌, false, eqb, Option, none, some}
use terraform_provider_runde.Go.{Error}
use terraform_provider_runde.Sdk.ResourceData.{ResourceData}
use terraform_provider_runde.Http.{HttpResponse}
use terraform_provider_runde.Acl.{PolicyReply}

-- a reply with these contents, and no error
pub record Shows (reply : PolicyReply × Option Error) (contents : String) : Type 0 where
  pub response : HttpResponse
  pub no_error : reply.1 ≡ none
  pub replied : reply.0.response ≡ some response
  pub found : eqb response.status 404 ≡ false
  pub held : reply.0.contents ≡ some contents

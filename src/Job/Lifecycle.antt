-- ===== src/Job/Lifecycle.antt =====
-- rundeck/resource_job.go: `CreateJob`, `UpdateJob`, `DeleteJob`, `JobExists` and `ReadJob`. The
-- resource data and the API client act on one state; the client is the provider's `meta`.
pub mod Reading
pub mod Failures
use terraform_provider_runde.Common.{
  String, ◌≡◌, Bool, true, false, not, if◌then◌else◌, Option, none, some, eqb,
}
use terraform_provider_runde.Go.{Outcome, ok, err, Error, errorf}
use terraform_provider_runde.Go.Exec.{Exec, ◌>>=◌, ◌>>◌, return, lift}
use terraform_provider_runde.Sdk.ResourceData.{ResourceData, set_id}
use terraform_provider_runde.Http.{Reply, HttpResponse, call, fail_with, response_of}
use terraform_provider_runde.Job.Types.{JobDetail}
use terraform_provider_runde.Job.Replies.{JobClient}
use terraform_provider_runde.Job.Api.{get_job, import_job}
use terraform_provider_runde.Job.Decode.{job_from_resource_data}
use terraform_provider_runde.Job.Encode.{job_to_resource_data}

-- `%v` of the nil error
abbrev pub error_checking_job : Error
error_checking_job = errorf "error checking if job exists: (<nil>)"

abbrev pub existence : HttpResponse → Outcome Bool
existence response =
    if eqb response.status 200
    then ok true
    else if eqb response.status 404
    then ok false
    else err error_checking_job

module _ {S : Type 0} (d : ResourceData S) (c : JobClient S) where
  unfoldable pub read_job : Exec S (Unit {0})
  read_job s = (get_job c (d.id s) >>= job_to_resource_data d) s

  -- what `CreateJob` and `UpdateJob` have in common
  abbrev pub import_and_read : String → Exec S (Unit {0})
  import_and_read dupe_option s =
      (lift (job_from_resource_data (d.id s) (d.get s)) >>= λ job.
      import_job c job dupe_option >>= λ summary. set_id d summary.id >> read_job)
        s

  unfoldable pub create_job : Exec S (Unit {0})
  create_job = import_and_read "create"

  unfoldable pub update_job : Exec S (Unit {0})
  update_job = import_and_read "update"

  unfoldable pub delete_job : Exec S (Unit {0})
  delete_job s =
      (call (c.job_delete (d.id s)) >>= λ reply. lift (fail_with reply.1) >> set_id d "") s

  -- An error of the call is never the nil `*NotFoundError` that the source compares it with.
  unfoldable pub job_exists : Exec S Bool
  job_exists s =
      (call (c.job_get (d.id s)) >>= λ reply.
      lift (fail_with reply.1)
      >> (lift (response_of reply.0) >>= λ response. lift (existence response)))
        s

-- The calls of the client leave the resource data alone.
pub record LeavesData {S : Type 0} (d : ResourceData S) (c : JobClient S) : Type 0 where
  pub id-job_get : (i : String) (s : S) → d.id (c.job_get i s).1 ≡ d.id s
  pub get-job_get : (i : String) (s : S) → d.get (c.job_get i s).1 ≡ d.get s
  pub id-import : (p b u v : String) (s : S) → d.id (c.project_jobs_import p b u v s).1 ≡ d.id s
  pub get-import : (p b u v : String) (s : S) → d.get (c.project_jobs_import p b u v s).1 ≡ d.get s
  pub id-job_delete : (i : String) (s : S) → d.id (c.job_delete i s).1 ≡ d.id s
  pub get-job_delete : (i : String) (s : S) → d.get (c.job_delete i s).1 ≡ d.get s

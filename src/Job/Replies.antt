-- ===== src/Job/Replies.antt =====
-- rundeck/job.go: what `GetJob` and `importJob` make of the server's replies, and the structures of an
-- import's result.
pub mod Accepts
use terraform_provider_runde.Common.{
  String, ◌<>◌, Bool, true, false, not, if◌then◌else◌, Option, none, some, ◌⊎◌, List, [], ◌∷◌, eqb,
}
use terraform_provider_runde.Go.{
  Outcome, ok, err, ◌>>=◌, Error, errorf, not_found, ℤ, pos, int_le, int_eq,
}
use terraform_provider_runde.Http.{
  HttpResponse, Reply, Call, fail_with, response_of, result_or, first,
}
use terraform_provider_runde.Job.Types.{JobDetail, JobSummary}

pub record JobImportResult : Type 0 where
  pub id : String
  pub name : String
  pub group_name : String
  pub project_name : String
  pub error : String

pub record JobImportResultsCategory : Type 0 where
  pub count : ℤ
  pub results : List JobImportResult

pub record JobImportResults : Type 0 where
  pub succeeded : JobImportResultsCategory
  pub failed : JobImportResultsCategory
  pub skipped : JobImportResultsCategory

-- `rundeck.BaseClient` as far as the job resource calls it, and the XML codec for its bodies
pub record JobClient (S : Type 0) : Type 0 where
  pub job_get : String → Call S
  -- project, body, what to do with duplicates, and what to do with identifiers
  pub project_jobs_import : String → String → String → String → Call S
  pub job_delete : String → Call S
  pub marshal_jobs : List JobDetail → Error ⊎ String
  pub unmarshal_jobs : String → Error ⊎ List JobDetail
  pub unmarshal_results : String → Error ⊎ JobImportResults
  -- `fmt.Errorf` of a format without arguments
  pub format : String → String

-- `(r *jobImportResult) JobSummary()`
abbrev pub job_summary : JobImportResult → JobSummary
job_summary r = record {
  id = r.id;
  name = r.name;
  group_name = r.group_name;
  project_name = r.project_name;
  description = "";
}

-- `%v` of the error is that of nil, which the calls above it have returned.
abbrev pub error_getting_job : Error
error_getting_job = errorf "error getting job: (<nil>)"

abbrev pub job_was_skipped : Error
job_was_skipped = errorf "job was skipped"

module _ {S : Type 0} (c : JobClient S) where
  -- the body of a reply that has one job or more
  abbrev pub job_in : HttpResponse → Outcome JobDetail
  job_in response = do
    bytes ← result_or response.body
    jobs ← result_or (c.unmarshal_jobs bytes)
    first jobs

  -- `GetJob` after the call
  unfoldable pub job_of_reply : Reply → Outcome JobDetail
  job_of_reply reply = do
    _ ← fail_with reply.1
    response ← response_of reply.0
    if eqb response.status 404
        then err not_found
        else if not (eqb response.status 200)
        then err error_getting_job
        else job_in response

  abbrev pub summary_of : JobImportResults → Outcome JobSummary
  summary_of result =
      if not (int_le result.failed.count (pos 0))
      then (first result.failed.results >>= λ r. err (errorf (c.format r.error)))
      else if not (int_eq result.succeeded.count (pos 1))
      then err job_was_skipped
      else (first result.succeeded.results >>= λ r. ok (job_summary r))

  -- `importJob` after the call. The status of the reply is not looked at.
  unfoldable pub summary_of_reply : Reply → Outcome JobSummary
  summary_of_reply reply = do
    _ ← fail_with reply.1
    response ← response_of reply.0
    bytes ← result_or response.body
    result ← result_or (c.unmarshal_results bytes)
    summary_of result

-- ===== src/Job/Api.antt =====
-- rundeck/job.go: `GetJob` and `importJob`.
use terraform_provider_runde.Common.{String, [], ◌∷◌}
use terraform_provider_runde.Go.Exec.{Exec, ◌>>=◌, lift}
use terraform_provider_runde.Http.{call, result_or}
use terraform_provider_runde.Job.Types.{JobDetail, JobSummary}
use terraform_provider_runde.Job.Replies.{JobClient, job_of_reply, summary_of_reply}

module _ {S : Type 0} (c : JobClient S) where
  abbrev pub get_job : String → Exec S JobDetail
  get_job id = do reply ← call (c.job_get id); lift (job_of_reply c reply)

  abbrev pub import_job : JobDetail → String → Exec S JobSummary
  import_job job dupe_option = do
    bytes ← lift (result_or (c.marshal_jobs (job ∷ [])))
    reply ← call (c.project_jobs_import job.project_name bytes dupe_option "preserve")
    lift (summary_of_reply c reply)

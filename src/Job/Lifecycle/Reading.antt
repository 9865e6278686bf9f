-- ===== src/Job/Lifecycle/Reading.antt =====
-- What the resource data decode to after `ReadJob`.
use terraform_provider_runde.Common.{String, ◌≡◌, refl, sym, ◌∙◌, List, subst}
use terraform_provider_runde.Common.Dict.{Dict}
use terraform_provider_runde.Go.{ok}
use terraform_provider_runde.Sdk.Reader.{SchemaReader, IsReader}
use terraform_provider_runde.Sdk.ResourceData.{ResourceData, IsResourceData}
use terraform_provider_runde.Job.Types.{
  JobDispatch, JobNodeFilter, JobLogFilter, JobCommandSequence, JobDetail,
}
use terraform_provider_runde.Job.Schemas.{job_resource}
use terraform_provider_runde.Job.Replies.{JobClient, job_of_reply}
use terraform_provider_runde.Job.Decode.{job_from_resource_data}
use terraform_provider_runde.Job.Encode.{job_to_resource_data}
use terraform_provider_runde.Job.RoundTrip.{
  IsKept, AgreesWith, kept, job_from_resource_data-job_to_resource_data,
}
use terraform_provider_runde.Job.RoundTrip.Reads.{with_parts}
use terraform_provider_runde.Job.Lifecycle.{LeavesData, read_job}

module _ {S : Type 0} (d : ResourceData S) (c : JobClient S) where
  read_job-served :
      (s : S) (job : JobDetail)
      → job_of_reply c (c.job_get (d.id s) s).0 ≡ ok job
      → read_job d c s ≡ job_to_resource_data d job (c.job_get (d.id s) s).1
  unfolding read_job
  read_job-served s job h = rw h refl

  -- When `ReadJob` succeeds on a served job that the resource data can represent, the resource data
  -- decode to that job, with its schedule's absent day filled in and with options that are no longer
  -- dates. The attributes that are never written must agree
  -- with the job beforehand, and the client must not touch the resource data.
  pub read_job-kept :
      (r : SchemaReader) (reads : IsReader r)
      → IsResourceData job_resource r d
      → LeavesData d c
      → (job : JobDetail) (dispatch : JobDispatch) (filter : JobNodeFilter)
        (sequence : JobCommandSequence) (filters : List (JobLogFilter × Dict String))
      → IsKept job sequence filters
      → (s s' : S) → AgreesWith (d.get s) job dispatch filters
      → job_of_reply c (c.job_get (d.id s) s).0 ≡ ok (with_parts job dispatch filter sequence)
      → read_job d c s ≡ (ok tt, s')
      → job_from_resource_data (d.id s') (d.get s')
        ≡ ok (kept (with_parts job dispatch filter sequence))
  read_job-kept r reads laws leaves job dispatch filter sequence filters k s s' agrees served done =
      job_from_resource_data-job_to_resource_data r reads d laws job dispatch filter sequence
        filters k (c.job_get (d.id s) s).1 s'
        (subst (λ get. AgreesWith get job dispatch filters) (sym (leaves.get-job_get (d.id s) s))
          agrees)
        (sym (read_job-served s (with_parts job dispatch filter sequence) served) ∙ done)

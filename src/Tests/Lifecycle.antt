-- ===== src/Tests/Lifecycle.antt =====
-- A server with one job, and the theorems on the operations of the job resource there.
use terraform_provider_runde.Common.{
  String, ◌≡◌, ◌↔◌, refl, ◌⊎◌, inr, none, some, [], ◌∷◌, ◌==◌, if◌then◌else◌,
}
use terraform_provider_runde.Go.{Outcome, ok, err, errorf, external, traverse, not_found, pos}
use terraform_provider_runde.Http.{Reply}
use terraform_provider_runde.Job.Types.{JobDetail}
use terraform_provider_runde.Job.Schemas.{job_resource}
use terraform_provider_runde.Job.Decode.{job_from_resource_data}
use terraform_provider_runde.Job.Encode.{job_to_resource_data}
use terraform_provider_runde.Job.Replies.{
  JobClient, JobImportResult, JobImportResults, job_of_reply, summary_of_reply,
}
use terraform_provider_runde.Job.Replies.Accepts.{HoldsJob, job_of_reply-HoldsJob}
use terraform_provider_runde.Job.Lifecycle.{LeavesData, read_job, import_and_read, delete_job}
use terraform_provider_runde.Job.Lifecycle.Reading.{read_job-kept}
use terraform_provider_runde.Job.Lifecycle.Failures.{
  SameData, ClearedOrSame, WasImported, import_and_read-SameData, delete_job-ClearedOrSame,
}
use terraform_provider_runde.Job.RoundTrip.{kept}
use terraform_provider_runde.Job.RoundTrip.Reads.{with_parts}
use terraform_provider_runde.Tests.Reader.{plain_reader, plain_reader-IsReader}
use terraform_provider_runde.Tests.Data.{Kept, plain_data, plain_data-IsResourceData}
use terraform_provider_runde.Tests.RoundTrips.{
  nightly, dispatch, filter, sequence, filters, nightly-IsKept, blank, blank-AgreesWith,
}

abbrev served : JobDetail
served = with_parts nightly dispatch filter sequence

abbrev reply_of : String → Reply
reply_of body = (some (record { status = 200; body = inr body }), none)

abbrev listed : JobImportResult
listed = record { id = "1"; name = "n"; group_name = "g"; project_name = "p"; error = "" }

abbrev imported : JobImportResults
imported = record {
  succeeded = record { count = pos 1; results = listed ∷ [] };
  failed = record { count = pos 0; results = [] };
  skipped = record { count = pos 0; results = [] };
}

abbrev refused : JobImportResults
refused = record imported {
  failed = record { count = pos 1; results = (record listed { error = "no such project" }) ∷ [] };
}

-- The body of an import's reply is the text that marshalling gave.
abbrev server : String → JobClient Kept
server marshalled = record {
  job_get = λ i s. (reply_of "jobs", s);
  project_jobs_import = λ p body u v s. (reply_of body, s);
  job_delete = λ i s. ((none, if i == "1" then none else some (external "no")), s);
  marshal_jobs = λ js. inr marshalled;
  unmarshal_jobs = λ b. inr (served ∷ []);
  unmarshal_results = λ b. inr (if b == "good" then imported else refused);
  format = λ t. t;
}

server-LeavesData : (b : String) → LeavesData (plain_data job_resource) (server b)
server-LeavesData b = record {
  id-job_get = λ i s. refl;
  get-job_get = λ i s. refl;
  id-import = λ p b u v s. refl;
  get-import = λ p b u v s. refl;
  id-job_delete = λ i s. refl;
  get-job_delete = λ i s. refl;
}

served_reply : job_of_reply (server "good") (reply_of "jobs") ≡ ok served
unfolding job_of_reply
served_reply = refl

abbrev read_run : Outcome (Unit {0}) × Kept
read_run = read_job (plain_data job_resource) (server "good") blank

read_run_succeeds : read_run ≡ (ok tt, read_run.1)
unfolding read_job job_of_reply job_to_resource_data traverse
read_run_succeeds = refl

read_job-kept_example : job_from_resource_data read_run.1.0 read_run.1.1 ≡ ok (kept served)
read_job-kept_example =
    read_job-kept (plain_data job_resource) (server "good") plain_reader plain_reader-IsReader
      (plain_data-IsResourceData job_resource) (server-LeavesData "good") nightly dispatch filter
      sequence filters nightly-IsKept blank read_run.1 blank-AgreesWith served_reply
      read_run_succeeds

job_of_reply-HoldsJob_example :
    (job_of_reply (server "good") (reply_of "jobs") ≡ ok served)
    ↔ HoldsJob (server "good") (reply_of "jobs") served
job_of_reply-HoldsJob_example = job_of_reply-HoldsJob (server "good") (reply_of "jobs") served

replies_tests :
    (job_of_reply (server "good") (some (record { status = 404; body = inr "" }), none)
      ≡ err not_found)
    × (summary_of_reply (server "good") (reply_of "bad") ≡ err (errorf "no such project"))
unfolding job_of_reply summary_of_reply
replies_tests = (refl, refl)

read_decoded : job_from_resource_data read_run.1.0 read_run.1.1 ≡ ok (kept served)
read_decoded =
    read_job-kept (plain_data job_resource) (server "good") plain_reader plain_reader-IsReader
      (plain_data-IsResourceData job_resource) (server-LeavesData "good") nightly dispatch filter
      sequence filters nightly-IsKept blank read_run.1 blank-AgreesWith served_reply
      read_run_succeeds

abbrev failed_run : Outcome (Unit {0}) × Kept
failed_run = import_and_read (plain_data job_resource) (server "bad") "update" read_run.1

failed_run_fails : failed_run ≡ (err (errorf "no such project"), read_run.1)
unfolding summary_of_reply
failed_run_fails = rw read_decoded refl

import_and_read-SameData_example :
    SameData (plain_data job_resource) read_run.1 read_run.1
    ⊎ WasImported
        (plain_data job_resource)
        (server "bad")
        (server-LeavesData "bad")
        "update"
        read_run.1
import_and_read-SameData_example =
    import_and_read-SameData (plain_data job_resource) (server "bad") (server-LeavesData "bad")
      "update" (errorf "no such project") read_run.1 read_run.1 failed_run_fails

delete_job-ClearedOrSame_example :
    ClearedOrSame
      (plain_data job_resource)
      blank
      (delete_job (plain_data job_resource) (server "good") blank)
delete_job-ClearedOrSame_example =
    delete_job-ClearedOrSame (plain_data job_resource) (server "good") (server-LeavesData "good")
      (λ i s. refl) blank

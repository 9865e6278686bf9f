-- ===== src/Job/Lifecycle/Failures.antt =====
-- What the operations on jobs leave in the resource data when they fail.
use terraform_provider_runde.Common.{
  String, ◌≡◌, ◌≢◌, refl, ap, ◌∙◌, ◌⊎◌, inl, inr, [], ◌∷◌, subst, Option, none, some,
}
use terraform_provider_runde.Go.{Outcome, ok, err, panic, Panic, panic-ne-err, Error}
use terraform_provider_runde.Go.Exec.{Exec, ◌>>=◌, ◌>>◌, lift, after}
use terraform_provider_runde.Http.{call, fail_with, result_or}
use terraform_provider_runde.Sdk.ResourceData.{ResourceData, set_id}
use terraform_provider_runde.Job.Types.{JobDetail, JobSummary}
use terraform_provider_runde.Job.Replies.{JobClient, summary_of_reply}
use terraform_provider_runde.Job.Api.{import_job}
use terraform_provider_runde.Job.Decode.{job_from_resource_data}
use terraform_provider_runde.Job.Lifecycle.{LeavesData, import_and_read, delete_job}

-- the same identifier and the same attributes
pub record SameData {S : Type 0} (d : ResourceData S) (s s' : S) : Type 0 where
  pub id : d.id s' ≡ d.id s
  pub get : d.get s' ≡ d.get s

-- a deletion that cleared the identifier, or failed and changed nothing
abbrev pub ClearedOrSame : {S : Type 0} (d : ResourceData S) → S → Outcome (Unit {0}) × S → Type 0
ClearedOrSame d s (ok _, s') = d.id s' ≡ ""
ClearedOrSame d s (err _, s') = SameData d s s'
ClearedOrSame d s (panic _, s') = ⊥

fail_with-ne-panic : (e : Option Error) (p : Panic) → fail_with e ≢ panic p
fail_with-ne-panic none p h = cc
fail_with-ne-panic (some e) p h = cc

module _ {S : Type 0} (d : ResourceData S)
    (sets : (i : String) (s : S) → d.id (d.set_id i s) ≡ i) where
  cleared :
      (m : Outcome (Unit {0})) (s t : S)
      → SameData d s t
      → ((p : Panic) → m ≢ panic p)
      → ClearedOrSame d s ((lift m >> set_id d "") t)
  cleared (ok u) s t same _ = sets "" t
  cleared (err f) s t same _ = same
  cleared (panic p) s t same no_panic = no_panic p refl

module _ {S : Type 0} (d : ResourceData S) (c : JobClient S) (leaves : LeavesData d c) where
  -- the server accepted the job
  abbrev pub WasImported : String → S → Type 0
  WasImported dupe_option s =
      (job : JobDetail) × (summary : JobSummary) × (s' : S) × (job_from_resource_data (d.id s)
          (d.get s)
        ≡ ok job)
      × (import_job c job dupe_option s ≡ (ok summary, s'))

  sent-SameData :
      (m : Outcome String) (job : JobDetail) (dupe_option : String) (s : S)
      → SameData d s
          ((lift m >>= λ bytes.
              call (c.project_jobs_import job.project_name bytes dupe_option "preserve")
              >>= λ reply. lift (summary_of_reply c reply))
            s).1
  sent-SameData (panic p) job dupe_option s = record { id = refl; get = refl }
  sent-SameData (err e) job dupe_option s = record { id = refl; get = refl }
  sent-SameData (ok bytes) job dupe_option s = record {
    id = leaves.id-import job.project_name bytes dupe_option "preserve" s;
    get = leaves.get-import job.project_name bytes dupe_option "preserve" s;
  }

  import_job-SameData :
      (job : JobDetail) (dupe_option : String) (s : S)
      → SameData d s (import_job c job dupe_option s).1
  import_job-SameData job dupe_option s =
      sent-SameData (result_or (c.marshal_jobs (job ∷ []))) job dupe_option s

  unaccepted :
      (job : JobDetail) (dupe_option : String) (k : JobSummary → Exec S (Unit {0})) (e : Error)
      (s s' : S) (x : Outcome JobSummary × S)
      → job_from_resource_data (d.id s) (d.get s) ≡ ok job
      → import_job c job dupe_option s ≡ x
      → after k x ≡ (err e, s')
      → SameData d s s' ⊎ WasImported dupe_option s
  unaccepted job dupe_option k e s s' (panic p, t) decoded imported h =
      absurd (panic-ne-err (ap (λ y. y.0) h))
  unaccepted job dupe_option k e s s' (err f, t) decoded imported h = inl (
      subst (SameData d s) (ap (λ y. y.1) imported ∙ ap (λ y. y.1) h)
        (import_job-SameData job dupe_option s))
  unaccepted job dupe_option k e s s' (ok summary, t) decoded imported h =
      inr (job, summary, t, decoded, imported)

  undecoded :
      (dupe_option : String) (k : JobSummary → Exec S (Unit {0})) (e : Error) (s s' : S)
      (m : Outcome JobDetail)
      → job_from_resource_data (d.id s) (d.get s) ≡ m
      → (lift m >>= λ job. import_job c job dupe_option >>= k) s ≡ (err e, s')
      → SameData d s s' ⊎ WasImported dupe_option s
  undecoded dupe_option k e s s' (panic p) decoded h = absurd (panic-ne-err (ap (λ y. y.0) h))
  undecoded dupe_option k e s s' (err f) decoded h =
      inl (subst (SameData d s) (ap (λ y. y.1) h) (record { id = refl; get = refl }))
  undecoded dupe_option k e s s' (ok job) decoded h =
      unaccepted job dupe_option k e s s' (import_job c job dupe_option s) decoded refl h

  -- If `CreateJob` or `UpdateJob`, which differ in what they ask for duplicates, fails and the server
  -- did not accept the job, then the resource data are as before.
  pub import_and_read-SameData :
      (dupe_option : String) (e : Error) (s s' : S)
      → import_and_read d c dupe_option s ≡ (err e, s')
      → SameData d s s' ⊎ WasImported dupe_option s
  import_and_read-SameData dupe_option e s s' h =
      undecoded dupe_option _ e s s' (job_from_resource_data (d.id s) (d.get s)) refl h

  -- `DeleteJob` does not panic; it clears the identifier when it succeeds, and leaves the resource data
  -- as they were when it fails.
  pub delete_job-ClearedOrSame :
      ((i : String) (s : S) → d.id (d.set_id i s) ≡ i)
      → (s : S) → ClearedOrSame d s (delete_job d c s)
  unfolding delete_job
  delete_job-ClearedOrSame sets s =
      cleared d sets (fail_with (c.job_delete (d.id s) s).0.1) s (c.job_delete (d.id s) s).1
        (record { id = leaves.id-job_delete (d.id s) s; get = leaves.get-job_delete (d.id s) s })
        (λ p. fail_with-ne-panic (c.job_delete (d.id s) s).0.1 p)

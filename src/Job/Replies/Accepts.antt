-- ===== src/Job/Replies/Accepts.antt =====
-- Which replies `GetJob` and `importJob` accept, and when they panic.
use terraform_provider_runde.Common.{
  String, ℕ, ◌≡◌, ◌≢◌, refl, ◌↔◌, ◌⊎◌, inl, inr, true, false, not, none, some, List, [], ◌∷◌, arith,
  ap, ◌∙◌, eqb, if◌then◌else◌,
}
use terraform_provider_runde.Go.{
  Outcome, ok, err, Error, not_found, >>=-eq-ok, ok-injective, pos, int_le, int_eq,
}
use terraform_provider_runde.Http.{HttpResponse, Reply, result_or, first}
use terraform_provider_runde.Job.Types.{JobDetail}
use terraform_provider_runde.Job.Replies.{
  JobClient, JobImportResults, job_of_reply, job_in, error_getting_job,
}

-- A reply without error, of status 200, whose body holds the job first.
pub record HoldsJob {S : Type 0} (c : JobClient S) (reply : Reply) (job : JobDetail) : Type 0 where
  pub response : HttpResponse
  pub bytes : String
  pub others : List JobDetail
  pub replied : reply ≡ (some response, none)
  pub found : response.status ≡ 200
  pub body : response.body ≡ inr bytes
  pub decoded : c.unmarshal_jobs bytes ≡ inr (job ∷ others)

result_or-eq-ok : {A : Type 0} (x : Error ⊎ A) {a : A} → result_or x ≡ ok a → x ≡ inr a
result_or-eq-ok (inl e) h = cc
result_or-eq-ok (inr a) h = ap inr (ok-injective h)

first-eq-ok : {A : Type 0} (xs : List A) {a : A} → first xs ≡ ok a → (ys : List A) × (xs ≡ a ∷ ys)
first-eq-ok [] h = cc
first-eq-ok (x ∷ xs) h = (xs, ap (λ y. y ∷ xs) (ok-injective h))

status_found :
    {A : Type 0} (e f : Error) {a : A} (m : Outcome A) (status : ℕ)
    → (if eqb status 404 then err e else if not (eqb status 200) then err f else m) ≡ ok a
    → (status ≡ 200) × (m ≡ ok a)
status_found e f m status h = (ground arith, ground arith)

module _ {S : Type 0} (c : JobClient S) where
  answered :
      (reply : Reply) (job : JobDetail)
      → job_of_reply c reply ≡ ok job
      → (response : HttpResponse) × (reply ≡ (some response, none))
        × (response.status ≡ 200)
        × (job_in c response ≡ ok job)
  unfolding job_of_reply
  answered (none, none) job h = cc
  answered (o, some e) job h = cc
  answered (some response, none) job h =
      let (found, inside) =
        status_found not_found error_getting_job (job_in c response) response.status h in
      (response, refl, found, inside)

  -- `GetJob` gives a job exactly where the reply has no error and the status 200, and a body that holds
  -- the job first.
  pub job_of_reply-HoldsJob :
      (reply : Reply) (job : JobDetail) → (job_of_reply c reply ≡ ok job) ↔ HoldsJob c reply job
  unfolding job_of_reply
  job_of_reply-HoldsJob reply job = (
    λ h.
        let (response, replied, found, inside) = answered reply job h in
        let (bytes, read, inside') = >>=-eq-ok (result_or response.body) _ inside in
        let (jobs, decoded, one) = >>=-eq-ok (result_or (c.unmarshal_jobs bytes)) _ inside' in
        let (others, same) = first-eq-ok jobs one in
        record {
          response = response;
          bytes = bytes;
          others = others;
          replied = replied;
          found = found;
          body = result_or-eq-ok response.body read;
          decoded = result_or-eq-ok (c.unmarshal_jobs bytes) decoded ∙ ap inr same;
        },
    λ h. rw (h.replied, h.found, h.body, h.decoded) refl,
  )

-- The counts of an import's result agree with its lists, one way: a counted job is listed.
pub record IsCounted (result : JobImportResults) : Type 0 where
  pub failed : int_le result.failed.count (pos 0) ≡ false → result.failed.results ≢ []
  pub succeeded : int_eq result.succeeded.count (pos 1) ≡ true → result.succeeded.results ≢ []

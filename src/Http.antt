-- ===== src/Http.antt =====
-- Replies of the API client (go-rundeck and autorest, not part of this repository), as the resources
-- read them. The client's calls are parameters: actions on the state that it shares with the server.
use terraform_provider_runde.Common.{String, ℕ, Option, none, some, ◌⊎◌, inl, inr, List, [], ◌∷◌}
use terraform_provider_runde.Go.{
  Outcome, ok, err, panic, Error, nil_dereference, index_out_of_range,
}
use terraform_provider_runde.Go.Exec.{Exec}

-- `http.Response`: the status, and what reading the body gives
pub record HttpResponse : Type 0 where
  pub status : ℕ
  pub body : Error ⊎ String

-- `(result, err)` of a call. A result embeds a pointer to the response, nil where there was none.
abbrev pub Reply : Type 0
Reply = Option HttpResponse × Option Error

-- a call of the client on the shared state
abbrev pub Call : Type 0 → Type 0
Call S = S → Reply × S

abbrev pub call : {S : Type 0} → Call S → Exec S Reply
call c s = (ok (c s).0, (c s).1)

-- `if err != nil { return err }`
abbrev pub fail_with : Option Error → Outcome (Unit {0})
fail_with none = ok tt
fail_with (some e) = err e

-- a field of the embedded response
abbrev pub response_of : Option HttpResponse → Outcome HttpResponse
response_of none = panic nil_dereference
response_of (some r) = ok r

-- a library's result, or its error
abbrev pub result_or {ℓ} : {A : Type ℓ} → Error ⊎ A → Outcome A
result_or (inl e) = err e
result_or (inr a) = ok a

-- `xs[0]`
abbrev pub first {ℓ} : {A : Type ℓ} → List A → Outcome A
first [] = panic index_out_of_range
first (x ∷ xs) = ok x

-- a call with a result of another type
abbrev pub ask : {S R : Type 0} → (S → (R × Option Error) × S) → Exec S (R × Option Error)
ask f s = (ok (f s).0, (f s).1)

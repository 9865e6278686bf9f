-- ===== src/Job/Safety.antt =====
-- Panics of `jobFromResourceData` on resource data of the declared types.
use terraform_provider_runde.Common.{String, ◌≡◌, some}
use terraform_provider_runde.Go.{Value}
use terraform_provider_runde.Sdk.{Kind, Conforms, kind_of}
use terraform_provider_runde.Job.Schemas.{job_resource}

-- every declared attribute reads as a value of its type
abbrev pub JobConforms : (String → Value) → Type 0
JobConforms get =
    (k : String) (kind : Kind) → kind_of k job_resource ≡ some kind → Conforms kind (get k)

-- ===== src/Job/Options.antt =====
-- The options of a job, from the resource data and back (rundeck/resource_job.go).
pub mod Decode
pub mod Encode
pub mod Rules
pub mod RoundTrip
pub mod Safety

-- ===== src/Job/Command.antt =====
-- A command of a job, from the resource data and back (rundeck/resource_job.go).
pub mod Decode
pub mod Encode
pub mod Safety
pub mod RoundTrip

-- ===== src/Job/Notifications.antt =====
-- The notifications of a job, from the resource data and back (rundeck/resource_job.go).
pub mod Decode
pub mod Encode
pub mod Slots
pub mod Accepts
pub mod RoundTrip
pub mod Blocks
pub mod Safety

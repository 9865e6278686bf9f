-- ===== src/Job.antt =====
-- The rundeck_job resource: rundeck/job.go and rundeck/resource_job.go.
pub mod Types
pub mod Schemas
pub mod Schedule
pub mod Command
pub mod Options
pub mod Notifications
pub mod Decode
pub mod Safety
pub mod Encode
pub mod Writes
pub mod RoundTrip
pub mod Replies
pub mod Api
pub mod Lifecycle

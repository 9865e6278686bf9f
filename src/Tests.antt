-- ===== src/Tests.antt =====
-- Concrete runs of the model, and the parameters instantiated by concrete functions.
pub mod Reader
pub mod Conformance
mod Schedules
mod Commands
mod Maps
mod Options
mod Notifications
mod Jobs
mod Data
mod RoundTrips
mod Lifecycle
mod Keys
mod Policies
mod Projects
mod Providers
mod Configs
mod Validation

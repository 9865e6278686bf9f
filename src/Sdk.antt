-- ===== src/Sdk.antt =====
-- What the provider uses of the Terraform plugin SDK (vendored): the declarations that describe a
-- resource's attributes, and, as parameters with laws, the reading and writing of attributes.
mod Schema
pub mod Reader
pub mod Reading
pub mod ResourceData
pub mod Settable
pub mod Writes
unfoldable pub use Schema.*

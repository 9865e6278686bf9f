-- ===== src/Go.antt =====
-- What the provider uses of the Go language: results that may be errors or panics, actions on a
-- state, and values of type `interface{}` with their type assertions.
mod Results
mod Integers
mod Interfaces
pub mod Exec
pub mod Decimal
unfoldable pub use Results.*
pub use Integers.*
unfoldable pub use Interfaces.*

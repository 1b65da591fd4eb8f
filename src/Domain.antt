-- ===== src/Domain.antt =====
-- internal/domain: the records that the hub keeps, its errors, and what its host provides.
mod Errors
pub mod Fault
mod Environment
mod Types
pub use Errors.*
pub use Environment.*
unfoldable pub use Types.*

-- ===== src/Store.antt =====
-- internal/store: the contract of store.go and its file-backed implementation, file_store.go.
mod Effects
mod File
mod Collections
mod Queries
mod Idempotency
pub mod Persistence
pub mod Steps
pub mod Reads
pub mod Inserts
pub mod Contracts
pub mod Filters
pub mod Keys
unfoldable pub use Effects.*
unfoldable pub use File.*
unfoldable pub use Collections.*
unfoldable pub use Queries.*
unfoldable pub use Idempotency.*

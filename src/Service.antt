-- ===== src/Service.antt =====
-- internal/service/hub_service.go: the hub's business logic, over the file store.
pub mod Requests
pub mod Keys
pub mod Writes
pub mod Operations
pub mod Health
pub mod Reads
pub mod Common
pub mod Policy
pub mod Tasks
pub mod Runs
pub mod Limits
pub mod Attempts
pub mod Listings
pub mod Summary
pub mod Leaderboard

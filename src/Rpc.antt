-- ===== src/Rpc.antt =====
-- The calls of the server: methods, interceptors and handlers.
pub mod Contract
pub mod Types
pub mod Auth
pub mod Idempotency
pub mod Limiter
pub mod Chain

-- ===== src/Checks.antt =====
-- Concrete runs of the service, the store and the interceptors.
mod Samples
mod Hub
mod Calls
mod Registered
mod Limits
mod Wrapper
mod Web

-- ===== src/Server.antt =====
-- internal/transport/grpc/server.go: the methods of the hub as gRPC serves them.
pub mod Wire
pub mod Steps
pub mod Methods
pub mod Handlers
pub mod Table
pub mod Registered
pub mod Calls

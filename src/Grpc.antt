-- ===== src/Grpc.antt =====
-- pkg/grpc: the server of the API.
pub mod Status
pub mod Server
pub mod Streams
pub mod Setup

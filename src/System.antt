-- ===== src/System.antt =====
-- The parts together: the store under the calls of the gRPC server and of the listener.
pub mod Tracking
pub mod Aside
pub mod Effects
pub mod Consistency
pub mod Listing
pub mod Streaming
pub mod Answers
pub mod RoundTrips
pub mod Queued
pub mod Catalogue

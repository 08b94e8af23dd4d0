-- ===== src/Api.antt =====
-- pkg/api/fsm.go: configurations, state machines and events.
pub mod Errors
pub mod Configuration
pub mod Machine
pub mod Event

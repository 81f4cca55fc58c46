-- ===== src/Hub.antt =====
-- server/src/main.rs: the control hub between dashboards and agents.
pub mod Access
pub mod FailClosed
pub mod State
pub mod Gates
pub mod Dispatch
pub mod Relay
pub mod Rights
pub mod Authority
pub mod Delivery
pub mod Recording
pub mod Sessions
pub mod Lifetime
pub mod Isolation
pub mod Http
pub mod HttpAuth
pub mod HttpBounds
mod HttpTests
mod Tests

-- ===== src/Trusted.antt =====
-- The trusted channel of a host: shared/src/trusted.rs and agent/src/privileged.
pub mod Wire
pub mod Text
pub mod Policy
pub mod Framing
pub mod Frames
pub mod Approval
pub mod Once
pub mod Consumed
pub mod Transport
pub mod Ordered
pub mod Agreement
mod Tests

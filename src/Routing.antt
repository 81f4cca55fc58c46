-- ===== src/Routing.antt =====
-- server/src/operation_routing.rs: which client owns an interactive operation of an agent, and
-- which operation a message starts, uses, stops or answers.
pub mod Key
pub mod Owners
pub mod Classify
pub mod Ownership
pub mod Streams
mod Tests

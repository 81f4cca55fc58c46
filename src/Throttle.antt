-- ===== src/Throttle.antt =====
-- server/src/throttle.rs: the limits on repeated attempts.
pub mod Lockout
pub mod Attempts
pub mod Guesses
pub mod Bucket
pub mod Rate
mod Tests

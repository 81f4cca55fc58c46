-- ===== src/Internal.antt =====
-- shared/src/internal_auth.rs and server/src/internal_auth.rs: requests between the server and the
-- Enterprise sidecar, signed with keys that both hold, each good once.
pub mod Canonical
pub mod Signed
pub mod Nonces
pub mod Gate
pub mod Replay
pub mod Tampering
mod Tests

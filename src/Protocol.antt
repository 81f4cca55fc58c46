-- ===== src/Protocol.antt =====
-- shared/src/lib.rs: the wire protocol.
pub mod Docker
pub mod Kube
pub mod Host
pub mod Wire
pub mod Security

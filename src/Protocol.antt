-- ===== src/Protocol.antt =====
-- crates/crosspuck-core/src/protocol: what the host and the guest say to each other.
pub mod Status
pub mod Frame
pub mod Codec
pub mod Payload
pub mod Queue

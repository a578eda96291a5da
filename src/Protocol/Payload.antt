-- ===== src/Protocol/Payload.antt =====
-- crates/crosspuck-core/src/protocol/payload.rs: the payloads of the frames. In each child the
-- `decode` of a payload is shown to be the exact inverse of its `encode`.
pub mod Hello
pub mod Attach
pub mod Overrides
pub mod HelloOk
pub mod Command
pub mod Count
pub mod Role
pub mod Identity
pub mod Feature
pub mod Ioctl
pub mod Report
mod Tests

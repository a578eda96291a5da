-- ===== src/Guest/Bridge.antt =====
-- crates/crosspuck-core/src/guest_driver/bridge.rs: the bridge between the hooks of the guest and
-- its two connections: reports that come in, commands that go out.
pub mod Error
pub mod Process
pub mod Inputs
pub mod Commands
pub mod Copies
pub mod Sends
mod Tests

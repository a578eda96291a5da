-- ===== src/Guest.antt =====
-- crates/crosspuck-core/src/guest_driver: the part of the driver that runs in the guest.
pub mod Bridge
pub mod Profile
pub mod Handles
pub mod Routing
pub mod Identity
pub mod Trace
pub mod Config
pub mod Stream
pub mod Session
pub mod Runtime

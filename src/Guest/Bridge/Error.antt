-- ===== src/Guest/Bridge/Error.antt =====
-- crates/crosspuck-core/src/guest_driver/bridge.rs: the errors of the bridge.
use crosspuck.Base.{ℕ, Bool, true, false, String}
use crosspuck.Protocol.Status.{StatusCode}
use crosspuck.Guest.Session.{GuestError}

pub data HostBridgeError : Type 0 where
  guest : GuestError → HostBridgeError
  bad_request : String → HostBridgeError
  command_queue_poisoned command_worker_stopped queue_poisoned : HostBridgeError
  -- operation, status, error of the operating system
  non_ok_status : String → StatusCode → ℕ → HostBridgeError

unfoldable pub should_disconnect_bridge : HostBridgeError → Bool
should_disconnect_bridge (guest e) = true
should_disconnect_bridge command_queue_poisoned = true
should_disconnect_bridge command_worker_stopped = true
should_disconnect_bridge queue_poisoned = true
should_disconnect_bridge (bad_request message) = false
should_disconnect_bridge (non_ok_status operation status os_error) = false

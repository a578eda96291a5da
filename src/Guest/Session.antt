-- ===== src/Guest/Session.antt =====
-- crates/crosspuck-core/src/guest.rs: the session of a guest with its host; and the errors of
-- crates/crosspuck-core/src/transport/mod.rs.
pub mod Exchange
pub mod Answered
pub mod Handshake
pub mod Connect
mod Tests
pub mod Accepted
pub mod Opened
pub mod Delivered
use crosspuck.Base.{ℕ, Bool, true, false, ◌||◌, Bytes, String}
use crosspuck.Protocol.Status.{StatusCode}
use crosspuck.Protocol.Frame.{MessageType}
use crosspuck.Protocol.Frame.Io
use crosspuck.Protocol.Frame.Io.{
  IoError, FrameIoError, unexpected_eof, would_block, timed_out, other,
}
use crosspuck.Protocol.Codec.Error.{ProtocolError}
use crosspuck.Protocol.Payload.Identity.{IdentityPayload}
use crosspuck.Protocol.Payload.Overrides.{GuestRuntimeOverrides}

pub data TransportError : Type 0 where
  io : IoError → TransportError
  frame : FrameIoError → TransportError

pub data GuestError : Type 0 where
  stage : String → GuestError → GuestError
  transport : TransportError → GuestError
  protocol : ProtocolError → GuestError
  -- expected, actual
  unexpected_message : MessageType → MessageType → GuestError
  unexpected_response_id protocol_version_mismatch : ℕ → ℕ → GuestError
  non_ok_status : StatusCode → GuestError
  input_queue_unexpectedly_empty : GuestError

-- `kind() == WouldBlock || kind() == TimedOut`
abbrev pub is_wait : IoError → Bool
is_wait would_block = true
is_wait timed_out = true
is_wait _ = false

abbrev transport_waits : TransportError → Bool
transport_waits (io e) = is_wait e
transport_waits (frame (Io.io e)) = is_wait e
transport_waits (frame _) = false

unfoldable pub is_timeout_or_would_block : GuestError → Bool
is_timeout_or_would_block (stage name source) = is_timeout_or_would_block source
is_timeout_or_would_block (transport e) = transport_waits e
is_timeout_or_would_block _ = false

pub record GuestSessionInfo : Type 0 where
  pub identity : IdentityPayload
  pub session_id : ℕ
  pub session_trace_id : ℕ
  pub guest_runtime_overrides : GuestRuntimeOverrides
  pub guest_label : Bytes

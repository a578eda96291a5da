-- ===== src/Protocol/Frame.antt =====
-- crates/crosspuck-core/src/protocol/frame.rs: message types, frame headers, and frames on a stream.
-- A reader is the list of what will arrive, bytes and failures in their order, then the end of the
-- stream; a writer is the bytes that the sink has taken, how many more it will take, and the error
-- that follows.
mod Message
pub use Message.{Channel, control, input, control_payload_limit, input_payload_limit}
pub use Message.{FrameError, bad_magic, unsupported_version, unknown_message_type}
unfoldable pub use Message.{payload_limit, to_u8, message_type_of_u8}
pub use Message.{
  MessageType, hello, hello_ok, identity, input_attach, input_attach_ok, status, ping, pong,
  get_feature, feature_result, set_feature, set_feature_result, set_output, set_output_result,
  write, write_result, ioctl, ioctl_result, input_report,
}
pub use Message.{to_u8-IsU8, message_type_of_u8-to_u8, to_u8-message_type_of_u8}
pub mod Header
pub mod Io
mod Tests

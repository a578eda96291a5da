-- ===== src/Protocol/Codec/Error.antt =====
-- crates/crosspuck-core/src/protocol/codec.rs: `ProtocolError`.
use crosspuck.Base.{ℕ, String}
use crosspuck.Base.Result.{Result, map_err}
use crosspuck.Protocol.Status.{StatusCode, InvalidStatusCode, invalid_status_code, status_of_u16}
use crosspuck.Protocol.Frame.{MessageType}

pub data ProtocolError : Type 0 where
  invalid_utf8 : ProtocolError
  invalid_length : String → ProtocolError
  invalid_reserved : String → ProtocolError
  invalid_status : ℕ → ProtocolError
  invalid_collection_role : ℕ → ProtocolError
  invalid_log_severity : ℕ → ProtocolError
  trailing_bytes : ℕ → ProtocolError
  wrong_message_type : MessageType → MessageType → ProtocolError
  string_too_long : ℕ → ProtocolError

-- `From<InvalidStatusCode> for ProtocolError`
abbrev pub of_invalid_status : InvalidStatusCode → ProtocolError
of_invalid_status (invalid_status_code code) = invalid_status code

-- `StatusCode::try_from(code)?` in a decoder.
unfoldable pub decode_status : ℕ → Result ProtocolError StatusCode
decode_status code = map_err of_invalid_status (status_of_u16 code)

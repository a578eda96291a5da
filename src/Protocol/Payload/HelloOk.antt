-- ===== src/Protocol/Payload/HelloOk.antt =====
-- crates/crosspuck-core/src/protocol/payload.rs: `HelloOk`, the answer to a guest. It has grown: the
-- trace id, the log level and the block of overrides may each be missing at the end.
pub mod RoundTrip
use crosspuck.Base.{
  Option, none, some, ◌≡◌, refl, ℕ, ◌+◌, ◌<◌, ◌≤◌, ◌↔◌, List, [], ◌∷◌, ◌++◌, append_assoc,
  append-nil, arith, length, Bool, true, false, not, ◌||◌, ltb, ◌==◌, lt→ltb, if◌then◌else◌, Bytes,
  AreBytes, IsU8, IsU16, IsU32, IsU64, IsUsize, to_le_bytes, String, sym, subst,
}
use crosspuck.Base.Result.{Result, ok, err}
use crosspuck.Base.Action.{pure, raise, lift, ◌>>=◌, ◌>>◌}
use crosspuck.Protocol.Frame
use crosspuck.Protocol.Status.{
  StatusCode, to_u16, to_u16-IsU16, status_of_u16-to_u16, to_u16-status_of_u16,
}
use crosspuck.Protocol.Codec.Error.{ProtocolError, invalid_length, decode_status}
use crosspuck.Protocol.Codec.Encoder
use crosspuck.Protocol.Codec.Encoder.{Encoding}
use crosspuck.Protocol.Codec.Decoder
use crosspuck.Protocol.Codec.Decoder.{Decoding}
use crosspuck.Protocol.Codec.Reads.{
  Reads, Ends, Reads-bind, Reads-last, Reads-pure, Reads-lift, Ends-bind, Ends-last, Ends-finish,
  Reads-u8, Reads-u16, Reads-u32, Reads-u64, Reads-bytes, Reads-string, Reads-reserved_u8,
  Reads-reserved_u16, Reads-status,
}
use crosspuck.Protocol.Codec.Parses.{
  Parses, Parses-bind, Parses-pure, Parses-lift, Parses-if, Parses-raise, Parses-u8, Parses-u16,
  Parses-u32, Parses-u64, Parses-bytes, Parses-string, IsText, Parses-reserved_u8,
  Parses-reserved_u16, Parses-status,
}
use crosspuck.Protocol.Codec.Whole.{All-bind, All-finish, ParsesAll}
use crosspuck.Protocol.Codec.Wire.{WirePayload, to_bytes, exact}
use Prim.Native.Nat.{bit_and}
use crosspuck.Protocol.Frame.Header.{protocol_version}
use crosspuck.Protocol.Status.{success}
use crosspuck.Protocol.Payload.Overrides.{
  LogSeverity, severity_id, severity_of_u8, GuestRuntimeOverrides, no_overrides, is_empty,
  encode_extended_block, decode_extended_block,
}

pub record HelloOk : Type 0 where
  pub status : StatusCode
  pub protocol_version : ℕ
  pub session_id : ℕ
  pub session_trace_id : ℕ
  pub guest_runtime_overrides : GuestRuntimeOverrides
  pub control_payload_limit : ℕ
  pub input_payload_limit : ℕ
  pub default_input_report_len : ℕ

abbrev pub session_trace_id_mask : ℕ
session_trace_id_mask = 0x000f_ffff

abbrev pub log_severity_no_override : ℕ
log_severity_no_override = 0xff

-- `HelloOk::success_with_trace_and_overrides`
unfoldable pub success_with_trace_and_overrides : ℕ → ℕ → ℕ → GuestRuntimeOverrides → HelloOk
success_with_trace_and_overrides session_id session_trace_id default_input_report_len overrides =
    record {
      status = success;
      protocol_version = protocol_version;
      session_id = session_id;
      session_trace_id = bit_and session_trace_id session_trace_id_mask;
      guest_runtime_overrides = overrides;
      control_payload_limit = Frame.control_payload_limit;
      input_payload_limit = Frame.input_payload_limit;
      default_input_report_len = default_input_report_len;
    }

-- The byte of the log level: its id, or the mark of no override.
abbrev pub level_byte : Option LogSeverity → ℕ
level_byte none = log_severity_no_override
level_byte (some level) = severity_id level

unfoldable pub encode_hello_ok : HelloOk → Encoding
encode_hello_ok h = do
  Encoder.u16 (to_u16 h.status)
  Encoder.u16 h.protocol_version
  Encoder.u32 h.session_id
  Encoder.u16 h.control_payload_limit
  Encoder.u16 h.input_payload_limit
  Encoder.u16 h.default_input_report_len
  Encoder.u16 0
  Encoder.u32 (bit_and h.session_trace_id session_trace_id_mask)
  if is_empty h.guest_runtime_overrides then pure tt else do
    Encoder.u8 (level_byte h.guest_runtime_overrides.log_level)
    Encoder.u8 0
    Encoder.u16 0
    encode_extended_block h.guest_runtime_overrides

-- `if decoder.remaining() > 0 { value = m } `, where `value` was `a`.
unfoldable pub if_remaining : {A : Type 0} → A → Decoding A → Decoding A
if_remaining a m d = if ltb 0 (Decoder.remaining d) then m d else (ok a, d)

unfoldable pub decode_trace_id : Decoding ℕ
decode_trace_id = do id ← Decoder.u32 "session_trace_id"; pure (bit_and id session_trace_id_mask)

unfoldable pub decode_level_byte : ℕ → Decoding (Option LogSeverity)
decode_level_byte raw =
    if raw == log_severity_no_override
    then pure none
    else do level ← lift (severity_of_u8 raw); pure (some level)

unfoldable pub decode_level : Decoding (Option LogSeverity)
decode_level = do
  raw ← Decoder.u8 "guest_log_level_override"
  level ← decode_level_byte raw
  Decoder.reserved_u8 "hello_ok.guest_log_level_reserved_zero"
  Decoder.reserved_u16 "hello_ok.guest_log_level_reserved_zero"
  pure level

-- Four bytes are the diagnostic hooks of older hosts, and are not looked at.
unfoldable pub decode_block : Decoding GuestRuntimeOverrides
decode_block d =
    if Decoder.remaining d == 4
    then (do Decoder.u32 "legacy_guest_diagnostic_hooks"; pure no_overrides) d
    else decode_extended_block d

unfoldable pub decode_hello_ok : Bytes → Result ProtocolError HelloOk
decode_hello_ok = Decoder.run (do
  code ← Decoder.u16 "status"
  status ← lift (decode_status code)
  protocol_version ← Decoder.u16 "protocol_version"
  session_id ← Decoder.u32 "session_id"
  control_payload_limit ← Decoder.u16 "control_payload_limit"
  input_payload_limit ← Decoder.u16 "input_payload_limit"
  default_input_report_len ← Decoder.u16 "default_input_report_len"
  Decoder.reserved_u16 "hello_ok.reserved_zero"
  session_trace_id ← if_remaining 0 decode_trace_id
  log_level ← if_remaining none decode_level
  extended ← if_remaining no_overrides decode_block
  Decoder.finish
  pure (record {
    status = status;
    protocol_version = protocol_version;
    session_id = session_id;
    session_trace_id = session_trace_id;
    guest_runtime_overrides = record extended { log_level = log_level };
    control_payload_limit = control_payload_limit;
    input_payload_limit = input_payload_limit;
    default_input_report_len = default_input_report_len;
  }))

abbrev pub hello_ok_wire : WirePayload HelloOk
hello_ok_wire = record {
  message_type = Frame.hello_ok;
  encode = encode_hello_ok;
  decode = decode_hello_ok;
}

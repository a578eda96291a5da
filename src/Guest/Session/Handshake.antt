-- ===== src/Guest/Session/Handshake.antt =====
-- crates/crosspuck-core/src/guest.rs: `GuestTransportClient::connect`. What the system answers to
-- the two calls that connect a stream is a parameter, since the addresses and the timeout of these
-- calls go nowhere else.
use crosspuck.Base.{ℕ, not, none, some, ◌==◌, max, if◌then◌else◌, Bytes, String}
use crosspuck.Base.Result.{Result, ok, err}
use crosspuck.Base.Action.{Action, pure, lift, ◌>>=◌, ◌>>◌, convert}
use crosspuck.Protocol.Frame.Header.{Frame, protocol_version}
use crosspuck.Protocol.Codec.Wire.{WirePayload}
use crosspuck.Protocol.Status.{is_ok}
use crosspuck.Protocol.Payload.Hello
use crosspuck.Protocol.Payload.Hello.{new_hello}
use crosspuck.Protocol.Payload.HelloOk.{HelloOk, hello_ok_wire}
use crosspuck.Protocol.Payload.Identity.{IdentityPayload, identity_wire}
use crosspuck.Protocol.Payload.Attach.{InputAttachOk, attach_wire, attach_ok_wire}
use crosspuck.Protocol.Payload.Overrides.{GuestRuntimeOverrides}
use crosspuck.Guest.Config.{from_millis}
use crosspuck.Guest.Stream.{ChannelStream, set_read_timeout, set_write_timeout, read_stream}
use crosspuck.Guest.Session.{
  GuestError, stage, transport, protocol_version_mismatch, unexpected_response_id, non_ok_status,
  GuestSessionInfo,
}
use crosspuck.Guest.Session.Exchange.{GuestControl, GuestInput, write_payload, decode_expected}

pub record GuestTransportConfig : Type 0 where
  pub handshake_timeout : ℕ
  pub io_timeout : ℕ
  pub guest_pid : ℕ
  pub guest_label : Bytes

pub record GuestSession : Type 0 where
  pub info : GuestSessionInfo
  pub control : GuestControl
  pub input : GuestInput

module _ {A : Type 0} where
  unfoldable pub at_stage :
      String → Action GuestError ChannelStream A → Action GuestError ChannelStream A
  at_stage name m = convert (stage name) m

module _ {A : Type 0} where
  -- A frame that is read and decoded, each in its stage.
  unfoldable pub expect :
      WirePayload A → String → String → Action GuestError ChannelStream (Frame × A)
  expect wire read_stage decode_stage = do
    frame ← at_stage read_stage (convert transport read_stream)
    value ← at_stage decode_stage (lift (decode_expected wire frame))
    pure (frame, value)

-- Both timeouts, each in its stage.
unfoldable pub set_timeouts : String → String → ℕ → Action GuestError ChannelStream Unit
set_timeouts read_stage write_stage timeout = do
  at_stage read_stage (convert transport (set_read_timeout (some timeout)))
  at_stage write_stage (convert transport (set_write_timeout (some timeout)))

-- The answer to a hello is checked in this order.
unfoldable pub check_hello_ok : ℕ → Frame → HelloOk → Result GuestError Unit
check_hello_ok hello_id frame hello_ok =
    if not (hello_ok.protocol_version == protocol_version)
    then err (protocol_version_mismatch protocol_version hello_ok.protocol_version)
    else if not (frame.header.id == hello_id)
    then err (unexpected_response_id hello_id frame.header.id)
    else if not (is_ok hello_ok.status)
    then err (non_ok_status hello_ok.status)
    else ok tt

unfoldable pub check_attach_ok : ℕ → Frame → InputAttachOk → Result GuestError Unit
check_attach_ok attach_id frame attach_ok =
    if not (frame.header.id == attach_id)
    then err (unexpected_response_id attach_id frame.header.id)
    else if not (is_ok attach_ok.status)
    then err (non_ok_status attach_ok.status)
    else ok tt

-- The part of `connect` on the control stream.
unfoldable pub greet :
    GuestTransportConfig → Action GuestError ChannelStream (HelloOk × IdentityPayload)
greet config = do
  set_timeouts "control set read timeout" "control set write timeout" config.handshake_timeout
  at_stage "hello write" (write_payload Hello.wire 1 (new_hello config.guest_pid))
  answer ← expect hello_ok_wire "hello ok read" "hello ok decode"
  lift (check_hello_ok 1 answer.0 answer.1)
  sent ← expect identity_wire "identity read" "identity decode"
  pure (answer.1, sent.1)

-- The part of `connect` on the input stream.
unfoldable pub attach : GuestTransportConfig → ℕ → Action GuestError ChannelStream Unit
attach config session_id = do
  set_timeouts "input set read timeout" "input set write timeout" config.handshake_timeout
  at_stage "input attach write"
      (write_payload attach_wire 2 (record { session_id = session_id; last_seen_input_seq = 0 }))
  answer ← expect attach_ok_wire "input attach ok read" "input attach ok decode"
  lift (check_attach_ok 2 answer.0 answer.1)

unfoldable pub steady_io_timeout : GuestTransportConfig → GuestRuntimeOverrides → ℕ
steady_io_timeout config o = elim o.io_timeout_ms [
  | none ↦ config.io_timeout
  | some millis ↦ from_millis millis
]

abbrev pub default_input_queue_capacity : ℕ
default_input_queue_capacity = 64

unfoldable pub session_queue_capacity : GuestRuntimeOverrides → ℕ
session_queue_capacity o =
    max (elim o.input_queue_capacity [ none ↦ default_input_queue_capacity | some n ↦ n ]) 1

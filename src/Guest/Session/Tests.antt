-- ===== src/Guest/Session/Tests.antt =====
-- crates/crosspuck-core/src/guest.rs: a session that is opened, a request and an input report.
use crosspuck.Base.{
  ◌-◌, length, ◌<◌, ◌≡◌, ◌≢◌, ◌⊎◌, refl, true, none, some, [], ◌∷◌, arith, Bytes, AreBytes,
  are_bytes-AreBytes, IsU32, to_le_bytes, from_le_bytes,
}
use crosspuck.Base.Result.{Result, ok}
use crosspuck.Base.Utf8.{is_utf8}
use crosspuck.Protocol.Status
use crosspuck.Protocol.Status.{status_of_u16, is_ok, to_u16}
use crosspuck.Protocol.Frame.{Channel, control, input, payload_limit, to_u8, message_type_of_u8}
use crosspuck.Protocol.Frame.Header
use crosspuck.Protocol.Frame.Header.{Frame, new, byte_at}
use crosspuck.Protocol.Frame.Io.{
  other, read_exact, payload_usize, read_frame, write_all, flush, write_frame,
}
use crosspuck.Protocol.Frame.Io.Reading.{Arrived, arriving}
use crosspuck.Protocol.Payload.Role.{puck_main, role_of_u8}
use crosspuck.Protocol.Payload.Report.{decode_input_report}
use crosspuck.Protocol.Payload.Feature.{
  GetFeature, FeatureResult, get_feature_wire, feature_result_wire, encode_get_feature,
  decode_feature_result,
}
use crosspuck.Protocol.Codec.Encoder
use crosspuck.Protocol.Codec.Decoder
use crosspuck.Protocol.Codec.Error.{decode_status}
use crosspuck.Protocol.Queue.{
  QueuedInputReport, zero_stats, with_capacity, from_wire, push, pop, make_room,
}
use crosspuck.Guest.Stream.{
  ChannelStream, set_read_timeout, set_write_timeout, read_stream, write_stream,
}
use crosspuck.Guest.Session.Exchange.{
  GuestControl, GuestInput, write_payload, decode_expected, check_response, set_both_timeouts,
  exchange, control_request, queue_report, read_input_report,
}
use crosspuck.Guest.Session.Answered.{Answered, control_request-Answered}
use crosspuck.Guest.Session.Delivered.{FromStream, read_input_report-delivered}
use crosspuck.Protocol.Payload.Hello
use crosspuck.Protocol.Payload.Hello.{new_hello}
use crosspuck.Protocol.Payload.HelloOk.{
  decode_hello_ok, if_remaining, decode_trace_id, decode_level, decode_level_byte, decode_block,
}
use crosspuck.Protocol.Payload.Identity.{
  IdentityPayload, decode_identity, decode_collections, decode_collection,
}
use crosspuck.Protocol.Payload.Attach.{encode_attach, decode_attach_ok}
use crosspuck.Protocol.Payload.Overrides.{no_overrides, decode_extended_block, decode_bool}
use crosspuck.Guest.Config.{from_millis}
use crosspuck.Guest.Session.{GuestError, GuestSessionInfo}
use crosspuck.Guest.Session.Handshake.{
  GuestTransportConfig, GuestSession, greet, attach, expect, set_timeouts, at_stage, check_hello_ok,
  check_attach_ok, steady_io_timeout, session_queue_capacity,
}
use crosspuck.Guest.Session.Connect.{open_streams, connect}
use crosspuck.Guest.Session.Opened.{StreamsOpened, connect-opened}

AreBytes-Arrived : (bytes : Bytes) → AreBytes bytes → Arrived (arriving bytes)
AreBytes-Arrived [] h = tt
AreBytes-Arrived (b ∷ bytes) h = (h.0, AreBytes-Arrived bytes h.1)

abbrev stream_of : Channel → Bytes → ChannelStream
stream_of channel bytes = record {
  channel = channel;
  reader = arriving bytes;
  writer = record { written = []; room = 1000; write_failure = other; flush_failure = none };
  refuses = λ timeout. none;
  read_timeout = none;
  write_timeout = none;
}

-- The frame of a feature result with the id 5, and a byte after it.
abbrev feature_stream : Bytes
feature_stream =
    0x43 ∷ 0x50 ∷ 1 ∷ 0x11 ∷ 5 ∷ 0 ∷ 0 ∷ 0 ∷ 10 ∷ 0 ∷ 0 ∷ 0 ∷ 0 ∷ 0 ∷ 2 ∷ 0 ∷ 0 ∷ 0 ∷ 0 ∷ 0 ∷ 0xae
    ∷ 0x01 ∷ 0x43 ∷ []

abbrev some_control : GuestControl
some_control = record { control = stream_of control feature_stream; next_request_id = 5 }

abbrev some_request : GetFeature
some_request = record { interface_number = 2; report_id = 1; requested_len = 64; timeout_ms = 50 }

abbrev some_reply : FeatureResult
some_reply = record { status = Status.success; os_error = 0; payload = 0xae ∷ 0x01 ∷ [] }

abbrev after_request : GuestControl
after_request =
    (control_request get_feature_wire feature_result_wire some_request 50 some_control).1

control_request-Answered_example :
    Answered get_feature_wire feature_result_wire 5 some_request some_reply some_control.control
      after_request.control
    × IsU32 after_request.next_request_id
    × (0 < after_request.next_request_id)
    × (after_request.next_request_id ≢ 5)
unfolding control_request exchange check_response set_both_timeouts set_read_timeout
    set_write_timeout write_payload encode_get_feature Encoder.u8 Encoder.u16 write_stream
    write_frame decode_feature_result decode_status status_of_u16 new to_le_bytes payload_limit
    write_all Header.encode flush from_le_bytes decode_expected read_stream byte_at Header.decode
    payload_usize read_exact read_frame message_type_of_u8 to_u8 Decoder.run Decoder.u8 Decoder.u16
    Decoder.u32 Decoder.take Decoder.bytes Decoder.finish
control_request-Answered_example =
    control_request-Answered get_feature_wire feature_result_wire 50 some_request some_reply
      some_control after_request (omega arith)
      (AreBytes-Arrived feature_stream (are_bytes-AreBytes feature_stream refl)) refl

-- The frame of a report with the id 9.
abbrev report_stream : Bytes
report_stream =
    0x43 ∷ 0x50 ∷ 1 ∷ 0x30 ∷ 9 ∷ 0 ∷ 0 ∷ 0 ∷ 14 ∷ 0 ∷ 0 ∷ 0 ∷ 2 ∷ 1 ∷ 2 ∷ 0 ∷ 10 ∷ 0 ∷ 0 ∷ 0 ∷ 0 ∷ 0
    ∷ 0 ∷ 0 ∷ 0x79 ∷ 0x02 ∷ []

abbrev some_input : GuestInput
some_input = record {
  stream = stream_of input report_stream;
  input_queue = record { capacity = 64; reports = []; stats = zero_stats };
}

abbrev arrived_report : QueuedInputReport
arrived_report = record {
  sequence = 9;
  interface_number = 2;
  role = puck_main;
  host_monotonic_us = 10;
  payload = 0x79 ∷ 0x02 ∷ [];
}

abbrev after_report : GuestInput
after_report = (read_input_report some_input).1

read_input_report-delivered_example :
    ((some_input.input_queue.reports ≡ arrived_report ∷ after_report.input_queue.reports)
      × (after_report.stream ≡ some_input.stream))
    ⊎ ((some_input.input_queue.reports ≡ []) × FromStream arrived_report some_input after_report)
unfolding read_input_report queue_report pop push make_room from_wire decode_input_report role_of_u8
    Decoder.u64 new to_le_bytes payload_limit write_all Header.encode flush from_le_bytes
    decode_expected read_stream byte_at Header.decode payload_usize read_exact read_frame
    message_type_of_u8 to_u8 Decoder.run Decoder.u8 Decoder.u16 Decoder.u32 Decoder.take
    Decoder.bytes Decoder.finish
read_input_report-delivered_example =
    read_input_report-delivered some_input after_report arrived_report (omega arith)
      (AreBytes-Arrived report_stream (are_bytes-AreBytes report_stream refl)) refl

-- The answer to the hello, and the identity.
abbrev greeting_stream : Bytes
greeting_stream =
    67 ∷ 80 ∷ 1 ∷ 2 ∷ 1 ∷ 0 ∷ 0 ∷ 0 ∷ 37 ∷ 0 ∷ 0 ∷ 0 ∷ 0 ∷ 0 ∷ 1 ∷ 0 ∷ 254 ∷ 202 ∷ 0 ∷ 0 ∷ 0 ∷ 16
    ∷ 0 ∷ 1 ∷ 54 ∷ 0 ∷ 0 ∷ 0 ∷ 222 ∷ 188 ∷ 10 ∷ 0 ∷ 255 ∷ 0 ∷ 0 ∷ 0 ∷ 67 ∷ 80 ∷ 71 ∷ 49 ∷ 72 ∷ 0 ∷ 0
    ∷ 0 ∷ 250 ∷ 0 ∷ 0 ∷ 0 ∷ 1 ∷ 67 ∷ 80 ∷ 1 ∷ 3 ∷ 2 ∷ 0 ∷ 0 ∷ 0 ∷ 27 ∷ 0 ∷ 0 ∷ 0 ∷ 222 ∷ 40 ∷ 4 ∷ 19
    ∷ 2 ∷ 0 ∷ 1 ∷ 0 ∷ 86 ∷ 1 ∷ 0 ∷ 80 ∷ 0 ∷ 0 ∷ 1 ∷ 1 ∷ 2 ∷ 0 ∷ 255 ∷ 1 ∷ 0 ∷ 54 ∷ 0 ∷ 64 ∷ 0 ∷ 64
    ∷ 0 ∷ []

abbrev attached_stream : Bytes
attached_stream =
    67 ∷ 80 ∷ 1 ∷ 5 ∷ 2 ∷ 0 ∷ 0 ∷ 0 ∷ 8 ∷ 0 ∷ 0 ∷ 0 ∷ 0 ∷ 0 ∷ 54 ∷ 0 ∷ 1 ∷ 0 ∷ 0 ∷ 0 ∷ []

abbrev some_config : GuestTransportConfig
some_config = record {
  handshake_timeout = from_millis 2_000;
  io_timeout = from_millis 1_000;
  guest_pid = 4242;
  guest_label = [];
}

abbrev control_stream : ChannelStream
control_stream = stream_of control greeting_stream

abbrev input_stream : ChannelStream
input_stream = stream_of input attached_stream

abbrev opened_streams : Result GuestError (GuestSessionInfo × ChannelStream × ChannelStream)
opened_streams = open_streams some_config (ok control_stream) (ok input_stream)

-- What is left of both streams once the session is open.
abbrev drained : Channel → Bytes → ChannelStream
drained channel sent = record (stream_of channel []) {
  writer = record {
    written = sent;
    room = 1000 - length sent;
    write_failure = other;
    flush_failure = none;
  };
  read_timeout = some (from_millis 250);
  write_timeout = some (from_millis 250);
}

abbrev some_identity : IdentityPayload
some_identity = record {
  vendor_id = 0x28de;
  product_id = 0x1304;
  version_number = 2;
  manufacturer = b'V' ∷ [];
  product = b'P' ∷ [];
  serial = [];
  collections =
      record {
        role = puck_main;
        interface_number = 2;
        usage_page = 0xff00;
        usage = 1;
        input_report_len = 54;
        output_report_len = 64;
        feature_report_len = 64;
      }
      ∷ [];
}

abbrev some_session : GuestSession
some_session = record {
  info = record {
    identity = some_identity;
    session_id = 0xcafe;
    session_trace_id = 0xabcde;
    guest_runtime_overrides = record no_overrides {
      io_timeout_ms = some 250;
      replay_enabled = some true;
    };
    guest_label = [];
  };
  control = record {
    control = drained control (
        67 ∷ 80 ∷ 1 ∷ 1 ∷ 1 ∷ 0 ∷ 0 ∷ 0 ∷ 12 ∷ 0 ∷ 0 ∷ 0 ∷ 146 ∷ 16 ∷ 0 ∷ 0 ∷ 1 ∷ 0 ∷ 0 ∷ 0 ∷ 0 ∷ 0
        ∷ 0 ∷ 0 ∷ []);
    next_request_id = 3;
  };
  input = record {
    stream =
        drained input (
          67 ∷ 80 ∷ 1 ∷ 4 ∷ 2 ∷ 0 ∷ 0 ∷ 0 ∷ 8 ∷ 0 ∷ 0 ∷ 0 ∷ 254 ∷ 202 ∷ 0 ∷ 0 ∷ 0 ∷ 0 ∷ 0 ∷ 0 ∷ []);
    input_queue = record { capacity = 64; reports = []; stats = zero_stats };
  };
}

connected : connect some_config (ok control_stream) (ok input_stream) ≡ some (ok some_session)
unfolding connect open_streams greet attach expect set_timeouts at_stage write_payload write_stream
    write_frame check_hello_ok check_attach_ok is_ok steady_io_timeout session_queue_capacity
    with_capacity set_read_timeout set_write_timeout new_hello Hello.encode encode_attach
    decode_attach_ok decode_hello_ok decode_identity Encoder.u8 Encoder.u16 Encoder.u32
    decode_status status_of_u16 role_of_u8 new to_le_bytes payload_limit write_all Header.encode
    flush from_le_bytes decode_expected read_stream byte_at Header.decode payload_usize read_exact
    read_frame message_type_of_u8 to_u8 Decoder.run Decoder.u8 Decoder.u16 Decoder.u32 Decoder.take
    Decoder.bytes Decoder.finish Decoder.reserved_u16 if_remaining Decoder.remaining decode_trace_id
    decode_level decode_level_byte Decoder.reserved_u8 decode_block decode_extended_block
    decode_bool Decoder.string is_utf8 decode_collections decode_collection
connected = refl

connect-opened_example :
    StreamsOpened some_config control_stream input_stream some_session.info
      some_session.control.control some_session.input.stream
    × (some_session.control.next_request_id ≡ 3)
    × (some_session.input.input_queue.reports ≡ [])
    × (0 < some_session.input.input_queue.capacity)
connect-opened_example =
    connect-opened some_config control_stream input_stream some_session
      (AreBytes-Arrived greeting_stream (are_bytes-AreBytes greeting_stream refl))
      (AreBytes-Arrived attached_stream (are_bytes-AreBytes attached_stream refl)) connected

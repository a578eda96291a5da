-- ===== src/Guest/Session/Exchange.antt =====
-- crates/crosspuck-core/src/guest.rs: requests with their answers on the control channel, and input
-- reports.
use crosspuck.Base.{
  ℕ, ◌+◌, ◌%◌, ◌^◌, Bool, not, Option, none, some, ◌==◌, ltb, max, if◌then◌else◌, Bytes,
}
use crosspuck.Base.Result.{Result, ok, err, map_err}
use crosspuck.Base.Action.{Action, pure, lift, ◌>>=◌, ◌>>◌, convert}
use crosspuck.Protocol.Frame
use crosspuck.Protocol.Frame.{MessageType, to_u8}
use crosspuck.Protocol.Frame.Header.{Frame, new}
use crosspuck.Protocol.Codec.Wire.{WirePayload, to_bytes}
use crosspuck.Protocol.Payload.Feature.{FeatureResult, get_feature_wire, feature_result_wire}
use crosspuck.Protocol.Payload.Command.{set_feature_wire, set_output_wire, write_wire}
use crosspuck.Protocol.Payload.Count.{
  SetFeatureResult, SetOutputResult, WriteResult, set_feature_result_wire, set_output_result_wire,
  write_result_wire,
}
use crosspuck.Protocol.Payload.Report.{input_report_wire}
use crosspuck.Protocol.Queue.{QueuedInputReport, InputReportQueue, from_wire, push, pop}
use crosspuck.Guest.Config.{from_millis}
use crosspuck.Guest.Stream.{
  ChannelStream, set_read_timeout, set_write_timeout, read_stream, write_stream,
}
use crosspuck.Guest.Session.{
  TransportError, GuestError, transport, protocol, unexpected_message, unexpected_response_id,
  input_queue_unexpectedly_empty,
}

-- The derived equality; the numbers of message types are all different.
abbrev pub same_message : MessageType → MessageType → Bool
same_message a b = to_u8 a == to_u8 b

module _ {T : Type 0} where
  unfoldable pub write_payload : WirePayload T → ℕ → T → Action GuestError ChannelStream Unit
  write_payload wire id payload = do
    bytes ← lift (map_err protocol (to_bytes (wire.encode payload)))
    convert transport (write_stream (new wire.message_type id bytes))

  unfoldable pub decode_expected : WirePayload T → Frame → Result GuestError T
  decode_expected wire frame =
      if not (same_message frame.header.message_type wire.message_type)
      then err (unexpected_message wire.message_type frame.header.message_type)
      else map_err protocol (wire.decode frame.payload)

  unfoldable pub check_response : WirePayload T → ℕ → Frame → Result GuestError T
  unfolding decode_expected
  check_response wire request_id response =
      if not (response.header.id == request_id)
      then err (unexpected_response_id request_id response.header.id)
      else decode_expected wire response

pub record GuestControl : Type 0 where
  pub control : ChannelStream
  pub next_request_id : ℕ

-- `wrapping_add(1).max(1)` of a `u32`
abbrev pub id_after : ℕ → ℕ
id_after n = max ((n + 1) % 2 ^ 32) 1

unfoldable pub set_both_timeouts : ℕ → Action GuestError ChannelStream Unit
set_both_timeouts millis =
    if ltb 0 millis
    then (do
      convert transport (set_read_timeout (some (from_millis millis)))
      convert transport (set_write_timeout (some (from_millis millis))))
    else pure tt

module _ {T R : Type 0} where
  -- What `control_request` does with the stream.
  unfoldable pub exchange :
      WirePayload T → WirePayload R → ℕ → ℕ → T → Action GuestError ChannelStream R
  exchange wire reply_wire request_id transport_timeout_ms request = do
    set_both_timeouts transport_timeout_ms
    write_payload wire request_id request
    response ← convert transport read_stream
    lift (check_response reply_wire request_id response)

  unfoldable pub control_request :
      WirePayload T → WirePayload R → T → ℕ → Action GuestError GuestControl R
  control_request wire reply_wire request transport_timeout_ms c =
      let (result, control) =
        exchange wire reply_wire c.next_request_id transport_timeout_ms request c.control in
      (result, record { control = control; next_request_id = id_after c.next_request_id })

unfoldable pub get_feature_with_transport_timeout :
    ℕ → ℕ → ℕ → ℕ → ℕ → Action GuestError GuestControl FeatureResult
get_feature_with_transport_timeout interface_number report_id requested_len timeout_ms
      transport_timeout_ms =
    control_request get_feature_wire feature_result_wire
      (record {
        interface_number = interface_number;
        report_id = report_id;
        requested_len = requested_len;
        timeout_ms = timeout_ms;
      })
      transport_timeout_ms

unfoldable pub set_feature_with_transport_timeout :
    ℕ → ℕ → Bytes → ℕ → Action GuestError GuestControl SetFeatureResult
set_feature_with_transport_timeout interface_number timeout_ms payload transport_timeout_ms =
    control_request set_feature_wire set_feature_result_wire
      (record { interface_number = interface_number; timeout_ms = timeout_ms; payload = payload })
      transport_timeout_ms

unfoldable pub set_output_with_transport_timeout :
    ℕ → ℕ → Bytes → ℕ → Action GuestError GuestControl SetOutputResult
set_output_with_transport_timeout interface_number timeout_ms payload transport_timeout_ms =
    control_request set_output_wire set_output_result_wire
      (record { interface_number = interface_number; timeout_ms = timeout_ms; payload = payload })
      transport_timeout_ms

unfoldable pub write_report_with_transport_timeout :
    ℕ → ℕ → Bytes → ℕ → Action GuestError GuestControl WriteResult
write_report_with_transport_timeout interface_number timeout_ms payload transport_timeout_ms =
    control_request write_wire write_result_wire
      (record { interface_number = interface_number; timeout_ms = timeout_ms; payload = payload })
      transport_timeout_ms

pub record GuestInput : Type 0 where
  pub stream : ChannelStream
  pub input_queue : InputReportQueue

-- What `read_input_report` does with a frame.
unfoldable pub queue_report : Frame → Action GuestError InputReportQueue QueuedInputReport
queue_report frame queue =
    if same_message frame.header.message_type Frame.input_report
    then elim (map_err protocol (input_report_wire.decode frame.payload)) [
      | ok report ↦
          let (popped, queue') = pop (push (from_wire frame.header.id report) queue) in
          (elim popped [ some r ↦ ok r | none ↦ err input_queue_unexpectedly_empty ], queue')
      | err e ↦ (err e, queue)
    ]
    else (err (unexpected_message Frame.input_report frame.header.message_type), queue)

-- What `read_input_report` does with what it reads.
abbrev pub after_read :
    GuestInput
    → Result TransportError Frame × ChannelStream
    → Result GuestError QueuedInputReport × GuestInput
after_read g (ok frame, stream) =
    let (result, queue) = queue_report frame g.input_queue in
    (result, record { stream = stream; input_queue = queue })
after_read g (err e, stream) = (err (transport e), record g { stream = stream })

-- It reads only when it finds no report in the queue.
abbrev pub after_pop :
    GuestInput
    → Option QueuedInputReport × InputReportQueue
    → Result GuestError QueuedInputReport × GuestInput
after_pop g (some report, queue) = (ok report, record g { input_queue = queue })
after_pop g (none, queue) = after_read (record g { input_queue = queue }) (read_stream g.stream)

unfoldable pub read_input_report : Action GuestError GuestInput QueuedInputReport
read_input_report g = after_pop g (pop g.input_queue)

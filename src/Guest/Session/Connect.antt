-- ===== src/Guest/Session/Connect.antt =====
-- crates/crosspuck-core/src/guest.rs: `GuestTransportClient::connect`, from its parts.
use crosspuck.Base.{Option, none, some}
use crosspuck.Base.Result.{Result, ok, err, map_err, ◌>>=◌}
use crosspuck.Protocol.Queue.{InputReportQueue, with_capacity}
use crosspuck.Guest.Stream.{ChannelStream}
use crosspuck.Guest.Session.{TransportError, GuestError, stage, transport, GuestSessionInfo}
use crosspuck.Guest.Session.Handshake.{
  GuestTransportConfig, GuestSession, greet, attach, set_timeouts, steady_io_timeout,
  session_queue_capacity,
}

-- On an error both streams are closed.
abbrev pub with_state {ℓ} : {E A S : Type ℓ} → Result E A × S → Result E (A × S)
with_state (ok a, s) = ok (a, s)
with_state (err e, s) = err e

-- The streams and the info of a session.
unfoldable pub open_streams :
    GuestTransportConfig
    → Result TransportError ChannelStream
    → Result TransportError ChannelStream
    → Result GuestError (GuestSessionInfo × ChannelStream × ChannelStream)
open_streams config control_dial input_dial = do
  control ← map_err (λ e. stage "control connect" (transport e)) control_dial
  greeted ← with_state (greet config control)
  let hello_ok = greeted.0.0
  input ← map_err (λ e. stage "input connect" (transport e)) input_dial
  attached ← with_state (attach config hello_ok.session_id input)
  let timeout = steady_io_timeout config hello_ok.guest_runtime_overrides
  control' ← with_state (
      set_timeouts "control set steady read timeout" "control set steady write timeout" timeout
        greeted.1)
  input' ← with_state (
      set_timeouts "input set steady read timeout" "input set steady write timeout" timeout
        attached.1)
  ok (
    record {
      identity = greeted.0.1;
      session_id = hello_ok.session_id;
      session_trace_id = hello_ok.session_trace_id;
      guest_runtime_overrides = hello_ok.guest_runtime_overrides;
      guest_label = config.guest_label;
    },
    control'.1,
    input'.1,
  )

abbrev pub session_with :
    GuestSessionInfo × ChannelStream × ChannelStream → InputReportQueue → GuestSession
session_with (info, control, input) queue = record {
  info = info;
  control = record { control = control; next_request_id = 3 };
  input = record { stream = input; input_queue = queue };
}

-- `none` is the failed assertion of the queue.
abbrev pub put_queue :
    GuestSessionInfo × ChannelStream × ChannelStream
    → Option InputReportQueue
    → Option (Result GuestError GuestSession)
put_queue parts none = none
put_queue parts (some queue) = some (ok (session_with parts queue))

abbrev pub with_queue :
    Result GuestError (GuestSessionInfo × ChannelStream × ChannelStream)
    → Option (Result GuestError GuestSession)
with_queue (err e) = some (err e)
with_queue (ok parts) =
    put_queue parts (with_capacity (session_queue_capacity parts.0.guest_runtime_overrides))

-- `GuestTransportClient::connect`
unfoldable pub connect :
    GuestTransportConfig
    → Result TransportError ChannelStream
    → Result TransportError ChannelStream
    → Option (Result GuestError GuestSession)
connect config control_dial input_dial = with_queue (open_streams config control_dial input_dial)

-- ===== src/Guest/Bridge/Process.antt =====
-- crates/crosspuck-core/src/guest_driver/bridge.rs: what the command worker does with the commands
-- of the queue.
pub mod Served
use crosspuck.Base.{
  ℕ, zero, suc, Bool, true, false, Option, none, some, List, [], ◌∷◌, ◌++◌, map, if◌then◌else◌,
  String,
}
use crosspuck.Base.Result.{Result, ok, err, map_ok}
use crosspuck.Protocol.Status.{StatusCode, is_ok}
use crosspuck.Protocol.Payload.Feature.{FeatureResult}
use crosspuck.Protocol.Payload.Count.{SetFeatureResult, SetOutputResult, WriteResult}
use crosspuck.Protocol.Queue.{count_one}
use crosspuck.Guest.Session.{GuestError}
use crosspuck.Guest.Session.Exchange.{
  GuestControl, get_feature_with_transport_timeout, set_feature_with_transport_timeout,
  set_output_with_transport_timeout, write_report_with_transport_timeout,
}
use crosspuck.Guest.Bridge.Error
use crosspuck.Guest.Bridge.Error.{HostBridgeError, guest, non_ok_status, should_disconnect_bridge}
use crosspuck.Guest.Bridge.Inputs.{InputStats}
use crosspuck.Guest.Bridge.Commands.{
  CommandRequest, CommandSide, get_feature, set_feature, set_output, write, with_stats, Waited,
  command, ended, wait_again, wait_for_command, stop_command_worker,
}

unfoldable pub ensure_status : String → StatusCode → ℕ → Result HostBridgeError Unit
ensure_status operation status os_error =
    if is_ok status then ok tt else err (non_ok_status operation status os_error)

-- A result of the host whose status is looked at, and what is made of it.
abbrev pub checked :
    {A : Type 0} {B : Type 0}
    → Result GuestError A
    → (A → Result HostBridgeError B)
    → Result HostBridgeError B
checked (err e) check = err (guest e)
checked (ok a) check = check a

-- What goes into a response channel.
pub data Response : Type 0 where
  feature : Result HostBridgeError FeatureResult → Response
  accepted : Result HostBridgeError ℕ → Response

abbrev pub disconnects : {A : Type 0} → Result HostBridgeError A → Bool
disconnects (ok a) = false
disconnects (err e) = should_disconnect_bridge e

-- How a command ended, and what was sent into response channels meanwhile.
pub record Processed : Type 0 where
  pub result : Result HostBridgeError Unit
  pub sent : List (ℕ × Response)
  pub control : GuestControl
  pub side : CommandSide

-- The end of a request that somebody waits for.
abbrev pub responded : {A : Type 0} → Result HostBridgeError A → Result HostBridgeError Unit
responded r = if disconnects r then err Error.command_worker_stopped else ok tt

-- The end of a feedback command.
abbrev pub fed_back : Result HostBridgeError ℕ → GuestControl → CommandSide → Processed
fed_back (ok n) control c = record {
  result = ok tt;
  sent = [];
  control = control;
  side = with_stats (λ s. record s { feedback_sent = count_one s.feedback_sent }) c;
}
fed_back (err e) control c =
    if should_disconnect_bridge e
    then record {
      result = err e;
      sent = [];
      control = control;
      side = with_stats (λ s. record s { command_errors = count_one s.command_errors }) c;
    }
    else record { result = ok tt; sent = []; control = control; side = c }

unfoldable pub process_command : CommandRequest → GuestControl → CommandSide → Processed
process_command
      (get_feature interface_number report_id requested_len timeout_ms transport_timeout_ms
        response)
      control c =
    let (reply, control') =
      get_feature_with_transport_timeout interface_number report_id requested_len timeout_ms
        transport_timeout_ms control in
    let result =
      checked reply (λ r. map_ok (λ _. r) (ensure_status "GET_FEATURE" r.status r.os_error)) in
    record {
      result = responded result;
      sent = (response, feature result) ∷ [];
      control = control';
      side = c;
    }
process_command (set_feature interface_number payload timeout_ms transport_timeout_ms response)
      control c =
    let (reply, control') =
      set_feature_with_transport_timeout interface_number timeout_ms payload transport_timeout_ms
        control in
    let result =
      checked reply
        (λ r. map_ok (λ _. r.bytes_accepted) (ensure_status "SET_FEATURE" r.status r.os_error)) in
    record {
      result = responded result;
      sent = (response, accepted result) ∷ [];
      control = control';
      side = c;
    }
process_command (set_output interface_number payload timeout_ms transport_timeout_ms) control c =
    let (reply, control') =
      set_output_with_transport_timeout interface_number timeout_ms payload transport_timeout_ms
        control in
    fed_back
      (checked reply
        (λ r. map_ok (λ _. r.bytes_accepted) (ensure_status "SET_OUTPUT" r.status r.os_error)))
      control' c
process_command (write interface_number payload timeout_ms transport_timeout_ms) control c =
    let (reply, control') =
      write_report_with_transport_timeout interface_number timeout_ms payload transport_timeout_ms
        control in
    fed_back
      (checked reply
        (λ r. map_ok (λ _. r.bytes_written) (ensure_status "WRITE" r.status r.os_error)))
      control' c

-- The worker goes on until it would wait or it ends; the channels that got an answer, in order.
pub record Handled : Type 0 where
  pub answered : List ℕ
  pub side : CommandSide

abbrev pub channels : List (ℕ × Response) → List ℕ
channels [] = []
channels (x ∷ xs) = x.0 ∷ channels xs

abbrev pub more : List ℕ → Handled → Handled
more first s = record s { answered = first ++ s.answered }

-- The worker ends when the connection is broken.
abbrev pub stopped : CommandSide → Handled
stopped c = let (told, c') = stop_command_worker c in record { answered = told; side = c' }

abbrev pub idle : CommandSide → Handled
idle c = record { answered = []; side = c }

abbrev pub after_command : (GuestControl → CommandSide → Handled) → Processed → Handled
after_command go_on p =
    more (channels p.sent) (if disconnects p.result then stopped p.side else go_on p.control p.side)

abbrev pub serve_step :
    (GuestControl → CommandSide → Handled) → GuestControl → Waited × CommandSide → Handled
serve_step go_on control (command first, c) = after_command go_on (process_command first control c)
serve_step go_on control (ended, c) = idle c
serve_step go_on control (wait_again, c) = idle c

-- The loop of the command worker; `rounds` bounds the commands that are taken.
unfoldable pub serve : ℕ → GuestControl → CommandSide → Handled
serve zero control c = idle c
serve (suc rounds) control c =
    if c.running then serve_step (serve rounds) control (wait_for_command c) else idle c

-- ===== src/Guest/Bridge/Tests.antt =====
-- crates/crosspuck-core/src/guest_driver/bridge.rs: small queues of reports and of commands.
use crosspuck.Base.{ℕ, ◌≡◌, refl, true, false, none, some, List, [], ◌∷◌, ◌++◌, arith, Bytes}
use crosspuck.Base.Result.{ok, err}
use crosspuck.Base.Selection.{retain}
use crosspuck.Protocol.Payload.Role.{puck_main}
use crosspuck.Protocol.Queue.{QueuedInputReport}
use crosspuck.Protocol.Queue.Newest.{newest}
use crosspuck.Protocol.Frame
use crosspuck.Protocol.Frame.Io.{other}
use crosspuck.Guest.Session.Exchange.{GuestControl}
use crosspuck.Guest.Bridge.Process.{serve}
use crosspuck.Guest.Bridge.Process.Served.{serve_answers}
use crosspuck.Guest.Bridge.Inputs.{
  InputSide, InputStats, from_main, puck_main_interface, routes_of, pop_input_report, pump_report,
}
use crosspuck.Guest.Bridge.Inputs.Delivered.{delivered, pop_input_report-delivered}
use crosspuck.Guest.Bridge.Inputs.Routes.{
  PrefersWireless, update_all, update_all-PrefersWireless, pop_main_holds,
}
use crosspuck.Guest.Bridge.Copies.{Copies, copy_next_input_report, copy_next_input_report-Copies}
use crosspuck.Guest.Bridge.Inputs.Pump.{pump_report-newest}
use crosspuck.Guest.Bridge.Commands.{
  CommandRequest, CommandSide, get_feature, set_feature, write, is_feedback, respond_stopped,
  respond_all, command_worker_stopped, enqueue_command, enqueue_feedback, stop_command_worker,
}
use crosspuck.Guest.Bridge.Commands.Feedback.{Added, enqueue_feedback-Added}
use crosspuck.Guest.Bridge.Commands.Stopping.{stopped_refuses}
use crosspuck.Guest.Bridge.Commands.Channels.{channels_of}
use crosspuck.Guest.Bridge.Commands.Handed.{Event, asks, feeds, looks, pass_all, stopped_answers}

abbrev controller_report : ℕ → QueuedInputReport
controller_report sequence = record {
  sequence = sequence;
  interface_number = 2;
  role = puck_main;
  host_monotonic_us = 10;
  payload = 0x42 ∷ [];
}

abbrev some_queue : List QueuedInputReport
some_queue = controller_report 1 ∷ controller_report 2 ∷ []

abbrev no_counts : InputStats
no_counts = record {
  pushed = 0;
  popped = 0;
  dropped_oldest = 0;
  dropped_stale = 0;
  read_errors = 0;
  feedback_enqueued = 0;
  feedback_sent = 0;
  feedback_dropped = 0;
  command_errors = 0;
}

-- The controller of interface 3 is registered.
abbrev routed_side : InputSide
routed_side = record {
  input_queue = some some_queue;
  input_routes = some (record { preferred_wireless_interface = some 3 });
  stats = some no_counts;
}

abbrev unrouted_side : InputSide
unrouted_side = record {
  input_queue = some some_queue;
  input_routes = some (record { preferred_wireless_interface = none });
  stats = some no_counts;
}

pop_input_report-delivered_example :
    ((pop_input_report 3 routed_side).0 ≡ ok (delivered 3 (routes_of routed_side) some_queue).0)
    × ((pop_input_report 3 routed_side).1.input_queue
        ≡ some (delivered 3 (routes_of routed_side) some_queue).1)
    × ((pop_input_report 3 routed_side).1.input_routes ≡ routed_side.input_routes)
pop_input_report-delivered_example = pop_input_report-delivered 3 routed_side some_queue refl

pop_main_holds_example :
    ((r : QueuedInputReport)
      → (pop_input_report puck_main_interface routed_side).0 ≡ ok (some r)
      → from_main r ≡ false)
    × ((kept : List QueuedInputReport)
        → (pop_input_report puck_main_interface routed_side).1.input_queue ≡ some kept
        → retain from_main kept ≡ retain from_main some_queue)
pop_main_holds_example = pop_main_holds routed_side some_queue refl refl

unrouted_side-PrefersWireless : PrefersWireless unrouted_side
unrouted_side-PrefersWireless i e = ground arith

abbrev registration : Bytes
registration = 2 ∷ 0xa3 ∷ 0 ∷ 7 ∷ []

update_all-PrefersWireless_example :
    PrefersWireless (update_all ((4, 2, registration) ∷ (2, 2, registration) ∷ []) unrouted_side)
update_all-PrefersWireless_example =
    update_all-PrefersWireless ((4, 2, registration) ∷ (2, 2, registration) ∷ []) unrouted_side
      unrouted_side-PrefersWireless

pump_report-newest_example :
    (b' : InputSide) × (pump_report 2 (controller_report 3) routed_side ≡ some b')
    × (b'.input_queue ≡ some (newest 2 (some_queue ++ (controller_report 3 ∷ []))))
pump_report-newest_example =
    pump_report-newest 2 (controller_report 3) routed_side some_queue refl (omega arith)
      (omega arith)

abbrev haptics : ℕ → CommandRequest
haptics n = write 2 (0x82 ∷ n ∷ []) 50 50

abbrev feature_request : ℕ → CommandRequest
feature_request response = get_feature 3 2 64 50 50 response

abbrev some_commands : List CommandRequest
some_commands = feature_request 1 ∷ haptics 1 ∷ []

abbrev running_side : CommandSide
running_side = record { running = true; command_queue = some some_commands; stats = some no_counts }

enqueue_feedback-Added_example :
    ((enqueue_feedback (haptics 2) running_side).0 ≡ ok tt)
    × (queue' : List CommandRequest) × ((enqueue_feedback (haptics 2) running_side).1.command_queue
        ≡ some queue')
    × Added (haptics 2) some_commands queue'
unfolding is_feedback
enqueue_feedback-Added_example =
    enqueue_feedback-Added (haptics 2) running_side some_commands refl refl refl (omega arith)

stopped_refuses_example :
    (enqueue_command (haptics 2) (stop_command_worker running_side).1
      ≡ (err command_worker_stopped, (stop_command_worker running_side).1))
    × (is_feedback (haptics 2) ≡ true
        → enqueue_feedback (haptics 2) (stop_command_worker running_side).1
          ≡ (err command_worker_stopped, (stop_command_worker running_side).1))
stopped_refuses_example = stopped_refuses running_side (haptics 2)

-- The worker takes a command, and more come in than it takes.
abbrev some_events : List Event
some_events = feeds (haptics 2) ∷ looks ∷ asks (set_feature 2 (1 ∷ []) 50 50 4) ∷ looks ∷ []

stopped_answers_example :
    (channels_of some_commands ++ (pass_all some_events running_side).accepted
      ≡ (pass_all some_events running_side).handed
        ++ (stop_command_worker (pass_all some_events running_side).side).0)
    × ((stop_command_worker (pass_all some_events running_side).side).1.command_queue ≡ some [])
stopped_answers_example = stopped_answers some_events some_commands running_side refl

-- The first caller's command was taken, and the second is told of the end.
told_at_the_end : (stop_command_worker (pass_all some_events running_side).side).0 ≡ 4 ∷ []
unfolding stop_command_worker enqueue_command enqueue_feedback is_feedback respond_stopped
    crosspuck.Guest.Bridge.Commands.wait_for_command crosspuck.Guest.Bridge.Commands.feedback_room
told_at_the_end = refl

-- A connection that is at its end.
abbrev ended_control : GuestControl
ended_control = record {
  control = record {
    channel = Frame.control;
    reader = [];
    writer = record { written = []; room = 0; write_failure = other; flush_failure = none };
    refuses = λ timeout. none;
    read_timeout = none;
    write_timeout = none;
  };
  next_request_id = 3;
}

abbrev waiting_queue : List CommandRequest
waiting_queue =
    get_feature 2 1 64 50 100 7 ∷ write 2 (0x82 ∷ []) 20 100 ∷ set_feature 2 (1 ∷ []) 50 100 8 ∷ []

abbrev serving_side : CommandSide
serving_side = record { running = true; command_queue = some waiting_queue; stats = none }

serve_answers_example :
    ((serve 3 ended_control serving_side).answered ≡ 7 ∷ 8 ∷ [])
    × ((serve 3 ended_control serving_side).side.command_queue ≡ some [])
unfolding respond_stopped
serve_answers_example =
    serve_answers 3 waiting_queue ended_control serving_side refl refl (omega arith)

copy_next_input_report-Copies_example :
    Copies
      (7 ∷ 8 ∷ 9 ∷ [])
      (delivered 3 (routes_of routed_side) some_queue).0
      (copy_next_input_report 3 (7 ∷ 8 ∷ 9 ∷ []) routed_side)
copy_next_input_report-Copies_example =
    copy_next_input_report-Copies 3 (7 ∷ 8 ∷ 9 ∷ []) some_queue routed_side refl

-- The second report goes to the wireless interface, and the buffer has no byte of before.
copied_bytes : (copy_next_input_report 3 (7 ∷ 8 ∷ 9 ∷ []) routed_side).output ≡ 0x42 ∷ 0 ∷ 0 ∷ []
unfolding copy_next_input_report crosspuck.Guest.Bridge.Copies.copy_report pop_input_report
    crosspuck.Guest.Bridge.Inputs.find_latest_report_for_interface
    crosspuck.Guest.Bridge.Inputs.drop_stale_reports_for_interface
    crosspuck.Guest.Bridge.Inputs.relabel crosspuck.Guest.Bridge.Inputs.wireless_role_for_interface
    crosspuck.Guest.Bridge.Inputs.is_triton_input_report
    crosspuck.Guest.Bridge.Inputs.should_hold_main_report_for_wireless
copied_bytes = refl

-- ===== src/Guest/Bridge/Inputs.antt =====
-- crates/crosspuck-core/src/guest_driver/bridge.rs: the queue of input reports, filled by the input
-- pump and emptied by the readers of an interface, and the routes that registered wireless
-- controllers give them. A field behind a mutex is an option, `none` when the mutex is poisoned.
pub mod Latest
pub mod Delivered
pub mod Routes
pub mod Pump
use crosspuck.Base.{
  ℕ, ◌+◌, ◌-◌, ◌%◌, ◌^◌, Bool, true, false, not, ◌&&◌, ◌||◌, Option, none, some, List, [], ◌∷◌,
  ◌++◌, ◌==◌, ltb, leb, if◌then◌else◌, length, get_elem?, drop, Bytes,
}
use crosspuck.Base.Result.{Result, ok, err}
use crosspuck.Base.Selection.{retain, rposition, remove}
use crosspuck.Protocol.Payload.Role.{
  CollectionRole, puck_interface3, puck_interface4, puck_interface5,
}
use crosspuck.Protocol.Queue.{QueuedInputReport, count_one, without_front}

-- The counters of `HostBridgeInputStats`, each a `u64`.
pub record InputStats : Type 0 where
  pub pushed : ℕ
  pub popped : ℕ
  pub dropped_oldest : ℕ
  pub dropped_stale : ℕ
  pub read_errors : ℕ
  pub feedback_enqueued : ℕ
  pub feedback_sent : ℕ
  pub feedback_dropped : ℕ
  pub command_errors : ℕ

pub record InputRouteState : Type 0 where
  pub preferred_wireless_interface : Option ℕ

abbrev pub no_route : InputRouteState
no_route = record { preferred_wireless_interface = none }

pub record InputSide : Type 0 where
  pub input_queue : Option (List QueuedInputReport)
  pub input_routes : Option InputRouteState
  pub stats : Option InputStats

pub data InputError : Type 0 where
  queue_poisoned : InputError

abbrev pub puck_main_interface : ℕ
puck_main_interface = 2

unfoldable pub wireless_role_for_interface : ℕ → Option CollectionRole
wireless_role_for_interface interface_number =
    if interface_number == 3
    then some puck_interface3
    else if interface_number == 4
    then some puck_interface4
    else if interface_number == 5
    then some puck_interface5
    else none

abbrev pub has_role : Option CollectionRole → Bool
has_role none = false
has_role (some role) = true

abbrev pub triton_id : ℕ → Bool
triton_id b = b == 0x42 || b == 0x43 || b == 0x45 || b == 0x46 || b == 0x79

unfoldable pub is_triton_input_report : Bytes → Bool
is_triton_input_report [] = false
is_triton_input_report (b ∷ bytes) = triton_id b

abbrev pub has_route : InputRouteState → Bool
has_route routes = elim routes.preferred_wireless_interface [ none ↦ false | some i ↦ true ]

-- `report.interface_number == PUCK_MAIN_INTERFACE && is_triton_input_report(&report.data)`
abbrev pub from_main : QueuedInputReport → Bool
from_main report =
    report.interface_number == puck_main_interface && is_triton_input_report report.payload

unfoldable pub should_hold_main_report_for_wireless : QueuedInputReport → ℕ → InputRouteState → Bool
should_hold_main_report_for_wireless report requested_interface routes =
    requested_interface == puck_main_interface && has_route routes && from_main report

-- The reports that a reader of the interface gets as they are.
abbrev pub own_report : ℕ → InputRouteState → QueuedInputReport → Bool
own_report interface_number routes report =
    report.interface_number == interface_number
    && not (should_hold_main_report_for_wireless report interface_number routes)

-- `preferred_wireless_interface.is_none_or(|preferred| preferred == interface_number)`
abbrev pub may_route_to : ℕ → InputRouteState → Bool
may_route_to interface_number routes = elim routes.preferred_wireless_interface [
  | none ↦ true
  | some preferred ↦ preferred == interface_number
]

unfoldable pub find_latest_report_for_interface :
    List QueuedInputReport → ℕ → InputRouteState → Option (ℕ × Option ℕ)
find_latest_report_for_interface queue interface_number routes =
    elim (rposition (own_report interface_number routes) queue) [
      | some index ↦ some (index, none)
      | none ↦
          if has_role (wireless_role_for_interface interface_number)
            && may_route_to interface_number routes
          then elim (rposition from_main queue) [
            | none ↦ none
            | some index ↦ some (index, some interface_number)
          ]
          else none
    ]

-- What stays in the queue, and how many reports went.
unfoldable pub drop_stale_reports_for_interface :
    List QueuedInputReport → ℕ → Option ℕ → InputRouteState → List QueuedInputReport × ℕ
drop_stale_reports_for_interface queue interface_number routed_interface routes =
    let kept : List QueuedInputReport = elim routed_interface [
      | some i ↦ retain (λ r. not (from_main r)) queue
      | none ↦ retain (λ r. not (own_report interface_number routes r)) queue
    ] in
    (kept, length queue - length kept)

-- A report that is routed is relabelled with its new interface.
unfoldable pub relabel : Option ℕ → QueuedInputReport → QueuedInputReport
relabel none report = report
relabel (some i) report = elim (wireless_role_for_interface i) [
  | none ↦ record report { interface_number = i }
  | some role ↦ record report { interface_number = i; role = role }
]

-- `with_stats`, which does nothing when the mutex is poisoned.
abbrev pub with_stats : (InputStats → InputStats) → InputSide → InputSide
with_stats update b = elim b.stats [
  | none ↦ b
  | some stats ↦ record b { stats = some (update stats) }
]

abbrev pub count_pop : ℕ → InputStats → InputStats
count_pop stale stats = record stats {
  popped = count_one stats.popped;
  dropped_stale = (stats.dropped_stale + stale) % 2 ^ 64;
}

-- The mutex of the routes is read with `unwrap_or_default`.
abbrev pub routes_of : InputSide → InputRouteState
routes_of b = elim b.input_routes [ none ↦ no_route | some routes ↦ routes ]

abbrev pub deliver :
    Option QueuedInputReport
    → Option ℕ
    → ℕ
    → InputSide
    → Result InputError (Option QueuedInputReport) × InputSide
deliver none routed stale b = (ok none, b)
deliver (some report) routed stale b =
    (ok (some (relabel routed report)), with_stats (count_pop stale) b)

abbrev pub take_found :
    List QueuedInputReport
    → ℕ
    → Option (ℕ × Option ℕ)
    → InputSide
    → Result InputError (Option QueuedInputReport) × InputSide
take_found queue interface_number none b = (ok none, b)
take_found queue interface_number (some (index, routed)) b =
    let (report, rest) = remove index queue in
    let (kept, stale) =
      drop_stale_reports_for_interface rest interface_number routed (routes_of b) in
    deliver report routed stale (record b { input_queue = some kept })

abbrev pub pop_locked :
    ℕ
    → Option (List QueuedInputReport)
    → InputSide
    → Result InputError (Option QueuedInputReport) × InputSide
pop_locked interface_number none b = (err queue_poisoned, b)
pop_locked interface_number (some queue) b =
    let found = find_latest_report_for_interface queue interface_number (routes_of b) in
    take_found queue interface_number found b

unfoldable pub pop_input_report :
    ℕ → InputSide → Result InputError (Option QueuedInputReport) × InputSide
pop_input_report interface_number b = pop_locked interface_number b.input_queue b

-- `data.iter().skip(3).any(|byte| *byte != 0)`
abbrev pub any_set : Bytes → Bool
any_set [] = false
any_set (b ∷ bytes) = not (b == 0) || any_set bytes

-- The reply to feature 2 says `0xA3` when it is about a wireless registration.
abbrev pub says_registration : Bytes → Bool
says_registration bytes = elim (get_elem? bytes 1) [ none ↦ false | some b ↦ b == 0xa3 ]

abbrev update_routes : ℕ → Bytes → InputRouteState → InputRouteState
update_routes interface_number bytes routes =
    if any_set (drop 3 bytes)
    then record { preferred_wireless_interface = some interface_number }
    else if (elim routes.preferred_wireless_interface [
      | none ↦ false
      | some preferred ↦ preferred == interface_number
    ])
    then no_route
    else routes

unfoldable pub update_input_routes_from_feature : ℕ → ℕ → Bytes → InputSide → InputSide
update_input_routes_from_feature interface_number report_id bytes b =
    if not (report_id == 2)
      || not (says_registration bytes)
      || not (has_role (wireless_role_for_interface interface_number))
    then b
    else elim b.input_routes [
      | none ↦ b
      | some routes ↦ record b { input_routes = some (update_routes interface_number bytes routes) }
    ]

abbrev pub drop_oldest : ℕ → List QueuedInputReport → InputSide → InputSide
drop_oldest capacity queue b =
    if leb capacity (length queue)
    then with_stats (λ s. record s { dropped_oldest = count_one s.dropped_oldest })
        (record b { input_queue = some (without_front queue) })
    else b

abbrev pub append_report : QueuedInputReport → InputSide → InputSide
append_report report b = elim b.input_queue [
  | none ↦ b
  | some queue ↦ record b { input_queue = some (queue ++ (report ∷ [])) }
]

abbrev pub pump_locked :
    ℕ → QueuedInputReport → Option (List QueuedInputReport) → InputSide → Option InputSide
pump_locked capacity report none b = none
pump_locked capacity report (some queue) b = some (
    with_stats (λ s. record s { pushed = count_one s.pushed })
      (append_report report (drop_oldest capacity queue b)))

-- What the pump does with a report that it has read; `none` when it ends.
unfoldable pub pump_report : ℕ → QueuedInputReport → InputSide → Option InputSide
pump_report capacity report b = pump_locked capacity report b.input_queue b

-- ===== src/Guest/Bridge/Inputs/Latest.antt =====
-- crates/crosspuck-core/src/guest_driver/bridge.rs: which report a reader of an interface gets, and
-- which reports then leave the queue.
use crosspuck.Base.{
  ℕ, ◌≡◌, refl, ap, ◌∙◌, Bool, not, ◌&&◌, Option, none, some, List, Bool-cases, Option-cases, inl,
  inr, if◌then◌else◌,
}
use crosspuck.Base.Result.{Result, ok}
use crosspuck.Base.Selection.{retain, last, rposition, remove, rposition-none, rposition-some}
use crosspuck.Protocol.Queue.{QueuedInputReport}
use crosspuck.Guest.Bridge.Inputs.{
  InputRouteState, InputSide, InputStats, InputError, count_pop, wireless_role_for_interface,
  has_role, from_main, own_report, may_route_to, find_latest_report_for_interface,
  drop_stale_reports_for_interface, relabel, routes_of, pop_input_report, pop_locked, take_found,
  deliver, with_stats,
}

-- The newest report that passes, and the queue without those that pass.
abbrev pub newest_of :
    (QueuedInputReport → Bool)
    → Option ℕ
    → List QueuedInputReport
    → Option QueuedInputReport × List QueuedInputReport
newest_of p routed queue = elim (last (retain p queue)) [
  | none ↦ (none, queue)
  | some r ↦ (some (relabel routed r), retain (λ r. not (p r)) queue)
]

-- What the search and the drop of the stale ones come to, in the terms of the code's own tests.
unfoldable pub picked :
    ℕ → InputRouteState → List QueuedInputReport → Option QueuedInputReport × List QueuedInputReport
picked i routes queue = elim (last (retain (own_report i routes) queue)) [
  | some r ↦ newest_of (own_report i routes) none queue
  | none ↦
      if has_role (wireless_role_for_interface i) && may_route_to i routes
      then newest_of from_main (some i) queue
      else (none, queue)
]

pub with_stats_kept :
    (update : InputStats → InputStats) (b : InputSide)
    → ((with_stats update b).input_queue ≡ b.input_queue)
      × ((with_stats update b).input_routes ≡ b.input_routes)
with_stats_kept update b = elim (Option-cases b.stats) [
  | inl poisoned ↦ rw poisoned (refl, refl)
  | inr (stats, held) ↦ rw held (refl, refl)
]

-- What a pop is to do with the queue and the routes, from what it found.
abbrev Pops :
    Option QueuedInputReport × List QueuedInputReport
    → InputSide
    → Result InputError (Option QueuedInputReport) × InputSide
    → Type 0
Pops want b got =
    (got.0 ≡ ok want.0) × (got.1.input_queue ≡ some want.1) × (got.1.input_routes ≡ b.input_routes)

-- Taking a report that was found last among those that pass.
take_newest :
    (p : QueuedInputReport → Bool) (i : ℕ) (routed : Option ℕ) (b : InputSide)
    (queue : List QueuedInputReport) (index : ℕ)
    → rposition p queue ≡ some index
    → ((rest : List QueuedInputReport)
        → (drop_stale_reports_for_interface rest i routed (routes_of b)).0
          ≡ retain (λ r. not (p r)) rest)
    → Pops (newest_of p routed queue) b (take_found queue i (some (index, routed)) b)
take_newest p i routed b queue index found drops =
    let (r, at, newest, rest, one) = rposition-some p queue index found in
    let (q, s) =
      with_stats_kept
        (count_pop
          (drop_stale_reports_for_interface (remove index queue).1 i routed (routes_of b)).1)
        (record b {
          input_queue =
              some
                (drop_stale_reports_for_interface (remove index queue).1 i routed (routes_of b)).0;
        }) in
    rw (at, newest, newest_of, deliver) (refl, q ∙ ap some (drops (remove index queue).1 ∙ rest), s)

found_own :
    (i : ℕ) (routes : InputRouteState) (queue : List QueuedInputReport) (index : ℕ)
    → rposition (own_report i routes) queue ≡ some index
    → (find_latest_report_for_interface queue i routes ≡ some (index, none))
      × (picked i routes queue ≡ newest_of (own_report i routes) none queue)
unfolding picked find_latest_report_for_interface
found_own i routes queue index found =
    let (r, at, newest, rest, one) = rposition-some (own_report i routes) queue index found in
    (rw (found, find_latest_report_for_interface) refl, rw (newest, picked) refl)

abbrev routable : ℕ → InputRouteState → Bool
routable i routes = has_role (wireless_role_for_interface i) && may_route_to i routes

found_other :
    (i : ℕ) (routes : InputRouteState) (queue : List QueuedInputReport)
    → rposition (own_report i routes) queue ≡ none
    → (find_latest_report_for_interface queue i routes ≡ (
        if routable i routes
        then (elim (rposition from_main queue) [ none ↦ none | some index ↦ some (index, some i) ])
        else none))
      × (picked i routes queue
          ≡ (if routable i routes then newest_of from_main (some i) queue else (none, queue)))
unfolding picked find_latest_report_for_interface
found_other i routes queue lacking =
    let (no_own, _) = rposition-none (own_report i routes) queue lacking in
    (rw (lacking, find_latest_report_for_interface) refl, rw (no_own, picked) refl)

no_main :
    (i : ℕ) (queue : List QueuedInputReport)
    → rposition from_main queue ≡ none
    → newest_of from_main (some i) queue ≡ (none, queue)
no_main i queue lacking =
    let (none_main, _) = rposition-none from_main queue lacking in rw (none_main, newest_of) refl

pub pop_input_report-picked :
    (i : ℕ) (b : InputSide) (queue : List QueuedInputReport)
    → b.input_queue ≡ some queue
    → ((pop_input_report i b).0 ≡ ok (picked i (routes_of b) queue).0)
      × ((pop_input_report i b).1.input_queue ≡ some (picked i (routes_of b) queue).1)
      × ((pop_input_report i b).1.input_routes ≡ b.input_routes)
unfolding pop_input_report picked find_latest_report_for_interface drop_stale_reports_for_interface
pop_input_report-picked i b queue held =
    let routes = routes_of b in
    let start : pop_input_report i b
        ≡ take_found queue i (find_latest_report_for_interface queue i routes) b =
      ap (λ q. pop_locked i q b) held in
    elim (Option-cases (rposition (own_report i routes) queue)) [
      | inr (index, found) ↦
          let (at, want) = found_own i routes queue index found in
          rw (start, at, want)
            (take_newest (own_report i routes) i none b queue index found (λ rest. refl))
      | inl lacking ↦
          let (at, want) = found_other i routes queue lacking in
          elim (Bool-cases (routable i routes)) [
            | inr not_routed ↦ rw (start, at, want, not_routed) (refl, held, refl)
            | inl may ↦ elim (Option-cases (rposition from_main queue)) [
              | inr (index, found) ↦
                  rw (start, at, want, may, found)
                    (take_newest from_main i (some i) b queue index found (λ rest. refl))
              | inl empty ↦
                  rw (start, at, want, may, empty, no_main i queue empty) (refl, held, refl)
            ]
          ]
    ]

-- ===== src/Guest/Bridge/Inputs/Delivered.antt =====
-- crates/crosspuck-core/src/guest_driver/bridge.rs: what a reader of an interface is to get, told
-- apart from how the code searches the queue.
use crosspuck.Base.{
  ℕ, ◌≡◌, refl, ap, ◌∙◌, Bool, true, false, not, ◌&&◌, ◌||◌, Option, none, some, List, [], ◌∷◌,
  ◌==◌, if◌then◌else◌, arith, Bool-cases, Option-cases, inl, inr, Bytes, subst,
}
use mathlib.Core.Path.{fun_ext}
use crosspuck.Base.Result.{ok}
use crosspuck.Base.Selection.{retain, last}
use crosspuck.Protocol.Payload.Role.{
  CollectionRole, puck_interface3, puck_interface4, puck_interface5,
}
use crosspuck.Protocol.Queue.{QueuedInputReport}
use crosspuck.Guest.Bridge.Inputs.{
  InputRouteState, InputSide, wireless_role_for_interface, has_role, from_main, own_report,
  may_route_to, is_triton_input_report, should_hold_main_report_for_wireless, relabel, routes_of,
  pop_input_report,
}
use crosspuck.Guest.Bridge.Inputs.Latest.{picked, newest_of, pop_input_report-picked}

-- The first bytes of the controller's reports.
abbrev pub controller_ids : List ℕ
controller_ids = 0x42 ∷ 0x43 ∷ 0x45 ∷ 0x46 ∷ 0x79 ∷ []

abbrev pub among : ℕ → List ℕ → Bool
among n [] = false
among n (m ∷ ms) = n == m || among n ms

abbrev pub starts_among : List ℕ → Bytes → Bool
starts_among ids [] = false
starts_among ids (b ∷ bytes) = among b ids

-- A report of the controller that came in on the main interface, which is 2.
abbrev pub is_controllers : QueuedInputReport → Bool
is_controllers r = r.interface_number == 2 && starts_among controller_ids r.payload

-- The wireless interfaces, with the roles of their collections.
abbrev pub wireless_roles : List (ℕ × CollectionRole)
wireless_roles = (3, puck_interface3) ∷ (4, puck_interface4) ∷ (5, puck_interface5) ∷ []

abbrev pub role_at : ℕ → List (ℕ × CollectionRole) → Option CollectionRole
role_at i [] = none
role_at i ((j, role) ∷ rest) = if i == j then some role else role_at i rest

-- Whether an interface is preferred, and whether it is another than `i`.
abbrev pub some_preferred : InputRouteState → Bool
some_preferred routes = elim routes.preferred_wireless_interface [ none ↦ false | some j ↦ true ]

abbrev pub other_preferred : ℕ → InputRouteState → Bool
other_preferred i routes = elim routes.preferred_wireless_interface [
  | none ↦ false
  | some j ↦ not (j == i)
]

-- The reports of interface `i` that its reader gets: all but, on the main interface while a wireless
-- one is preferred, the controller's, which are held for that one.
abbrev pub is_for : ℕ → InputRouteState → QueuedInputReport → Bool
is_for i routes r =
    r.interface_number == i && not (i == 2 && some_preferred routes && is_controllers r)

-- A report under the name of another interface.
abbrev pub under : ℕ → CollectionRole → QueuedInputReport → QueuedInputReport
under i role r = record {
  sequence = r.sequence;
  interface_number = i;
  role = role;
  host_monotonic_us = r.host_monotonic_us;
  payload = r.payload;
}

-- The newest report that passes, as `f` makes it, and the queue without all that pass.
abbrev pub take_newest_of :
    (QueuedInputReport → Bool)
    → (QueuedInputReport → QueuedInputReport)
    → List QueuedInputReport
    → Option QueuedInputReport × List QueuedInputReport
take_newest_of p f queue = elim (last (retain p queue)) [
  | none ↦ (none, queue)
  | some r ↦ (some (f r), retain (λ x. not (p x)) queue)
]

-- What a reader of interface `i` is to get, and what is to stay in the queue.
unfoldable pub delivered :
    ℕ → InputRouteState → List QueuedInputReport → Option QueuedInputReport × List QueuedInputReport
delivered i routes queue = elim (last (retain (is_for i routes) queue)) [
  | some r ↦ take_newest_of (is_for i routes) (λ x. x) queue
  | none ↦ elim (role_at i wireless_roles) [
    | none ↦ (none, queue)
    | some role ↦
        if other_preferred i routes
        then (none, queue)
        else take_newest_of is_controllers (under i role) queue
  ]
]

from_main-is_controllers : (r : QueuedInputReport) → from_main r ≡ is_controllers r
unfolding is_triton_input_report
from_main-is_controllers r = ground arith

own_report-is_for :
    (i : ℕ) (routes : InputRouteState) (r : QueuedInputReport)
    → own_report i routes r ≡ is_for i routes r
unfolding should_hold_main_report_for_wireless
own_report-is_for i routes r = rw (from_main-is_controllers r) refl

wireless_role-role_at : (i : ℕ) → wireless_role_for_interface i ≡ role_at i wireless_roles
unfolding wireless_role_for_interface
wireless_role-role_at i = refl

may_route_to-other_preferred :
    (i : ℕ) (routes : InputRouteState) → may_route_to i routes ≡ not (other_preferred i routes)
may_route_to-other_preferred i routes = ground arith

newest_of-take_newest_of :
    (p : QueuedInputReport → Bool) (routed : Option ℕ) (f : QueuedInputReport → QueuedInputReport)
    (queue : List QueuedInputReport)
    → ((r : QueuedInputReport) → relabel routed r ≡ f r)
    → newest_of p routed queue ≡ take_newest_of p f queue
newest_of-take_newest_of p routed f queue same = elim (Option-cases (last (retain p queue))) [
  | inl empty ↦ rw (empty, newest_of, take_newest_of) refl
  | inr (r, newest) ↦
      rw (newest, newest_of, take_newest_of)
        (ap (λ (x : QueuedInputReport). (some x, retain (λ y. not (p y)) queue)) (same r))
]

relabel-under :
    (i : ℕ) (role : CollectionRole) (r : QueuedInputReport)
    → wireless_role_for_interface i ≡ some role
    → relabel (some i) r ≡ under i role r
unfolding relabel
relabel-under i role r at = rw (at, relabel) refl

-- The second half of both: no report of the interface's own.
abbrev routed_of :
    (QueuedInputReport → Bool)
    → ℕ
    → InputRouteState
    → List QueuedInputReport
    → Option QueuedInputReport × List QueuedInputReport
routed_of p i routes queue =
    if has_role (wireless_role_for_interface i) && may_route_to i routes
    then newest_of p (some i) queue
    else (none, queue)

abbrev renamed_of :
    ℕ
    → InputRouteState
    → List QueuedInputReport
    → Option CollectionRole
    → Option QueuedInputReport × List QueuedInputReport
renamed_of i routes queue none = (none, queue)
renamed_of i routes queue (some role) =
    if other_preferred i routes
    then (none, queue)
    else take_newest_of is_controllers (under i role) queue

routed_of-renamed_of :
    (i : ℕ) (routes : InputRouteState) (queue : List QueuedInputReport)
    → routed_of is_controllers i routes queue
      ≡ renamed_of i routes queue (wireless_role_for_interface i)
routed_of-renamed_of i routes queue = elim (Option-cases (wireless_role_for_interface i)) [
  | inl wired ↦ rw wired refl
  | inr (role, at) ↦ elim (Bool-cases (other_preferred i routes)) [
    | inl other ↦ rw (at, may_route_to-other_preferred i routes, other) refl
    | inr own ↦
        rw (at, may_route_to-other_preferred i routes, own)
          (newest_of-take_newest_of is_controllers (some i) (under i role) queue
            (λ r. relabel-under i role r at))
  ]
]

picked-delivered :
    (i : ℕ) (routes : InputRouteState) (queue : List QueuedInputReport)
    → picked i routes queue ≡ delivered i routes queue
unfolding picked delivered relabel
picked-delivered i routes queue =
    let choose : (QueuedInputReport → Bool)
        → Option QueuedInputReport × List QueuedInputReport
        → Option QueuedInputReport × List QueuedInputReport =
      λ p rest. elim (last (retain p queue)) [ some r ↦ newest_of p none queue | none ↦ rest ] in
    ap (λ p. choose p (routed_of from_main i routes queue)) (fun_ext (own_report-is_for i routes))
    ∙ ap (λ q. choose (is_for i routes) (routed_of q i routes queue))
        (fun_ext from_main-is_controllers)
    ∙ ap (choose (is_for i routes)) (
        routed_of-renamed_of i routes queue
        ∙ ap (renamed_of i routes queue) (wireless_role-role_at i))
    ∙ ap
        (λ n. elim (last (retain (is_for i routes) queue)) [
          | some r ↦ n
          | none ↦ renamed_of i routes queue (role_at i wireless_roles)
        ])
        (newest_of-take_newest_of (is_for i routes) none (λ x. x) queue (λ r. refl))

-- When the queue is not poisoned, a reader of an interface gets the newest report of that interface,
-- where the main interface's reader gets none of the controller's reports while a wireless interface
-- is preferred; with no such report, the reader of a wireless interface gets the newest of the
-- controller's reports on the main interface, under its own interface and role, unless another
-- interface is preferred; otherwise it gets none. The reports of the kind that it got leave the
-- queue, the others stay as they were, and so do the routes.
pub pop_input_report-delivered :
    (i : ℕ) (b : InputSide) (queue : List QueuedInputReport)
    → b.input_queue ≡ some queue
    → ((pop_input_report i b).0 ≡ ok (delivered i (routes_of b) queue).0)
      × ((pop_input_report i b).1.input_queue ≡ some (delivered i (routes_of b) queue).1)
      × ((pop_input_report i b).1.input_routes ≡ b.input_routes)
pop_input_report-delivered i b queue held =
    subst
      (λ want.
        ((pop_input_report i b).0 ≡ ok want.0)
        × ((pop_input_report i b).1.input_queue ≡ some want.1)
        × ((pop_input_report i b).1.input_routes ≡ b.input_routes))
      (picked-delivered i (routes_of b) queue) (pop_input_report-picked i b queue held)

-- ===== src/Guest/Bridge/Inputs/Routes.antt =====
-- crates/crosspuck-core/src/guest_driver/bridge.rs: the routes of the wireless controllers.
use crosspuck.Base.{
  ℕ, ◌≡◌, refl, true, false, some, List, [], ◌∷◌, arith, inl, inr, Bytes, Option-cases, ap, ◌∙◌,
}
use crosspuck.Base.Result.{ok}
use crosspuck.Base.Selection.{retain, last, last-retain, retain-retain}
use crosspuck.Protocol.Queue.{QueuedInputReport}
use crosspuck.Guest.Bridge.Inputs.{
  InputRouteState, InputSide, wireless_role_for_interface, has_role, has_route, from_main,
  own_report, puck_main_interface, should_hold_main_report_for_wireless, routes_of, relabel,
  pop_input_report, update_input_routes_from_feature,
}
use crosspuck.Guest.Bridge.Inputs.Latest.{picked, newest_of, pop_input_report-picked}

-- A preferred interface is one of the wireless interfaces.
abbrev pub PrefersWireless : InputSide → Type 0
PrefersWireless b =
    (i : ℕ)
    → (routes_of b).preferred_wireless_interface ≡ some i
    → has_role (wireless_role_for_interface i) ≡ true

-- The replies to feature requests, the last first: interface, report id and data.
abbrev pub update_all : List (ℕ × ℕ × Bytes) → InputSide → InputSide
update_all [] b = b
update_all ((i, report_id, reply) ∷ replies) b =
    update_input_routes_from_feature i report_id reply (update_all replies b)

update-PrefersWireless :
    (i report_id : ℕ) (reply : Bytes) (b : InputSide)
    → PrefersWireless b
    → PrefersWireless (update_input_routes_from_feature i report_id reply b)
unfolding update_input_routes_from_feature
update-PrefersWireless i report_id reply b h j e = ground (arith, h j)

-- Whatever replies come in, only a wireless interface is ever preferred.
pub update_all-PrefersWireless :
    (replies : List (ℕ × ℕ × Bytes)) (b : InputSide)
    → PrefersWireless b
    → PrefersWireless (update_all replies b)
update_all-PrefersWireless [] b h = h
update_all-PrefersWireless ((i, report_id, reply) ∷ replies) b h =
    update-PrefersWireless i report_id reply (update_all replies b)
      (update_all-PrefersWireless replies b h)

own_main-not_main :
    (routes : InputRouteState) (r : QueuedInputReport)
    → has_route routes ≡ true
    → own_report puck_main_interface routes r ≡ true
    → from_main r ≡ false
unfolding should_hold_main_report_for_wireless
own_main-not_main routes r route own = ground arith

picked_main :
    (routes : InputRouteState) (queue : List QueuedInputReport)
    → has_route routes ≡ true
    → ((r : QueuedInputReport)
        → (picked puck_main_interface routes queue).0 ≡ some r
        → from_main r ≡ false)
      × (retain from_main (picked puck_main_interface routes queue).1 ≡ retain from_main queue)
unfolding picked wireless_role_for_interface relabel
picked_main routes queue route =
    let own = own_report puck_main_interface routes in
    elim (Option-cases (last (retain own queue))) [
      | inl lacking ↦ rw (lacking, picked) (λ r e. ground arith, refl)
      | inr (r, newest) ↦
          rw (newest, picked)
            (rw (newest, newest_of)
              (
                λ r' e.
                    let same : r ≡ r' = ground arith in
                    own_main-not_main routes r' route
                      (last-retain own queue r' (newest ∙ ap some same)),
                retain-retain own from_main queue (λ x. own_main-not_main routes x route),
              ))
    ]

-- While a wireless interface is preferred, a pop on the main interface takes no controller report
-- of the main interface: what it returns is none, and all of them stay in the queue, in order.
pub pop_main_holds :
    (b : InputSide) (queue : List QueuedInputReport)
    → b.input_queue ≡ some queue
    → has_route (routes_of b) ≡ true
    → ((r : QueuedInputReport)
        → (pop_input_report puck_main_interface b).0 ≡ ok (some r)
        → from_main r ≡ false)
      × ((kept : List QueuedInputReport)
          → (pop_input_report puck_main_interface b).1.input_queue ≡ some kept
          → retain from_main kept ≡ retain from_main queue)
pop_main_holds b queue held route =
    let (returned, left, _) = pop_input_report-picked puck_main_interface b queue held in
    let (none_held, all_kept) = picked_main (routes_of b) queue route in
    (
      λ r e. none_held r (ground (arith, returned, e)),
      λ kept e.
          let same : kept ≡ (picked puck_main_interface (routes_of b) queue).1 =
            ground (arith, left, e) in
          ap (retain from_main) same ∙ all_kept,
    )

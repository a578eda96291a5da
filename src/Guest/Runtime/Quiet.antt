-- ===== src/Guest/Runtime/Quiet.antt =====
-- crates/crosspuck-core/src/guest_driver/runtime.rs: the functions that leave the worker alone.
use crosspuck.Base.{ℕ, ◌≡◌, refl, ◌∙◌, Option, none, some, Bool-cases, not, Option-cases, inl, inr}
use crosspuck.Base.Result.{Result, ok, err}
use crosspuck.Guest.Handles.{VirtualHandleTable, close_handle}
use crosspuck.Guest.Trace.{TraceLimiter}
use crosspuck.Guest.Profile.{VirtualHidProfile}
use crosspuck.Guest.Bridge.Error.{HostBridgeError, should_disconnect_bridge}
use crosspuck.Guest.Runtime.{
  HostBridge, GuestDriverRuntime, ErrorCounts, retire_bridge, push_retired, reset,
}
use crosspuck.Guest.Runtime.Calls.{
  clear_bridge, clear_bridge_if_current, is_current, settle, request_connection_worker_stop,
  open_profile, close_profile, trace_payload, runtime_advertises, profile_available,
}
use crosspuck.Guest.Runtime.Owners.{live, live-retire_bridge}
use crosspuck.Guest.Runtime.Shown.{Shows, retire_bridge-Shows}

-- The worker runs, connects and is to try again as before, no bridge is published anew, no reference is lost, and
-- what is shown still agrees with the bridge.
pub record Quiet (r s : GuestDriverRuntime) : Type 0 where
  pub running : s.connection.worker_running ≡ r.connection.worker_running
  pub connecting : s.connection.connecting ≡ r.connection.connecting
  pub retry : s.connection.retry ≡ r.connection.retry
  pub free : r.connection.bridge ≡ none → s.connection.bridge ≡ none
  pub refs : (id : ℕ) → live id s ≡ live id r
  pub shows : Shows r → Shows s

pub Quiet-refl : (r : GuestDriverRuntime) → Quiet r r
Quiet-refl r = record {
  running = refl;
  connecting = refl;
  retry = refl;
  free = λ e. e;
  refs = λ id. refl;
  shows = λ s. s;
}

pub Quiet-trans : {r s t : GuestDriverRuntime} → Quiet r s → Quiet s t → Quiet r t
Quiet-trans q q' = record {
  running = q'.running ∙ q.running;
  connecting = q'.connecting ∙ q.connecting;
  retry = q'.retry ∙ q.retry;
  free = λ e. q'.free (q.free e);
  refs = λ id. q'.refs id ∙ q.refs id;
  shows = λ s. q'.shows (q.shows s);
}

retired_state :
    (found : Option HostBridge) (r : GuestDriverRuntime)
    → ((push_retired found r).connection.worker_running ≡ r.connection.worker_running)
      × ((push_retired found r).connection.connecting ≡ r.connection.connecting)
      × ((push_retired found r).connection.bridge ≡ r.connection.bridge)
      × ((push_retired found r).connection.retry ≡ r.connection.retry)
retired_state none r = (refl, refl, refl, refl)
retired_state (some b) r = (refl, refl, refl, refl)

pub retire_bridge-Quiet : (r : GuestDriverRuntime) → Quiet r (retire_bridge r)
unfolding retire_bridge
retire_bridge-Quiet r = record {
  running = (retired_state r.connection.bridge (reset r)).0;
  connecting = (retired_state r.connection.bridge (reset r)).1;
  retry = (retired_state r.connection.bridge (reset r)).3;
  free = λ e. (retired_state r.connection.bridge (reset r)).2;
  refs = λ id. live-retire_bridge id r;
  shows = λ s. retire_bridge-Shows r s;
}

-- Only fields that the relation does not look at are changed.
pub request_connection_worker_stop-Quiet :
    (r : GuestDriverRuntime) → Quiet r (request_connection_worker_stop r)
unfolding request_connection_worker_stop live
request_connection_worker_stop-Quiet r = record {
  running = refl;
  connecting = refl;
  retry = refl;
  free = λ e. e;
  refs = λ id. refl;
  shows = λ s. record { shown = s.shown; hidden = s.hidden; parity = s.parity };
}

pub clear_bridge-Quiet : (r : GuestDriverRuntime) → Quiet r (clear_bridge r)
unfolding clear_bridge live
clear_bridge-Quiet r =
    Quiet-trans
      record {
        running = refl;
        connecting = refl;
        retry = refl;
        free = λ e. e;
        refs = λ id. refl;
        shows = λ s. record { shown = s.shown; hidden = s.hidden; parity = s.parity };
      }
      (retire_bridge-Quiet _)

pub settle-Quiet :
    (b : HostBridge) (result : Result HostBridgeError Unit) (r : GuestDriverRuntime)
    → Quiet r (settle b result r).1
unfolding settle clear_bridge_if_current
settle-Quiet b (ok value) r = Quiet-refl r
settle-Quiet b (err e) r = elim (Bool-cases (should_disconnect_bridge e)) [
  | inl drop ↦ elim (Bool-cases (is_current b r)) [
    | inl current ↦ rw (drop, current) (clear_bridge-Quiet r)
    | inr other ↦ rw (drop, other) (Quiet-refl r)
  ]
  | inr keep ↦ rw keep (Quiet-refl r)
]

-- The handles and the limiter of the trace are apart from the connection.
apart-Quiet :
    (r : GuestDriverRuntime) (handles : VirtualHandleTable) (limiter : TraceLimiter)
    → Quiet r (record r { handles = handles; trace_limiter = limiter })
unfolding live
apart-Quiet r handles limiter = record {
  running = refl;
  connecting = refl;
  retry = refl;
  free = λ e. e;
  refs = λ id. refl;
  shows = λ s. record { shown = s.shown; hidden = s.hidden; parity = s.parity };
}

pub open_profile-Quiet :
    (errors : ErrorCounts) (p : VirtualHidProfile) (r : GuestDriverRuntime)
    → Quiet r (open_profile errors p r).1
unfolding open_profile
open_profile-Quiet errors p r = elim (Bool-cases (not (runtime_advertises errors r))) [
  | inl hidden ↦ rw hidden (Quiet-refl r)
  | inr shown ↦ elim (Bool-cases (not (profile_available p r))) [
    | inl absent ↦ rw (shown, absent) (Quiet-refl r)
    | inr here ↦ rw (shown, here) (apart-Quiet r _ _)
  ]
]

pub close_profile-Quiet : (id : ℕ) (r : GuestDriverRuntime) → Quiet r (close_profile id r).1
unfolding close_profile
close_profile-Quiet id r = elim (Option-cases (close_handle id r.handles).0) [
  | inl unknown ↦ rw (unknown, close_profile) (apart-Quiet r _ _)
  | inr (n, known) ↦ rw (known, close_profile) (apart-Quiet r _ _)
]

pub trace_payload-Quiet : (r : GuestDriverRuntime) → Quiet r (trace_payload r).1
unfolding trace_payload
trace_payload-Quiet r = apart-Quiet r _ _

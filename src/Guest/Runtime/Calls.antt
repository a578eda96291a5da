-- ===== src/Guest/Runtime/Calls.antt =====
-- crates/crosspuck-core/src/guest_driver/runtime.rs: what the hooks and the driver call.
use crosspuck.Base.{
  ℕ, ◌+◌, ◌/◌, ◌%◌, ◌^◌, Bool, true, false, not, ◌&&◌, ◌||◌, Option, none, some, ◌==◌, ltb,
  if◌then◌else◌, length, min,
}
use crosspuck.Base.Result.{Result, ok, err}
use crosspuck.Base.Action.{Action}
use crosspuck.Protocol.Payload.Overrides.{GuestRuntimeOverrides, no_overrides}
use crosspuck.Guest.Config.{from_millis, default_io_timeout}
use crosspuck.Guest.Identity.{RuntimeIdentityState, identity_state, can_advertise, present}
use crosspuck.Guest.Profile.{VirtualHidProfile}
use crosspuck.Guest.Profile.Catalog.{VirtualHidProfileCatalog, descriptor}
use crosspuck.Guest.Handles.{profile_at, open_handle, close_handle, open_count, total_open_count}
use crosspuck.Guest.Bridge.Error.{HostBridgeError, should_disconnect_bridge}
use crosspuck.Guest.Trace.{should_trace}
use crosspuck.Guest.Runtime.{
  HostBridge, GuestDriverRuntime, ErrorCounts, with_connection, retire_bridge, state_bridge_healthy,
}

pub data GuestDriverError : Type 0 where
  host_bridge : HostBridgeError → GuestDriverError
  device_not_connected invalid_handle : GuestDriverError
  profile_unavailable : VirtualHidProfile → GuestDriverError

abbrev pub next_epoch : GuestDriverRuntime → GuestDriverRuntime
next_epoch r =
    let s = r.connection in with_connection (record s { epoch = (s.epoch + 1) % 2 ^ 64 }) r

unfoldable pub clear_bridge : GuestDriverRuntime → GuestDriverRuntime
clear_bridge r = retire_bridge (next_epoch r)

-- `Arc::ptr_eq` with the published bridge
abbrev pub is_current : HostBridge → GuestDriverRuntime → Bool
is_current b r = elim r.connection.bridge [ none ↦ false | some current ↦ current.id == b.id ]

unfoldable pub clear_bridge_if_current : HostBridge → GuestDriverRuntime → GuestDriverRuntime
unfolding clear_bridge
clear_bridge_if_current b r = if is_current b r then clear_bridge r else r

unfoldable pub request_connection_worker_stop : GuestDriverRuntime → GuestDriverRuntime
request_connection_worker_stop r =
    let r' = next_epoch r in with_connection (record r'.connection { stopping = true }) r'

unfoldable pub catalog_result : ErrorCounts → GuestDriverRuntime → Option VirtualHidProfileCatalog
catalog_result errors r =
    let required = r.config.host_bridge_required in
    if required && not (state_bridge_healthy errors r.connection)
    then none
    else if not (can_advertise required r.connection.identity)
    then none
    else r.connection.catalog

-- `GuestDriverRuntime::can_advertise`
unfoldable pub runtime_advertises : ErrorCounts → GuestDriverRuntime → Bool
runtime_advertises errors r = present (catalog_result errors r)

unfoldable pub ensure_connected : ErrorCounts → GuestDriverRuntime → Bool
ensure_connected errors r = r.config.host_bridge_enabled && state_bridge_healthy errors r.connection

unfoldable pub connect_bridge : ErrorCounts → GuestDriverRuntime → Result GuestDriverError Unit
unfolding ensure_connected
connect_bridge errors r = if ensure_connected errors r then ok tt else err device_not_connected

unfoldable pub profile_available : VirtualHidProfile → GuestDriverRuntime → Bool
profile_available p r = elim r.connection.catalog [
  | none ↦ false
  | some c ↦ present (descriptor c p)
]

unfoldable pub open_profile :
    ErrorCounts → VirtualHidProfile → Action GuestDriverError GuestDriverRuntime ℕ
open_profile errors p r =
    if not (runtime_advertises errors r)
    then (err device_not_connected, r)
    else if not (profile_available p r)
    then (err (profile_unavailable p), r)
    else (let (id, handles) = open_handle p r.handles in (ok id, record r { handles = handles }))

-- `GuestDriverRuntime::close_handle`
unfoldable pub close_profile : ℕ → Action GuestDriverError GuestDriverRuntime ℕ
close_profile id r =
    let (left, handles) = close_handle id r.handles in
    let r' = record r { handles = handles } in
    elim left [ none ↦ (err invalid_handle, r') | some n ↦ (ok n, r') ]

unfoldable pub handle_profile : ℕ → GuestDriverRuntime → Result GuestDriverError VirtualHidProfile
handle_profile id r = elim (profile_at id r.handles.handles) [
  | none ↦ err invalid_handle
  | some p ↦ ok p
]

unfoldable pub is_profile_open : VirtualHidProfile → GuestDriverRuntime → Bool
is_profile_open p r = ltb 0 (open_count p r.handles)

-- The first half of `with_bridge`, under the lock: a bridge and the interface of the profile.
unfoldable pub bridge_for :
    ErrorCounts → VirtualHidProfile → GuestDriverRuntime → Result GuestDriverError (HostBridge × ℕ)
bridge_for errors p r =
    if not r.config.host_bridge_enabled || not (state_bridge_healthy errors r.connection)
    then err device_not_connected
    else elim r.connection.catalog [
      | none ↦ err (profile_unavailable p)
      | some catalog ↦ elim (descriptor catalog p) [
        | none ↦ err (profile_unavailable p)
        | some d ↦ elim r.connection.bridge [
          | none ↦ err device_not_connected
          | some b ↦ ok (b, d.interface_number)
        ]
      ]
    ]

-- The second half of `with_bridge`, after the call.
unfoldable pub settle :
    {T : Type 0}
    → HostBridge
    → Result HostBridgeError T
    → Action GuestDriverError GuestDriverRuntime T
settle b (ok value) r = (ok value, r)
settle b (err e) r =
    let r' = if should_disconnect_bridge e then clear_bridge_if_current b r else r in
    (err (host_bridge e), r')

unfoldable pub guest_runtime_overrides : GuestDriverRuntime → GuestRuntimeOverrides
guest_runtime_overrides r = elim r.connection.bridge [
  | none ↦ no_overrides
  | some b ↦ b.info.guest_runtime_overrides
]

-- `timeout.as_millis().min(u16::MAX)`
unfoldable pub operation_timeout_ms : ℕ → GuestDriverRuntime → ℕ
operation_timeout_ms default_timeout r =
    let timeout : ℕ = elim (guest_runtime_overrides r).io_timeout_ms [
      | some millis ↦ from_millis millis
      | none ↦
          if r.config.io_timeout == default_io_timeout then default_timeout else r.config.io_timeout
    ] in
    min (timeout / 1_000_000) 65535

-- `trace_payload`, the text aside.
unfoldable pub trace_payload : GuestDriverRuntime → Bool × GuestDriverRuntime
trace_payload r =
    let (shown, limiter) = should_trace r.trace_limiter in
    (shown, record r { trace_limiter = limiter })

pub record GuestDriverSnapshot : Type 0 where
  pub identity_state : RuntimeIdentityState
  pub bridge_connected : Bool
  pub session_trace_id : Option ℕ
  pub advertised_profiles : ℕ
  pub open_handles : ℕ

unfoldable pub snapshot : GuestDriverRuntime → GuestDriverSnapshot
snapshot r =
    let s = r.connection in
    record {
      identity_state = identity_state s.identity;
      bridge_connected = present s.bridge;
      session_trace_id = elim s.bridge [ none ↦ none | some b ↦ some b.info.session_trace_id ];
      advertised_profiles = elim s.catalog [ none ↦ 0 | some catalog ↦ length catalog.descriptors ];
      open_handles = total_open_count r.handles;
    }

-- ===== src/Guest/Runtime.antt =====
-- crates/crosspuck-core/src/guest_driver/runtime.rs: the runtime of the driver. A bridge behind an
-- `Arc` is a number, by which its reference counts and its error counters are told, with the info of
-- its session. Durations and instants are numbers of nanoseconds. An error of connecting is its
-- text. No mutex of the runtime is poisoned here, since nothing that runs under one panics.
pub mod Sweep
pub mod Worker
pub mod Calls
pub mod System
pub mod Turn
pub mod Owners
pub mod Shown
pub mod Found
pub mod Quiet
pub mod Coherent
pub mod Reached
pub mod Attempts
pub mod Waits
pub mod Ends
pub mod Operations
mod Tests
use crosspuck.Base.{
  ℕ, ◌+◌, ◌-◌, ◌*◌, ◌%◌, ◌^◌, Bool, true, false, not, ◌&&◌, Option, none, some, List, [], ◌∷◌, ◌++◌,
  ◌==◌, if◌then◌else◌, Bytes,
}
use crosspuck.Protocol.Payload.Overrides.{GuestRuntimeOverrides}
use crosspuck.Guest.Config.{RuntimeConfig, allow_debug_fallback, from_millis}
use crosspuck.Guest.Identity.{
  RuntimeIdentity, new_identity, set_host_identity, mark_stale, shown_identity,
}
use crosspuck.Guest.Profile.Catalog.{VirtualHidProfileCatalog, from_identity}
use crosspuck.Guest.Handles.{VirtualHandleTable, no_handles}
use crosspuck.Guest.Session.{GuestSessionInfo}
use crosspuck.Guest.Trace.{TraceLimiter, new_limiter}

-- An `Arc<HostBridge>`.
pub record HostBridge : Type 0 where
  pub id : ℕ
  pub info : GuestSessionInfo

pub record RetrySchedule : Type 0 where
  pub completed_at : Option ℕ
  pub interval : ℕ

-- `RetrySchedule::default`
abbrev pub no_retry : RetrySchedule
no_retry = record { completed_at = none; interval = 0 }

-- `RetrySchedule::remaining`
unfoldable pub remaining : ℕ → RetrySchedule → ℕ
remaining now retry = elim retry.completed_at [
  | none ↦ 0
  | some completed ↦ retry.interval - (now - completed)
]

-- `RetrySchedule::failed_at`
unfoldable pub failed_at : ℕ → ℕ → RetrySchedule
failed_at completed interval = record { completed_at = some completed; interval = interval }

pub record ConnectionState : Type 0 where
  pub bridge : Option HostBridge
  pub identity : RuntimeIdentity
  pub catalog : Option VirtualHidProfileCatalog
  pub retired : List HostBridge
  pub worker_running : Bool
  pub stopping : Bool
  pub connecting : Bool
  pub epoch : ℕ
  pub retry : RetrySchedule
  pub reconnect_interval : ℕ
  pub last_error : Option Bytes

pub record GuestDriverRuntime : Type 0 where
  pub config : RuntimeConfig
  pub connection : ConnectionState
  pub handles : VirtualHandleTable
  pub trace_limiter : TraceLimiter
  pub device_generation : ℕ

-- The catalog of the identity that is shown.
abbrev pub catalog_of : RuntimeConfig → RuntimeIdentity → Option VirtualHidProfileCatalog
catalog_of config identity = elim (shown_identity identity) [
  | none ↦ none
  | some i ↦ some (from_identity i (allow_debug_fallback config))
]

abbrev pub configured_limiter : RuntimeConfig → TraceLimiter
configured_limiter c = new_limiter c.trace_reports c.trace_report_limit c.trace_report_max_bytes

-- `GuestDriverRuntime::new`
unfoldable pub new_runtime : RuntimeConfig → GuestDriverRuntime
new_runtime config =
    let identity = new_identity (allow_debug_fallback config) in
    record {
      config = config;
      connection = record {
        bridge = none;
        identity = identity;
        catalog = catalog_of config identity;
        retired = [];
        worker_running = false;
        stopping = false;
        connecting = false;
        epoch = 0;
        retry = no_retry;
        reconnect_interval = config.lazy_reconnect_interval;
        last_error = none;
      };
      handles = no_handles;
      trace_limiter = configured_limiter config;
      device_generation = 0;
    }

abbrev pub with_connection : ConnectionState → GuestDriverRuntime → GuestDriverRuntime
with_connection s r = record r { connection = s }

-- `fetch_add(1)` of an `AtomicU32`
abbrev pub next_generation : GuestDriverRuntime → GuestDriverRuntime
next_generation r = record r { device_generation = (r.device_generation + 1) % 2 ^ 32 }

-- What `retire_bridge` does with the bridge that it took out.
abbrev pub push_retired : Option HostBridge → GuestDriverRuntime → GuestDriverRuntime
push_retired none r = r
push_retired (some b) r =
    next_generation
      (with_connection (record r.connection { retired = r.connection.retired ++ (b ∷ []) }) r)

-- What `retire_bridge` resets before that.
abbrev pub reset : GuestDriverRuntime → GuestDriverRuntime
reset r =
    let s = r.connection in
    let identity = mark_stale s.identity in
    record r {
      connection = record s {
        bridge = none;
        identity = identity;
        catalog = catalog_of r.config identity;
      };
      trace_limiter = configured_limiter r.config;
    }

unfoldable pub retire_bridge : GuestDriverRuntime → GuestDriverRuntime
retire_bridge r = push_retired r.connection.bridge (reset r)

abbrev pub or_default {ℓ} : {A : Type ℓ} → Option A → A → A
or_default none a = a
or_default (some x) a = x

unfoldable pub allow_debug_fallback_with_overrides : RuntimeConfig → GuestRuntimeOverrides → Bool
allow_debug_fallback_with_overrides c o =
    not c.host_bridge_required && or_default o.replay_enabled c.replay_enabled

unfoldable pub reconnect_interval_with_overrides : RuntimeConfig → GuestRuntimeOverrides → ℕ
reconnect_interval_with_overrides c o = elim o.reconnect_interval_ms [
  | none ↦ c.lazy_reconnect_interval
  | some millis ↦ from_millis millis
]

-- The limiter that `apply_trace_overrides` sets.
unfoldable pub apply_trace_overrides : RuntimeConfig → GuestRuntimeOverrides → TraceLimiter
apply_trace_overrides c o =
    new_limiter (or_default o.trace_reports c.trace_reports)
      (or_default o.trace_report_limit c.trace_report_limit)
      (or_default o.trace_report_max_bytes c.trace_report_max_bytes)

-- The error counters of the bridges, `input_stats().read_errors` and `.command_errors`.
pub record ErrorCounts : Type 0 where
  pub read_errors : ℕ → ℕ
  pub command_errors : ℕ → ℕ

unfoldable pub state_bridge_healthy : ErrorCounts → ConnectionState → Bool
state_bridge_healthy errors s = elim s.bridge [
  | none ↦ false
  | some b ↦ errors.read_errors b.id == 0 && errors.command_errors b.id == 0
]

-- ===== src/Guest/Runtime/Worker.antt =====
-- crates/crosspuck-core/src/guest_driver/runtime.rs: `run_connection_worker_with`, cut where it
-- lets go of the lock: at the start of an attempt to connect, before it waits, and at its end.
use crosspuck.Base.{
  ℕ, ◌+◌, Bool, true, false, not, ◌&&◌, ◌||◌, none, some, List, [], ◌∷◌, ◌++◌, ◌==◌, if◌then◌else◌,
  length, min, Bytes,
}
use crosspuck.Base.Result.{Result, ok, err}
use crosspuck.Guest.Config.{from_millis}
use crosspuck.Guest.Identity.{new_identity, set_host_identity}
use crosspuck.Guest.Profile.Catalog.{from_identity}
use crosspuck.Guest.Runtime.{
  HostBridge, GuestDriverRuntime, ErrorCounts, with_connection, next_generation, retire_bridge,
  remaining, failed_at, no_retry, state_bridge_healthy, allow_debug_fallback_with_overrides,
  reconnect_interval_with_overrides, apply_trace_overrides,
}
use crosspuck.Guest.Runtime.Sweep.{sweep}

-- Where the worker stands: outside of the function, at the head of its loop, in `connect` with the
-- epoch that it read, waiting so long, or dropping the last bridges before it ends.
pub data WorkerPc : Type 0 where
  outside looping finishing : WorkerPc
  in_connect : ℕ → WorkerPc
  waiting : ℕ → WorkerPc

unfoldable pub begin_worker : GuestDriverRuntime → WorkerPc × GuestDriverRuntime
begin_worker r =
    let s = r.connection in
    if not r.config.host_bridge_enabled || s.worker_running || s.stopping
    then (outside, r)
    else (looping, with_connection (record s { worker_running = true }) r)

-- What a pass of the loop comes to: where it stops, the runtime, the bridges that it drops, and
-- whether it reports a change.
pub record Turn : Type 0 where
  pub pc : WorkerPc
  pub runtime : GuestDriverRuntime
  pub cleanup : List HostBridge
  pub changed : Bool

abbrev pub is_empty {ℓ} : {A : Type ℓ} → List A → Bool
is_empty [] = true
is_empty (x ∷ xs) = false

abbrev pub has_bridge : GuestDriverRuntime → Bool
has_bridge r = elim r.connection.bridge [ none ↦ false | some b ↦ true ]

abbrev pub wait_time : ℕ → GuestDriverRuntime → ℕ
wait_time left r =
    if has_bridge r || r.connection.stopping then from_millis 50 else min left (from_millis 50)

-- The second half of a pass: an attempt to connect, or a wait.
unfoldable pub attempt_or_wait : ℕ → GuestDriverRuntime → List HostBridge → Bool → Turn
attempt_or_wait now r cleanup changed =
    let s = r.connection in
    let left = remaining now s.retry in
    if not s.stopping && not (has_bridge r) && not s.connecting && left == 0
    then record {
      pc = in_connect s.epoch;
      runtime = with_connection (record s { connecting = true }) r;
      cleanup = cleanup;
      changed = changed;
    }
    else record {
      pc = waiting (wait_time left r);
      runtime = r;
      cleanup = cleanup;
      changed = changed;
    }

-- A bridge that is not healthy any more is retired.
unfoldable pub check_health : ErrorCounts → GuestDriverRuntime → GuestDriverRuntime × Bool
check_health errors r =
    if has_bridge r && not (state_bridge_healthy errors r.connection)
    then (retire_bridge r, true)
    else (r, false)

abbrev pub go_on : ErrorCounts → ℕ → GuestDriverRuntime → List HostBridge → Turn
go_on errors now r cleanup =
    let (r', changed) = check_health errors r in attempt_or_wait now r' cleanup changed

-- `Arc::strong_count(&bridge) == 1`: besides the list, only operations hold a retired bridge.
abbrev pub unheld : (ℕ → ℕ) → HostBridge → Bool
unheld clones b = clones b.id + 1 == 1

-- The bridges that only the list holds are taken out of it.
unfoldable pub take_cleanup : (ℕ → ℕ) → GuestDriverRuntime → GuestDriverRuntime × List HostBridge
take_cleanup clones r =
    let s = r.connection in
    let (left, cleanup) = sweep (length s.retired) (unheld clones) 0 s.retired [] in
    (with_connection (record s { retired = left }) r, cleanup)

unfoldable pub worker_turn : (ℕ → ℕ) → ErrorCounts → ℕ → GuestDriverRuntime → Turn
worker_turn clones errors now r =
    let (r', cleanup) = take_cleanup clones r in
    if r'.connection.stopping
    then (let r'' = retire_bridge r' in
        if is_empty r''.connection.retired
        then record { pc = finishing; runtime = r''; cleanup = cleanup; changed = false }
        else go_on errors now r'' cleanup)
    else go_on errors now r' cleanup

-- The end of the function, after the last bridges were dropped.
unfoldable pub end_worker : GuestDriverRuntime → GuestDriverRuntime
end_worker r = with_connection (record r.connection { worker_running = false }) r

unfoldable pub publish : HostBridge → GuestDriverRuntime → GuestDriverRuntime
publish b r =
    let overrides = b.info.guest_runtime_overrides in
    let allow_fallback = allow_debug_fallback_with_overrides r.config overrides in
    next_generation (record r {
      connection = record r.connection {
        reconnect_interval = reconnect_interval_with_overrides r.config overrides;
        identity = set_host_identity b.info.identity (new_identity allow_fallback);
        catalog = some (from_identity b.info.identity allow_fallback);
        bridge = some b;
        retry = no_retry;
        last_error = none;
      };
      trace_limiter = apply_trace_overrides r.config overrides;
    })

-- What becomes of the result of an attempt that started in `epoch`.
unfoldable pub finish_connect :
    ℕ → ℕ → Result Bytes HostBridge → GuestDriverRuntime → GuestDriverRuntime
finish_connect now epoch result r =
    let s = r.connection in
    let s' = record s { connecting = false; retry = failed_at now s.reconnect_interval } in
    elim result [
      | ok b ↦
          if s'.stopping || not (s'.epoch == epoch)
          then with_connection (record s' { retired = s'.retired ++ (b ∷ []) }) r
          else publish b (with_connection s' r)
      | err text ↦
          with_connection
            (record s' {
              last_error = some text;
              reconnect_interval = r.config.lazy_reconnect_interval;
            })
            r
    ]

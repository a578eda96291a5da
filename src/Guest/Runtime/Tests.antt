-- ===== src/Guest/Runtime/Tests.antt =====
-- crates/crosspuck-core/src/guest_driver/runtime.rs: a worker that connects, and an operation; with
-- small tests of crates/crosspuck-core/src/guest_driver/trace.rs and profile.rs.
use crosspuck.Base.{
  ℕ, ◌+◌, ◌-◌, ◌≤◌, ◌≡◌, ◌⊎◌, refl, Bool, true, false, none, some, [], ◌∷◌, arith, if◌then◌else◌,
  ◌==◌, ◌%◌, ◌^◌,
}
use crosspuck.Base.Result.{ok, err}
use crosspuck.Protocol.Payload.Overrides.{no_overrides}
use crosspuck.Protocol.Payload.Identity.{CollectionDescriptor, IdentityPayload}
use crosspuck.Protocol.Payload.Role.{role_id, puck_main}
use crosspuck.Guest.Config
use crosspuck.Guest.Config.{RuntimeConfig, from_millis}
use crosspuck.Guest.Identity.{default_fallback_identity, fallback_collection}
use crosspuck.Guest.Profile.{main, vendor_dongle}
use crosspuck.Guest.Profile.Catalog.{
  collection_for, from_identity, descriptor, VirtualHidProfileDescriptor, from_collection, role_of,
  from_role,
}
use crosspuck.Guest.Profile.Catalog.Entries.{
  Offered, Unoffered, Describes, entries_for, descriptor-from_identity,
}
use crosspuck.Guest.Session.{GuestSessionInfo}
use crosspuck.Guest.Trace.{TraceLimiter}
use crosspuck.Guest.Trace.Limit.{traced, traced_lem}
use crosspuck.Guest.Bridge.Error.{queue_poisoned, should_disconnect_bridge}
use crosspuck.Guest.Runtime.{
  HostBridge, GuestDriverRuntime, ErrorCounts, new_runtime, allow_debug_fallback_with_overrides,
  remaining, failed_at, retire_bridge, state_bridge_healthy,
}
use crosspuck.Guest.Runtime.Sweep.{Sweeps, sweep, sweep-Sweeps, count}
use crosspuck.Guest.Runtime.Worker.{
  looping, begin_worker, worker_turn, finish_connect, publish, take_cleanup, attempt_or_wait,
  check_health,
}
use crosspuck.Guest.Runtime.Calls.{bridge_for, settle, clear_bridge, request_connection_worker_stop}
use crosspuck.Guest.Runtime.Owners.{has_id, live}
use crosspuck.Guest.Runtime.Coherent.{Coherent}
use crosspuck.Guest.Runtime.Reached.{Reach-Coherent}
use crosspuck.Guest.Runtime.Attempts.{
  clearing, stopping_worker, call_all, Outcome, finish_connect-overtaken,
}
use crosspuck.Guest.Runtime.Waits.{failed_world, at_once, then_step, finish_connect-waits}
use crosspuck.Guest.Runtime.Ends.{Drained, worker_turn-Drained}
use crosspuck.Guest.Runtime.Operations.{Reach-unjoined, Reach-bridge_for, settle-own}
use crosspuck.Guest.Runtime.System.{
  World, first_world, set_clones, after_turn, begins, turns, connects, wakes, clears, takes,
  with_runtime, Reach, start, later,
}

abbrev test_config : RuntimeConfig
test_config = record {
  host_bridge_enabled = true;
  host_bridge_required = true;
  replay_enabled = false;
  trace_reports = false;
  connect_timeout = from_millis 1_000;
  handshake_timeout = from_millis 2_000;
  io_timeout = from_millis 1_000;
  lazy_reconnect_interval = from_millis 1_000;
  input_queue_capacity = 64;
  trace_report_limit = 2048;
  trace_report_max_bytes = 128;
  log_level = Config.info;
  guest_label = [];
}

abbrev test_info : GuestSessionInfo
test_info = record {
  identity = default_fallback_identity;
  session_id = 7;
  session_trace_id = 9;
  guest_runtime_overrides = no_overrides;
  guest_label = [];
}

abbrev first_bridge : HostBridge
first_bridge = record { id = 0; info = test_info }

abbrev begun : World → World
begun w = record w { pc = (begin_worker w.runtime).0; runtime = (begin_worker w.runtime).1 }

abbrev turned : World → World
turned w = after_turn w (worker_turn w.clones w.errors 5 w.runtime)

abbrev joined_by : World → World
joined_by w = record w {
  pc = looping;
  runtime = finish_connect 6 0 (ok (record { id = w.next_id; info = test_info })) w.runtime;
  next_id = 1;
}

abbrev held_by : World → World
held_by w = record w { clones = set_clones 0 1 w.clones }

abbrev connecting_world : World
connecting_world = turned (begun (first_world test_config))

abbrev connected_world : World
connected_world = joined_by connecting_world

abbrev using_world : World
using_world = held_by connected_world

-- A pass of the loop that waits, and its end.
abbrev waited_at : ℕ → World → World
waited_at now w = record (after_turn w (worker_turn w.clones w.errors now w.runtime)) {
  pc = looping;
}

connecting_reached : Reach test_config connecting_world
unfolding first_world begin_worker new_runtime
connecting_reached = later (later start (begins refl)) (turns 5 refl)

connected_reached : Reach test_config connected_world
unfolding first_world begin_worker new_runtime worker_turn take_cleanup attempt_or_wait check_health
    remaining finish_connect publish
connected_reached = later connecting_reached (connects 6 0 test_info refl)

using_reached : Reach test_config using_world
unfolding first_world begin_worker new_runtime worker_turn take_cleanup attempt_or_wait check_health
    remaining finish_connect publish bridge_for state_bridge_healthy from_identity descriptor
    from_collection role_of role_id from_role fallback_collection default_fallback_identity
    allow_debug_fallback_with_overrides
using_reached = later connected_reached (takes main first_bridge 2 refl)

Reach-Coherent_example : Coherent using_world
Reach-Coherent_example = Reach-Coherent using_reached

Reach-unjoined_example :
    (count (has_id 0) using_world.joined ≤ 1)
    × ((using_world.clones 0 ≡ 0) ⊎ (count (has_id 0) using_world.joined ≡ 0))
Reach-unjoined_example = Reach-unjoined 0 using_reached

Reach-bridge_for_example :
    (using_world.errors.read_errors 0 ≡ 0)
    × (using_world.errors.command_errors 0 ≡ 0)
    × ((c : CollectionDescriptor) × (collection_for default_fallback_identity
            (allow_debug_fallback_with_overrides using_world.runtime.config no_overrides)
            main
          ≡ some c)
        × Offered default_fallback_identity
            (allow_debug_fallback_with_overrides using_world.runtime.config no_overrides)
            main
            c
        × (c.interface_number ≡ 2))
unfolding first_world begin_worker new_runtime worker_turn take_cleanup attempt_or_wait check_health
    remaining finish_connect publish bridge_for state_bridge_healthy from_identity descriptor
    from_collection role_of role_id from_role fallback_collection default_fallback_identity
    allow_debug_fallback_with_overrides
Reach-bridge_for_example = Reach-bridge_for main first_bridge 2 using_reached refl

-- Another bridge fails while the first is published.
abbrev other_bridge : HostBridge
other_bridge = record { id = 3; info = test_info }

settle-own_example :
    ((settle {T = Unit} other_bridge
        (err queue_poisoned)
        connected_world.runtime).1.connection.bridge
      ≡ (if first_bridge.id == other_bridge.id then none else some first_bridge))
    × ((settle {T = Unit} other_bridge
          (err queue_poisoned)
          connected_world.runtime).1.connection.epoch
        ≡ (if first_bridge.id == other_bridge.id
            then (connected_world.runtime.connection.epoch + 1) % 2 ^ 64
            else connected_world.runtime.connection.epoch))
    × (live 0 (settle {T = Unit} other_bridge (err queue_poisoned) connected_world.runtime).1
        ≡ live 0 connected_world.runtime)
unfolding first_world begin_worker new_runtime worker_turn take_cleanup attempt_or_wait check_health
    remaining finish_connect publish should_disconnect_bridge
settle-own_example =
    settle-own other_bridge first_bridge queue_poisoned connected_world.runtime 0 refl refl

abbrev no_errors : ErrorCounts
no_errors = record { read_errors = λ id. 0; command_errors = λ id. 0 }

abbrev no_clones : ℕ → ℕ
no_clones id = 0

abbrev idle_runtime : GuestDriverRuntime
idle_runtime = (begin_worker (new_runtime test_config)).1

finish_connect-overtaken_example :
    Outcome true first_bridge
      (call_all (clearing ∷ []) (worker_turn no_clones no_errors 5 idle_runtime).runtime)
      (finish_connect 6 0
        (ok first_bridge)
        (call_all (clearing ∷ []) (worker_turn no_clones no_errors 5 idle_runtime).runtime))
unfolding first_world begin_worker new_runtime worker_turn take_cleanup attempt_or_wait check_health
    remaining finish_connect publish
finish_connect-overtaken_example =
    finish_connect-overtaken no_clones no_errors 5 6 0 idle_runtime (clearing ∷ []) first_bridge
      (omega arith) (omega arith) refl

-- The attempt fails; the worker waits for two passes, and a caller clears the connection.
abbrev failed_once : World
failed_once = failed_world 5 0 [] connecting_world

abbrev waited_twice : World
waited_twice = waited_at 60_000_000 (waited_at 10 failed_once)

abbrev cleared_world : World
cleared_world = with_runtime (clear_bridge waited_twice.runtime) waited_twice

finish_connect-waits_example :
    connecting_world.runtime.connection.reconnect_interval ≤ 2_000_000_005 - 5
unfolding first_world begin_worker new_runtime worker_turn take_cleanup attempt_or_wait check_health
    remaining finish_connect publish clear_bridge retire_bridge failed_at
finish_connect-waits_example =
    finish_connect-waits {w = cleared_world} 5 0 2_000_000_005 1 [] connecting_reached refl
      (then_step
        (then_step
          (then_step
            (then_step (then_step at_once (turns 10 refl) refl) (wakes 50_000_000 refl) refl)
            (turns 60_000_000 refl) refl)
          (wakes 50_000_000 refl) refl)
        clears refl)
      refl

-- The first bridge is published, and the worker is asked to stop.
abbrev stopping_runtime : GuestDriverRuntime
stopping_runtime = call_all (stopping_worker ∷ []) connected_world.runtime

worker_turn-Drained_example :
    Drained (worker_turn no_clones no_errors 7 stopping_runtime)
    ⊎ Drained (
        worker_turn no_clones no_errors 8
          (worker_turn no_clones no_errors 7 stopping_runtime).runtime)
unfolding first_world begin_worker new_runtime worker_turn take_cleanup attempt_or_wait check_health
    remaining finish_connect publish request_connection_worker_stop
worker_turn-Drained_example =
    worker_turn-Drained no_clones (λ id. refl) no_errors no_errors 7 8 stopping_runtime refl

-- The even numbers are taken out.
abbrev even : ℕ → Bool
even n = n % 2 == 0

sweep-Sweeps_example : Sweeps even (2 ∷ 3 ∷ 4 ∷ []) [] (sweep 3 even 0 (2 ∷ 3 ∷ 4 ∷ []) [])
sweep-Sweeps_example = sweep-Sweeps 3 even 0 (2 ∷ 3 ∷ 4 ∷ []) [] (omega arith) tt tt

abbrev nearly_full : TraceLimiter
nearly_full = record { enabled = true; limit = 4; max_bytes = 128; count = 2 }

traced_lem_example :
    ((traced 3 nearly_full).0 ≡ 2)
    × ((traced 3 nearly_full).1.count ≡ 2 + (traced 3 nearly_full).0)
    × ((traced 3 nearly_full).1.count ≤ 4)
traced_lem_example = traced_lem 3 nearly_full (omega arith)

-- An identity with the main collection only.
abbrev main_only : IdentityPayload
main_only = record default_fallback_identity {
  collections = fallback_collection puck_main 2 1 1 54 64 64 ∷ [];
}

descriptor-from_identity_example :
    ((c : CollectionDescriptor) × (d : VirtualHidProfileDescriptor) × Offered main_only true
        vendor_dongle c
      × Describes vendor_dongle c d
      × (entries_for vendor_dongle (from_identity main_only true).descriptors ≡ d ∷ [])
      × (descriptor (from_identity main_only true) vendor_dongle ≡ some d))
    ⊎ (Unoffered main_only true vendor_dongle
        × (entries_for vendor_dongle (from_identity main_only true).descriptors ≡ [])
        × (descriptor (from_identity main_only true) vendor_dongle ≡ none))
descriptor-from_identity_example = descriptor-from_identity main_only true vendor_dongle

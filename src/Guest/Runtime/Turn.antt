-- ===== src/Guest/Runtime/Turn.antt =====
-- crates/crosspuck-core/src/guest_driver/runtime.rs: the branches of a pass of the worker's loop.
use crosspuck.Base.{ℕ, ◌≡◌, Bool, true, false, not, ◌&&◌, ◌==◌, List, Bool-cases, inl, inr}
use crosspuck.Guest.Runtime.{
  HostBridge, GuestDriverRuntime, ErrorCounts, with_connection, retire_bridge, remaining,
  state_bridge_healthy,
}
use crosspuck.Guest.Runtime.Worker.{
  Turn, finishing, in_connect, waiting, worker_turn, take_cleanup, check_health, attempt_or_wait,
  go_on, has_bridge, is_empty, wait_time,
}

-- Whether a pass starts an attempt to connect.
abbrev pub starts : ℕ → GuestDriverRuntime → Bool
starts now r =
    not r.connection.stopping
    && not (has_bridge r)
    && not r.connection.connecting
    && remaining now r.connection.retry == 0

abbrev pub attempt : GuestDriverRuntime → List HostBridge → Bool → Turn
attempt r cleanup changed = record {
  pc = in_connect r.connection.epoch;
  runtime = with_connection (record r.connection { connecting = true }) r;
  cleanup = cleanup;
  changed = changed;
}

abbrev pub pause : ℕ → GuestDriverRuntime → List HostBridge → Bool → Turn
pause now r cleanup changed = record {
  pc = waiting (wait_time (remaining now r.connection.retry) r);
  runtime = r;
  cleanup = cleanup;
  changed = changed;
}

-- To show `Q` of the turn, carry `P` from the cleanup through retiring the bridge.
module _ (clones : ℕ → ℕ) (errors : ErrorCounts) (now : ℕ) (r : GuestDriverRuntime)
    (Q : Turn → Type 0) (P : GuestDriverRuntime → Type 0) (first : P (take_cleanup clones r).0)
    (retires : (s : GuestDriverRuntime) → P s → P (retire_bridge s))
    (finishes : (s : GuestDriverRuntime)
      → P s
      → (take_cleanup clones r).0.connection.stopping ≡ true
      → is_empty s.connection.retired ≡ true
      → Q (record {
        pc = finishing;
        runtime = s;
        cleanup = (take_cleanup clones r).1;
        changed = false;
      }))
    (tries : (s : GuestDriverRuntime) (changed : Bool)
      → P s
      → starts now s ≡ true
      → Q (attempt s (take_cleanup clones r).1 changed))
    (pauses : (s : GuestDriverRuntime) (changed : Bool)
      → P s
      → starts now s ≡ false
      → Q (pause now s (take_cleanup clones r).1 changed)) where
  attempt_or_wait_ind :
      (s : GuestDriverRuntime) (changed : Bool)
      → P s
      → Q (attempt_or_wait now s (take_cleanup clones r).1 changed)
  unfolding attempt_or_wait
  attempt_or_wait_ind s changed p = elim (Bool-cases (starts now s)) [
    | inl go ↦ rw go (tries s changed p go)
    | inr stay ↦ rw stay (pauses s changed p stay)
  ]

  go_on_ind : (s : GuestDriverRuntime) → P s → Q (go_on errors now s (take_cleanup clones r).1)
  unfolding check_health
  go_on_ind s p =
      elim (Bool-cases (has_bridge s && not (state_bridge_healthy errors s.connection))) [
        | inl ill ↦ rw ill (attempt_or_wait_ind (retire_bridge s) true (retires s p))
        | inr well ↦ rw well (attempt_or_wait_ind s false p)
      ]

  pub worker_turn_ind : Q (worker_turn clones errors now r)
  unfolding worker_turn
  worker_turn_ind =
      let s = (take_cleanup clones r).0 in
      elim (Bool-cases s.connection.stopping) [
        | inl stops ↦ elim (Bool-cases (is_empty (retire_bridge s).connection.retired)) [
          | inl last ↦ rw (stops, last) (finishes (retire_bridge s) (retires s first) stops last)
          | inr more ↦ rw (stops, more) (go_on_ind (retire_bridge s) (retires s first))
        ]
        | inr runs ↦ rw runs (go_on_ind s first)
      ]

-- ===== src/Guest/Runtime/Owners.antt =====
-- crates/crosspuck-core/src/guest_driver/runtime.rs: the references of the runtime to bridges,
-- counted through its functions.
use crosspuck.Base.{
  ℕ, ◌+◌, ◌≡◌, refl, ap, ◌∙◌, Bool, true, not, ◌||◌, Option, none, some, List, [], ◌∷◌, ◌==◌, arith,
  All, length, Bool-cases, inl, inr,
}
use crosspuck.Base.Result.{Result, ok, err}
use crosspuck.Guest.Bridge.Error.{HostBridgeError, should_disconnect_bridge}
use crosspuck.Guest.Runtime.{
  HostBridge, GuestDriverRuntime, ErrorCounts, retire_bridge, push_retired,
}
use crosspuck.Guest.Runtime.Sweep.{sweep, weight, count, count-append, Sweeps, sweep-Sweeps}
use crosspuck.Guest.Runtime.Worker.{
  Turn, worker_turn, take_cleanup, unheld, publish, finish_connect,
}
use crosspuck.Guest.Runtime.Turn.{worker_turn_ind}
use crosspuck.Guest.Runtime.Calls.{clear_bridge, clear_bridge_if_current, is_current, settle}

abbrev pub has_id : ℕ → HostBridge → Bool
has_id id b = b.id == id

abbrev pub listed : Option HostBridge → List HostBridge
listed none = []
listed (some b) = b ∷ []

-- How many references to the bridge `id` the runtime has.
unfoldable pub live : ℕ → GuestDriverRuntime → ℕ
live id r = count (has_id id) (listed r.connection.bridge) + count (has_id id) r.connection.retired

live-push_retired :
    (id : ℕ) (found : Option HostBridge) (r : GuestDriverRuntime)
    → r.connection.bridge ≡ none
    → live id (push_retired found r)
      ≡ count (has_id id) (listed found) + count (has_id id) r.connection.retired
unfolding live
live-push_retired id none r gone = rw (gone) refl
live-push_retired id (some b) r gone =
    rw (gone, count-append (has_id id) r.connection.retired (b ∷ [])) (omega arith)

pub live-retire_bridge : (id : ℕ) (r : GuestDriverRuntime) → live id (retire_bridge r) ≡ live id r
unfolding retire_bridge live
live-retire_bridge id r = live-push_retired id r.connection.bridge _ refl

pub live-clear_bridge : (id : ℕ) (r : GuestDriverRuntime) → live id (clear_bridge r) ≡ live id r
unfolding clear_bridge live
live-clear_bridge id r = live-retire_bridge id _

pub live-settle :
    (id : ℕ) (b : HostBridge) (result : Result HostBridgeError Unit) (r : GuestDriverRuntime)
    → live id (settle b result r).1 ≡ live id r
unfolding settle clear_bridge_if_current
live-settle id b (ok value) r = refl
live-settle id b (err e) r = elim (Bool-cases (should_disconnect_bridge e)) [
  | inl drop ↦ elim (Bool-cases (is_current b r)) [
    | inl current ↦ rw (drop, current) (live-clear_bridge id r)
    | inr other ↦ rw (drop, other) refl
  ]
  | inr keep ↦ rw keep refl
]

pub live-connected :
    (id now epoch : ℕ) (b : HostBridge) (r : GuestDriverRuntime)
    → r.connection.bridge ≡ none
    → live id (finish_connect now epoch (ok b) r) ≡ weight (has_id id) b + live id r
unfolding finish_connect live publish
live-connected id now epoch b r free =
    elim (Bool-cases (r.connection.stopping || not (r.connection.epoch == epoch))) [
      | inl drop ↦
          rw (drop, free, count-append (has_id id) r.connection.retired (b ∷ [])) (omega arith)
      | inr keep ↦ rw (keep, free) (omega arith)
    ]

-- What a pass of the loop does to the references: those that it drops were counted before.
pub record Dropped (clones : ℕ → ℕ) (r : GuestDriverRuntime) (t : Turn) : Type 0 where
  pub counts : (id : ℕ) → live id t.runtime + count (has_id id) t.cleanup ≡ live id r
  pub unused : All (λ b. clones b.id ≡ 0) t.cleanup

module _ (clones : ℕ → ℕ) (r : GuestDriverRuntime) where
  swept :
      Sweeps
        (unheld clones)
        r.connection.retired
        []
        (sweep (length r.connection.retired) (unheld clones) 0 r.connection.retired [])
  swept = sweep-Sweeps _ _ 0 _ [] (omega arith) tt tt

  unheld_zero :
      (bs : List HostBridge) → All (λ b. unheld clones b ≡ true) bs → All (λ b. clones b.id ≡ 0) bs
  unheld_zero [] h = tt
  unheld_zero (b ∷ bs) h = (ground (arith, h.0), unheld_zero bs h.1)

  live-take_cleanup :
      (id : ℕ)
      → live id (take_cleanup clones r).0 + count (has_id id) (take_cleanup clones r).1 ≡ live id r
  unfolding take_cleanup live
  live-take_cleanup id = omega (arith, swept.counts (has_id id))

  pub worker_turn-Dropped :
      (errors : ErrorCounts) (now : ℕ) → Dropped clones r (worker_turn clones errors now r)
  unfolding take_cleanup live
  worker_turn-Dropped errors now =
      worker_turn_ind clones errors now r (Dropped clones r)
        (λ s. (id : ℕ) → live id s + count (has_id id) (take_cleanup clones r).1 ≡ live id r)
        live-take_cleanup
        (λ s same id.
          ap (λ n. n + count (has_id id) (take_cleanup clones r).1) (live-retire_bridge id s)
          ∙ same id)
        (λ s same stops none_left. record { counts = same; unused = unheld_zero _ swept.freed })
        (λ s changed same go. record { counts = same; unused = unheld_zero _ swept.freed })
        (λ s changed same stay. record { counts = same; unused = unheld_zero _ swept.freed })

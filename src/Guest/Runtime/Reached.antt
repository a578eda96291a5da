-- ===== src/Guest/Runtime/Reached.antt =====
-- crates/crosspuck-core/src/guest_driver/runtime.rs: every step keeps the worlds coherent.
use crosspuck.Base.{
  ℕ, ◌+◌, ◌<◌, ◌≤◌, ◌≡◌, refl, sym, ◌∙◌, subst, false, not, ◌||◌, none, some, List, ◌==◌, ==_iff,
  ==_self, arith, Bool-cases, Option-cases, inl, inr, Bytes,
}
use crosspuck.Base.Result.{Result, ok, err}
use crosspuck.Guest.Config.{RuntimeConfig}
use crosspuck.Guest.Runtime.{HostBridge, GuestDriverRuntime, ErrorCounts}
use crosspuck.Guest.Runtime.Sweep.{count}
use crosspuck.Guest.Runtime.Worker.{
  WorkerPc, outside, looping, finishing, in_connect, waiting, begin_worker, worker_turn, end_worker,
  publish, finish_connect, take_cleanup, has_bridge,
}
use crosspuck.Guest.Runtime.Turn.{worker_turn_ind}
use crosspuck.Guest.Runtime.Owners.{has_id, listed, live, worker_turn-Dropped}
use crosspuck.Guest.Runtime.Shown.{finish_connect-Shows}
use crosspuck.Guest.Runtime.Found.{bridge_for-Found}
use crosspuck.Guest.Runtime.Quiet.{
  Quiet, retire_bridge-Quiet, clear_bridge-Quiet, request_connection_worker_stop-Quiet,
  settle-Quiet, open_profile-Quiet, close_profile-Quiet, trace_payload-Quiet,
}
use crosspuck.Guest.Runtime.Coherent.{
  Attended, Owned, Owned-once, Coherent, first_world-Coherent, Quiet-Attended, same-Owned,
  connected-Owned, turn-Owned,
}
use crosspuck.Guest.Runtime.System.{
  World, Step, begins, turns, connects, fails, wakes, ends, clears, stops, takes, settles, errs,
  opens, closes, traces, Reach, start, later, set_clones, with_runtime,
}

pub no_bridge : (r : GuestDriverRuntime) → has_bridge r ≡ false → r.connection.bridge ≡ none
no_bridge r e = elim (Option-cases r.connection.bridge) [
  | inl gone ↦ gone
  | inr (b, at) ↦ absurd (cc (rw at at e))
]

pub turn-Attended :
    (clones : ℕ → ℕ) (errors : ErrorCounts) (now : ℕ) (r : GuestDriverRuntime)
    → Attended looping r
    → Attended (worker_turn clones errors now r).pc (worker_turn clones errors now r).runtime
unfolding take_cleanup
turn-Attended clones errors now r a =
    worker_turn_ind clones errors now r (λ t. Attended t.pc t.runtime) (Attended looping)
      record {
        shows = record { shown = a.shows.shown; hidden = a.shows.hidden; parity = a.shows.parity };
        running = a.running;
        connecting = a.connecting;
        free = a.free;
      }
      (λ s h. Quiet-Attended looping s _ (retire_bridge-Quiet s) h)
      (λ s h stopped last. record {
        shows = h.shows;
        running = h.running;
        connecting = h.connecting;
        free = h.free;
      })
      (λ s changed h go. record {
        shows = record { shown = h.shows.shown; hidden = h.shows.hidden; parity = h.shows.parity };
        running = h.running;
        connecting = refl;
        free = λ e. no_bridge s (ground (arith, go));
      })
      (λ s changed h stay. record {
        shows = h.shows;
        running = h.running;
        connecting = h.connecting;
        free = h.free;
      })

Quiet-Coherent :
    (w : World) (r : GuestDriverRuntime)
    → Quiet w.runtime r
    → Coherent w
    → Coherent (with_runtime r w)
Quiet-Coherent w r q c = record {
  attended = Quiet-Attended w.pc w.runtime r q c.attended;
  owned = same-Owned w.runtime r w.clones w.joined w.next_id q.refs c.owned;
}

begin_worker-Attended :
    (r : GuestDriverRuntime) → Attended outside r → Attended (begin_worker r).0 (begin_worker r).1
unfolding begin_worker
begin_worker-Attended r a =
    elim (Bool-cases
      (not r.config.host_bridge_enabled || r.connection.worker_running || r.connection.stopping)) [
        | inl refused ↦ rw refused a
        | inr begun ↦ rw begun record {
          shows = record {
            shown = a.shows.shown;
            hidden = a.shows.hidden;
            parity = a.shows.parity;
          };
          running = refl;
          connecting = a.connecting;
          free = λ e. absurd (cc e);
        }
      ]

live-begin_worker : (id : ℕ) (r : GuestDriverRuntime) → live id (begin_worker r).1 ≡ live id r
unfolding begin_worker live
live-begin_worker id r =
    elim (Bool-cases
      (not r.config.host_bridge_enabled || r.connection.worker_running || r.connection.stopping)) [
        | inl refused ↦ rw refused refl
        | inr begun ↦ rw begun refl
      ]

finished_flags :
    (now epoch : ℕ) (result : Result Bytes HostBridge) (r : GuestDriverRuntime)
    → ((finish_connect now epoch result r).connection.worker_running ≡ r.connection.worker_running)
      × ((finish_connect now epoch result r).connection.connecting ≡ false)
unfolding finish_connect publish
finished_flags now epoch (err text) r = (refl, refl)
finished_flags now epoch (ok b) r =
    elim (Bool-cases (r.connection.stopping || not (r.connection.epoch == epoch))) [
      | inl drop ↦ rw drop (refl, refl)
      | inr keep ↦ rw keep (refl, refl)
    ]

finish_connect-Attended :
    (now epoch : ℕ) (result : Result Bytes HostBridge) (r : GuestDriverRuntime)
    → Attended (in_connect epoch) r
    → Attended looping (finish_connect now epoch result r)
finish_connect-Attended now epoch result r a = record {
  shows = finish_connect-Shows now epoch result r a.shows (a.free refl);
  running = (finished_flags now epoch result r).0 ∙ a.running;
  connecting = (finished_flags now epoch result r).1;
  free = λ e. absurd (cc e);
}

-- The operation `id` ends or begins: only its count is another.
set_clones-Owned :
    (r : GuestDriverRuntime) (clones : ℕ → ℕ) (joined : List HostBridge) (next_id id n : ℕ)
    → (0 < n → live id r ≡ 1)
    → Owned r clones joined next_id
    → Owned r (set_clones id n clones) joined next_id
set_clones-Owned r clones joined next_id id n sole o = record {
  made = o.made;
  fresh = o.fresh;
  held = λ j h. elim (Bool-cases (j == id)) [
    | inl same ↦ subst (λ i. live i r ≡ 1) (sym ((==_iff j id).0 same)) (sole (rw same at h))
    | inr other ↦ o.held j (rw other at h)
  ];
}

live-failed :
    (id now epoch : ℕ) (text : Bytes) (r : GuestDriverRuntime)
    → live id (finish_connect now epoch (err text) r) ≡ live id r
unfolding finish_connect live
live-failed id now epoch text r = refl

live-end_worker : (id : ℕ) (r : GuestDriverRuntime) → live id (end_worker r) ≡ live id r
unfolding end_worker live
live-end_worker id r = refl

end_worker-Attended :
    (r : GuestDriverRuntime) → Attended finishing r → Attended outside (end_worker r)
unfolding end_worker
end_worker-Attended r a = record {
  shows = record { shown = a.shows.shown; hidden = a.shows.hidden; parity = a.shows.parity };
  running = refl;
  connecting = a.connecting;
  free = λ e. absurd (cc e);
}

-- The published bridge has a reference.
live-published :
    (r : GuestDriverRuntime) (b : HostBridge) (joined : List HostBridge)
    → r.connection.bridge ≡ some b
    → live b.id r + count (has_id b.id) joined ≤ 1
    → live b.id r ≡ 1
unfolding live
live-published r b joined at once =
    let one : count (has_id b.id) (listed r.connection.bridge) ≡ 1 =
      ground (arith, at, ==_self b.id) in
    omega (arith, once, one)

standing : (w : World) (pc : WorkerPc) → w.pc ≡ pc → Attended w.pc w.runtime → Attended pc w.runtime
standing w pc at a = subst (λ p. Attended p w.runtime) at a

Step-Coherent : {v w : World} → Step v w → Coherent v → Coherent w
Step-Coherent {v} (begins at) c = record {
  attended = begin_worker-Attended v.runtime (standing v outside at c.attended);
  owned = same-Owned _ _ v.clones v.joined v.next_id (λ id. live-begin_worker id v.runtime) c.owned;
}
Step-Coherent {v} (turns now at) c = record {
  attended = turn-Attended v.clones v.errors now v.runtime (standing v looping at c.attended);
  owned =
      turn-Owned v.runtime v.clones v.joined v.next_id _
        (worker_turn-Dropped v.clones v.runtime v.errors now) c.owned;
}
Step-Coherent {v} (connects now epoch info at) c =
    let a = standing v (in_connect epoch) at c.attended in
    let b : HostBridge = record { id = v.next_id; info = info } in
    record {
      attended = finish_connect-Attended now epoch (ok b) v.runtime a;
      owned = connected-Owned now epoch b v.runtime v.clones v.joined (a.free refl) c.owned;
    }
Step-Coherent {v} (fails now epoch text at) c = record {
  attended =
      finish_connect-Attended now epoch (err text) v.runtime
        (standing v (in_connect epoch) at c.attended);
  owned =
      same-Owned _ _ v.clones v.joined v.next_id (λ id. live-failed id now epoch text v.runtime)
        c.owned;
}
Step-Coherent {v} (wakes time at) c =
    let a = standing v (waiting time) at c.attended in
    record {
      attended = record {
        shows = a.shows;
        running = a.running;
        connecting = a.connecting;
        free = a.free;
      };
      owned = c.owned;
    }
Step-Coherent {v} (ends at) c = record {
  attended = end_worker-Attended v.runtime (standing v finishing at c.attended);
  owned = same-Owned _ _ v.clones v.joined v.next_id (λ id. live-end_worker id v.runtime) c.owned;
}
Step-Coherent {v} clears c = Quiet-Coherent v _ (clear_bridge-Quiet v.runtime) c
Step-Coherent {v} stops c = Quiet-Coherent v _ (request_connection_worker_stop-Quiet v.runtime) c
Step-Coherent {v} (takes p b n found) c =
    let published = (bridge_for-Found v.errors p v.runtime b n found).published in
    record {
      attended = c.attended;
      owned =
          set_clones-Owned v.runtime v.clones v.joined v.next_id b.id _
            (λ h.
              live-published v.runtime b v.joined published
                (Owned-once v.runtime v.clones v.joined v.next_id c.owned b.id))
            c.owned;
    }
Step-Coherent {v} (settles b result h) c =
    let quiet = Quiet-Coherent v _ (settle-Quiet b result v.runtime) c in
    record {
      attended = quiet.attended;
      owned =
          set_clones-Owned _ v.clones v.joined v.next_id b.id _ (λ h'. quiet.owned.held b.id h)
            quiet.owned;
    }
Step-Coherent {v} (errs errors) c = record { attended = c.attended; owned = c.owned }
Step-Coherent {v} (opens p) c = Quiet-Coherent v _ (open_profile-Quiet v.errors p v.runtime) c
Step-Coherent {v} (closes id) c = Quiet-Coherent v _ (close_profile-Quiet id v.runtime) c
Step-Coherent {v} traces c = Quiet-Coherent v _ (trace_payload-Quiet v.runtime) c

-- In every world that the worker, the callers and the threads of the bridges reach, in any order
-- of their steps: what is shown to the guest agrees with the published bridge, the generation is
-- odd just while there is one, the flags say where the worker stands, the worker connects only
-- while no bridge is published, every bridge that was made has one reference of the runtime or
-- was joined once, and not both, one that was not made yet has neither, and a bridge that an
-- operation holds is one of the runtime's.
pub Reach-Coherent : {config : RuntimeConfig} {w : World} → Reach config w → Coherent w
Reach-Coherent {config} start = first_world-Coherent config
Reach-Coherent (later before step) = Step-Coherent step (Reach-Coherent before)

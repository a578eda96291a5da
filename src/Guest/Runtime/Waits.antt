-- ===== src/Guest/Runtime/Waits.antt =====
-- crates/crosspuck-core/src/guest_driver/runtime.rs: how long the worker waits after a failed attempt
-- to connect, over all that happens in between.
use crosspuck.Base.{
  ℕ, ◌-◌, ◌≤◌, ◌≡◌, refl, sym, ap, ◌∙◌, false, not, ◌||◌, none, arith, Bool-cases, inl, inr, Bytes,
}
use crosspuck.Base.Result.{err}
use crosspuck.Guest.Config.{RuntimeConfig}
use crosspuck.Guest.Runtime.{GuestDriverRuntime, ErrorCounts, RetrySchedule, remaining, failed_at}
use crosspuck.Guest.Runtime.Worker.{
  WorkerPc, looping, in_connect, worker_turn, take_cleanup, begin_worker, end_worker,
  finish_connect,
}
use crosspuck.Guest.Runtime.Turn.{worker_turn_ind}
use crosspuck.Guest.Runtime.Attempts.{worker_turn-Attempted}
use crosspuck.Guest.Runtime.Quiet.{
  Quiet, retire_bridge-Quiet, clear_bridge-Quiet, request_connection_worker_stop-Quiet,
  settle-Quiet, open_profile-Quiet, close_profile-Quiet, trace_payload-Quiet,
}
use crosspuck.Guest.Runtime.Coherent.{is_connecting}
use crosspuck.Guest.Runtime.Reached.{Reach-Coherent}
use crosspuck.Guest.Runtime.System.{
  World, Step, begins, turns, connects, fails, wakes, ends, clears, stops, takes, settles, errs,
  opens, closes, traces, Reach,
}

-- The world after an attempt that failed at the time `done`: the step `fails`.
abbrev pub failed_world : ℕ → ℕ → Bytes → World → World
failed_world done epoch text w = record w {
  pc = looping;
  runtime = finish_connect done epoch (err text) w.runtime;
}

-- Any steps, as long as none of them starts an attempt.
pub data Between (v : World) : World → Type 0 where
  at_once : Between v v
  then_step : {u w : World} → Between v u → Step u w → is_connecting w.pc ≡ false → Between v w

-- No bridge is published, and the time to try again is the one that was set.
record Postponed (retry : RetrySchedule) (r : GuestDriverRuntime) : Type 0 where
  free : r.connection.bridge ≡ none
  set : r.connection.retry ≡ retry

Quiet-Postponed :
    {retry : RetrySchedule} {r s : GuestDriverRuntime}
    → Quiet r s
    → Postponed retry r
    → Postponed retry s
Quiet-Postponed q p = record { free = q.free p.free; set = q.retry ∙ p.set }

begin_worker-Postponed :
    {retry : RetrySchedule} (r : GuestDriverRuntime)
    → Postponed retry r
    → Postponed retry (begin_worker r).1
unfolding begin_worker
begin_worker-Postponed r p =
    elim (Bool-cases
      (not r.config.host_bridge_enabled || r.connection.worker_running || r.connection.stopping)) [
        | inl refused ↦ rw refused p
        | inr begun ↦ rw begun record { free = p.free; set = p.set }
      ]

end_worker-Postponed :
    {retry : RetrySchedule} (r : GuestDriverRuntime)
    → Postponed retry r
    → Postponed retry (end_worker r)
unfolding end_worker
end_worker-Postponed r p = record { free = p.free; set = p.set }

worker_turn-Postponed :
    {retry : RetrySchedule} (clones : ℕ → ℕ) (errors : ErrorCounts) (now : ℕ)
    (r : GuestDriverRuntime)
    → Postponed retry r
    → Postponed retry (worker_turn clones errors now r).runtime
unfolding take_cleanup
worker_turn-Postponed {retry} clones errors now r p =
    worker_turn_ind clones errors now r (λ t. Postponed retry t.runtime) (Postponed retry)
      record { free = p.free; set = p.set } (λ s h. Quiet-Postponed (retire_bridge-Quiet s) h)
      (λ s h stopped last. h) (λ s changed h go. record { free = h.free; set = h.set })
      (λ s changed h stay. h)

not_connecting :
    {A : Type 0} (pc : WorkerPc) (epoch : ℕ) → pc ≡ in_connect epoch → is_connecting pc ≡ false → A
not_connecting pc epoch at calm = absurd (cc (sym (ap is_connecting at) ∙ calm))

Step-Postponed :
    {retry : RetrySchedule} {u w : World}
    → Step u w
    → is_connecting u.pc ≡ false
    → Postponed retry u.runtime
    → Postponed retry w.runtime
Step-Postponed {u} (begins at) calm p = begin_worker-Postponed u.runtime p
Step-Postponed {u} (turns now at) calm p = worker_turn-Postponed u.clones u.errors now u.runtime p
Step-Postponed {u} (connects now epoch info at) calm p = not_connecting u.pc epoch at calm
Step-Postponed {u} (fails now epoch text at) calm p = not_connecting u.pc epoch at calm
Step-Postponed (wakes time at) calm p = p
Step-Postponed {u} (ends at) calm p = end_worker-Postponed u.runtime p
Step-Postponed {u} clears calm p = Quiet-Postponed (clear_bridge-Quiet u.runtime) p
Step-Postponed {u} stops calm p = Quiet-Postponed (request_connection_worker_stop-Quiet u.runtime) p
Step-Postponed (takes profile b n found) calm p = p
Step-Postponed {u} (settles b result h) calm p = Quiet-Postponed (settle-Quiet b result u.runtime) p
Step-Postponed (errs errors) calm p = p
Step-Postponed {u} (opens profile) calm p =
    Quiet-Postponed (open_profile-Quiet u.errors profile u.runtime) p
Step-Postponed {u} (closes id) calm p = Quiet-Postponed (close_profile-Quiet id u.runtime) p
Step-Postponed {u} traces calm p = Quiet-Postponed (trace_payload-Quiet u.runtime) p

Between-Postponed :
    {retry : RetrySchedule} {v w : World}
    → Between v w
    → is_connecting v.pc ≡ false
    → Postponed retry v.runtime
    → (is_connecting w.pc ≡ false) × Postponed retry w.runtime
Between-Postponed at_once calm p = (calm, p)
Between-Postponed (then_step before step calm_after) calm p =
    let (calm_before, p') = Between-Postponed before calm p in
    (calm_after, Step-Postponed step calm_before p')

-- After an attempt that failed, in a world that is reached, and whatever steps follow that start no
-- attempt, passes of the loop that only wait among them: a pass that starts the next attempt comes
-- no sooner than the interval that held when the attempt failed.
pub finish_connect-waits :
    {config : RuntimeConfig} {v w : World} (done epoch now next : ℕ) (text : Bytes)
    → Reach config v
    → v.pc ≡ in_connect epoch
    → Between (failed_world done epoch text v) w
    → (worker_turn w.clones w.errors now w.runtime).pc ≡ in_connect next
    → v.runtime.connection.reconnect_interval ≤ now - done
unfolding finish_connect failed_at remaining
finish_connect-waits {v} {w} done epoch now next text reached at between starts =
    let free = (Reach-Coherent reached).attended.free (ap is_connecting at) in
    let (_, p) = Between-Postponed between refl record { free = free; set = refl } in
    let due = (worker_turn-Attempted w.clones w.errors now w.runtime next starts).due in
    omega (arith, rw p.set at due)
